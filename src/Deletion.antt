-- ===== src/Deletion.antt =====
-- azext_edge/edge/providers/orchestration/deletion2.py: discovery, ordering and execution of the
-- deletion of an IoT Operations deployment.
pub mod Manager
pub mod Execute
pub mod Batches
pub mod Requests
pub mod Quiet
pub mod Order
pub mod Plan
pub mod Discovery
pub mod Paths
pub mod Work
pub mod Safety
pub mod KnownSteps
pub mod Listed
pub mod Extensions
pub mod Sweep
pub mod Guards
