-- ===== src/Tests.antt =====
-- The theorems at concrete values, a module for each part of the program.
pub mod Deletions
pub mod Ids
pub mod Displays
pub mod Checks
pub mod Arguments
pub mod Upgrades
pub mod Waits
pub mod Access
pub mod Actions
pub mod Connectors
