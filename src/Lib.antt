-- ===== src/Lib.antt =====
-- Verification of the IoT Operations extension for the Azure CLI.
--
-- The extension runs commands that manage Azure IoT Operations on an Arc-enabled cluster.
-- Modelled are the deletion of an instance with all that it uses
-- (azext_edge/edge/providers/orchestration/deletion2.py), the upgrade of its extensions, the
-- library parts that these stand on, the checks of a deployment's health, the end of
-- management actions, the validation of parts of an asset, and helpers on arguments.
--
-- Base - Python's tests, lists, texts, dicts, JSON values, stable sort and exceptions. `Exec S A` is a block
-- of statements: a state goes in, an outcome (a value or an exception) and a state come out.
-- ResourceId - azext_edge/edge/util/id_tools.py. The regular expressions work on the pieces of an
-- id between its slashes.
-- ResourceMap - azext_edge/edge/providers/orchestration/resource_map.py, over the answers of the
-- queries.
-- Workflow - azext_edge/edge/util/workflow_display.py, the step table of a running command and
-- its lines of text. The console and its thread are left out.
-- Cloud - the loops of azext_edge/edge/util/az_client.py that wait for operations. The service is
-- a parameter, the record `Cloud`, whose world may change at every call. `Run` holds this world,
-- the display, and the requests sent so far, which only the model records. Waiting holds proofs.
-- Deletion - `DeletionManager`. Manager has its state, Discovery and Paths its discovery over the
-- record `Services` of parameters, Execute its steps, Work the command; the other children hold
-- proofs: Requests, Quiet, Order and Plan on what is sent, Safety, KnownSteps and Listed on the
-- step table, Batches on the batches, Extensions and Sweep on the discovery, Guards on the
-- command.
-- ExtensionTypes - the extension types of azext_edge/edge/providers/orchestration/common.py.
-- Upgrade - azext_edge/edge/providers/orchestration/upgrade2.py. Config has the overrides and the
-- difference of two configurations, Extension and Validate the state of one extension, Checks and
-- Cluster the state of the cluster and its queue, SecretSync the state of the migration of
-- secrets (migration.py beside it), Apply and Drive the requests and the command, Rows and Table
-- the table of changes; Delta, Compat, Entries, Queue, Payload, Quiet, Shown, Plan, Sending and
-- Order hold proofs. A `Session` is the world of the service and the events so far, which only
-- the model records. Versions are packaged, so that `Semver` with its order is a parameter, and
-- so are the reader of YAML and `urlparse`.
-- Graph - the paging of azext_edge/edge/util/resource_graph.py, and what
-- azext_edge/edge/providers/orchestration/connected_cluster.py makes of the rows; Paging holds
-- proofs.
-- Permissions - permissions.py and rp_namespace.py of azext_edge/edge/providers/orchestration;
-- Verdict holds proofs.
-- Check - the statuses of azext_edge/edge/common.py, `CheckManager` of
-- azext_edge/edge/providers/check/base/check_manager.py, and the health of pods of pod.py beside
-- it (Pod and PodCheck; the other children hold proofs, and Report the report of a check).
-- Actions - `disable` and `show` of azext_edge/edge/providers/orchestration/mgmt_actions.py, over
-- the record `Clients` of parameters. Discovery, Profiles and Context find the resources,
-- Namespace and Documents have the documents that are read and put, Teardown deletes, Disable
-- and Show are the commands and Summary what the first prints; the proofs on what they change
-- are in Plan, Quiet, Refine and Shown. `Run` records the changes as its requests.
-- Connector - azext_edge/edge/providers/adr/validator.py, over the record `Host` of parameters.
-- Fields checks fields, Metadata and Templates get the metadata of a connector, Endpoint,
-- Config and Destinations read it, Resources and Asset are the methods; Accepted, Cached,
-- Matching, Targets and Events hold proofs.
-- Common - helpers of azext_edge/edge/util/common.py.
-- Tests - the theorems at concrete values.
--
-- How the parts interact: `do_work` asks the services, fills a `Manager`, and runs `execute` on a
-- new display. Each step updates the display, starts deletions by the service and waits for them.
-- Resources are ordered and batched by the depth of their ids. Checks report to a `CheckManager`.
-- `upgrade_ops_instance` builds the state of the cluster from its extensions, the versions of the
-- deployment and the overrides, and applies its queue by the service.
--
-- Loops: the wait for an operation is recursion on the retries left, 240 as in the code, behind
-- which the code reads the result: one answer of the service in the model, where `result()` of
-- the program may block without a limit. The digits of a number are fuelled by the number and one, more
-- than it has digits. The paging of a query has no bound in the code, and is on fuel: one unit a
-- page is enough. All other loops are recursion on lists.
--
-- Texts: `lower` changes ASCII letters only. Ids hold no newline, at which the pattern's dot
-- stops. `sys.maxsize` is that of a 64-bit build. A missing key and the value None are one where
-- the code treats them alike. `==` on documents (Base/JsonEqual) has floats as their texts, so
-- that it leaves out -0.0, NaN and whole floats from 10^16 on.
--
-- Not modelled: logging, the correlation id and headers, consoles and prompts (the answer is an
-- argument), the constructors of clients, generated clients, the updates of devices and assets,
-- templates, clone, support bundles, and the definition of the commands.
pub mod Actions
pub mod Base
pub mod ResourceId
pub mod ResourceMap
pub mod Workflow
pub mod Cloud
pub mod Connector
pub mod Deletion
pub mod Check
pub mod Common
pub mod Tests
pub mod ExtensionTypes
pub mod Upgrade
pub mod Graph
pub mod Permissions
