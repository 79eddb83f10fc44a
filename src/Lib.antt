-- ===== src/Lib.antt =====
-- OrbitFlow-Evo: the parts of the network operations tool that decide which device is which, how it is
-- reached, in which order devices are worked on, how the outcomes are kept, which plans are approved, and
-- which VLANs a text or a policy stands for.
--
-- Base holds the shared helpers: Boolean tests on numbers, lists, results, Python's equality, texts as lists
-- of ASCII code points, decimals. Json holds decoded JSON values.
--
-- - Vlans: src/orbitflow/vendors/vlan_types.py. Words are the rewriting and splitting of a list of VLANs,
--   Bounds what parse_vlan_list returns, Profiles the functions forwarding, aggregate_profiles and
--   visible_objects, with their theorems in Grouping and Fields.
-- - Policy: src/orbitflow/compliance/policy.py, parse_policy over a decoded value. It shares the reading of a
--   range with Vlans.
-- - Allowed: reconstruct_allowed of src/orbitflow/compliance/resolvers.py, with its theorem in Laws.
-- - Inventory: src/orbitflow/inventory/store.py and the DeviceContext of src/orbitflow/models.py. Defs has
--   reconcile and record_failure over the snapshot; Documents has _serialize, _deserialize and the JSON document
--   of a snapshot with its sorted keys; Disk has the file, _read, _write and both operations as transactions.
--   Python's json and datetime are a record of functions. A file with an entry that _serialize did not write is
--   outside the model. A new identifier is the value that the factory gave. The lock of a path makes each
--   operation one transaction, so that two of them never interleave.
-- - Transport: src/orbitflow/transport/. Failures has the exceptions and retryable_connection_failure, Pacing
--   the ConnectionStartPacer, Authentication the login, Resources the steps of a connector and its cleanup,
--   Linux and Windows the connectors, Connect the two attempts of connect_device, Session the DeviceSession.
--   What paramiko, the operating system and the network answer are fields of a host, or arguments.
-- - Execution: src/orbitflow/execution.py, _execute_devices. A target is its input position, and the worker a
--   function to what it returns or to the class of what it raises. A concurrent run is a relation on
--   states, with the completed futures of each wait in any order; the relation holds of every schedule.
-- - Targets: src/orbitflow/targets.py, load_targets over the cells of the sheet and load_device_credentials,
--   with their theorems in Laws. The provider is a function to what it supplies, or that it raises.
-- - Orchestration: scripts/orchestration_v2/. Git has the calls of git_ops.py as computations over the calls
--   made before, on a machine that answers them; Workspaces has validate_workspace, prepare_workspace and
--   commit_and_push, with their theorems in Laws; Labels has the transition of github_ops.py.
-- - Configuration: src/orbitflow/configuration/execution.py. Selection is the choice of requests in prepare,
--   Confirmations the table of confirmations with what prepare and confirm do to it, Confirming the whole of
--   confirm, Stages _template_stages, and Worker device_worker: Rows has the gates, the commands and the
--   verification of a row, Run the stages, the save and the report, Outcomes the judgement of the report. The
--   answers of the device are the fields of a record, by row, command and stage. Monitor has the protocol
--   of a run. The journal is taken to record every event that it is given.
-- - Interfaces: canonical_interface_name of src/orbitflow/vendors/interface_names.py.
-- - Aggregation: src/orbitflow/vendors/aggregation.py, the snapshot of the ports that aggregates own, without the
--   parser that fills it.
-- - Evc: src/orbitflow/vendors/cisco/evc.py. Services has the ingress, the overlap and the commands, Omitted the
--   settings that a replacement would drop.
-- - Privilege: src/orbitflow/vendors/privilege.py. Prompts has the texts, Lines what one line of an answer does,
--   Rounds the exchange. A list of rounds ends where the deadline passes.
-- - Spool: src/orbitflow/result_spool.py, for runs stored in SQLite. Spool itself has the manifest, the rows and
--   the handles of a run; Retry has _permission_retry and _state, Safe _safe, Append the method append, Index
--   the retrieval by SQLiteResultIndex, Collection the method _collection, Consumption _indexed and _consume,
--   Cleanup the method remove, Lifecycle _consume with the removal, Journal ResultJournal.append. What the operating system and SQLite answer to
--   one call are fields of that call; Python's json is a record of functions. Recorded says what a manifest
--   that accounts for the rows is; Readback, Staged, Stored and Sanitized have the lemmas of their parts.
-- - Approvals: src/orbitflow/configuration/approvals.py. Approvals has the decisions and the reading of their
--   chain, Store the methods decide and verify; label is from src/orbitflow/configuration/plans.py.
-- - Compliance: src/orbitflow/compliance/vlan.py, the verdicts on the facts of a database and of an interface.
--
-- Configuration uses Interfaces for what an entry touches, and its worker runs the stages that Stages gives.
--
-- Loops are structural recursion. The attempts to replace the file and to connect are counted down from 4
-- and from 2, as their ranges are, and so are the attempts to leave a configuration mode; the rounds of a
-- concurrent execution are bounded by the work remaining, which every delivery lowers. The loop over the batches of
-- records takes as fuel as much as there are rows, and one more.
--
-- Not modelled: the terminal display, logging and timing; the sink of _execute_devices; text outside ASCII;
-- runs of the older JSONL form, snapshots of runs and the removal of stale runs; the rest of the
-- configuration workflows (the schema of plans, the planner, the checks over observations), the
-- vendor parsers, the reports, and the controller of the orchestration with its other scripts.
pub mod Base
pub mod Json
pub mod Vlans
pub mod Policy
pub mod Inventory
pub mod Transport
pub mod Allowed
pub mod Execution
pub mod Targets
pub mod Orchestration
pub mod Aggregation
pub mod Approvals
pub mod Compliance
pub mod Configuration
pub mod Evc
pub mod Interfaces
pub mod Privilege
pub mod Spool
pub mod Tests
