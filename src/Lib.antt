-- ===== src/Lib.antt =====
-- wadm, the wasmCloud application deployment manager: it keeps the applications that are to run on
-- a lattice of hosts, watches the events of the lattice, and issues commands until what runs is
-- what the manifests ask for.
--
-- Parts, files and code (paths from the root of the repository):
-- - Manifest, Manifest/Queries: the manifest types and their accessors,
--   crates/wadm-types/src/lib.rs
-- - Manifest/Validation: `validate_manifest`, crates/wadm-types/src/validation.rs. Labels are the
--   OAM labels, Core is `core_validation`, Checks the other checks; their children, Dangling and
--   Whole hold the lemmas
-- - Api, Api/Status: the status of an application, crates/wadm-types/src/api.rs
-- - Event, Event/Matching: lattice events, crates/wadm/src/events/types.rs and data.rs, and
--   `evt_matches_expected` of crates/wadm/src/scaler/mod.rs
-- - Command: commands and the events that they expect, crates/wadm/src/commands/mod.rs
-- - Storage: the lattice state, crates/wadm/src/storage/state.rs and mod.rs. Storage/Store is the
--   trait `Store` as a record of operations, Store/Contract what it promises; Storage/Kv is
--   `NatsKvStore` of storage/nats_kv.rs, which implements it; Storage/Reaper is a tick of the
--   reaper, storage/reaper.rs
-- - Worker: the event worker, crates/wadm/src/workers/event.rs: the handlers in Components,
--   Providers, Hosts and Heartbeat, and their choice in State. Effects says what each does to a
--   store, Consistency holds the invariant
-- - Model: `StoredManifest`, the history of an application's versions,
--   crates/wadm/src/model/mod.rs; Model/Versions, Model/Deployment and Model/Histories hold its
--   lemmas
-- - Scaler/Spread: `ComponentSpreadScaler`, crates/wadm/src/scaler/spreadscaler/mod.rs. Weights is
--   `compute_spread`, Hosts the eligibility of hosts, Conflicts is
--   `detect_spread_requirement_conflicts`, Reconcile is `reconcile`, Operations the methods of the
--   `Scaler` trait; their children hold the lemmas
-- - Scaler: the trait `Scaler` of crates/wadm/src/scaler/mod.rs as an interface; Scaler/Config and
--   Scaler/Secret: `ConfigScaler` and `SecretScaler` (scaler/configscaler.rs, secretscaler.rs);
--   Scaler/Backoff: `BackoffWrapper` of scaler/mod.rs, its methods in Backoff/Methods, and
--   `get_commands_and_result` of crates/wadm/src/workers/event.rs
-- - Scaler/Daemon: `ComponentDaemonScaler` of scaler/daemonscaler/mod.rs; Daemon/Running says what it
--   reads off the lattice, independently of its helpers; Scaler/Placeholder:
--   `StatusScaler` of scaler/statusscaler.rs; Scaler/Provider, Provider/Spreading and Daemon:
--   `ProviderSpreadScaler` and `ProviderDaemonScaler` of scaler/spreadscaler/provider.rs and
--   scaler/daemonscaler/provider.rs, with the lemmas in Counts and Cleanup; Scaler/Link:
--   `LinkScaler` of scaler/spreadscaler/link.rs
-- - Scaler/Manager: `ScalerManager` of scaler/manager.rs; Manager/Ways and Removal say what a
--   removal leaves. Worker/Scalers: the runs of the scalers, published manifests and `do_work` of
--   workers/event.rs
-- - Server: `put_model` (Server/Publish), `deploy_model` (Server/Deploy), `delete_model` and
--   `undeploy_model` (Server/Removal), `get_model` and `list_versions` (Server/Queries) of
--   crates/wadm/src/server/handlers.rs, over an `Environment` that stands for `ModelStorage` and
--   `ManifestNotifier` (server/storage.rs, notifier.rs). Server/Promises states the contract of the
--   store, `IsStore`, and what the handlers make of it
-- - Examples: concrete data, and each theorem that has hypotheses at a concrete input
-- - External: the types and accessors of serde_json, semver and the wasmCloud control interface,
--   as parameters
--
-- How the parts interact: the server keeps a `StoredManifest` per application; a deployed manifest
-- becomes scalers; a scaler reads the lattice state through `ReadStore` and answers an event with
-- commands and a status, and the statuses of all scalers add up to that of the application.
--
-- The worker takes the interface `Store` with its contract, which the store over a bucket keeps where
-- no other writer acts. An action that fails keeps what it wrote before.
--
-- The wrapper takes the interface `Scaler` three times, for the scaler that it wraps and for the
-- scalers of the configuration and the secrets that this requires, and implements it again. The
-- sequences of steps of its theorems consist of events and reconciliations; cleanup, update_config
-- and the timers, which run in tasks of their own, are functions of the wrapper but no such steps.
--
-- Conventions: a map (HashMap, BTreeMap, IndexMap) is an association list whose order is one order
-- of iteration; theorems hold for every list, so for every order. `usize` is ℕ with `% 2 ^ 64` at
-- each sum and product (the release profile wraps), `as u32` is `% 2 ^ 32`. A panic is `none`. Text
-- that is formatted is kept as its format and arguments. Recursion is structural;
-- only the loop of `update_with_retries` has fuel, the number of attempts until its timeout.
--
-- The snapshot that the scalers read and the construction of scalers from a manifest
-- (storage/snapshot.rs, scaler/convert.rs) are fields of `Surroundings`, an interface of the manager.
--
-- Not modelled: NATS, tokio tasks and locks (a method's change of its own status is returned as a
-- value), logging, and serde's parsing and printing.
pub mod Prelude
pub mod Manifest
pub mod Api
pub mod External
pub mod Event
pub mod Command
pub mod Storage
pub mod Model
pub mod Scaler
pub mod Server
pub mod Worker
pub mod Examples
