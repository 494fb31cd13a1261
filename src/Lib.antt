-- ===== src/Lib.antt =====
-- A verification library for az-capa, a service that collects Azure capacity data on a schedule
-- and reports on it.
--
-- The program and the files that model it:
--
-- The scheduler. The functions host calls `tick` of services/data_collection/dispatcher.py once a
-- minute and the HTTP routes call its other methods. The dispatcher keeps no state of its own:
-- it reads and writes three tables, starts orchestrations through the Durable client, and merges
-- stored overrides with the defaults of the registry.
-- - Scheduler/Registry: services/data_collection/registry.py, the descriptors of the eight
--   pipelines and the look-ups.
-- - Scheduler/Cadence: services/data_collection/cadence.py, `slot_start_epoch` and `is_due`.
-- - Scheduler/StateStore: storage/scheduler_state_store.py, one row per scope with the claim on
--   it, and the marker of the last tick.
-- - Scheduler/HistoryStore: storage/scheduler_history_store.py, one row per run.
-- - Scheduler/ConfigStore: storage/scheduler_config_store.py, one row per edited pipeline.
-- - Scheduler/Progress: `normalize_progress` of services/data_collection/dispatcher.py.
-- - Scheduler/Dispatcher: the rest of that file. Effects has the collaborators (`Env`), the state
--   (`World`) and exceptions as values (`Result`); Config has `effective_config`,
--   `update_config` and `reset_config`; Gate has `start`, `scope_busy`, `active_operation`,
--   `record_outcome` and `_reconcile_terminal`; Tick has `tick` and what it calls; Views has
--   `list_pipelines`, `pipeline_status`, `run_history`, `delete_run` and
--   `clear_terminal_runs`; Notifications has `notifications`.
-- - Scheduler/Routes: functions/data_collection_bp.py, the routes with their access tests and
--   answers, the dispatch timer and the activity that records an outcome.
--
-- Around it. ActivityLog: services/activity_log/recipes.py (Recipes) and projection.py
-- (Projection), which events are collected and which columns they give; assembly.py (Assembly),
-- how events become operations; pipeline.py, which windows a collection reads (Collection) and how
-- a stored operation is projected again (Replay).
-- Authorization: functions/_authorization.py, the principal of a request and the role tests.
-- CoverageDecision: the parser of services/odcr_coverage_decisions.py.
-- AppScope: core/app_scope.py, the bounds of what a request may see, and the resolution of the
-- scope in services/app_scope.py (Resolution).
-- RequestDimensions: `parse_context_filters` of services/request_dimensions.py.
-- UsageRefresh: services/usage_refresh.py, which days and subscriptions a refresh of usage and
-- cost data reads and deletes, with `build_scope` of clients/cost_management.py. A day is its
-- ordinal, and the settings that count days are not negative.
-- SubscriptionContext: services/subscription_context.py, the values of a context field from an
-- uploaded file and the preview of them (Summary).
-- ZoneMapping: services/zone_mapping.py, the subscriptions whose zones a refresh reads and forgets.
-- VmCoverage: services/odcr_coverage.py, the capacity reservations that may serve a VM and those
-- that do.
-- Table is the table service as a record of operations (`Table`) with its laws (`IsTable`), and
-- Table/Memory is a table in memory that satisfies them; Table/Chunks is storage/table.py, a list
-- of texts in the columns of a row. Json has JSON values; Prelude has the shared names.
--
-- How the code is modelled. A method becomes a function from its arguments and the state to its
-- answer and the new state; a handler of exceptions is a case on `Result`. A concurrent caller of
-- `try_claim` and the `patch` of the settings are two steps each, the read and the conditional
-- write, and callers interleave at will (Scheduler/StateStore/Claims, Scheduler/ConfigStore/Editors). Moments are microseconds after 1970 and the clock is any function
-- of the number of calls so far, so that two readings may differ; epochs are whole seconds, and
-- the integers of Python are unbounded, as here. No function needs fuel: every loop runs over a
-- list.
--
-- What is assumed. The table service does what its record of laws says: a conditional write fails
-- when the tag is stale, and another write changes no other row. Its calls raise no transport
-- fault. Floats, the printing of numbers, the order of texts, case folding, base64 and JSON texts
-- are parameters.
--
-- What is not modelled: the other HTTP routes and the orchestrators (functions/), the Azure
-- clients (clients/), the snapshots and reports of the other services and stores, logging, and the web
-- pages.
pub mod ActivityLog
pub mod AppScope
pub mod Authorization
pub mod CoverageDecision
pub mod Json
pub mod Prelude
pub mod RequestDimensions
pub mod Scheduler
pub mod SubscriptionContext
pub mod Table
pub mod UsageRefresh
pub mod VmCoverage
pub mod ZoneMapping
