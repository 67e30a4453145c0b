-- ===== src/Lib.antt =====
-- SimpleHostMan: a control plane that keeps users, nodes and a queue of jobs in PostgreSQL, agents
-- that claim jobs and report their results, and a worker that runs backups on a schedule.
--
-- The model is of the control plane's store, of the worker's schedule and its storage maintenance.
-- A handler of packages/control-database/src/control-plane-store-auth.ts or
-- control-plane-store-operations.ts beside it runs its statements in one transaction; here a transaction (`Store.Tx`) maps the tables to a value and new tables or an error, and
-- `with_transaction` commits or rolls back. Each handler is the whole body, statement by statement.
--
--   Prelude          tests, lists, sorting, texts, results
--   Payload          packages/control-database/src/control-plane-store-helpers.ts: sanitizePayload,
--                    stripSensitivePayloadFields, encodeStoredJobPayload, decodeStoredJobPayload
--   Store            control-plane-store-db.ts (withTransaction, insertAuditEvent), the row types
--   Store.Nodes      registerNode, authenticateNode
--   Store.Jobs       claimJobs, reportJob, toDispatchedJob
--   Store.Packages   the installed packages that a report carries
--   Store.Users      packages/control-database/src/auth.ts, users, roles, memberships
--   Store.Sessions   createSession, authenticateSession, the log-ins, logoutUser, getCurrentUser
--   Store.Accounts   createUser, listUsers, ensureBootstrapAdmin
--   Store.Dispatch   insertDispatchedJobs, shouldDispatchQueuedJob, getLatestResourceJob
--                    (control-plane-store-operations.ts), createResourceDriftSummary
--   Store.Dispatch.Reconcile  runReconciliationCycle
--   Store.Dispatch.Queued     createQueuedDispatchJob
--   Payload.Stringify         stableStringify, hashDesiredPayload
--   Store.Ddns       listDdnsHosts, upsertDdnsHost, deleteDdnsHost, updateDdnsHost
--                    (control-plane-store-operations.ts)
--   Store.History    purgeOperationalHistory, purgeOperationalHistoryRows
--   Store.Lifecycle  claim, report, dispatch, cycle and purge as one step relation on the queue, what
--                    stays true of every store that they reach, and the life of a job that they
--                    refine; the dispatch inside an update of dynamic DNS is no step of it
--   Worker           apps/worker/src/backup-runner.ts: matchesCronExpression, shouldRunPolicyAtTime,
--                    selectBackupRetentionCandidates, resolveBackupReplicationPlan, shellQuote, and the
--                    passes of runBackupCycle over one policy
--   Worker.Maintenance  apps/worker/src/storage-maintenance.ts: the options, selectReleaseCandidates,
--                    detectBlockingProcesses, shouldApplyMaintenance and the removal of releases
--   Control          apps/control/src/release-sandbox-layout.ts: resolveWorkspaceRoot
--   Examples         runs at concrete inputs
--
-- The parts meet in the tables: dispatch adds jobs, a claim hands them to their node with the payload
-- decrypted, a report completes them and decides whether their resource is dispatched again. Every
-- node call but a first registration passes `authenticate_node`, every call with a session token
-- `authenticate_session`.
--
-- Parameters: `sha256_hex`, `Crypto` and `Scrypt` stand for node:crypto, base64url and JSON text,
-- with `CryptoLaws` and `ScryptLaws` for what they promise; `Paths` for node:path; `Dates` for
-- Date.parse and for the texts that PostgreSQL reads as a time; `collate` for the order of texts of the database or of `localeCompare`; `locked` for
-- the rows that other transactions hold. Random values and the time of a call are arguments, one
-- time for a call. A time is a number of milliseconds from the epoch. The functions are structural
-- recursions but `search_workspace_root`, whose fuel is the length of the start path and two
-- more, which is enough where `dirname` shortens a path or gives ".".
--
-- `build` stands for buildReconciliationCandidates and `plans` for buildZoneDnsPlans, which read the
-- desired state and write no table; `ip_family` for `isIP` of node:net; `text` for
-- the text of a list of code units; `package_name` for the package.json files, `remove` for the file
-- system under the releases, `integer` for `Number(value)`, `digest` for the SHA-256 of a text.
--
-- A sort puts rows with equal keys in the order of the table, where the database may choose. A unique
-- key that a statement can violate is tested by that statement; a foreign key never fails here, since
-- the row was read in the same transaction. Numbers and texts of a payload are opaque or lists of
-- code units; a property that appears twice can be written but is no JSON value.
--
-- `toLowerCase` is modelled on ASCII letters, to which addresses and host names are held here; a text
-- holds no null character, which PostgreSQL does not store. An object has no prototype.
--
-- The fields of a Date are computed from its milliseconds, for times from 1970 on.
--
-- Not modelled: IAM bindings and environment parameters, the routes and pages of apps/control, the
-- agent and its drivers, the import of inventories, and the builders of the single job kinds.
pub mod Prelude
pub mod Payload
pub mod Store
pub mod Worker
pub mod Control
pub mod Examples
