-- ===== src/Store/History.antt =====
-- Purging of history: `purgeOperationalHistory`, `purgeOperationalHistoryRows` and
-- `getLatestOperationHistoryPurgeAt` of
-- packages/control-database/src/control-plane-store-operations.ts.
-- The retention and the interval, which the handler looks up in the environment parameters, are
-- arguments. Rows with one time stand in the order of the table. Results are deleted with their job
-- (`ON DELETE CASCADE`).
pub mod Purge
pub mod Invisible
use simple_host_man.Store.Sessions.{require_authorized_user}
use simple_host_man.Store.Dispatch.{newer, has_key}
use simple_host_man.Store.Jobs.{job_ids}
use simple_host_man.Store.Tables.{any_id, is_none}
use simple_host_man.Prelude.{
  sort, head?, leb, filter, ◌==◌, any, length, ltb, refl, sym, ap, ◌∙◌, ◌≡◌, ◌≢◌, ◌⊎◌, ◌↔◌, inl,
  inr, ℕ, zero, suc, ◌+◌, ◌-◌, ◌*◌, ◌≤◌, ◌<◌, Bool, true, false, not, ◌&&◌, ◌||◌, String, Option,
  none, some, List, [], ◌∷◌, ◌++◌, map, if◌then◌else◌, arith, Bool-cases, Option-cases, str_eq,
}
use simple_host_man.Store.{
  inventory_exported, with_transaction, StoreError, ok, query, pure, insert_audit_event,
  history_purged, Result, Tx, AuditEvent, ReconciliationRunRow, JobRow, Store, AuditPayload, ◌>>=◌,
  ◌>>◌,
}

abbrev day_ms : ℕ
day_ms = 24 * 60 * 60 * 1000

pub record Retention : Type 0 where
  pub retention_days : ℕ
  pub source : String

pub record DeletedHistory : Type 0 where
  pub deleted_audit_event_count : ℕ
  pub deleted_reconciliation_run_count : ℕ
  pub deleted_job_count : ℕ
  pub deleted_job_result_count : ℕ
  pub kept_latest_resource_job_count : ℕ

pub record PurgeSummary : Type 0 where
  pub generated_at : ℕ
  pub retention : Retention
  pub cutoff_at : ℕ
  pub deleted : DeletedHistory
  pub skipped : Bool
  pub next_purge_at : Option ℕ

abbrev pub of_group : String → String → String → JobRow → Bool
of_group node_id kind key row =
    str_eq row.node_id node_id && str_eq row.kind kind && has_key key row.resource_key

abbrev pub is_row : JobRow → Option JobRow → Bool
is_row row none = false
is_row row (some latest) = str_eq latest.id row.id

-- `DISTINCT ON (node_id, kind, resource_key) … ORDER BY …, created_at DESC`, with the primary key for
-- the row.
abbrev pub is_latest_of : List JobRow → JobRow → Option String → Bool
is_latest_of jobs row none = false
is_latest_of jobs row (some key) =
    is_row row (head? (sort newer (filter (of_group row.node_id row.kind key) jobs)))

unfoldable pub latest_resource_jobs : List JobRow → List JobRow
latest_resource_jobs jobs = filter (λ row. is_latest_of jobs row row.resource_key) jobs

abbrev pub is_before : ℕ → Option ℕ → Bool
is_before cutoff none = false
is_before cutoff (some t) = ltb t cutoff

unfoldable pub is_purgeable : ℕ → List JobRow → JobRow → Bool
is_purgeable cutoff jobs row =
    is_before cutoff row.completed_at
    && not (any (λ latest. str_eq latest.id row.id) (latest_resource_jobs jobs))

unfoldable pub purgeable_jobs : ℕ → List JobRow → List JobRow
purgeable_jobs cutoff jobs = filter (is_purgeable cutoff jobs) jobs

abbrev pub purged_ids : ℕ → Store → List String
purged_ids cutoff db = job_ids (purgeable_jobs cutoff db.jobs)

unfoldable pub purge_jobs : ℕ → Store → Store
purge_jobs cutoff db = record db {
  jobs = filter (λ row. not (any_id row.id (purged_ids cutoff db))) db.jobs;
  job_results = filter (λ row. not (any_id row.job_id (purged_ids cutoff db))) db.job_results;
}

abbrev is_export : AuditPayload → Bool
is_export inventory_exported = true
is_export _ = false

abbrev newer_event : AuditEvent → AuditEvent → Bool
newer_event left right = leb right.occurred_at left.occurred_at

abbrev time_of : Option AuditEvent → Option ℕ
time_of none = none
time_of (some event) = some event.occurred_at

-- The first export of the time is the latest one.
abbrev is_the_export : Option ℕ → AuditEvent → Bool
is_the_export none event = false
is_the_export (some t) event = is_export event.payload && event.occurred_at == t

unfoldable pub delete_events : ℕ → Option ℕ → List AuditEvent → List AuditEvent
delete_events cutoff latest [] = []
delete_events cutoff latest (event ∷ events) =
    let kept = is_the_export latest event in
    let rest = delete_events cutoff (if kept then none else latest) events in
    if kept || not (ltb event.occurred_at cutoff) then event ∷ rest else rest

unfoldable pub purge_events : ℕ → List AuditEvent → List AuditEvent
purge_events cutoff events =
    delete_events cutoff
      (time_of (head? (sort newer_event (filter (λ event. is_export event.payload) events)))) events

abbrev newer_run : ReconciliationRunRow → ReconciliationRunRow → Bool
newer_run left right = leb right.completed_at left.completed_at

abbrev is_run : ReconciliationRunRow → Option ReconciliationRunRow → Bool
is_run run none = false
is_run run (some latest) = str_eq latest.run_id run.run_id

unfoldable pub purge_runs : ℕ → List ReconciliationRunRow → List ReconciliationRunRow
purge_runs cutoff runs =
    filter (λ run. not (ltb run.completed_at cutoff) || is_run run (head? (sort newer_run runs)))
      runs

abbrev count_deleted : ℕ → Store → Store → DeletedHistory
count_deleted cutoff db db' = record {
  deleted_audit_event_count = length db.audit_events - length db'.audit_events;
  deleted_reconciliation_run_count = length db.reconciliation_runs - length db'.reconciliation_runs;
  deleted_job_count = length db.jobs - length db'.jobs;
  deleted_job_result_count = length db.job_results - length db'.job_results;
  kept_latest_resource_job_count = length (latest_resource_jobs db.jobs);
}

abbrev pub purged : ℕ → Store → Store
purged cutoff db = record (purge_jobs cutoff db) {
  audit_events = purge_events cutoff db.audit_events;
  reconciliation_runs = purge_runs cutoff db.reconciliation_runs;
}

unfoldable pub purge_operational_history_rows : ℕ → Tx DeletedHistory
purge_operational_history_rows cutoff db =
    ok (count_deleted cutoff db (purged cutoff db), purged cutoff db)

abbrev is_purge : AuditPayload → Bool
is_purge (history_purged generated_at counts) = true
is_purge _ = false

unfoldable pub get_latest_operation_history_purge_at : Store → Option ℕ
get_latest_operation_history_purge_at db =
    time_of (head? (sort newer_event (filter (λ event. is_purge event.payload) db.audit_events)))

abbrev nothing_deleted : DeletedHistory
nothing_deleted = record {
  deleted_audit_event_count = 0;
  deleted_reconciliation_run_count = 0;
  deleted_job_count = 0;
  deleted_job_result_count = 0;
  kept_latest_resource_job_count = 0;
}

abbrev pub cutoff_at : ℕ → Retention → ℕ
cutoff_at now retention = now - retention.retention_days * day_ms

abbrev summary : ℕ → Retention → DeletedHistory → Option ℕ → PurgeSummary
summary now retention deleted next = record {
  generated_at = now;
  retention = retention;
  cutoff_at = cutoff_at now retention;
  deleted = deleted;
  skipped = not (is_none next);
  next_purge_at = next;
}

abbrev actor_type : Option String → String
actor_type none = "worker"
actor_type (some id) = "user"

abbrev actor_id : Option String → String
actor_id none = ""
actor_id (some id) = id

abbrev counts : DeletedHistory → List ℕ
counts deleted =
    deleted.deleted_audit_event_count ∷ deleted.deleted_reconciliation_run_count
    ∷ deleted.deleted_job_count ∷ deleted.deleted_job_result_count
    ∷ deleted.kept_latest_resource_job_count ∷ []

unfoldable pub purge_now : ℕ → Retention → Option String → Tx PurgeSummary
purge_now now retention actor = do
  deleted ← purge_operational_history_rows (cutoff_at now retention)
  insert_audit_event (record {
    actor_type = actor_type actor;
    actor_id = actor_id actor;
    entity_type = "operations";
    entity_id = "history";
    payload = history_purged now (counts deleted);
    occurred_at = now;
  })
  pure (summary now retention deleted none)

-- The next purge of a worker, if it is still to come.
abbrev not_due : ℕ → ℕ → Option ℕ → Option ℕ
not_due now interval_days none = none
not_due now interval_days (some latest) =
    let next = latest + interval_days * day_ms in if ltb now next then some next else none

abbrev pub purge_unless : ℕ → Retention → Option ℕ → Tx PurgeSummary
purge_unless now retention none = purge_now now retention none
purge_unless now retention (some next) = pure (summary now retention nothing_deleted (some next))

module _ (sha256_hex : String → String) (collate : String → String → Bool) where
  -- A worker presents no token; a token that is presented is checked, empty or not.
  abbrev pub purge_as : ℕ → Retention → ℕ → Option String → Tx PurgeSummary
  purge_as now retention interval_days none = do
    latest ← query get_latest_operation_history_purge_at
    purge_unless now retention (not_due now interval_days latest)
  purge_as now retention interval_days (some token) = do
    actor ←
        require_authorized_user sha256_hex collate now (some token)
          ("platform_admin" ∷ "platform_operator" ∷ [])
    purge_now now retention (some actor.user_id)

  unfoldable pub purge_operational_history :
      ℕ → Retention → ℕ → Option String → Store → Result StoreError PurgeSummary × Store
  purge_operational_history now retention interval_days presented db =
      with_transaction (purge_as now retention interval_days presented) db
