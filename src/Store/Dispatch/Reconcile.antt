-- ===== src/Store/Dispatch/Reconcile.antt =====
-- The reconciliation cycle: `runReconciliationCycle` of
-- packages/control-database/src/control-plane-store-operations.ts.
-- `build` stands for `buildReconciliationCandidates`, which reads the desired state and writes no
-- table: the candidates and the number of missing credentials.
pub mod Rows
pub mod Convergence
use simple_host_man.Store.Sessions.{require_authorized_user}
use simple_host_man.Payload.{sanitize_fields}
use simple_host_man.Store.Dispatch.{
  non_empty, Crypto, QueuedDispatchJob, insert_dispatched_jobs, should_dispatch_queued_job,
}
use simple_host_man.Prelude.{
  any, filter, length, refl, sym, ap, ◌∙◌, ◌≡◌, ◌≢◌, ◌⊎◌, ◌↔◌, inl, inr, ℕ, zero, suc, ◌+◌, ◌-◌,
  ◌*◌, ◌≤◌, ◌<◌, Bool, true, false, not, ◌&&◌, ◌||◌, String, Option, none, some, List, [], ◌∷◌,
  ◌++◌, map, if◌then◌else◌, arith, Bool-cases, Option-cases, str_eq,
}
use simple_host_man.Store.{
  ok, unique_violation, throw, query, err, with_transaction, pure, Tx, StoreError, Store,
  ReconciliationRunRow, Result, DispatchedJobEnvelope, ◌>>=◌, ◌>>◌,
}

unfoldable pub jobs_to_dispatch : Store → List QueuedDispatchJob → List QueuedDispatchJob
jobs_to_dispatch db = filter (λ candidate. should_dispatch_queued_job candidate db)

unfoldable pub skipped_job_count : Store → List QueuedDispatchJob → ℕ
skipped_job_count db [] = 0
skipped_job_count db (candidate ∷ candidates) =
    let rest = skipped_job_count db candidates in
    if should_dispatch_queued_job candidate db then rest else suc rest

abbrev pub sanitized : QueuedDispatchJob → DispatchedJobEnvelope
sanitized job = record job.envelope { payload = sanitize_fields job.envelope.payload }

abbrev pub built : Result StoreError (List QueuedDispatchJob × ℕ) → Tx (List QueuedDispatchJob × ℕ)
built (err e) = throw e
built (ok candidates) = pure candidates

-- `run_id` is the primary key.
unfoldable pub insert_reconciliation_run : ReconciliationRunRow → Tx (Unit {0})
insert_reconciliation_run row db =
    if any (λ old. str_eq old.run_id row.run_id) db.reconciliation_runs
    then err unique_violation
    else ok (tt, record db { reconciliation_runs = db.reconciliation_runs ++ row ∷ [] })

-- What the caller of a cycle and the clock give it.
pub record Cycle : Type 0 where
  pub run_id : String
  pub desired_state_version : String
  pub started_at : ℕ
  pub now : ℕ
  pub completed_at : ℕ
  pub presented_token : Option String

abbrev pub run_row : Cycle → List QueuedDispatchJob → ℕ → ℕ → ReconciliationRunRow
run_row cycle jobs skipped missing = record {
  run_id = cycle.run_id;
  desired_state_version = cycle.desired_state_version;
  generated_job_count = length jobs;
  skipped_job_count = skipped;
  missing_credential_count = missing;
  summary = map sanitized jobs;
  started_at = cycle.started_at;
  completed_at = cycle.completed_at;
}

module _ {Bytes Plain : Type 0} (c : Crypto Bytes Plain) (key : Option Bytes)
    (iv : String → Bytes) where
  unfoldable pub insert_any : List (String × String) → ℕ → List QueuedDispatchJob → Tx (Unit {0})
  insert_any inventory now [] = pure tt
  insert_any inventory now (job ∷ jobs) =
      insert_dispatched_jobs c key iv inventory now (job ∷ jobs) none "worker.reconcile"

module _ (sha256_hex : String → String) (collate : String → String → Bool) where
  -- A worker presents no token.
  abbrev pub authorize_cycle : ℕ → Option String → Tx (Unit {0})
  authorize_cycle now none = pure tt
  authorize_cycle now (some token) =
      require_authorized_user sha256_hex collate now (some token)
        ("platform_admin" ∷ "platform_operator" ∷ [])
      >> pure tt

  module _ {Bytes Plain : Type 0} (c : Crypto Bytes Plain) (key : Option Bytes)
      (iv : String → Bytes) (inventory : List (String × String))
      (build : String → Store → Result StoreError (List QueuedDispatchJob × ℕ)) where
    unfoldable pub run_reconciliation_cycle_tx : Cycle → Tx ReconciliationRunRow
    run_reconciliation_cycle_tx cycle = do
      authorize_cycle cycle.now (non_empty cycle.presented_token)
      found ← query (build cycle.desired_state_version)
      candidates ← built found
      jobs ← query (λ db. jobs_to_dispatch db candidates.0)
      skipped ← query (λ db. skipped_job_count db candidates.0)
      insert_any c key iv inventory cycle.now jobs
      insert_reconciliation_run (run_row cycle jobs skipped candidates.1)
      pure (run_row cycle jobs skipped candidates.1)

    unfoldable pub run_reconciliation_cycle :
        Cycle → Store → Result StoreError ReconciliationRunRow × Store
    run_reconciliation_cycle cycle db = with_transaction (run_reconciliation_cycle_tx cycle) db
