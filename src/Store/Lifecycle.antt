-- ===== src/Store/Lifecycle.antt =====
-- The life of a job over the handlers that write the queue: `claimJobs`, `reportJob`,
-- `insertDispatchedJobs` in a transaction, `runReconciliationCycle` and `purgeOperationalHistory`.
pub mod Effects
pub mod Consistency
pub mod Moves
use simple_host_man.Store.Packages.{Dates}
use simple_host_man.Store.History.{purge_operational_history, Retention}
use simple_host_man.Store.Jobs.Queue.{queue}
use simple_host_man.Store.Dispatch.Reconcile.{run_reconciliation_cycle, Cycle}
use simple_host_man.Store.Dispatch.{insert_dispatched_jobs, QueuedDispatchJob}
use simple_host_man.Store.Jobs.{
  report_job, JobReportRequest, claim_jobs, JobClaimRequest, job_ids,
  reclaimable_job_claim_timeout_ms,
}
use simple_host_man.Payload.Envelope.{Crypto}
use simple_host_man.Store.{with_transaction, StoreError, Result, Text, JobRow, ResultRow, Store}
use simple_host_man.Store.Tables.{any_id}
use simple_host_man.Prelude.{
  All, find, refl, sym, ap, ◌∙◌, ◌≡◌, ◌≢◌, ◌⊎◌, ◌↔◌, inl, inr, ℕ, zero, suc, ◌+◌, ◌-◌, ◌*◌, ◌≤◌,
  ◌<◌, Bool, true, false, not, ◌&&◌, ◌||◌, String, Option, none, some, List, [], ◌∷◌, ◌++◌, map,
  if◌then◌else◌, arith, Bool-cases, Option-cases, str_eq,
}

abbrev pub Queue : Type 0
Queue = List JobRow × List ResultRow

-- The parameters that stand for node:crypto, Date.parse, the database's order of texts, the
-- inventory and the builder of candidates.
pub record Environment : Type 1 where
  pub Bytes : Type 0
  pub Plain : Type 0
  pub crypto : Crypto Bytes Plain
  pub key : Option Bytes
  pub iv : String → Bytes
  pub sha256_hex : String → String
  pub dates : Dates
  pub collate : String → String → Bool
  pub inventory : List (String × String)
  pub build : String → Store → Result StoreError (List QueuedDispatchJob × ℕ)

-- A call of a handler, whether it succeeds or fails. A handler that is not named here leaves the two
-- tables of the queue as they are.
pub data Step (env : Environment) : Store → Store → Type 1 where
  claim :
      (db : Store) (locked : String → Bool) (now : ℕ) (request : JobClaimRequest)
      (presented : Option String)
      → Step env db (claim_jobs env.crypto env.key env.sha256_hex locked now request presented db).1
  report :
      (db : Store) (now : ℕ) (request : JobReportRequest) (presented : Option String)
      → Step env db
          (report_job env.crypto env.key env.sha256_hex env.dates now request presented db).1
  dispatch :
      (db : Store) (now : ℕ) (jobs : List QueuedDispatchJob) (actor : Option String)
      (reason : String)
      → Step env db
          (with_transaction
            (insert_dispatched_jobs env.crypto env.key env.iv env.inventory now jobs actor reason)
            db).1
  reconcile :
      (db : Store) (cycle : Cycle)
      → Step env db
          (run_reconciliation_cycle env.sha256_hex env.collate env.crypto env.key env.iv
            env.inventory env.build cycle db).1
  purge :
      (db : Store) (now : ℕ) (retention : Retention) (interval_days : ℕ) (presented : Option String)
      → Step env db
          (purge_operational_history env.sha256_hex env.collate now retention interval_days
            presented db).1
  elsewhere : (db db' : Store) → queue db' ≡ queue db → Step env db db'

-- From an empty queue.
pub data IsReachable (env : Environment) : Store → Type 1 where
  start : (db : Store) → db.jobs ≡ [] → db.job_results ≡ [] → IsReachable env db
  next : (db db' : Store) → IsReachable env db → Step env db db' → IsReachable env db'

pub data JobState : Type 0 where
  absent queued : JobState
  claimed completed : ℕ → JobState

abbrev pub claim_state : Option ℕ → JobState
claim_state none = queued
claim_state (some t) = claimed t

abbrev row_state : JobRow → JobState
row_state row = elim row.completed_at [ none ↦ claim_state row.claimed_at | some t ↦ completed t ]

abbrev pub found_state : Option JobRow → JobState
found_state none = absent
found_state (some row) = row_state row

unfoldable pub job_state : String → List JobRow → JobState
job_state id jobs = found_state (find (λ job. str_eq job.id id) jobs)

-- What may become of a job: it is claimed anew only after the claim timeout, and never once it is
-- completed, which a report can do at any time after it is queued. A purge takes completed jobs only.
pub data Move : JobState → JobState → Type 0 where
  stay : (s : JobState) → Move s s
  enqueue : Move absent queued
  claim_first : (now : ℕ) → Move queued (claimed now)
  claim_again :
      (t now : ℕ) → t + reclaimable_job_claim_timeout_ms < now → Move (claimed t) (claimed now)
  complete : (s : JobState) (t : ℕ) → s ≢ absent → Move s (completed t)
  remove : (t : ℕ) → Move (completed t) absent

abbrev pub IsUnique : List String → Type 0
IsUnique [] = Unit
IsUnique (id ∷ ids) = (any_id id ids ≡ false) × IsUnique ids

abbrev completion : Option ResultRow → Option ℕ
completion none = none
completion (some row) = some row.completed_at

-- No two jobs have one identifier, a job is completed at the time on record in its result and not
-- completed without one, and every result is that of a job.
abbrev pub IsConsistent : Queue → Type 0
IsConsistent (jobs, results) =
    IsUnique (job_ids jobs)
    × All (λ job. job.completed_at ≡ completion (find (λ row. str_eq row.job_id job.id) results))
        jobs
    × All (λ row. any_id row.job_id (job_ids jobs) ≡ true) results
