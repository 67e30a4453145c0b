-- ===== src/Store/Lifecycle/Effects.antt =====
-- What a call of a handler does to the tables of the queue.
use simple_host_man.Store.History.Purge.{purge_operational_history-queue}
use simple_host_man.Store.History.{cutoff_at, PurgeSummary, Retention, purge_operational_history}
use simple_host_man.Store.History.{purge_jobs}
use simple_host_man.Payload.{strip_fields}
use simple_host_man.Store.Dispatch.Reconcile.Convergence.{cycle_inserts}
use simple_host_man.Store.Jobs.Claim.{claim_jobs_shape}
use simple_host_man.Store.Dispatch.Reconcile.Rows.{
  insert_each-queue, insert_job-queue, Keeps-ensure_nodes,
}
use simple_host_man.Store.Dispatch.{insert_job}
use simple_host_man.Store.Dispatch.{insert_each}
use simple_host_man.Store.Dispatch.{insert_dispatched_jobs}
use simple_host_man.Store.Jobs.Report.{report_job_shape, recorded_results, completed_jobs}
use simple_host_man.Store.Jobs.{
  JobReportRequest, JobClaimRequest, find_job, report_job, claim_jobs, ReportedJobResult,
  mark_claimed, candidate_jobs,
}
use simple_host_man.Store.Jobs.Queue.{Keeps-insert_audit_event}
use simple_host_man.Store.Tables.{update_where}
use simple_host_man.Store.Dispatch.Reconcile.{Cycle, run_reconciliation_cycle, insert_any}
use simple_host_man.Store.Dispatch.{dispatched_row}
use simple_host_man.Store.Lifecycle.{
  Step, Environment, job_ids, any_id, queue, QueuedDispatchJob, Queue,
}
use simple_host_man.Payload.Envelope.{Crypto}
use simple_host_man.Prelude.{
  find, All, subst, any, refl, sym, ap, ◌∙◌, ◌≡◌, inl, inr, ℕ, Bool, false, String, Option, none,
  some, List, [], ◌∷◌, ◌++◌, map, Bool-cases, str_eq,
}
use simple_host_man.Store.{
  with_transaction_rollback, err, ReconciliationRunRow, DispatchedJobEnvelope, with_transaction_ok,
  with_transaction, Result, StoreError, Tx, Fields, ResultRow, ok-store, ok, JobRow, Store,
  >>=-eq-ok,
}

-- Rows whose identifiers the table and the rows before them do not have.
abbrev pub AreFresh : List JobRow → List JobRow → Type 0
AreFresh jobs [] = Unit
AreFresh jobs (new ∷ rows) =
    (any (λ row. str_eq row.id new.id) jobs ≡ false) × AreFresh (jobs ++ new ∷ []) rows

abbrev pub IsQueued : JobRow → Type 0
IsQueued row = (row.claimed_at ≡ none) × (row.completed_at ≡ none)

pub data Effect : Queue → Queue → Type 0 where
  nothing : (q : Queue) → Effect q q
  claims :
      (db : Store) (locked : String → Bool) (node_id : String) (n now : ℕ)
      → Effect (queue db) (
        update_where
            (λ job. any_id job.id (job_ids (candidate_jobs locked node_id n now db)))
            (mark_claimed now)
            db.jobs,
        db.job_results,
      )
  completes :
      (jobs : List JobRow) (results : List ResultRow) (result : ReportedJobResult)
      (payload : Fields) (now : ℕ) (stored : JobRow)
      → find (λ job. str_eq job.id result.job_id) jobs ≡ some stored
      → Effect
          (jobs, results)
          (completed_jobs result payload jobs, recorded_results result now results)
  adds :
      (jobs rows : List JobRow) (results : List ResultRow)
      → AreFresh jobs rows
      → All IsQueued rows
      → Effect (jobs, results) (jobs ++ rows, results)
  purges : (cutoff : ℕ) (db : Store) → Effect (queue db) (queue (purge_jobs cutoff db))

failed : (db db' : Store) → db' ≡ db → Effect (queue db) (queue db')
failed db db' e = subst (λ d. Effect (queue db) (queue d)) (sym e) (nothing (queue db))

arrives : {q a b : Queue} → b ≡ a → Effect q a → Effect q b
arrives {q} e x = subst (λ p. Effect q p) (sym e) x

rolled_back :
    {A : Type 0} (action : Tx A) (db db' : Store) (x : StoreError)
    → with_transaction action db ≡ (err x, db')
    → db' ≡ db
rolled_back {A} action db db' x e =
    sym (ap (λ (p : Result StoreError A × Store). p.1) e)
    ∙ with_transaction_rollback action db x (ap (λ (p : Result StoreError A × Store). p.0) e)

module _ {Bytes Plain : Type 0} (c : Crypto Bytes Plain) (key : Option Bytes)
    (iv : String → Bytes) where
  insert_job_fresh :
      (new : JobRow) (db db' : Store)
      → insert_job new db ≡ ok (tt, db')
      → any (λ row. str_eq row.id new.id) db.jobs ≡ false
  unfolding insert_job
  insert_job_fresh new db db' e = elim (Bool-cases (any (λ row. str_eq row.id new.id) db.jobs)) [
    | inl h ↦ cc (rw h at e)
    | inr h ↦ h
  ]

  insert_each-AreFresh :
      (actor : Option String) (reason : String) (jobs : List QueuedDispatchJob) (db db' : Store)
      → insert_each c key iv actor reason jobs db ≡ ok (tt, db')
      → AreFresh db.jobs (map (dispatched_row c key iv actor reason) jobs)
  unfolding insert_each
  insert_each-AreFresh actor reason [] db db' e = tt
  insert_each-AreFresh actor reason (job ∷ jobs) db db' e =
      let (_, d1, e1, h1) = >>=-eq-ok _ _ db e in
      let (_, d2, e2, h2) = >>=-eq-ok _ _ d1 h1 in
      let new = dispatched_row c key iv actor reason job in
      let grown : d2.jobs ≡ db.jobs ++ new ∷ [] =
        ap (λ (q : Queue). q.0)
          (Keeps-insert_audit_event _ d1 d2 tt e2 ∙ insert_job-queue new db d1 e1) in
      (
        insert_job_fresh new db d1 e1,
        subst (λ rows. AreFresh rows (map (dispatched_row c key iv actor reason) jobs)) grown
            (insert_each-AreFresh actor reason jobs d2 db' h2),
      )

  dispatched-IsQueued :
      (actor : Option String) (reason : String) (jobs : List QueuedDispatchJob)
      → All IsQueued (map (dispatched_row c key iv actor reason) jobs)
  dispatched-IsQueued actor reason [] = tt
  dispatched-IsQueued actor reason (job ∷ jobs) =
      ((refl, refl), dispatched-IsQueued actor reason jobs)

  insert_dispatched-Effect :
      (inventory : List (String × String)) (now : ℕ) (jobs : List QueuedDispatchJob)
      (actor : Option String) (reason : String) (db db' : Store)
      → insert_dispatched_jobs c key iv inventory now jobs actor reason db ≡ ok (tt, db')
      → Effect (queue db) (queue db')
  unfolding insert_dispatched_jobs
  insert_dispatched-Effect inventory now jobs actor reason db db' e =
      let (_, d1, e1, h1) = >>=-eq-ok _ _ db e in
      subst (λ q. Effect q (queue db')) (Keeps-ensure_nodes inventory now _ db d1 tt e1)
        (arrives (insert_each-queue c key iv actor reason jobs d1 db' h1) (
          adds d1.jobs (map (dispatched_row c key iv actor reason) jobs) d1.job_results
            (insert_each-AreFresh actor reason jobs d1 db' h1)
            (dispatched-IsQueued actor reason jobs)))

  insert_any-Effect :
      (inventory : List (String × String)) (now : ℕ) (jobs : List QueuedDispatchJob)
      (db db' : Store)
      → insert_any c key iv inventory now jobs db ≡ ok (tt, db')
      → Effect (queue db) (queue db')
  unfolding insert_any
  insert_any-Effect inventory now [] db db' e = failed db db' (sym (ok-store e))
  insert_any-Effect inventory now (job ∷ jobs) db db' e =
      insert_dispatched-Effect inventory now (job ∷ jobs) none "worker.reconcile" db db' e

module _ (env : Environment) where
  claim-Effect :
      (db : Store) (locked : String → Bool) (now : ℕ) (request : JobClaimRequest)
      (presented : Option String) (r : Result StoreError (List DispatchedJobEnvelope)) (db' : Store)
      → claim_jobs env.crypto env.key env.sha256_hex locked now request presented db ≡ (r, db')
      → Effect (queue db) (queue db')
  unfolding claim_jobs
  claim-Effect db locked now request presented (ok jobs) db' e =
      let (_, jobs_eq, results_eq) =
        claim_jobs_shape env.crypto env.key env.sha256_hex locked now request presented db db' jobs
          e in
      arrives (λ i. (jobs_eq i, results_eq i))
        (claims db locked request.node_id request.max_jobs now)
  claim-Effect db locked now request presented (err x) db' e =
      failed db db' (rolled_back _ db db' x e)

  report-Effect :
      (db : Store) (now : ℕ) (request : JobReportRequest) (presented : Option String)
      (r : Result StoreError (Unit {0})) (db' : Store)
      → report_job env.crypto env.key env.sha256_hex env.dates now request presented db ≡ (r, db')
      → Effect (queue db) (queue db')
  unfolding report_job find_job
  report-Effect db now request presented (ok tt) db' e =
      let (stored, decoded, found, _, jobs_eq, results_eq) =
        report_job_shape env.crypto env.key env.sha256_hex env.dates now request presented db db'
          e in
      arrives (λ i. (jobs_eq i, results_eq i))
        (completes db.jobs db.job_results request.result (strip_fields decoded) now stored found)
  report-Effect db now request presented (err x) db' e = failed db db' (rolled_back _ db db' x e)

  dispatch-Effect :
      (db : Store) (now : ℕ) (jobs : List QueuedDispatchJob) (actor : Option String)
      (reason : String) (r : Result StoreError (Unit {0})) (db' : Store)
      → with_transaction
          (insert_dispatched_jobs env.crypto env.key env.iv env.inventory now jobs actor reason)
          db
        ≡ (r, db')
      → Effect (queue db) (queue db')
  dispatch-Effect db now jobs actor reason (ok tt) db' e =
      insert_dispatched-Effect env.crypto env.key env.iv env.inventory now jobs actor reason db db'
        (with_transaction_ok _ db db' tt e)
  dispatch-Effect db now jobs actor reason (err x) db' e = failed db db' (rolled_back _ db db' x e)

  reconcile-Effect :
      (db : Store) (cycle : Cycle) (r : Result StoreError ReconciliationRunRow) (db' : Store)
      → run_reconciliation_cycle env.sha256_hex env.collate env.crypto env.key env.iv env.inventory
          env.build cycle db
        ≡ (r, db')
      → Effect (queue db) (queue db')
  unfolding run_reconciliation_cycle
  reconcile-Effect db cycle (ok run) db' e =
      let (found, d1, d5, d6, _, _, before, inserted, last) =
        cycle_inserts env.crypto env.key env.iv env.sha256_hex env.collate env.inventory env.build
          cycle db db' run e in
      subst (λ q. Effect q (queue db')) before
        (arrives last
          (insert_any-Effect env.crypto env.key env.iv env.inventory cycle.now _ d5 d6 inserted))
  reconcile-Effect db cycle (err x) db' e = failed db db' (rolled_back _ db db' x e)

  purge-Effect :
      (db : Store) (now : ℕ) (retention : Retention) (interval_days : ℕ) (presented : Option String)
      (r : Result StoreError PurgeSummary) (db' : Store)
      → purge_operational_history env.sha256_hex env.collate now retention interval_days presented
          db
        ≡ (r, db')
      → Effect (queue db) (queue db')
  unfolding purge_operational_history
  purge-Effect db now retention interval_days presented (ok summary) db' e =
      elim (purge_operational_history-queue env.sha256_hex env.collate now retention interval_days
        presented db db' summary e) [
          | inl same ↦ arrives same (nothing (queue db))
          | inr less ↦ arrives less (purges (cutoff_at now retention) db)
        ]
  purge-Effect db now retention interval_days presented (err x) db' e =
      failed db db' (rolled_back _ db db' x e)

  pub Step-Effect : (db db' : Store) → Step env db db' → Effect (queue db) (queue db')
  Step-Effect db _ (Step.claim _ locked now request presented) =
      claim-Effect db locked now request presented _ _ refl
  Step-Effect db _ (Step.report _ now request presented) =
      report-Effect db now request presented _ _ refl
  Step-Effect db _ (Step.dispatch _ now jobs actor reason) =
      dispatch-Effect db now jobs actor reason _ _ refl
  Step-Effect db _ (Step.reconcile _ cycle) = reconcile-Effect db cycle _ _ refl
  Step-Effect db _ (Step.purge _ now retention interval_days presented) =
      purge-Effect db now retention interval_days presented _ _ refl
  Step-Effect db db' (Step.elsewhere _ _ e) = arrives e (nothing (queue db))
