-- ===== src/Store/Dispatch/Reconcile/Convergence.antt =====
-- What a reconciliation cycle leaves: nothing for the next one to dispatch.
use simple_host_man.Store.Preserves.{Preserves-bind, Preserves-pure, Preserves}
use simple_host_man.Store.Sessions.Untouched.{Preserves-require_authorized_user}
use simple_host_man.Store.Dispatch.{
  with_result, should_dispatch_after, newer, latest_job, is_for_resource, dispatched_row,
}
use simple_host_man.Store.Dispatch.Reconcile.Rows.{
  should_dispatch-desire, own_row, desire, IsDistinct, insert_any-queue, should_dispatch-queue,
  with_jobs,
}
use simple_host_man.Store.Jobs.Queue.{queue, Keeps}
use simple_host_man.Store.Dispatch.Reconcile.{
  run_row, insert_any, Cycle, run_reconciliation_cycle_tx, built, run_reconciliation_cycle,
  insert_reconciliation_run, non_empty, should_dispatch_queued_job, authorize_cycle,
  QueuedDispatchJob, skipped_job_count, jobs_to_dispatch,
}
use simple_host_man.Payload.Envelope.{Crypto}
use simple_host_man.Prelude.{
  All-zip, All-map, any, ap₂, append-nil, sort, eq_refl, head?, All-filter_keep, All-imp,
  filter-append, head?-sort_last, filter, length, All, refl, sym, ap, ◌∙◌, ◌≡◌, inl, inr, ℕ, suc,
  ◌<◌, Bool, false, String, Option, none, some, List, [], ◌∷◌, ◌++◌, map, if◌then◌else◌, arith,
  Bool-cases, str_eq,
}
use simple_host_man.Store.{
  pure, with_transaction, ok-value, with_transaction_ok, ok-store, ReconciliationRunRow, ResultRow,
  JobRow, err, ok, Store, SessionRow, StoreError, Result, ◌>>=◌, >>=-eq-ok,
}
use simple_host_man.Store.Sessions.{require_authorized_user}

-- The tables without the sessions.
abbrev pub without_sessions : Store → Store
without_sessions db = record db { sessions = [] }

module _ (sha256_hex : String → String) (collate : String → String → Bool) where
  pub Keeps-require_authorized_user :
      (now : ℕ) (token : Option String) (roles : List String)
      → Keeps (require_authorized_user sha256_hex collate now token roles)
  Keeps-require_authorized_user =
      Preserves-require_authorized_user queue (λ db sessions. refl) sha256_hex collate

  module _ {V : Type 0} (view : Store → V)
      (blind : (db : Store) (sessions : List SessionRow)
        → view (record db { sessions = sessions }) ≡ view db) where
    Preserves-authorize_cycle :
        (now : ℕ) (token : Option String)
        → Preserves view (authorize_cycle sha256_hex collate now token)
    Preserves-authorize_cycle now none = Preserves-pure view tt
    Preserves-authorize_cycle now (some token) =
        Preserves-bind view _ _
          (Preserves-require_authorized_user view blind sha256_hex collate now (some token) _)
          (λ _. Preserves-pure view tt)

-- A filter by a test that fails everywhere, and the count of the others.
none_selected :
    (db : Store) (jobs : List QueuedDispatchJob)
    → All (λ job. should_dispatch_queued_job job db ≡ false) jobs
    → (jobs_to_dispatch db jobs ≡ []) × (skipped_job_count db jobs ≡ length jobs)
unfolding jobs_to_dispatch skipped_job_count
none_selected db [] h = (refl, refl)
none_selected db (job ∷ jobs) h =
    let (none_left, all_skipped) = none_selected db jobs h.1 in
    (rw h.0 none_left, rw h.0 (ap suc all_skipped))

module _ {Bytes Plain : Type 0} (c : Crypto Bytes Plain) (key : Option Bytes) (iv : String → Bytes)
    (actor : Option String) (reason : String) where
  abbrev decide : QueuedDispatchJob → Store → List JobRow × List ResultRow → Bool
  decide job db q =
      should_dispatch_after job
        (with_result (record db { job_results = q.1 }) (head? (sort newer q.0)))

  resource_rows :
      (job : QueuedDispatchJob) (selected : List QueuedDispatchJob) (db db' : Store)
      → queue db' ≡ with_jobs (map (dispatched_row c key iv actor reason) selected) (queue db)
      → filter (is_for_resource job) db'.jobs
        ≡ filter (is_for_resource job) db.jobs
          ++ filter (is_for_resource job) (map (dispatched_row c key iv actor reason) selected)
  resource_rows job selected db db' after =
      ap (λ (q : List JobRow × List ResultRow). filter (is_for_resource job) q.0) after
      ∙ filter-append (is_for_resource job) db.jobs _

  -- A job is not dispatched again, whether it was dispatched or not.
  settled :
      (job : QueuedDispatchJob) (selected : List QueuedDispatchJob) (db db' : Store)
      → queue db' ≡ with_jobs (map (dispatched_row c key iv actor reason) selected) (queue db)
      → filter (is_for_resource job) (map (dispatched_row c key iv actor reason) selected) ≡ (
          if should_dispatch_queued_job job db
          then dispatched_row c key iv actor reason job ∷ []
          else [])
      → All (λ row. row.created_at < job.envelope.created_at) db.jobs
      → should_dispatch_queued_job job db' ≡ false
  unfolding should_dispatch_queued_job latest_job
  settled job selected db db' after own newest =
      let rows = resource_rows job selected db db' after in
      elim (Bool-cases (should_dispatch_queued_job job db)) [
        | inl due ↦
            let new = dispatched_row c key iv actor reason job in
            let own_only = rw due at own in
            rw
              (
                rows,
                own_only,
                head?-sort_last newer (filter (is_for_resource job) db.jobs) new (
                    All-imp _ _ _ (All-filter_keep _ (is_for_resource job) db.jobs newest)
                      (λ row p. ground arith)),
                eq_refl job.payload_hash,
              )
              refl
        | inr not_due ↦
            let none_new = rw not_due at own in
            let same_rows : filter (is_for_resource job) db'.jobs
                ≡ filter (is_for_resource job) db.jobs =
              rows
              ∙ ap (λ new. filter (is_for_resource job) db.jobs ++ new) none_new
              ∙ append-nil _ in
            ap₂ (λ fs rs. decide job db (fs, rs)) same_rows
              (ap (λ (q : List JobRow × List ResultRow). q.1) after)
            ∙ not_due
      ]

jobs_to_dispatch-queue :
    (jobs : List QueuedDispatchJob) (db d : Store)
    → queue d ≡ queue db
    → jobs_to_dispatch d jobs ≡ jobs_to_dispatch db jobs
unfolding jobs_to_dispatch
jobs_to_dispatch-queue [] db d e = refl
jobs_to_dispatch-queue (job ∷ jobs) db d e = rw (should_dispatch-queue job db d e) (
    ap (λ rest. if should_dispatch_queued_job job db then job ∷ rest else rest)
      (jobs_to_dispatch-queue jobs db d e))

built_ok :
    (r : Result StoreError (List QueuedDispatchJob × ℕ)) (x : List QueuedDispatchJob × ℕ)
    (d d' : Store)
    → built r d ≡ ok (x, d')
    → (r ≡ ok x) × (d ≡ d')
built_ok (ok y) x d d' e = (cc, cc)
built_ok (err y) x d d' e = cc

Keeps-insert_run : (row : ReconciliationRunRow) → Keeps (insert_reconciliation_run row)
unfolding insert_reconciliation_run
Keeps-insert_run row db db' a e =
    elim (Bool-cases (any (λ old. str_eq old.run_id row.run_id) db.reconciliation_runs)) [
      | inl h ↦ cc (rw h at e)
      | inr h ↦ ap queue (sym (ok-store (rw h at e)))
    ]

candidates_of :
    {a b : List QueuedDispatchJob × ℕ}
    → ◌≡◌ {A = Result StoreError (List QueuedDispatchJob × ℕ)} (ok a) (ok b)
    → a ≡ b
candidates_of h = cc

module _ {Bytes Plain : Type 0} (c : Crypto Bytes Plain) (key : Option Bytes) (iv : String → Bytes)
    (sha256_hex : String → String) (collate : String → String → Bool)
    (inventory : List (String × String))
    (build : String → Store → Result StoreError (List QueuedDispatchJob × ℕ)) where
  -- A cycle that succeeds built candidates, and inserted those that were due by the queue it found.
  pub cycle_inserts :
      (cycle : Cycle) (db db' : Store) (run : ReconciliationRunRow)
      → run_reconciliation_cycle sha256_hex collate c key iv inventory build cycle db
        ≡ (ok run, db')
      → (found : List QueuedDispatchJob × ℕ) × (d1 : Store) × (d5 : Store) × (d6 : Store) × (build
            cycle.desired_state_version d1
          ≡ ok found)
        × (d1 ≡ record db { sessions = d1.sessions })
        × (queue d5 ≡ queue db)
        × (insert_any c key iv inventory cycle.now (jobs_to_dispatch db found.0) d5 ≡ ok (tt, d6))
        × (queue db' ≡ queue d6)
  unfolding run_reconciliation_cycle run_reconciliation_cycle_tx
  cycle_inserts cycle db db' run e =
      let tx =
        with_transaction_ok
          (run_reconciliation_cycle_tx sha256_hex collate c key iv inventory build cycle) db db' run
          e in
      let (_, d1, e1, h1) = >>=-eq-ok _ _ db tx in
      let (built_now, d2, e2, h2) = >>=-eq-ok _ _ d1 h1 in
      let (found, d3, e3, h3) = >>=-eq-ok _ _ d2 h2 in
      let (jobs, d4, e4, h4) = >>=-eq-ok _ _ d3 h3 in
      let (skipped, d5, e5, h5) = >>=-eq-ok _ _ d4 h4 in
      let (_, d6, e6, h6) = >>=-eq-ok _ _ d5 h5 in
      let (_, d7, e7, h7) = >>=-eq-ok _ _ d6 h6 in
      let (is_built, same3) = built_ok built_now found d2 d3 e3 in
      let before : queue d3 ≡ queue db =
        ap queue (sym same3)
        ∙ ap queue (sym (ok-store e2))
        ∙ Preserves-authorize_cycle sha256_hex collate queue (λ d s. refl) cycle.now
            (non_empty cycle.presented_token) db d1 tt e1 in
      let apart : without_sessions d1 ≡ without_sessions db =
        Preserves-authorize_cycle sha256_hex collate without_sessions (λ d s. refl) cycle.now
          (non_empty cycle.presented_token) db d1 tt e1 in
      let jobs_eq : jobs_to_dispatch db found.0 ≡ jobs =
        sym (jobs_to_dispatch-queue found.0 db d3 before) ∙ ok-value e4 in
      (
        found,
        d1,
        d5,
        d6,
        ok-value e2 ∙ is_built,
        ap (λ (d : Store). record d { sessions = d1.sessions }) apart,
        ap queue (sym (ok-store e5)) ∙ ap queue (sym (ok-store e4)) ∙ before,
        rw jobs_eq e6,
        ap queue (sym (ok-store h7)) ∙ Keeps-insert_run _ d6 d7 tt e7,
      )

  -- Where the candidates are given, so are the rows that are added to the queue.
  cycle_shape :
      (cycle : Cycle) (db db' : Store) (run : ReconciliationRunRow)
      (candidates : List QueuedDispatchJob) (missing : ℕ)
      → run_reconciliation_cycle sha256_hex collate c key iv inventory build cycle db
        ≡ (ok run, db')
      → ((sessions : List SessionRow)
          → build cycle.desired_state_version (record db { sessions = sessions })
            ≡ ok (candidates, missing))
      → queue db'
        ≡ with_jobs
            (map (dispatched_row c key iv none "worker.reconcile") (jobs_to_dispatch db candidates))
            (queue db)
  cycle_shape cycle db db' run candidates missing e desired =
      let (found, d1, d5, d6, is_built, apart, before, inserted, last) =
        cycle_inserts cycle db db' run e in
      let row = dispatched_row c key iv none "worker.reconcile" in
      last
      ∙ insert_any-queue c key iv inventory cycle.now _ d5 d6 inserted
      ∙ ap₂ (λ (fs : List QueuedDispatchJob) q. with_jobs (map row (jobs_to_dispatch db fs)) q)
          (ap (λ (x : List QueuedDispatchJob × ℕ). x.0)
            (candidates_of
              (sym is_built ∙ ap (build cycle.desired_state_version) apart ∙ desired d1.sessions)))
          before

  -- A cycle of a worker that finds nothing due records itself and does no more.
  idle_cycle :
      (cycle : Cycle) (db : Store) (candidates : List QueuedDispatchJob) (missing : ℕ)
      → build cycle.desired_state_version db ≡ ok (candidates, missing)
      → All (λ job. should_dispatch_queued_job job db ≡ false) candidates
      → cycle.presented_token ≡ none
      → any (λ old. str_eq old.run_id cycle.run_id) db.reconciliation_runs ≡ false
      → let row = run_row cycle [] (length candidates) missing in
        run_reconciliation_cycle sha256_hex collate c key iv inventory build cycle db
        ≡ (ok row, record db { reconciliation_runs = db.reconciliation_runs ++ row ∷ [] })
  unfolding run_reconciliation_cycle run_reconciliation_cycle_tx ◌>>=◌ with_transaction insert_any
      insert_reconciliation_run
  idle_cycle cycle db candidates missing is_built settled_all worker fresh =
      let (nothing_due, all_skipped) = none_selected db candidates settled_all in
      rw
        (
          worker, with_transaction, ◌>>=◌, is_built, nothing_due, all_skipped, fresh, pure,
          nothing_due, all_skipped,
        )
        refl

  -- After a cycle that succeeds, over candidates that are built of the stored tables whatever the
  -- sessions are, of distinct resources and newer than every stored job, a worker's cycle over candidates with the same node, kind, resource and payload hash,
  -- under a run identifier that is not in use, succeeds, dispatches nothing and skips every candidate;
  -- its own row in the table of runs is all that it writes.
  pub cycle_converges :
      (cycle next : Cycle) (db db' : Store) (run : ReconciliationRunRow)
      (candidates : List QueuedDispatchJob) (missing : ℕ)
      (renew : QueuedDispatchJob → QueuedDispatchJob)
      → run_reconciliation_cycle sha256_hex collate c key iv inventory build cycle db
        ≡ (ok run, db')
      → ((sessions : List SessionRow)
          → build cycle.desired_state_version (record db { sessions = sessions })
            ≡ ok (candidates, missing))
      → IsDistinct candidates
      → All (λ job. All (λ row. row.created_at < job.envelope.created_at) db.jobs) candidates
      → build next.desired_state_version db' ≡ ok (map renew candidates, missing)
      → ((job : QueuedDispatchJob) → desire (renew job) ≡ desire job)
      → next.presented_token ≡ none
      → any (λ old. str_eq old.run_id next.run_id) db'.reconciliation_runs ≡ false
      → let row = run_row next [] (length (map renew candidates)) missing in
        run_reconciliation_cycle sha256_hex collate c key iv inventory build next db'
        ≡ (ok row, record db' { reconciliation_runs = db'.reconciliation_runs ++ row ∷ [] })
  unfolding jobs_to_dispatch
  cycle_converges cycle next db db' run candidates missing renew e desired distinct newest rebuilt
        same_desire worker fresh =
      let after = cycle_shape cycle db db' run candidates missing e desired in
      let due = λ (job : QueuedDispatchJob). should_dispatch_queued_job job db in
      idle_cycle next db' (map renew candidates) missing rebuilt
        (All-map _ _ renew candidates
          (All-imp _ _ candidates
            (All-zip _ _ candidates
              (own_row c key iv none "worker.reconcile" due candidates distinct) newest)
            (λ job k.
              settled c key iv none "worker.reconcile" job (filter due candidates) db db' after k.0
                k.1))
          (λ job idle. should_dispatch-desire (renew job) job db' (same_desire job) ∙ idle))
        worker fresh
