-- ===== src/Store/History/Invisible.antt =====
-- A purge is not seen by the handlers of the queue.
use simple_host_man.Store.Lifecycle.Consistency.{reachable-IsConsistent}
use simple_host_man.Store.Lifecycle.Moves.{named, own_rows}
use simple_host_man.Store.History.Purge.{purge_operational_history-queue, purge-should_dispatch}
use simple_host_man.Store.Dispatch.Reconcile.Rows.{should_dispatch-queue}
use simple_host_man.Store.Jobs.Queue.{queue}
use simple_host_man.Store.Dispatch.{should_dispatch_queued_job, QueuedDispatchJob}
use simple_host_man.Store.Tables.{is_none}
use simple_host_man.Store.Jobs.{older, candidate_jobs, is_candidate}
use simple_host_man.Store.{ok, ResultRow, JobRow, Store}
use simple_host_man.Store.Lifecycle.{IsReachable, IsUnique, Environment}
use simple_host_man.Store.History.{
  cutoff_at, purge_operational_history, purged_ids, any_id, job_ids, PurgeSummary, is_purgeable,
  is_before, Retention, purgeable_jobs, purge_jobs,
}
use simple_host_man.Prelude.{
  and-true, All-filter, All-filter_keep, sort, subst, All-zip, take, All-imp, Any, filter, All,
  refl, sym, ap, ◌∙◌, ◌≡◌, ◌⊎◌, inl, inr, ℕ, Bool, true, not, ◌&&◌, String, Option, none, some,
  List, [], ◌∷◌, arith, Bool-cases,
}

filter-absorb :
    (test keep : JobRow → Bool) (rows : List JobRow)
    → All (λ row. test row ≡ true → keep row ≡ true) rows
    → filter test (filter keep rows) ≡ filter test rows
filter-absorb test keep [] h = refl
filter-absorb test keep (row ∷ rows) h = elim (Bool-cases (test row)) [
  | inl e ↦ rw (h.0 e, e) (ap (λ rest. row ∷ rest) (filter-absorb test keep rows h.1))
  | inr e ↦ elim (Bool-cases (keep row)) [
    | inl f ↦ rw (f, e) (filter-absorb test keep rows h.1)
    | inr f ↦ rw (f, e) (filter-absorb test keep rows h.1)
  ]
]

-- An identifier that is purged is that of a job completed before the cutoff.
purged_completed :
    (cutoff : ℕ) (db : Store)
    → IsUnique (job_ids db.jobs)
    → All
        (λ row.
          any_id row.id (purged_ids cutoff db) ≡ true → is_before cutoff row.completed_at ≡ true)
        db.jobs
unfolding purgeable_jobs is_purgeable
purged_completed cutoff db unique = All-imp _ _ db.jobs (own_rows db.jobs unique) (λ row own gone.
    named row.id db.jobs (purgeable_jobs cutoff db.jobs) row
      (λ c. is_before cutoff c.completed_at ≡ true) own gone
      (All-zip _ _ _
        (All-filter_keep _ (is_purgeable cutoff db.jobs) db.jobs (own_rows db.jobs unique))
        (All-filter _ (is_purgeable cutoff db.jobs) db.jobs
          (λ c h. (and-true {a = is_before cutoff c.completed_at} h).0))))

open_or_before : (cutoff : ℕ) (t : Option ℕ) → is_none t ≡ true → is_before cutoff t ≡ true → ⊥
open_or_before cutoff none h k = cc
open_or_before cutoff (some t) h k = cc

candidate_is_open :
    (locked : String → Bool) (node_id : String) (now : ℕ) (job : JobRow)
    → (is_candidate node_id now job && not (locked job.id)) ≡ true
    → is_none job.completed_at ≡ true
unfolding is_candidate
candidate_is_open locked node_id now job h = ground arith

purge-candidate_jobs :
    (cutoff : ℕ) (db : Store) (locked : String → Bool) (node_id : String) (n now : ℕ)
    → IsUnique (job_ids db.jobs)
    → candidate_jobs locked node_id n now (purge_jobs cutoff db)
      ≡ candidate_jobs locked node_id n now db
unfolding candidate_jobs purge_jobs
purge-candidate_jobs cutoff db locked node_id n now unique =
    ap (λ rows. take n (sort older rows))
      (filter-absorb (λ job. is_candidate node_id now job && not (locked job.id))
        (λ row. not (any_id row.id (purged_ids cutoff db))) db.jobs
        (All-imp _ _ db.jobs (purged_completed cutoff db unique) (λ job completed_if_gone h.
          elim (Bool-cases (any_id job.id (purged_ids cutoff db))) [
            | inl gone ↦ absurd (
                open_or_before cutoff job.completed_at (candidate_is_open locked node_id now job h)
                  (completed_if_gone gone))
            | inr spared ↦ rw spared refl
          ])))

still_there :
    (keep : JobRow → Bool) (rows : List JobRow)
    → All (λ row. keep row ≡ true → Any (λ other. other ≡ row) (filter keep rows)) rows
still_there keep [] = tt
still_there keep (row ∷ rows) = (
  (λ h. rw h (inl refl)),
  All-imp _ _ rows (still_there keep rows)
      (λ other k h. elim (Bool-cases (keep row)) [ inl e ↦ rw e (inr (k h)) | inr e ↦ rw e (k h) ]),
)

-- What a purge at a cutoff may change of the queue.
abbrev pub IsUnseen : ℕ → Store → Store → Type 0
IsUnseen cutoff db db' =
    ((job : QueuedDispatchJob)
      → should_dispatch_queued_job job db' ≡ should_dispatch_queued_job job db)
    × ((locked : String → Bool) (node_id : String) (n now : ℕ)
        → candidate_jobs locked node_id n now db' ≡ candidate_jobs locked node_id n now db)
    × All (λ row. Any (λ other. other ≡ row) db'.jobs ⊎ (is_before cutoff row.completed_at ≡ true))
        db.jobs

purge_jobs-IsUnseen :
    (cutoff : ℕ) (db : Store)
    → IsUnique (job_ids db.jobs)
    → IsUnseen cutoff db (purge_jobs cutoff db)
unfolding purge_jobs
purge_jobs-IsUnseen cutoff db unique = (
  (λ job. purge-should_dispatch cutoff job db),
  (λ locked node_id n now. purge-candidate_jobs cutoff db locked node_id n now unique),
  All-imp _ _ db.jobs
      (All-zip _ _ db.jobs (purged_completed cutoff db unique)
        (still_there (λ row. not (any_id row.id (purged_ids cutoff db))) db.jobs))
      (λ row k. elim (Bool-cases (any_id row.id (purged_ids cutoff db))) [
        | inl gone ↦ inr (k.0 gone)
        | inr spared ↦ inl (k.1 (rw spared refl))
      ]),
)

same-IsUnseen : (cutoff : ℕ) (db : Store) → IsUnseen cutoff db db
same-IsUnseen cutoff db = ((λ job. refl), (λ locked node_id n now. refl), all_there db.jobs)
  where
    all_there :
        (rows : List JobRow)
        → All
            (λ row. Any (λ other. other ≡ row) rows ⊎ (is_before cutoff row.completed_at ≡ true))
            rows
    all_there [] = tt
    all_there (row ∷ rows) = (
      inl (inl refl),
      All-imp _ _ rows (all_there rows)
          (λ other k. elim k [ inl there ↦ inl (inr there) | inr old ↦ inr old ]),
    )

queue-IsUnseen :
    (cutoff : ℕ) (db d d' : Store)
    → queue d' ≡ queue d
    → IsUnseen cutoff db d
    → IsUnseen cutoff db d'
unfolding candidate_jobs
queue-IsUnseen cutoff db d d' e (decisions, candidates, rows) = (
  (λ job. should_dispatch-queue job d d' e ∙ decisions job),
  (λ locked node_id n now.
      ap
        (λ (q : List JobRow × List ResultRow).
          candidate_jobs locked node_id n now (record d { jobs = q.0 }))
        e
      ∙ candidates locked node_id n now),
  subst
      (λ (q : List JobRow × List ResultRow).
        All (λ row. Any (λ other. other ≡ row) q.0 ⊎ (is_before cutoff row.completed_at ≡ true))
          db.jobs)
      (sym e) rows,
)

-- A purge that succeeds, on a store that the handlers reach from an empty queue, changes no decision
-- to dispatch and no claim's candidates, whatever the job, the node, the rows that are locked and the
-- time; every job is still there as it was or was completed before the cutoff.
pub purge_operational_history-IsUnseen :
    (env : Environment) (db db' : Store) (now : ℕ) (retention : Retention) (interval_days : ℕ)
    (presented : Option String) (summary : PurgeSummary)
    → IsReachable env db
    → purge_operational_history env.sha256_hex env.collate now retention interval_days presented db
      ≡ (ok summary, db')
    → IsUnseen (cutoff_at now retention) db db'
purge_operational_history-IsUnseen env db db' now retention interval_days presented summary
      reachable e =
    let cutoff = cutoff_at now retention in
    elim (purge_operational_history-queue env.sha256_hex env.collate now retention interval_days
      presented db db' summary e) [
        | inl same ↦ queue-IsUnseen cutoff db db db' same (same-IsUnseen cutoff db)
        | inr less ↦
            queue-IsUnseen cutoff db (purge_jobs cutoff db) db' less
              (purge_jobs-IsUnseen cutoff db ((reachable-IsConsistent env db reachable).0))
      ]
