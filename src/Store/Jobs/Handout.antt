-- ===== src/Store/Jobs/Handout.antt =====
-- Claims and reports of any nodes, one after another: what keeps a job from being handed out.
use simple_host_man.Store.Jobs.Report.{completed_jobs, report_job_shape}
use simple_host_man.Store.Jobs.Claim.{claim_jobs_shape}
use simple_host_man.Store.Jobs.Oldest.{AreDispatched-All}
use simple_host_man.Store.{with_transaction_rollback}
use simple_host_man.Prelude.{
  All-map, sort, All-append, eq_iff, All-sort, or-true, filter, All-take, and-true, All, refl, ap,
  ◌≡◌, ◌⊎◌, inl, inr, ℕ, Bool, true, false, not, ◌&&◌, String, Option, some, List, [], ◌∷◌, ◌++◌,
  map, Bool-cases, str_eq,
}
use simple_host_man.Store.Jobs.{
  Dates, claim_jobs_tx, report_job_tx, older, mark_claimed, job_ids, update_where, candidate_jobs,
  any_id, err, ReportedJobResult, ok, Fields, report_job, claim_jobs, StoreError, is_candidate,
  Store, Result, JobRow, JobReportRequest, Crypto, DispatchedJobEnvelope, JobClaimRequest,
}

-- A call of the two handlers, with the rows that other transactions lock and the time of the call.
pub data QueueEvent : Type 0 where
  claim : (String → Bool) → ℕ → JobClaimRequest → Option String → QueueEvent
  report : ℕ → JobReportRequest → Option String → QueueEvent

abbrev pub event_time : QueueEvent → ℕ
event_time (claim locked now request presented) = now
event_time (report now request presented) = now

abbrev pub envelope_ids : List DispatchedJobEnvelope → List String
envelope_ids = map (λ job. job.id)

module _ {Bytes Plain : Type 0} (c : Crypto Bytes Plain) (key : Option Bytes)
    (sha256_hex : String → String) (dates : Dates) where
  abbrev pub handed_out :
      Result StoreError (List DispatchedJobEnvelope) × Store → List String × Store
  handed_out (ok jobs, db) = (envelope_ids jobs, db)
  handed_out (err e, db) = ([], db)

  -- The identifiers of the jobs that the call hands out, and the tables after it.
  unfoldable pub queue_step : QueueEvent → Store → List String × Store
  queue_step (claim locked now request presented) db =
      handed_out (claim_jobs c key sha256_hex locked now request presented db)
  queue_step (report now request presented) db =
      ([], (report_job c key sha256_hex dates now request presented db).1)

  unfoldable pub run_queue : List QueueEvent → Store → List String
  run_queue [] db = []
  run_queue (e ∷ es) db = let (ids, db') = queue_step e db in ids ++ run_queue es db'

  -- A condition `B` on a row that keeps it from being a candidate at the times `Allowed`, and that
  -- completion keeps.
  module _ (ids : List String) (B : JobRow → Type 0) (Allowed : ℕ → Type 0)
      (blocks : (node_id : String) (now : ℕ) (row : JobRow)
        → Allowed now
        → B row
        → is_candidate node_id now row ≡ false)
      (completion_keeps : (row : JobRow) (t : ℕ) (payload : Fields)
        → B row
        → B (record row { completed_at = some t; payload = payload })) where
    -- Every row of these identifiers is blocked.
    abbrev pub IsBlocked : List JobRow → Type 0
    IsBlocked = All (λ row. (any_id row.id ids ≡ false) ⊎ B row)

    blocked_candidate :
        (locked : String → Bool) (node_id : String) (now : ℕ) (row : JobRow)
        → Allowed now
        → (any_id row.id ids ≡ false) ⊎ B row
        → (is_candidate node_id now row && not (locked row.id)) ≡ true
        → any_id row.id ids ≡ false
    blocked_candidate locked node_id now row a (inl out) h = out
    blocked_candidate locked node_id now row a (inr b) h = cc (
      blocks node_id now row a b,
      (and-true {a = is_candidate node_id now row} {b = not (locked row.id)} h).0,
    )

    All-filter_both :
        (locked : String → Bool) (node_id : String) (now : ℕ) (rows : List JobRow)
        → Allowed now
        → IsBlocked rows
        → All
            (λ row. any_id row.id ids ≡ false)
            (filter (λ row. is_candidate node_id now row && not (locked row.id)) rows)
    All-filter_both locked node_id now [] a h = tt
    All-filter_both locked node_id now (row ∷ rows) a h =
        elim (Bool-cases (is_candidate node_id now row && not (locked row.id))) [
          | inl e ↦ rw e (
            blocked_candidate locked node_id now row a h.0 e,
            All-filter_both locked node_id now rows a h.1,
          )
          | inr e ↦ rw e (All-filter_both locked node_id now rows a h.1)
        ]

    candidates_free :
        (locked : String → Bool) (node_id : String) (n now : ℕ) (db : Store)
        → Allowed now
        → IsBlocked db.jobs
        → All (λ row. any_id row.id ids ≡ false) (candidate_jobs locked node_id n now db)
    unfolding candidate_jobs
    candidates_free locked node_id n now db a h =
        All-take _ n _ (All-sort older _ _ (All-filter_both locked node_id now db.jobs a h))

    -- A row with the identifier of one of these rows has none of `ids` either.
    id_free :
        (id : String) (rows : List JobRow)
        → All (λ row. any_id row.id ids ≡ false) rows
        → any_id id (job_ids rows) ≡ true
        → any_id id ids ≡ false
    id_free id [] h e = cc
    id_free id (row ∷ rows) h e = elim (or-true {a = str_eq id row.id} e) [
      | inl same_id ↦ rw ((eq_iff id row.id).0 same_id) h.0
      | inr later ↦ id_free id rows h.1 later
    ]

    marked-IsBlocked :
        (cs : List JobRow) (now : ℕ) (rows : List JobRow)
        → All (λ row. any_id row.id ids ≡ false) cs
        → IsBlocked rows
        → IsBlocked (update_where (λ job. any_id job.id (job_ids cs)) (mark_claimed now) rows)
    marked-IsBlocked cs now [] free h = tt
    marked-IsBlocked cs now (row ∷ rows) free h = elim (Bool-cases (any_id row.id (job_ids cs))) [
      | inl e ↦ rw e (inl (id_free row.id cs free e), marked-IsBlocked cs now rows free h.1)
      | inr e ↦ rw e (h.0, marked-IsBlocked cs now rows free h.1)
    ]

    completed-IsBlocked :
        (result : ReportedJobResult) (payload : Fields) (rows : List JobRow)
        → IsBlocked rows
        → IsBlocked (completed_jobs result payload rows)
    completed-IsBlocked result payload [] h = tt
    completed-IsBlocked result payload (row ∷ rows) h =
        elim (Bool-cases (str_eq row.id result.job_id)) [
          | inl e ↦ rw e (still h.0, completed-IsBlocked result payload rows h.1)
          | inr e ↦ rw e (h.0, completed-IsBlocked result payload rows h.1)
        ]
      where
        still :
            (any_id row.id ids ≡ false) ⊎ B row
            → (any_id row.id ids ≡ false)
              ⊎ B (record row { completed_at = some result.completed_at; payload = payload })
        still (inl out) = inl out
        still (inr b) = inr (completion_keeps row result.completed_at payload b)

    -- What a call may hand out and leave behind.
    abbrev IsSafe : List String × Store → Type 0
    IsSafe (out, db) = All (λ id. any_id id ids ≡ false) out × IsBlocked db.jobs

    envelopes_free :
        (jobs : List DispatchedJobEnvelope)
        → All (λ job. any_id job.id ids ≡ false) jobs
        → All (λ id. any_id id ids ≡ false) (envelope_ids jobs)
    envelopes_free [] h = tt
    envelopes_free (job ∷ jobs) h = (h.0, envelopes_free jobs h.1)

    claim-IsSafe :
        (locked : String → Bool) (now : ℕ) (request : JobClaimRequest) (presented : Option String)
        (db : Store) (r : Result StoreError (List DispatchedJobEnvelope) × Store)
        → claim_jobs c key sha256_hex locked now request presented db ≡ r
        → Allowed now
        → IsBlocked db.jobs
        → IsSafe (handed_out r)
    unfolding claim_jobs
    claim-IsSafe locked now request presented db (err x, db') e a h =
        let same =
          with_transaction_rollback (claim_jobs_tx c key sha256_hex locked now request presented) db
            x (ap (λ (r : Result StoreError (List DispatchedJobEnvelope) × Store). r.0) e) in
        (
          tt,
          rw (← ap (λ (r : Result StoreError (List DispatchedJobEnvelope) × Store). r.1) e, same) h,
        )
    claim-IsSafe locked now request presented db (ok jobs, db') e a h =
        let (dispatched, after, _) =
          claim_jobs_shape c key sha256_hex locked now request presented db db' jobs e in
        let cs = candidate_jobs locked request.node_id request.max_jobs now db in
        let free = candidates_free locked request.node_id request.max_jobs now db a h in
        (
          envelopes_free jobs (
              AreDispatched-All c key _ (sort older (map (mark_claimed now) cs)) jobs dispatched
                (All-sort older _ _ (All-map _ _ (mark_claimed now) cs free (λ row p. p)))
                (λ row job d p. rw (d.0) p)),
          rw after (marked-IsBlocked cs now db.jobs free h),
        )

    report_safe :
        (now : ℕ) (request : JobReportRequest) (presented : Option String) (db : Store)
        (r : Result StoreError (Unit {0}) × Store)
        → report_job c key sha256_hex dates now request presented db ≡ r
        → IsBlocked db.jobs
        → IsBlocked r.1.jobs
    unfolding report_job
    report_safe now request presented db (err x, db') e h =
        let same =
          with_transaction_rollback (report_job_tx c key sha256_hex dates now request presented) db
            x (ap (λ (r : Result StoreError (Unit {0}) × Store). r.0) e) in
        rw (← ap (λ (r : Result StoreError (Unit {0}) × Store). r.1) e, same) h
    report_safe now request presented db (ok tt, db') e h =
        let (stored, decoded, _, _, after, _) =
          report_job_shape c key sha256_hex dates now request presented db db' e in
        rw after (completed-IsBlocked request.result _ db.jobs h)

    step-IsSafe :
        (e : QueueEvent) (db : Store)
        → Allowed (event_time e)
        → IsBlocked db.jobs
        → IsSafe (queue_step e db)
    unfolding queue_step
    step-IsSafe (claim locked now request presented) db a h =
        claim-IsSafe locked now request presented db _ refl a h
    step-IsSafe (report now request presented) db a h =
        (tt, report_safe now request presented db _ refl h)

    pub run_safe :
        (es : List QueueEvent) (db : Store)
        → All (λ e. Allowed (event_time e)) es
        → IsBlocked db.jobs
        → All (λ id. any_id id ids ≡ false) (run_queue es db)
    unfolding run_queue
    run_safe [] db a h = tt
    run_safe (e ∷ es) db a h =
        let (free, next) = step-IsSafe e db a.0 h in All-append _ _ _ free (run_safe es _ a.1 next)
