-- ===== src/Store/Jobs/Once.antt =====
-- How often a job is handed out: once while its claim is fresh, never again after its report.
use simple_host_man.Store.Jobs.Oldest.{AreDispatched-All}
use simple_host_man.Store.Jobs.Report.{report_job_shape, completed_jobs}
use simple_host_man.Store.Jobs.Claim.{claim_jobs_shape, AreDispatched}
use simple_host_man.Payload.Envelope.{Crypto}
use simple_host_man.Store.Jobs.{
  Dates, strip_fields, candidate_jobs, update_where, mark_claimed, claim_jobs, report_job, older,
  JobClaimRequest, JobReportRequest, reclaimable_job_claim_timeout_ms, job_ids, is_none,
  is_claimable, DispatchedJobEnvelope, is_candidate, ReportedJobResult,
}
use simple_host_man.Store.{ok, Store, Fields, JobRow}
use simple_host_man.Store.Tables.{any_id}
use simple_host_man.Prelude.{
  All-tabulate, All-imp, All-map, All-sort, or-false, sort, All, eq_iff, refl, ◌≡◌, ◌≢◌, ◌⊎◌, inl,
  inr, ℕ, ◌+◌, ◌≤◌, Bool, false, String, Option, some, List, [], ◌∷◌, map, arith, Bool-cases,
  str_eq,
}
use simple_host_man.Store.Jobs.Handout.{event_time, run_queue, QueueEvent, envelope_ids, run_safe}

-- A row that is claimed at `t` is no candidate until the claim times out.
claimed-blocks :
    (t : ℕ) (node_id : String) (now : ℕ) (row : JobRow)
    → now ≤ t + reclaimable_job_claim_timeout_ms
    → row.claimed_at ≡ some t
    → is_candidate node_id now row ≡ false
unfolding is_candidate is_claimable
claimed-blocks t node_id now row a b = rw b (ground arith)

completed-blocks :
    (node_id : String) (now : ℕ) (row : JobRow)
    → is_none row.completed_at ≡ false
    → is_candidate node_id now row ≡ false
unfolding is_candidate
completed-blocks node_id now row b = rw b (ground arith)

-- An identifier that no row has is on no envelope.
rows_without :
    (id : String) (rows : List JobRow)
    → any_id id (job_ids rows) ≡ false
    → All (λ row. str_eq id row.id ≡ false) rows
rows_without id [] h = tt
rows_without id (row ∷ rows) h =
    let (first, later) = or-false {a = str_eq id row.id} h in (first, rows_without id rows later)

envelopes_without :
    (id : String) (jobs : List DispatchedJobEnvelope)
    → All (λ job. str_eq id job.id ≡ false) jobs
    → any_id id (envelope_ids jobs) ≡ false
envelopes_without id [] h = refl
envelopes_without id (job ∷ jobs) h = rw h.0 (envelopes_without id jobs h.1)

module _ {Bytes Plain : Type 0} (c : Crypto Bytes Plain) (key : Option Bytes) where
  dispatched_without :
      (id : String) (now : ℕ) (cs : List JobRow) (jobs : List DispatchedJobEnvelope)
      → AreDispatched c key (sort older (map (mark_claimed now) cs)) jobs
      → any_id id (job_ids cs) ≡ false
      → any_id id (envelope_ids jobs) ≡ false
  dispatched_without id now cs jobs d h = envelopes_without id jobs (
      AreDispatched-All c key _ (sort older (map (mark_claimed now) cs)) jobs d
        (All-sort older _ _ (
          All-map _ (λ row. str_eq id row.id ≡ false) (mark_claimed now) cs (rows_without id cs h)
            (λ row p. p)))
        (λ row job e p. rw (e.0) p))

  claimed_blocked :
      (now : ℕ) (cs rows : List JobRow) (jobs : List DispatchedJobEnvelope)
      → AreDispatched c key (sort older (map (mark_claimed now) cs)) jobs
      → All
          (λ row. (any_id row.id (envelope_ids jobs) ≡ false) ⊎ (row.claimed_at ≡ some now))
          (update_where (λ job. any_id job.id (job_ids cs)) (mark_claimed now) rows)
  claimed_blocked now cs [] jobs d = tt
  claimed_blocked now cs (row ∷ rows) jobs d = elim (Bool-cases (any_id row.id (job_ids cs))) [
    | inl e ↦ rw e (inr refl, claimed_blocked now cs rows jobs d)
    | inr e ↦
        rw e (inl (dispatched_without row.id now cs jobs d e), claimed_blocked now cs rows jobs d)
  ]

completed_not_none :
    (result : ReportedJobResult) (payload : Fields) (rows : List JobRow)
    → All
        (λ row. (any_id row.id (result.job_id ∷ []) ≡ false) ⊎ (is_none row.completed_at ≡ false))
        (completed_jobs result payload rows)
completed_not_none result payload [] = tt
completed_not_none result payload (row ∷ rows) = elim (Bool-cases (str_eq row.id result.job_id)) [
  | inl e ↦ rw e (inr refl, completed_not_none result payload rows)
  | inr e ↦ rw e (inl (ground arith), completed_not_none result payload rows)
]

differs : (id other : String) → any_id id (other ∷ []) ≡ false → id ≢ other
differs id other h same = ground (arith, eq_iff id other)

module _ {Bytes Plain : Type 0} (c : Crypto Bytes Plain) (key : Option Bytes)
    (sha256_hex : String → String) (dates : Dates) where
  -- After a claim at a time `t` that succeeds, the claims and reports of any nodes that follow up to
  -- the claim timeout, 300 000 ms later, hand out none of the jobs that it handed out, whichever of
  -- them fail and whichever rows other transactions lock.
  pub claim_jobs_once :
      (locked : String → Bool) (t : ℕ) (request : JobClaimRequest) (presented : Option String)
      (db db' : Store) (jobs : List DispatchedJobEnvelope)
      → claim_jobs c key sha256_hex locked t request presented db ≡ (ok jobs, db')
      → (later : List QueueEvent)
      → All (λ e. event_time e ≤ t + reclaimable_job_claim_timeout_ms) later
      → All
          (λ id. any_id id (envelope_ids jobs) ≡ false)
          (run_queue c key sha256_hex dates later db')
  claim_jobs_once locked t request presented db db' jobs e later in_time =
      let (dispatched, after, _) =
        claim_jobs_shape c key sha256_hex locked t request presented db db' jobs e in
      let cs = candidate_jobs locked request.node_id request.max_jobs t db in
      run_safe c key sha256_hex dates (envelope_ids jobs) (λ row. row.claimed_at ≡ some t)
        (λ now. now ≤ t + reclaimable_job_claim_timeout_ms) (claimed-blocks t)
        (λ row at payload b. b) later db' in_time
        (rw after (claimed_blocked c key t cs db.jobs jobs dispatched))

  -- After a report that succeeds, no sequence of claims and reports, of any nodes and at any times,
  -- hands out the reported job again.
  pub report_job_final :
      (now : ℕ) (request : JobReportRequest) (presented : Option String) (db db' : Store)
      → report_job c key sha256_hex dates now request presented db ≡ (ok tt, db')
      → (later : List QueueEvent)
      → All (λ id. id ≢ request.result.job_id) (run_queue c key sha256_hex dates later db')
  report_job_final now request presented db db' e later =
      let (stored, decoded, _, _, after, _) =
        report_job_shape c key sha256_hex dates now request presented db db' e in
      All-imp _ _ _
        (run_safe c key sha256_hex dates (request.result.job_id ∷ [])
          (λ row. is_none row.completed_at ≡ false) (λ now. Unit {0})
          (λ node_id now row a b. completed-blocks node_id now row b) (λ row at payload b. refl)
          later db' (All-tabulate _ later (λ e. tt))
          (rw after (completed_not_none request.result (strip_fields decoded) db.jobs)))
        (λ id h. differs id request.result.job_id h)
