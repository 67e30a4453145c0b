-- ===== src/Store/Jobs/Claim.antt =====
-- What a claim hands out: the node's own unfinished jobs, the oldest first, at most as many as it
-- asked for.
use simple_host_man.Store.Jobs.Queue.{
  queue, Keeps-insert_audit_event, Keeps-authenticate_node, Keeps-touch_claiming_node,
}
use simple_host_man.Payload.Envelope.{decode_stored_job_payload, PayloadError, Crypto}
use simple_host_man.Store.Jobs.{
  job_ids, any_id, update_where, mark_claimed, older, claim_jobs_tx, claim_candidates, claim_jobs,
  lift, DispatchedJobEnvelope, to_dispatched_job, JobClaimRequest, to_dispatched_jobs,
  candidate_jobs,
}
use simple_host_man.Store.{
  ResultRow, with_transaction_ok, err, Fields, ok-value, >>=-eq-ok, ok-store, ok, Result, JobRow,
  Store,
}
use simple_host_man.Prelude.{
  sort, sym, ap, ◌∙◌, ◌≡◌, ℕ, Bool, false, String, Option, List, [], ◌∷◌, map,
}

pub lift_ok :
    (r : Result PayloadError Fields) (db db' : Store) (payload : Fields)
    → lift r db ≡ ok (payload, db')
    → (r ≡ ok payload) × (db ≡ db')
lift_ok (ok p) db db' payload e = (cc, cc)
lift_ok (err x) db db' payload e = cc

-- The envelopes, in order, are those of the rows.
module _ {Bytes Plain : Type 0} (c : Crypto Bytes Plain) (key : Option Bytes) where
  abbrev pub Describes : JobRow → DispatchedJobEnvelope → Type 0
  Describes row job =
      (job.id ≡ row.id)
      × (job.desired_state_version ≡ row.desired_state_version)
      × (job.kind ≡ row.kind)
      × (job.node_id ≡ row.node_id)
      × (job.created_at ≡ row.created_at)
      × (decode_stored_job_payload c row.payload key ≡ ok job.payload)

  abbrev pub AreDispatched : List JobRow → List DispatchedJobEnvelope → Type 0
  AreDispatched [] [] = Unit
  AreDispatched [] (job ∷ jobs) = ⊥
  AreDispatched (row ∷ rows) [] = ⊥
  AreDispatched (row ∷ rows) (job ∷ jobs) = Describes row job × AreDispatched rows jobs

  to_dispatched_job_ok :
      (row : JobRow) (db db' : Store) (job : DispatchedJobEnvelope)
      → to_dispatched_job c key false row db ≡ ok (job, db')
      → Describes row job × (db ≡ db')
  unfolding to_dispatched_job
  to_dispatched_job_ok row db db' job e =
      let (payload, d, e1, h) = >>=-eq-ok _ _ db e in
      let (decoded, same_db) = lift_ok _ db d payload e1 in
      let j = ok-value h in
      (
        (
          ap (λ (x : DispatchedJobEnvelope). x.id) (sym j),
          ap (λ (x : DispatchedJobEnvelope). x.desired_state_version) (sym j),
          ap (λ (x : DispatchedJobEnvelope). x.kind) (sym j),
          ap (λ (x : DispatchedJobEnvelope). x.node_id) (sym j),
          ap (λ (x : DispatchedJobEnvelope). x.created_at) (sym j),
          decoded ∙ ap ok (ap (λ (x : DispatchedJobEnvelope). x.payload) j),
        ),
        same_db ∙ ok-store h,
      )

  to_dispatched_jobs_ok :
      (rows : List JobRow) (db db' : Store) (jobs : List DispatchedJobEnvelope)
      → to_dispatched_jobs c key rows db ≡ ok (jobs, db')
      → AreDispatched rows jobs × (db ≡ db')
  unfolding to_dispatched_jobs
  to_dispatched_jobs_ok [] db db' jobs e = rw (← ok-value e) (tt, ok-store e)
  to_dispatched_jobs_ok (row ∷ rows) db db' jobs e =
      let (j, d1, e1, h1) = >>=-eq-ok _ _ db e in
      let (js, d2, e2, h2) = >>=-eq-ok _ _ d1 h1 in
      let (a, same1) = to_dispatched_job_ok row db d1 j e1 in
      let (b, same2) = to_dispatched_jobs_ok rows d1 d2 js e2 in
      rw (← ok-value h2) ((a, b), same1 ∙ same2 ∙ ok-store h2)

candidate_jobs-eq :
    (locked : String → Bool) (node_id : String) (n now : ℕ) (db db' : Store)
    → db'.jobs ≡ db.jobs
    → candidate_jobs locked node_id n now db' ≡ candidate_jobs locked node_id n now db
unfolding candidate_jobs
candidate_jobs-eq locked node_id n now db db' e = rw e

claim_candidates_ok :
    (now : ℕ) (cs : List JobRow) (db db' : Store) (rows : List JobRow)
    → claim_candidates now cs db ≡ ok (rows, db')
    → (rows ≡ sort older (map (mark_claimed now) cs))
      × (db'.jobs ≡ update_where (λ job. any_id job.id (job_ids cs)) (mark_claimed now) db.jobs)
      × (db'.job_results ≡ db.job_results)
unfolding claim_candidates
claim_candidates_ok now cs db db' rows e = (sym (ok-value e), rw (← ok-store e), rw (← ok-store e))

module _ {Bytes Plain : Type 0} (c : Crypto Bytes Plain) (key : Option Bytes)
    (sha256_hex : String → String) where
  -- A claim that succeeds hands out the candidates of the tables as it found them, and marks them.
  pub claim_jobs_shape :
      (locked : String → Bool) (now : ℕ) (request : JobClaimRequest) (presented : Option String)
      (db db' : Store) (jobs : List DispatchedJobEnvelope)
      → claim_jobs c key sha256_hex locked now request presented db ≡ (ok jobs, db')
      → let cs = candidate_jobs locked request.node_id request.max_jobs now db in
        AreDispatched c key (sort older (map (mark_claimed now) cs)) jobs
        × (db'.jobs ≡ update_where (λ job. any_id job.id (job_ids cs)) (mark_claimed now) db.jobs)
        × (db'.job_results ≡ db.job_results)
  unfolding claim_jobs claim_jobs_tx
  claim_jobs_shape locked now request presented db db' jobs e =
      let tx =
        with_transaction_ok (claim_jobs_tx c key sha256_hex locked now request presented) db db'
          jobs e in
      let (_, d1, e1, h1) = >>=-eq-ok _ _ db tx in
      let (_, d2, e2, h2) = >>=-eq-ok _ _ d1 h1 in
      let (cs, d3, e3, h3) = >>=-eq-ok _ _ d2 h2 in
      let (rows, d4, e4, h4) = >>=-eq-ok _ _ d3 h3 in
      let (_, d5, e5, h5) = >>=-eq-ok _ _ d4 h4 in
      let before : queue d2 ≡ queue db =
        Keeps-touch_claiming_node request now d1 d2 tt e2
        ∙ Keeps-authenticate_node sha256_hex request.node_id now presented db d1 tt e1 in
      let same_cs =
        sym (ok-value e3)
        ∙ candidate_jobs-eq locked request.node_id request.max_jobs now db d2
            (ap (λ (q : List JobRow × List ResultRow). q.0) before) in
      let (rows_eq, jobs_eq, results_eq) = claim_candidates_ok now cs d3 d4 rows e4 in
      let (dispatched, same_db) = to_dispatched_jobs_ok c key rows d5 db' jobs h5 in
      let last : queue db' ≡ queue d4 =
        ap queue (sym same_db) ∙ Keeps-insert_audit_event _ d4 d5 tt e5 in
      let first : queue d3 ≡ queue db = ap queue (sym (ok-store e3)) ∙ before in
      (
        rw (← same_cs, ← rows_eq) dispatched,
        rw (← same_cs) (
            ap (λ (q : List JobRow × List ResultRow). q.0) last
            ∙ jobs_eq
            ∙ ap
                (λ (q : List JobRow × List ResultRow).
                  update_where (λ job. any_id job.id (job_ids cs)) (mark_claimed now) q.0)
                first),
        ap (λ (q : List JobRow × List ResultRow). q.1) last
            ∙ results_eq
            ∙ ap (λ (q : List JobRow × List ResultRow). q.1) first,
      )
