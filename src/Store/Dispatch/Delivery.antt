-- ===== src/Store/Dispatch/Delivery.antt =====
-- What is dispatched to a node is what the node's claim hands out.
use simple_host_man.Store.Jobs.Oldest.{waiting_jobs}
use simple_host_man.Store.Dispatch.{insert_dispatched_jobs, dispatched_row, QueuedDispatchJob}
use simple_host_man.Store.Jobs.{
  older, claim_jobs, JobClaimRequest, mark_claimed, is_claimable, candidate_jobs, is_candidate,
  DispatchedJobEnvelope,
}
use simple_host_man.Payload.{obj, Json, Fields}
use simple_host_man.Store.{Store, ok, Result, JobRow}
use simple_host_man.Payload.Envelope.{
  decode-encode_keyed, decode_stored_job_payload, PayloadError, CryptoLaws, Crypto,
}
use simple_host_man.Prelude.{
  Any-sort, length-sort, take-all, Any-filter, Any-append_last, sort, take, length, eq_refl, Any,
  refl, sym, ap, ◌∙◌, ◌≡◌, inl, inr, ℕ, ◌≤◌, Bool, true, false, String, Option, some, List, [], ◌∷◌,
  map, arith,
}
use simple_host_man.Store.Jobs.Claim.{claim_jobs_shape, AreDispatched, Describes}
use simple_host_man.Store.Dispatch.Drift.{insert_one-jobs}

same_envelope :
    (a b : DispatchedJobEnvelope)
    → a.id ≡ b.id
    → a.desired_state_version ≡ b.desired_state_version
    → a.kind ≡ b.kind
    → a.node_id ≡ b.node_id
    → a.created_at ≡ b.created_at
    → a.payload ≡ b.payload
    → a ≡ b
same_envelope a b h1 h2 h3 h4 h5 h6 = λ i. record {
  id = h1 i;
  desired_state_version = h2 i;
  kind = h3 i;
  node_id = h4 i;
  created_at = h5 i;
  payload = h6 i;
}

Any-mark :
    (P Q : JobRow → Type 0) (g : JobRow → JobRow) (rows : List JobRow)
    → ((row : JobRow) → P row → Q (g row))
    → Any P rows
    → Any Q (map g rows)
Any-mark P Q g [] f h = h
Any-mark P Q g (row ∷ rows) f (inl p) = inl (f row p)
Any-mark P Q g (row ∷ rows) f (inr k) = inr (Any-mark P Q g rows f k)

payload_of_ok : {a b : Fields} → ◌≡◌ {A = Result PayloadError Fields} (ok a) (ok b) → a ≡ b
payload_of_ok h = cc

module _ {Bytes Plain : Type 0} (c : Crypto Bytes Plain) (IsJson : Json → Type 0)
    (laws : CryptoLaws c IsJson) (key : Bytes) (iv : String → Bytes) where
  AreDispatched-Any :
      (P : JobRow → Type 0) (Q : DispatchedJobEnvelope → Type 0) (rows : List JobRow)
      (jobs : List DispatchedJobEnvelope)
      → AreDispatched c (some key) rows jobs
      → ((row : JobRow) (job : DispatchedJobEnvelope)
          → Describes c (some key) row job
          → P row
          → Q job)
      → Any P rows
      → Any Q jobs
  AreDispatched-Any P Q [] [] d f h = h
  AreDispatched-Any P Q [] (job ∷ jobs) d f h = absurd d
  AreDispatched-Any P Q (row ∷ rows) [] d f h = absurd d
  AreDispatched-Any P Q (row ∷ rows) (job ∷ jobs) d f (inl p) = inl (f row job d.0 p)
  AreDispatched-Any P Q (row ∷ rows) (job ∷ jobs) d f (inr k) =
      inr (AreDispatched-Any P Q rows jobs d.1 f k)

  new_is_candidate :
      (actor : Option String) (reason : String) (job : QueuedDispatchJob) (node_id : String)
      (now : ℕ)
      → job.envelope.node_id ≡ node_id
      → is_candidate node_id now (dispatched_row c (some key) iv actor reason job) ≡ true
  unfolding is_candidate is_claimable
  new_is_candidate actor reason job node_id now e = rw (e, eq_refl node_id) refl

  Describes-envelope :
      (actor : Option String) (reason : String) (job : QueuedDispatchJob) (now : ℕ)
      → IsJson (obj job.envelope.payload)
      → (row : JobRow) (sent : DispatchedJobEnvelope) → Describes c (some key) row sent
      → row ≡ mark_claimed now (dispatched_row c (some key) iv actor reason job)
      → sent ≡ job.envelope
  Describes-envelope actor reason job now json row sent (d1, d2, d3, d4, d5, d6) e =
      same_envelope sent job.envelope (d1 ∙ ap (λ (r : JobRow). r.id) e)
        (d2 ∙ ap (λ (r : JobRow). r.desired_state_version) e) (d3 ∙ ap (λ (r : JobRow). r.kind) e)
        (d4 ∙ ap (λ (r : JobRow). r.node_id) e) (d5 ∙ ap (λ (r : JobRow). r.created_at) e)
        (payload_of_ok (
          sym d6
          ∙ ap (λ (r : JobRow). decode_stored_job_payload c r.payload (some key)) e
          ∙ decode-encode_keyed c IsJson laws (iv job.envelope.id) key job.envelope.payload json))

  module _ (sha256_hex : String → String) where
    -- After a job whose payload JSON can carry is dispatched under a key, the next claim of its node
    -- that succeeds, asks for at least as many jobs as are waiting and does not find the job's row
    -- locked hands out the job as it was queued, with its payload readable.
    pub dispatched-delivered :
        (inventory : List (String × String)) (t : ℕ) (job : QueuedDispatchJob)
        (actor : Option String) (reason : String) (db db1 db2 : Store) (locked : String → Bool)
        (now : ℕ) (request : JobClaimRequest) (presented : Option String)
        (jobs : List DispatchedJobEnvelope)
        → IsJson (obj job.envelope.payload)
        → insert_dispatched_jobs c (some key) iv inventory t (job ∷ []) actor reason db
          ≡ ok (tt, db1)
        → claim_jobs c (some key) sha256_hex locked now request presented db1 ≡ (ok jobs, db2)
        → job.envelope.node_id ≡ request.node_id
        → locked job.envelope.id ≡ false
        → length (waiting_jobs locked request.node_id now db1) ≤ request.max_jobs
        → Any (λ sent. sent ≡ job.envelope) jobs
    unfolding candidate_jobs
    dispatched-delivered inventory t job actor reason db db1 db2 locked now request presented jobs
          json e k own free enough =
        let new = dispatched_row c (some key) iv actor reason job in
        let (dispatched, _, _) =
          claim_jobs_shape c (some key) sha256_hex locked now request presented db1 db2 jobs k in
        let waiting = waiting_jobs locked request.node_id now db1 in
        let cs = take request.max_jobs (sort older waiting) in
        let stored : Any (λ row. row ≡ new) db1.jobs =
          rw (insert_one-jobs c (some key) iv inventory t job actor reason db db1 e)
            (Any-append_last (λ row. row ≡ new) db.jobs new refl) in
        let is_waiting : Any (λ row. row ≡ new) waiting =
          Any-filter (λ row. row ≡ new) _ db1.jobs
            (λ row p.
              rw p (rw (new_is_candidate actor reason job request.node_id now own, free) refl))
            stored in
        let chosen : Any (λ row. row ≡ new) cs =
          rw
            (take-all request.max_jobs (sort older waiting)
              (omega (arith, enough, length-sort older waiting)))
            (Any-sort older (λ row. row ≡ new) waiting is_waiting) in
        AreDispatched-Any (λ row. row ≡ mark_claimed now new) (λ sent. sent ≡ job.envelope)
          (sort older (map (mark_claimed now) cs)) jobs dispatched
          (Describes-envelope actor reason job now json)
          (Any-sort older (λ row. row ≡ mark_claimed now new) (map (mark_claimed now) cs)
            (Any-mark (λ row. row ≡ new) (λ row. row ≡ mark_claimed now new) (mark_claimed now) cs
              (λ row p. ap (mark_claimed now) p) chosen))
