-- ===== src/Store/Jobs/Oldest.antt =====
-- The order in which a claim serves the waiting jobs of a node.
use mathlib.Core.List.Perm
use simple_host_man.Store.Jobs.Claim.{claim_jobs_shape, Describes, AreDispatched}
use simple_host_man.Store.{ok, Store, JobRow}
use simple_host_man.Payload.Envelope.{Crypto}
use simple_host_man.Store.Jobs.{
  claim_jobs, JobClaimRequest, mark_claimed, older, DispatchedJobEnvelope, candidate_jobs,
  is_candidate,
}
use simple_host_man.Prelude.{
  map-sort, sort-perm, ◌++◌, Perm, length-sort, sort-IsSorted, All-filter, All-take, All-sort, sort,
  All-drop, All-imp, drop, leb→le, take, All, filter, IsSorted, eq_iff, length, refl, ap, ◌∙◌, ◌≡◌,
  ℕ, zero, suc, ◌≤◌, Bool, true, false, not, ◌&&◌, String, Option, List, [], ◌∷◌, map, arith,
}
use simple_host_man.Prelude.{min}

module _ {Bytes Plain : Type 0} (c : Crypto Bytes Plain) (key : Option Bytes) where
  -- What holds of the rows holds of the envelopes that they are sent as.
  pub AreDispatched-All {κ} :
      {P : JobRow → Type 0} (Q : DispatchedJobEnvelope → Type κ) (rows : List JobRow)
      (jobs : List DispatchedJobEnvelope)
      → AreDispatched c key rows jobs
      → All P rows
      → ((row : JobRow) (job : DispatchedJobEnvelope) → Describes c key row job → P row → Q job)
      → All Q jobs
  AreDispatched-All Q [] [] d h f = tt
  AreDispatched-All Q [] (job ∷ jobs) d h f = absurd d
  AreDispatched-All Q (row ∷ rows) [] d h f = absurd d
  AreDispatched-All Q (row ∷ rows) (job ∷ jobs) d h f =
      (f row job d.0 h.0, AreDispatched-All Q rows jobs d.1 h.1 f)

  AreDispatched-length :
      (rows : List JobRow) (jobs : List DispatchedJobEnvelope)
      → AreDispatched c key rows jobs
      → length jobs ≡ length rows
  AreDispatched-length [] [] d = refl
  AreDispatched-length [] (job ∷ jobs) d = absurd d
  AreDispatched-length (row ∷ rows) [] d = absurd d
  AreDispatched-length (row ∷ rows) (job ∷ jobs) d = ap suc (AreDispatched-length rows jobs d.1)

  -- A row is sent alike before and after it is marked.
  AreDispatched-mark :
      (now : ℕ) (rows : List JobRow) (jobs : List DispatchedJobEnvelope)
      → AreDispatched c key (map (mark_claimed now) rows) jobs
      → AreDispatched c key rows jobs
  AreDispatched-mark now [] [] d = tt
  AreDispatched-mark now [] (job ∷ jobs) d = d
  AreDispatched-mark now (row ∷ rows) [] d = d
  AreDispatched-mark now (row ∷ rows) (job ∷ jobs) d = (d.0, AreDispatched-mark now rows jobs d.1)

  -- Each job was created no later than those that follow it.
  abbrev pub AreOldestFirst : List DispatchedJobEnvelope → Type 0
  AreOldestFirst [] = Unit
  AreOldestFirst (job ∷ jobs) =
      All (λ later. job.created_at ≤ later.created_at) jobs × AreOldestFirst jobs

  AreDispatched-IsSorted :
      (rows : List JobRow) (jobs : List DispatchedJobEnvelope)
      → AreDispatched c key rows jobs
      → IsSorted older rows
      → AreOldestFirst jobs
  AreDispatched-IsSorted [] [] d h = tt
  AreDispatched-IsSorted [] (job ∷ jobs) d h = absurd d
  AreDispatched-IsSorted (row ∷ rows) [] d h = absurd d
  AreDispatched-IsSorted (row ∷ rows) (job ∷ jobs) d h = (
    AreDispatched-All (λ later. job.created_at ≤ later.created_at) rows jobs d.1 h.0
        (λ r j q p. rw (d.0.4, q.4) (leb→le _ _ p)),
    AreDispatched-IsSorted rows jobs d.1 h.1,
  )

older_total : (x y : JobRow) → older x y ≡ false → older y x ≡ true
older_total x y h = ground arith

older_trans : (x y z : JobRow) → older x y ≡ true → older y z ≡ true → older x z ≡ true
older_trans x y z h k = ground arith

-- A prefix of a sorted list comes before the rest.
take-before-drop :
    (n : ℕ) (rows : List JobRow)
    → IsSorted older rows
    → All (λ x. All (λ y. x.created_at ≤ y.created_at) (drop n rows)) (take n rows)
take-before-drop zero rows h = tt
take-before-drop (suc n) [] h = tt
take-before-drop (suc n) (row ∷ rows) h = (
  All-imp _ _ (drop n rows) (All-drop _ n rows h.0) (λ y p. leb→le _ _ p),
  take-before-drop n rows h.1,
)

length-take : (n : ℕ) (rows : List JobRow) → length (take n rows) ≡ min n (length rows)
length-take zero rows = omega arith
length-take (suc n) [] = omega arith
length-take (suc n) (x ∷ rows) = omega (arith, length-take n rows)

take-append-drop : (n : ℕ) (rows : List JobRow) → take n rows ++ drop n rows ≡ rows
take-append-drop zero rows = refl
take-append-drop (suc n) [] = refl
take-append-drop (suc n) (row ∷ rows) = ap (λ rest. row ∷ rest) (take-append-drop n rows)

-- The rows that are taken and those that are left are the rows.
split-Perm :
    (n : ℕ) (rows : List JobRow)
    → Perm (sort older (take n (sort older rows)) ++ drop n (sort older rows)) rows
split-Perm n rows =
    Perm.trans
      (Perm.append_right (drop n (sort older rows)) (sort-perm older (take n (sort older rows))))
      (rw (take-append-drop n (sort older rows)) (sort-perm older rows))

-- The jobs that a claim may hand out: the node's own, not finished, claimable, and not locked.
abbrev pub waiting_jobs : (String → Bool) → String → ℕ → Store → List JobRow
waiting_jobs locked node_id now db =
    filter (λ job. is_candidate node_id now job && not (locked job.id)) db.jobs

waiting-node :
    (locked : String → Bool) (node_id : String) (now : ℕ) (job : JobRow)
    → (is_candidate node_id now job && not (locked job.id)) ≡ true
    → job.node_id ≡ node_id
unfolding is_candidate
waiting-node locked node_id now job h = ground (arith, eq_iff job.node_id node_id)

module _ {Bytes Plain : Type 0} (c : Crypto Bytes Plain) (key : Option Bytes)
    (sha256_hex : String → String) where
  -- A claim that succeeds splits the waiting jobs into those that it hands out, each once and with
  -- its own identifier, version, kind, node, time and decrypted payload, and those that are left. It
  -- hands out as many as were asked for, or all if they are fewer; they are the node's own, oldest
  -- first, and no job that is left is older than one that is handed out.
  pub claim_jobs_oldest :
      (locked : String → Bool) (now : ℕ) (request : JobClaimRequest) (presented : Option String)
      (db db' : Store) (jobs : List DispatchedJobEnvelope)
      → claim_jobs c key sha256_hex locked now request presented db ≡ (ok jobs, db')
      → let waiting = waiting_jobs locked request.node_id now db in
        (taken : List JobRow) × (left : List JobRow) × Perm (taken ++ left) waiting
        × AreDispatched c key taken jobs
        × (length jobs ≡ min request.max_jobs (length waiting))
        × All (λ job. job.node_id ≡ request.node_id) jobs
        × AreOldestFirst c key jobs
        × All (λ job. All (λ row. job.created_at ≤ row.created_at) left) jobs
  unfolding candidate_jobs
  claim_jobs_oldest locked now request presented db db' jobs e =
      let (marked, _, _) =
        claim_jobs_shape c key sha256_hex locked now request presented db db' jobs e in
      let waiting = waiting_jobs locked request.node_id now db in
      let n = request.max_jobs in
      let cs = take n (sort older waiting) in
      let left = drop n (sort older waiting) in
      let rows = sort older cs in
      let dispatched : AreDispatched c key rows jobs =
        AreDispatched-mark c key now rows jobs
          (rw (map-sort older (mark_claimed now) (λ x y. refl) cs) marked) in
      let own : All (λ row. row.node_id ≡ request.node_id) rows = All-sort older _ _ (
        All-take _ n _ (
          All-sort older _ waiting (
            All-filter (λ row. row.node_id ≡ request.node_id) _ db.jobs
              (waiting-node locked request.node_id now)))) in
      let before : All (λ row. All (λ y. row.created_at ≤ y.created_at) left) rows =
        All-sort older _ _ (
          take-before-drop n (sort older waiting)
            (sort-IsSorted older older_total older_trans waiting)) in
      (
        rows,
        left,
        split-Perm n waiting,
        dispatched,
        AreDispatched-length c key rows jobs dispatched
            ∙ length-sort older cs
            ∙ length-take n (sort older waiting)
            ∙ ap (min n) (length-sort older waiting),
        AreDispatched-All c key _ rows jobs dispatched own (λ row job d p. d.3 ∙ p),
        AreDispatched-IsSorted c key rows jobs dispatched
            (sort-IsSorted older older_total older_trans cs),
        AreDispatched-All c key _ rows jobs dispatched before (λ row job d p. rw (d.4) p),
      )
