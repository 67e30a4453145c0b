-- ===== src/Store/Lifecycle/Consistency.antt =====
-- The jobs and the recorded results stay consistent.
use simple_host_man.Store.History.Purge.{find-filter}
use simple_host_man.Store.History.{purged_ids, purge_jobs}
use simple_host_man.Store.Jobs.Report.{completed_jobs, recorded_results}
use simple_host_man.Store.Lifecycle.Effects.{Step-Effect, Effect, IsQueued, AreFresh}
use simple_host_man.Store.Jobs.{
  candidate_jobs, result_row, mark_claimed, ReportedJobResult, job_ids,
}
use simple_host_man.Store.Lifecycle.{queue, IsReachable, IsConsistent, Environment, Queue, IsUnique}
use simple_host_man.Store.Tables.{find-upsert, upsert, update_where, any_id}
use simple_host_man.Store.{Fields, Store, JobRow, ResultRow}
use simple_host_man.Prelude.{
  All-filter, All-filter_keep, All-zip, not, filter, eq_refl, find-append_miss, append_assoc,
  All-imp, append-nil, All-append, str_eq_sym, or-false, eq_iff, any, find, All, refl, sym, ap, ◌∙◌,
  ◌≡◌, inl, inr, ℕ, Bool, true, false, ◌||◌, String, none, some, List, [], ◌∷◌, ◌++◌, if◌then◌else◌,
  arith, Bool-cases, str_eq,
}

module _ {ℓ} {A : Type ℓ} (q : A → Bool) (f : A → A) where
  All-update_where {κ} :
      (P Q : A → Type κ) (rows : List A)
      → All P rows
      → ((row : A) → q row ≡ true → P row → Q (f row))
      → ((row : A) → q row ≡ false → P row → Q row)
      → All Q (update_where q f rows)
  All-update_where P Q [] h hit miss = tt
  All-update_where P Q (row ∷ rows) h hit miss = elim (Bool-cases (q row)) [
    | inl e ↦ rw e (hit row e h.0, All-update_where P Q rows h.1 hit miss)
    | inr e ↦ rw e (miss row e h.0, All-update_where P Q rows h.1 hit miss)
  ]

  -- A test that the updated rows fail finds the same row before and after.
  find-update_where_other :
      (p : A → Bool) (rows : List A)
      → ((row : A) → q row ≡ true → p row ≡ false)
      → ((row : A) → q row ≡ true → p (f row) ≡ false)
      → find p (update_where q f rows) ≡ find p rows
  find-update_where_other p [] before after = refl
  find-update_where_other p (row ∷ rows) before after = elim (Bool-cases (q row)) [
    | inl e ↦ rw (e, after row e, before row e) (find-update_where_other p rows before after)
    | inr e ↦ rw e (
        ap (λ found. if p row then some row else found)
          (find-update_where_other p rows before after))
  ]

job_ids-update_where :
    (q : JobRow → Bool) (f : JobRow → JobRow) (jobs : List JobRow)
    → ((job : JobRow) → (f job).id ≡ job.id)
    → job_ids (update_where q f jobs) ≡ job_ids jobs
job_ids-update_where q f [] keeps = refl
job_ids-update_where q f (job ∷ jobs) keeps = elim (Bool-cases (q job)) [
  | inl e ↦ rw (e, keeps job) (ap (λ ids. job.id ∷ ids) (job_ids-update_where q f jobs keeps))
  | inr e ↦ rw e (ap (λ ids. job.id ∷ ids) (job_ids-update_where q f jobs keeps))
]

any_id-append :
    (id : String) (jobs : List JobRow) (new : JobRow)
    → any_id id (job_ids (jobs ++ new ∷ [])) ≡ (any_id id (job_ids jobs) || str_eq id new.id)
any_id-append id [] new = elim (Bool-cases (str_eq id new.id)) [
  | inl e ↦ rw e refl
  | inr e ↦ rw e refl
]
any_id-append id (job ∷ jobs) new = ground (arith, any_id-append id jobs new)

any_id_of_row :
    (id : String) (jobs : List JobRow)
    → any (λ row. str_eq row.id id) jobs ≡ any_id id (job_ids jobs)
any_id_of_row id [] = refl
any_id_of_row id (job ∷ jobs) = rw (str_eq_sym job.id id, any_id_of_row id jobs) refl

any_id_of_find :
    (id : String) (jobs : List JobRow) (job : JobRow)
    → find (λ row. str_eq row.id id) jobs ≡ some job
    → any_id id (job_ids jobs) ≡ true
any_id_of_find id [] job e = cc
any_id_of_find id (row ∷ jobs) job e = elim (Bool-cases (str_eq row.id id)) [
  | inl h ↦ rw (str_eq_sym id row.id, h) refl
  | inr h ↦ rw (str_eq_sym id row.id, h) (any_id_of_find id jobs job (rw h at e))
]

IsUnique-append :
    (jobs : List JobRow) (new : JobRow)
    → IsUnique (job_ids jobs)
    → any_id new.id (job_ids jobs) ≡ false
    → IsUnique (job_ids (jobs ++ new ∷ []))
IsUnique-append [] new h fresh = (refl, tt)
IsUnique-append (job ∷ jobs) new h fresh =
    let (other, others) = or-false {a = str_eq new.id job.id} fresh in
    (
      rw (any_id-append job.id jobs new, h.0, str_eq_sym job.id new.id, other) refl,
      IsUnique-append jobs new h.1 others,
    )

no_result :
    (id : String) (jobs : List JobRow) (results : List ResultRow)
    → All (λ row. any_id row.job_id (job_ids jobs) ≡ true) results
    → any_id id (job_ids jobs) ≡ false
    → find (λ row. str_eq row.job_id id) results ≡ none
no_result id jobs [] known fresh = refl
no_result id jobs (row ∷ results) known fresh = elim (Bool-cases (str_eq row.job_id id)) [
  | inl e ↦
      let same : row.job_id ≡ id = (eq_iff row.job_id id).0 e in
      absurd (cc (known.0, fresh, ap (λ x. any_id x (job_ids jobs)) same))
  | inr e ↦ rw e (no_result id jobs results known.1 fresh)
]

-- An update that keeps every identifier keeps what is said of identifiers alone.
keeps_ids :
    (jobs jobs' : List JobRow) (results : List ResultRow)
    → job_ids jobs' ≡ job_ids jobs
    → IsUnique (job_ids jobs)
    → All (λ row. any_id row.job_id (job_ids jobs) ≡ true) results
    → IsUnique (job_ids jobs') × All (λ row. any_id row.job_id (job_ids jobs') ≡ true) results
keeps_ids jobs jobs' results e unique known = rw e (unique, known)

claims-IsConsistent :
    (cs jobs : List JobRow) (results : List ResultRow) (now : ℕ)
    → IsConsistent (jobs, results)
    → IsConsistent
        (update_where (λ job. any_id job.id (job_ids cs)) (mark_claimed now) jobs, results)
claims-IsConsistent cs jobs results now (unique, matching, known) =
    let q = λ (job : JobRow). any_id job.id (job_ids cs) in
    let (unique', known') =
      keeps_ids jobs (update_where q (mark_claimed now) jobs) results
        (job_ids-update_where q (mark_claimed now) jobs (λ job. refl)) unique known in
    (
      unique',
      All-update_where q (mark_claimed now) _ _ jobs matching (λ job e h. h) (λ job e h. h),
      known',
    )

-- The upsert of a result leaves the results of the other jobs as they are.
other_result :
    (result : ReportedJobResult) (now : ℕ) (id : String) (results : List ResultRow)
    → str_eq id result.job_id ≡ false
    → find (λ row. str_eq row.job_id id) (recorded_results result now results)
      ≡ find (λ row. str_eq row.job_id id) results
other_result result now id results other =
    let differs : str_eq result.job_id id ≡ false = str_eq_sym result.job_id id ∙ other in
    elim (Bool-cases (any (λ row. str_eq row.job_id result.job_id) results)) [
      | inl e ↦ rw e (
          find-update_where_other (λ row. str_eq row.job_id result.job_id)
            (λ row. result_row result now) (λ row. str_eq row.job_id id) results
            (λ row h. rw ((eq_iff row.job_id result.job_id).0 h) differs) (λ row h. differs))
      | inr e ↦
          rw e
            (find-append_miss (λ row. str_eq row.job_id id) results (result_row result now) differs)
    ]

All-upsert :
    (P : ResultRow → Type 0) (q : ResultRow → Bool) (new : ResultRow) (results : List ResultRow)
    → All P results
    → P new
    → All P (upsert q (λ row. new) new results)
All-upsert P q new results h p = elim (Bool-cases (any q results)) [
  | inl e ↦ rw e (All-update_where q (λ row. new) P P results h (λ row e h. p) (λ row e h. h))
  | inr e ↦ rw e (All-append P results (new ∷ []) h (p, tt))
]

completes-IsConsistent :
    (jobs : List JobRow) (results : List ResultRow) (result : ReportedJobResult) (payload : Fields)
    (now : ℕ) (stored : JobRow)
    → find (λ job. str_eq job.id result.job_id) jobs ≡ some stored
    → IsConsistent (jobs, results)
    → IsConsistent (completed_jobs result payload jobs, recorded_results result now results)
completes-IsConsistent jobs results result payload now stored found (unique, matching, known) =
    let new = result_row result now in
    let (unique', known') =
      keeps_ids jobs (completed_jobs result payload jobs) (recorded_results result now results)
        (job_ids-update_where _ _ jobs (λ job. refl)) unique
        (All-upsert _ (λ row. str_eq row.job_id result.job_id) new results known
          (any_id_of_find result.job_id jobs stored found)) in
    (
      unique',
      All-update_where (λ job. str_eq job.id result.job_id) _ _ _ jobs matching
          (λ job e h.
            rw
              (
                (eq_iff job.id result.job_id).0 e,
                find-upsert (λ row. str_eq row.job_id result.job_id) new (eq_refl result.job_id)
                    results,
              )
              refl)
          (λ job e h. rw (other_result result now job.id results e) h),
      known',
    )

add_one-IsConsistent :
    (jobs : List JobRow) (results : List ResultRow) (new : JobRow)
    → any (λ row. str_eq row.id new.id) jobs ≡ false
    → IsQueued new
    → IsConsistent (jobs, results)
    → IsConsistent (jobs ++ new ∷ [], results)
add_one-IsConsistent jobs results new fresh waiting (unique, matching, known) =
    let unused : any_id new.id (job_ids jobs) ≡ false = sym (any_id_of_row new.id jobs) ∙ fresh in
    (
      IsUnique-append jobs new unique unused,
      All-append _ jobs (new ∷ []) matching
          (rw (no_result new.id jobs results known unused) (waiting.1), tt),
      All-imp _ _ results known (λ row h. rw (any_id-append row.job_id jobs new, h) refl),
    )

adds-IsConsistent :
    (jobs rows : List JobRow) (results : List ResultRow)
    → AreFresh jobs rows
    → All IsQueued rows
    → IsConsistent (jobs, results)
    → IsConsistent (jobs ++ rows, results)
adds-IsConsistent jobs [] results fresh waiting h = rw (append-nil jobs) h
adds-IsConsistent jobs (new ∷ rows) results fresh waiting h =
    rw (← append_assoc jobs (new ∷ []) rows) (
      adds-IsConsistent (jobs ++ new ∷ []) rows results fresh.1 waiting.1
        (add_one-IsConsistent jobs results new fresh.0 waiting.0 h))

-- A selection of jobs by their identifier.
module _ (keep : String → Bool) where
  abbrev kept : List JobRow → List JobRow
  kept = filter (λ job. keep job.id)

  not_kept :
      (id : String) (jobs : List JobRow)
      → any_id id (job_ids jobs) ≡ false
      → any_id id (job_ids (kept jobs)) ≡ false
  not_kept id [] h = refl
  not_kept id (job ∷ jobs) h =
      let (other, others) = or-false {a = str_eq id job.id} h in
      elim (Bool-cases (keep job.id)) [
        | inl e ↦ rw (e, other) (not_kept id jobs others)
        | inr e ↦ rw e (not_kept id jobs others)
      ]

  kept-IsUnique : (jobs : List JobRow) → IsUnique (job_ids jobs) → IsUnique (job_ids (kept jobs))
  kept-IsUnique [] h = tt
  kept-IsUnique (job ∷ jobs) h = elim (Bool-cases (keep job.id)) [
    | inl e ↦ rw e (not_kept job.id jobs h.0, kept-IsUnique jobs h.1)
    | inr e ↦ rw e (kept-IsUnique jobs h.1)
  ]

  is_kept :
      (id : String) (jobs : List JobRow)
      → keep id ≡ true
      → any_id id (job_ids jobs) ≡ true
      → any_id id (job_ids (kept jobs)) ≡ true
  is_kept id [] k h = cc
  is_kept id (job ∷ jobs) k h = elim (Bool-cases (str_eq id job.id)) [
    | inl e ↦ let same : id ≡ job.id = (eq_iff id job.id).0 e in rw (ap keep (sym same) ∙ k, e) refl
    | inr e ↦ elim (Bool-cases (keep job.id)) [
      | inl f ↦ rw (f, e) (is_kept id jobs k (rw e at h))
      | inr f ↦ rw f (is_kept id jobs k (rw e at h))
    ]
  ]

  kept-IsConsistent :
      (jobs : List JobRow) (results : List ResultRow)
      → IsConsistent (jobs, results)
      → IsConsistent (kept jobs, filter (λ row. keep row.job_id) results)
  kept-IsConsistent jobs results (unique, matching, known) =
      let by_id = find-filter (λ (row : ResultRow). row.job_id) keep in
      (
        kept-IsUnique jobs unique,
        All-imp _ _ (kept jobs)
            (All-zip _ _ (kept jobs) (All-filter_keep _ (λ job. keep job.id) jobs matching)
              (All-filter (λ job. keep job.id ≡ true) (λ job. keep job.id) jobs (λ job h. h)))
            (λ job k. rw (by_id job.id results, k.1) (k.0)),
        All-imp _ _ (filter (λ row. keep row.job_id) results)
            (All-zip _ _ (filter (λ row. keep row.job_id) results)
              (All-filter_keep _ (λ row. keep row.job_id) results known)
              (All-filter (λ row. keep row.job_id ≡ true) (λ row. keep row.job_id) results
                (λ row h. h)))
            (λ row k. is_kept row.job_id jobs (k.1) (k.0)),
      )

purges-IsConsistent :
    (cutoff : ℕ) (db : Store)
    → IsConsistent (db.jobs, db.job_results)
    → IsConsistent (queue (purge_jobs cutoff db))
unfolding purge_jobs
purges-IsConsistent cutoff db h =
    kept-IsConsistent (λ id. not (any_id id (purged_ids cutoff db))) db.jobs db.job_results h

pub Effect-IsConsistent : (q q' : Queue) → Effect q q' → IsConsistent q → IsConsistent q'
Effect-IsConsistent q q' (Effect.nothing _) h = h
Effect-IsConsistent q q' (Effect.claims db locked node_id n now) h =
    claims-IsConsistent (candidate_jobs locked node_id n now db) db.jobs db.job_results now h
Effect-IsConsistent q q' (Effect.completes jobs results result payload now stored e) h =
    completes-IsConsistent jobs results result payload now stored e h
Effect-IsConsistent q q' (Effect.adds jobs rows results fresh waiting) h =
    adds-IsConsistent jobs rows results fresh waiting h
Effect-IsConsistent q q' (Effect.purges cutoff db) h = purges-IsConsistent cutoff db h

-- In every store that the handlers reach from an empty queue no two jobs have one identifier, every
-- result is that of a job, and a job is completed exactly when a result is on record for it, at the
-- time of that result.
pub reachable-IsConsistent :
    (env : Environment) (db : Store) → IsReachable env db → IsConsistent (db.jobs, db.job_results)
reachable-IsConsistent env db (IsReachable.start _ no_jobs no_results) =
    rw (no_jobs, no_results) (tt, tt, tt)
reachable-IsConsistent env db' (IsReachable.next db _ before step) =
    Effect-IsConsistent (queue db) (queue db') (Step-Effect env db db' step)
      (reachable-IsConsistent env db before)
