-- ===== src/Store/Lifecycle/Moves.antt =====
-- What a call of a handler may do to the state of one job.
use simple_host_man.Store.History.Purge.{find-filter}
use simple_host_man.Store.History.{purged_ids, is_purgeable, purgeable_jobs, purge_jobs, is_before}
use simple_host_man.Store.Lifecycle.Consistency.{reachable-IsConsistent}
use simple_host_man.Store.Jobs.Report.{completed_jobs}
use simple_host_man.Store.Lifecycle.Effects.{Step-Effect, Effect, IsQueued}
use simple_host_man.Store.Tables.{is_none, update_where}
use simple_host_man.Store.Lifecycle.{
  remove, complete, claim_again, queue, Step, completed, enqueue, claim_first, claim_state,
  IsReachable, stay, absent, queued, job_state, Queue, Environment, JobState, found_state, any_id,
  Move, IsUnique,
}
use simple_host_man.Store.Jobs.{
  reclaimable_claimed_job_kinds, ReportedJobResult, is_claimable, older, mark_claimed, job_ids,
  candidate_jobs, is_candidate,
}
use simple_host_man.Store.{Fields, Store, JobRow}
use simple_host_man.Prelude.{
  not, find_sound, ltb→lt, subst, eq_iff, and-true, All-filter, All-filter_keep, All-zip, All-imp,
  All-sort, eq_refl, or-true, or-false, All-take, All, find, refl, ap, ◌∙◌, ◌≡◌, ◌≢◌, ◌⊎◌, inl, inr,
  ℕ, Bool, true, false, ◌&&◌, String, Option, none, some, List, [], ◌∷◌, ◌++◌, if◌then◌else◌, arith,
  Bool-cases, str_eq,
}

-- The row of a test on another column than the updated ones.
find-update_where_any :
    (p q : JobRow → Bool) (f : JobRow → JobRow) (jobs : List JobRow)
    → ((job : JobRow) → p (f job) ≡ p job)
    → find p (update_where q f jobs)
      ≡ elim (find p jobs) [ none ↦ none | some job ↦ some (if q job then f job else job) ]
find-update_where_any p q f [] keeps = refl
find-update_where_any p q f (job ∷ jobs) keeps = elim (Bool-cases (q job)) [
  | inl e ↦ elim (Bool-cases (p job)) [
    | inl h ↦ rw (e, keeps job, h, e) refl
    | inr h ↦ rw (e, keeps job, h) (find-update_where_any p q f jobs keeps)
  ]
  | inr e ↦ elim (Bool-cases (p job)) [
    | inl h ↦ rw (e, h, e) refl
    | inr h ↦ rw (e, h) (find-update_where_any p q f jobs keeps)
  ]
]

find-append :
    (p : JobRow → Bool) (jobs rows : List JobRow)
    → find p (jobs ++ rows) ≡ elim (find p jobs) [ none ↦ find p rows | some job ↦ some job ]
find-append p [] rows = refl
find-append p (job ∷ jobs) rows = elim (Bool-cases (p job)) [
  | inl e ↦ rw e refl
  | inr e ↦ rw e (find-append p jobs rows)
]

-- Where identifiers are unique, a row is the one that its identifier finds.
pub own_rows :
    (jobs : List JobRow)
    → IsUnique (job_ids jobs)
    → All (λ job. find (λ row. str_eq row.id job.id) jobs ≡ some job) jobs
own_rows [] h = tt
own_rows (job ∷ jobs) h = (
  rw (eq_refl job.id) refl,
  All-imp _ _ jobs (All-zip _ _ jobs (own_rows jobs h.1) (not_among job.id jobs h.0))
      (λ other k. rw k.1 (k.0)),
)
  where
    not_among :
        (id : String) (jobs : List JobRow)
        → any_id id (job_ids jobs) ≡ false
        → All (λ other. str_eq id other.id ≡ false) jobs
    not_among id [] k = tt
    not_among id (other ∷ jobs) k =
        let (first, later) = or-false {a = str_eq id other.id} k in (first, not_among id jobs later)

abbrev state_of_times : Option ℕ → Option ℕ → JobState
state_of_times claimed_at completed_at = elim completed_at [
  | none ↦ claim_state claimed_at
  | some t ↦ completed t
]

claim-Move :
    (now : ℕ) (kind : String) (claimed_at completed_at : Option ℕ)
    → is_none completed_at ≡ true
    → is_claimable now kind claimed_at ≡ true
    → Move (state_of_times claimed_at completed_at) (state_of_times (some now) completed_at)
unfolding is_claimable
claim-Move now kind none none e h = claim_first now
claim-Move now kind (some t) none e h =
    let late = ltb→lt t _ ((and-true {a = any_id kind reclaimable_claimed_job_kinds} h).1) in
    claim_again t now (omega (arith, late))
claim-Move now kind claimed_at (some t) e h = cc

-- A row that may be claimed, and what becomes of it.
candidate-Move :
    (node_id : String) (now : ℕ) (job : JobRow)
    → is_candidate node_id now job ≡ true
    → Move (found_state (some job)) (found_state (some (mark_claimed now job)))
unfolding is_candidate
candidate-Move node_id now job e =
    let (own_and_open, free) =
      and-true {a = str_eq job.node_id node_id && is_none job.completed_at} e in
    let (_, open_job) = and-true {a = str_eq job.node_id node_id} own_and_open in
    claim-Move now job.kind job.claimed_at job.completed_at open_job free

All-candidates :
    (P : JobRow → Type 0) (locked : String → Bool) (node_id : String) (n now : ℕ) (db : Store)
    → All P db.jobs
    → All
        (λ job. P job × (is_candidate node_id now job ≡ true))
        (candidate_jobs locked node_id n now db)
unfolding candidate_jobs
All-candidates P locked node_id n now db h = All-take _ n _ (
    All-sort older _ _ (
      All-zip _ _ _ (All-filter_keep P _ db.jobs h)
        (All-filter _ _ db.jobs (λ job e. (and-true e).0))))

-- The row that one of the identifiers names.
pub named :
    (id : String) (jobs cs : List JobRow) (job : JobRow) (P : JobRow → Type 0)
    → find (λ row. str_eq row.id id) jobs ≡ some job
    → any_id id (job_ids cs) ≡ true
    → All (λ c. (find (λ row. str_eq row.id c.id) jobs ≡ some c) × P c) cs
    → P job
named id jobs [] job P e h all = cc
named id jobs (c ∷ cs) job P e h all = elim (or-true {a = str_eq id c.id} h) [
  | inl same ↦
      let found : find (λ row. str_eq row.id id) jobs ≡ some c =
        ap (λ x. find (λ (row : JobRow). str_eq row.id x) jobs) ((eq_iff id c.id).0 same)
        ∙ all.0.0 in
      let same_job : c ≡ job = cc in subst P same_job (all.0.1)
  | inr later ↦ named id jobs cs job P e later all.1
]

claims-Move :
    (db : Store) (locked : String → Bool) (node_id : String) (n now : ℕ) (id : String)
    → IsUnique (job_ids db.jobs)
    → Move (job_state id db.jobs) (
        job_state id (
          update_where
            (λ job. any_id job.id (job_ids (candidate_jobs locked node_id n now db)))
            (mark_claimed now)
            db.jobs))
unfolding job_state
claims-Move db locked node_id n now id unique =
    let cs = candidate_jobs locked node_id n now db in
    let p = λ (job : JobRow). str_eq job.id id in
    rw (find-update_where_any p _ (mark_claimed now) db.jobs (λ job. refl))
      (go (find p db.jobs) refl)
  where
    go :
        (found : Option JobRow)
        → find (λ job. str_eq job.id id) db.jobs ≡ found
        → Move (found_state found) (
            found_state (elim found [
              | none ↦ none
              | some job ↦ some (
                  if any_id job.id (job_ids (candidate_jobs locked node_id n now db))
                  then mark_claimed now job
                  else job)
            ]))
    go none e = stay absent
    go (some job) e =
        elim (Bool-cases (any_id job.id (job_ids (candidate_jobs locked node_id n now db)))) [
          | inl h ↦ rw h (
              candidate-Move node_id now job (
                named job.id db.jobs (candidate_jobs locked node_id n now db) job
                  (λ c. is_candidate node_id now c ≡ true)
                  (ap (λ x. find (λ (row : JobRow). str_eq row.id x) db.jobs)
                      ((eq_iff job.id id).0 (find_sound (λ row. str_eq row.id id) db.jobs job e))
                    ∙ e)
                  h (All-candidates _ locked node_id n now db (own_rows db.jobs unique))))
          | inr h ↦ rw h (stay (found_state (some job)))
        ]

present : (job : JobRow) → found_state (some job) ≢ absent
present job e = go job.claimed_at job.completed_at e
  where
    go : (a b : Option ℕ) → state_of_times a b ≢ absent
    go none none h = cc
    go (some t) none h = cc
    go a (some t) h = cc

completes-Move :
    (jobs : List JobRow) (result : ReportedJobResult) (payload : Fields) (id : String)
    → Move (job_state id jobs) (job_state id (completed_jobs result payload jobs))
unfolding job_state
completes-Move jobs result payload id =
    let complete_row : JobRow → JobRow =
      λ job. record job { completed_at = some result.completed_at; payload = payload } in
    rw
      (find-update_where_any (λ job. str_eq job.id id) (λ job. str_eq job.id result.job_id)
        complete_row jobs (λ job. refl))
      (go (find (λ job. str_eq job.id id) jobs))
  where
    go :
        (found : Option JobRow)
        → Move (found_state found) (
            found_state (elim found [
              | none ↦ none
              | some job ↦ some (
                  if str_eq job.id result.job_id
                  then record job { completed_at = some result.completed_at; payload = payload }
                  else job)
            ]))
    go none = stay absent
    go (some job) = elim (Bool-cases (str_eq job.id result.job_id)) [
      | inl h ↦ rw h (complete (found_state (some job)) result.completed_at (present job))
      | inr h ↦ rw h (stay (found_state (some job)))
    ]

queued_state :
    (p : JobRow → Bool) (rows : List JobRow)
    → All IsQueued rows
    → (found_state (find p rows) ≡ absent) ⊎ (found_state (find p rows) ≡ queued)
queued_state p [] h = inl refl
queued_state p (row ∷ rows) h = elim (Bool-cases (p row)) [
  | inl e ↦ rw e (inr (rw (h.0.1, h.0.0) refl))
  | inr e ↦ rw e (queued_state p rows h.1)
]

adds-Move :
    (jobs rows : List JobRow) (id : String)
    → All IsQueued rows
    → Move (job_state id jobs) (job_state id (jobs ++ rows))
unfolding job_state
adds-Move jobs rows id h =
    rw (find-append (λ job. str_eq job.id id) jobs rows) (go (find (λ job. str_eq job.id id) jobs))
  where
    go :
        (found : Option JobRow)
        → Move (found_state found) (
            found_state
              (elim found [ none ↦ find (λ job. str_eq job.id id) rows | some job ↦ some job ]))
    go none = elim (queued_state (λ job. str_eq job.id id) rows h) [
      | inl e ↦ rw e (stay absent)
      | inr e ↦ rw e enqueue
    ]
    go (some job) = stay (found_state (some job))

completed_before :
    (cutoff : ℕ) (claimed_at completed_at : Option ℕ)
    → is_before cutoff completed_at ≡ true
    → Move (state_of_times claimed_at completed_at) absent
completed_before cutoff claimed_at none h = cc
completed_before cutoff claimed_at (some t) h = remove t

purges-Move :
    (cutoff : ℕ) (db : Store) (id : String)
    → IsUnique (job_ids db.jobs)
    → Move (job_state id db.jobs) (job_state id (purge_jobs cutoff db).jobs)
unfolding job_state purge_jobs purgeable_jobs is_purgeable
purges-Move cutoff db id unique =
    rw
      (find-filter (λ (job : JobRow). job.id) (λ i. not (any_id i (purged_ids cutoff db))) id
        db.jobs)
      (elim (Bool-cases (any_id id (purged_ids cutoff db))) [
        | inl gone ↦ rw gone (go gone (find (λ job. str_eq job.id id) db.jobs) refl)
        | inr spared ↦ rw spared (stay _)
      ])
  where
    go :
        any_id id (purged_ids cutoff db) ≡ true
        → (found : Option JobRow) → find (λ job. str_eq job.id id) db.jobs ≡ found
        → Move (found_state found) absent
    go gone none e = stay absent
    go gone (some job) e = completed_before cutoff job.claimed_at job.completed_at (
        named id db.jobs (purgeable_jobs cutoff db.jobs) job
          (λ c. is_before cutoff c.completed_at ≡ true) e gone
          (All-zip _ _ _
            (All-filter_keep _ (is_purgeable cutoff db.jobs) db.jobs (own_rows db.jobs unique))
            (All-filter _ (is_purgeable cutoff db.jobs) db.jobs
              (λ c h. (and-true {a = is_before cutoff c.completed_at} h).0))))

Effect-Move :
    (q q' : Queue)
    → Effect q q'
    → IsUnique (job_ids q.0)
    → (id : String) → Move (job_state id q.0) (job_state id q'.0)
Effect-Move q q' (Effect.nothing _) unique id = stay (job_state id q.0)
Effect-Move q q' (Effect.claims db locked node_id n now) unique id =
    claims-Move db locked node_id n now id unique
Effect-Move q q' (Effect.completes jobs results result payload now stored e) unique id =
    completes-Move jobs result payload id
Effect-Move q q' (Effect.adds jobs rows results fresh waiting) unique id =
    adds-Move jobs rows id waiting
Effect-Move q q' (Effect.purges cutoff db) unique id = purges-Move cutoff db id unique

-- A call of a handler, on a store that the handlers reach from an empty queue, moves every job by one
-- step of its life or leaves its state alone: it is queued, claimed, claimed again only after the
-- claim timeout, completed for good but for the time of the completion, and removed by a purge only
-- after that.
pub Step-Move :
    (env : Environment) (db db' : Store)
    → IsReachable env db
    → Step env db db'
    → (id : String) → Move (job_state id db.jobs) (job_state id db'.jobs)
Step-Move env db db' reachable step id =
    Effect-Move (queue db) (queue db') (Step-Effect env db db' step)
      ((reachable-IsConsistent env db reachable).0) id
