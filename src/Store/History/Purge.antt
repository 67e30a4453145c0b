-- ===== src/Store/History/Purge.antt =====
-- What a purge does to the queue, and that it spares the rows that the decision to dispatch reads.
use simple_host_man.Store.Dispatch.Reconcile.Convergence.{Keeps-require_authorized_user}
use simple_host_man.Store.Jobs.Queue.{Keeps-insert_audit_event, queue}
use simple_host_man.Store.History.{
  not_due, cutoff_at, purge_unless, purge_as, purge_operational_history_rows, PurgeSummary,
  purge_now, purge_operational_history, Retention, is_before, of_group, purged_ids, is_row,
  is_purgeable, purge_jobs, purgeable_jobs, is_latest_of, job_ids, any_id, latest_resource_jobs,
}
use simple_host_man.Store.Dispatch.{
  with_result, should_dispatch_after, has_key, should_dispatch_queued_job, QueuedDispatchJob,
  is_for_resource, newer, latest_job,
}
use simple_host_man.Prelude.{
  filter-sort, and-true, All-filter_keep, All-filter, All-sort, sort, All-imp, eq_refl, subst, any,
  head?, All, eq_iff, filter, find, refl, sym, ap, ◌∙◌, ◌≡◌, ◌⊎◌, inl, inr, ℕ, Bool, true, false,
  not, ◌&&◌, String, Option, none, some, List, [], ◌∷◌, if◌then◌else◌, arith, Bool-cases, str_eq,
}
use simple_host_man.Store.{ok-store, with_transaction_ok, ok, ResultRow, Store, JobRow, >>=-eq-ok}

filter_comm :
    {A : Type 0} (p q : A → Bool) (xs : List A) → filter p (filter q xs) ≡ filter q (filter p xs)
filter_comm p q [] = refl
filter_comm p q (x ∷ xs) = ground (arith, filter_comm p q xs)

-- A selection by the column that the search is for.
pub find-filter {ℓ} :
    {A : Type ℓ} (column : A → String) (keep : String → Bool) (id : String) (rows : List A)
    → find (λ row. str_eq (column row) id) (filter (λ row. keep (column row)) rows)
      ≡ (if keep id then find (λ row. str_eq (column row) id) rows else none)
find-filter column keep id [] = elim (Bool-cases (keep id)) [
  | inl e ↦ rw e refl
  | inr e ↦ rw e refl
]
find-filter column keep id (row ∷ rows) = elim (Bool-cases (str_eq (column row) id)) [
  | inl e ↦
      let same : column row ≡ id = (eq_iff (column row) id).0 e in
      elim (Bool-cases (keep id)) [
        | inl k ↦ rw (ap keep same ∙ k, k, e) refl
        | inr k ↦ rw (ap keep same ∙ k, k) (find-filter column keep id rows ∙ rw k refl)
      ]
  | inr e ↦ elim (Bool-cases (keep (column row))) [
    | inl k ↦ rw (k, e) (find-filter column keep id rows)
    | inr k ↦ rw (k, e) (find-filter column keep id rows)
  ]
]

newer_total : (x y : JobRow) → newer x y ≡ false → newer y x ≡ true
newer_total x y h = ground arith

newer_trans : (x y z : JobRow) → newer x y ≡ true → newer y z ≡ true → newer x z ≡ true
newer_trans x y z h k = ground arith

head_All :
    (P : JobRow → Type 0) (rows : List JobRow) (first : JobRow)
    → All P rows
    → head? rows ≡ some first
    → P first
head_All P [] first h e = cc
head_All P (row ∷ rows) first h e = let same : row ≡ first = cc in subst P same (h.0)

-- A selected row is found among the selected ones.
selected :
    (p : JobRow → Bool) (rows : List JobRow)
    → All (λ row. p row ≡ true → any (λ other. str_eq other.id row.id) (filter p rows) ≡ true) rows
selected p [] = tt
selected p (row ∷ rows) = elim (Bool-cases (p row)) [
  | inl e ↦ rw e (
    (λ h. rw (eq_refl row.id) refl),
    All-imp _ _ rows (selected p rows) (λ other k h. ground (arith, k h)),
  )
  | inr e ↦ ((λ h. cc (e, h)), All-imp _ _ rows (selected p rows) (λ other k h. rw e (k h)))
]

none_named :
    (id : String) (rows : List JobRow)
    → All (λ row. str_eq id row.id ≡ false) rows
    → any_id id (job_ids rows) ≡ false
none_named id [] h = refl
none_named id (row ∷ rows) h = rw h.0 (none_named id rows h.1)

-- The newest job of a resource is one of the latest.
newest_is_latest :
    (job : QueuedDispatchJob) (db : Store) (row : JobRow)
    → latest_job job db ≡ some row
    → any (λ latest. str_eq latest.id row.id) (latest_resource_jobs db.jobs) ≡ true
unfolding latest_job latest_resource_jobs is_for_resource
newest_is_latest job db row e =
    let q = is_for_resource job in
    let through = λ (P : JobRow → Type 0) (h : All P (filter q db.jobs)).
      head_All P (sort newer (filter q db.jobs)) row (All-sort newer P (filter q db.jobs) h) e in
    let own : q row ≡ true =
      through (λ r. q r ≡ true) (All-filter (λ r. q r ≡ true) q db.jobs (λ r h. h)) in
    let found =
      through
        (λ r.
          is_latest_of db.jobs r r.resource_key ≡ true
          → any (λ other. str_eq other.id r.id) (latest_resource_jobs db.jobs) ≡ true)
        (All-filter_keep _ q db.jobs
          (selected (λ r. is_latest_of db.jobs r r.resource_key) db.jobs)) in
    let (own_columns, own_key) =
      and-true {a = str_eq row.node_id job.envelope.node_id && str_eq row.kind job.envelope.kind}
        own in
    let (own_node, own_kind) = and-true {a = str_eq row.node_id job.envelope.node_id} own_columns in
    found (
      go ((eq_iff row.node_id job.envelope.node_id).0 own_node)
        ((eq_iff row.kind job.envelope.kind).0 own_kind) row.resource_key own_key)
  where
    go :
        row.node_id ≡ job.envelope.node_id
        → row.kind ≡ job.envelope.kind
        → (key : Option String) → has_key job.resource_key key ≡ true
        → is_latest_of db.jobs row key ≡ true
    go node kind none h = cc
    go node kind (some key) h =
        let same : key ≡ job.resource_key = (eq_iff key job.resource_key).0 h in
        (λ i.
          is_row row (head? (sort newer (filter (of_group (node i) (kind i) (same i)) db.jobs))))
        ∙ ap (is_row row) e
        ∙ eq_refl row.id

-- No purge takes the newest job of a resource.
newest_is_spared :
    (cutoff : ℕ) (job : QueuedDispatchJob) (db : Store) (row : JobRow)
    → latest_job job db ≡ some row
    → any_id row.id (purged_ids cutoff db) ≡ false
unfolding purgeable_jobs is_purgeable
newest_is_spared cutoff job db row e = none_named row.id (purgeable_jobs cutoff db.jobs) (
    All-filter _ (is_purgeable cutoff db.jobs) db.jobs (λ other h.
      elim (Bool-cases (str_eq row.id other.id)) [
        | inl same ↦
            let not_latest = (and-true {a = is_before cutoff other.completed_at} h).1 in
            let same_id : row.id ≡ other.id = (eq_iff row.id other.id).0 same in
            let latest : any (λ l. str_eq l.id other.id) (latest_resource_jobs db.jobs) ≡ true =
              subst (λ id. any (λ l. str_eq l.id id) (latest_resource_jobs db.jobs) ≡ true) same_id
                (newest_is_latest job db row e) in
            cc (rw latest at not_latest)
        | inr differs ↦ differs
      ]))

-- The decision to dispatch does not see the purge.
pub purge-should_dispatch :
    (cutoff : ℕ) (job : QueuedDispatchJob) (db : Store)
    → should_dispatch_queued_job job (purge_jobs cutoff db) ≡ should_dispatch_queued_job job db
unfolding should_dispatch_queued_job latest_job purge_jobs
purge-should_dispatch cutoff job db =
    let q = is_for_resource job in
    let keep : JobRow → Bool = λ row. not (any_id row.id (purged_ids cutoff db)) in
    rw
      (
        filter_comm q keep db.jobs,
        ← filter-sort newer newer_total newer_trans keep (filter q db.jobs),
      )
      (go (sort newer (filter q db.jobs)) refl)
  where
    go :
        (sorted : List JobRow)
        → sort newer (filter (is_for_resource job) db.jobs) ≡ sorted
        → should_dispatch_after job (
            with_result
              (purge_jobs cutoff db)
              (head? (filter (λ row. not (any_id row.id (purged_ids cutoff db))) sorted)))
          ≡ should_dispatch_after job (with_result db (head? sorted))
    go [] e = refl
    go (row ∷ rows) e =
        let spared = newest_is_spared cutoff job db row (ap head? e) in
        rw
          (
            spared,
            find-filter (λ (r : ResultRow). r.job_id) (λ id. not (any_id id (purged_ids cutoff db)))
                row.id db.job_results,
            spared,
          )
          refl

purge_now-queue :
    (now : ℕ) (retention : Retention) (actor : Option String) (db db' : Store) (s : PurgeSummary)
    → purge_now now retention actor db ≡ ok (s, db')
    → queue db' ≡ queue (purge_jobs (cutoff_at now retention) db)
unfolding purge_now purge_operational_history_rows purge_jobs
purge_now-queue now retention actor db db' s e =
    let (deleted, d1, e1, h1) = >>=-eq-ok _ _ db e in
    let (_, d2, e2, h2) = >>=-eq-ok _ _ d1 h1 in
    ap queue (sym (ok-store h2))
    ∙ Keeps-insert_audit_event _ d1 d2 tt e2
    ∙ ap queue (sym (ok-store e1))

purge_jobs-queue :
    (cutoff : ℕ) (db d : Store)
    → queue d ≡ queue db
    → queue (purge_jobs cutoff d) ≡ queue (purge_jobs cutoff db)
unfolding purge_jobs
purge_jobs-queue cutoff db d e =
    ap
      (λ (q : List JobRow × List ResultRow).
        queue (purge_jobs cutoff (record db { jobs = q.0; job_results = q.1 })))
      e

module _ (sha256_hex : String → String) (collate : String → String → Bool) where
  purge_unless-queue :
      (now : ℕ) (retention : Retention) (due : Option ℕ) (db db' : Store) (s : PurgeSummary)
      → purge_unless now retention due db ≡ ok (s, db')
      → (queue db' ≡ queue db) ⊎ (queue db' ≡ queue (purge_jobs (cutoff_at now retention) db))
  purge_unless-queue now retention none db db' s e =
      inr (purge_now-queue now retention none db db' s e)
  purge_unless-queue now retention (some next) db db' s e = inl (ap queue (sym (ok-store e)))

  purge_as-queue :
      (now : ℕ) (retention : Retention) (interval_days : ℕ) (presented : Option String)
      (db db' : Store) (s : PurgeSummary)
      → purge_as sha256_hex collate now retention interval_days presented db ≡ ok (s, db')
      → (queue db' ≡ queue db) ⊎ (queue db' ≡ queue (purge_jobs (cutoff_at now retention) db))
  purge_as-queue now retention interval_days none db db' s e =
      let (latest, d1, e1, h1) = >>=-eq-ok _ _ db e in
      rw (ok-store e1)
        (purge_unless-queue now retention (not_due now interval_days latest) d1 db' s h1)
  purge_as-queue now retention interval_days (some token) db db' s e =
      let (actor, d1, e1, h1) = >>=-eq-ok _ _ db e in
      inr (
        purge_now-queue now retention (some actor.user_id) d1 db' s h1
        ∙ purge_jobs-queue (cutoff_at now retention) db d1
            (Keeps-require_authorized_user sha256_hex collate now (some token) _ db d1 actor e1))

  -- A purge that succeeds leaves the queue as it is, when it is not due, or without the purged jobs.
  pub purge_operational_history-queue :
      (now : ℕ) (retention : Retention) (interval_days : ℕ) (presented : Option String)
      (db db' : Store) (s : PurgeSummary)
      → purge_operational_history sha256_hex collate now retention interval_days presented db
        ≡ (ok s, db')
      → (queue db' ≡ queue db) ⊎ (queue db' ≡ queue (purge_jobs (cutoff_at now retention) db))
  unfolding purge_operational_history
  purge_operational_history-queue now retention interval_days presented db db' s e =
      purge_as-queue now retention interval_days presented db db' s
        (with_transaction_ok _ db db' s e)
