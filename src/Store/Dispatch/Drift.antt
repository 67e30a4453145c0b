-- ===== src/Store/Dispatch/Drift.antt =====
-- When a resource is dispatched again.
use simple_host_man.Store.Packages.{Dates}
use simple_host_man.Store.Tables.{find-upsert}
use simple_host_man.Payload.{strip_fields}
use simple_host_man.Store.Jobs.Report.{report_job_shape, completed_jobs}
use simple_host_man.Store.Jobs.{result_row, report_job, JobReportRequest, ReportedJobResult}
use simple_host_man.Payload.Envelope.{Crypto}
use simple_host_man.Store.Dispatch.{
  has_key, is_none, with_result, newer, should_dispatch_after, DriftStatusRow, is_for_resource,
  create_resource_drift_summary, dispatched_row, add_node, insert_each, QueuedDispatchJob,
  ensure_control_plane_target_node, insert_dispatched_jobs, latest_job, get_latest_resource_job,
  ensure_nodes, insert_job, should_dispatch_queued_job,
}
use simple_host_man.Prelude.{
  filter-append, eq_refl, find, map-sort, sort, head?, All-filter_keep, All-imp, head?-sort_last,
  All, any, filter, refl, sym, ap, ◌∙◌, ◌≡◌, inl, inr, ℕ, ◌<◌, Bool, true, not, ◌||◌, String,
  Option, none, some, List, [], ◌∷◌, ◌++◌, map, if◌then◌else◌, arith, Bool-cases, str_eq,
}
use simple_host_man.Store.{
  Fields, err, ok-store, ok, StoreError, Store, AuditEvent, insert_audit_event, JobRow, Result,
  >>=-eq-ok,
}

agree :
    (job : QueuedDispatchJob) (latest : Option DriftStatusRow)
    → (create_resource_drift_summary job latest).dispatch_recommended
      ≡ should_dispatch_after job latest
unfolding create_resource_drift_summary
agree job none = refl
agree job (some latest) = elim (Bool-cases (is_none latest.completed_at)) [
  | inl pending ↦ rw pending refl
  | inr done ↦ rw done (elim (Bool-cases (not (has_key job.payload_hash latest.payload_hash))) [
    | inl other ↦ rw other refl
    | inr same ↦ rw same (elim (Bool-cases (not (has_key "applied" latest.status))) [
      | inl failed ↦ rw failed refl
      | inr applied ↦ rw applied refl
    ])
  ])
]

-- The drift of a resource recommends a dispatch exactly when the reconciler would make one.
pub drift-should_dispatch :
    (job : QueuedDispatchJob) (db : Store)
    → (create_resource_drift_summary job (get_latest_resource_job job db)).dispatch_recommended
      ≡ should_dispatch_queued_job job db
unfolding should_dispatch_queued_job get_latest_resource_job
drift-should_dispatch job db = agree job (with_result db (latest_job job db))

add_node-jobs :
    (node_id : String) (t : ℕ) (host : Result StoreError String) (db db' : Store)
    → add_node node_id t host db ≡ ok (tt, db')
    → db'.jobs ≡ db.jobs
add_node-jobs node_id t (err x) db db' e = cc
add_node-jobs node_id t (ok hostname) db db' e =
    elim (Bool-cases (any (λ row. str_eq row.node_id node_id) db.nodes)) [
      | inl h ↦ ap (λ (d : Store). d.jobs) (sym (ok-store (rw h at e)))
      | inr h ↦ ap (λ (d : Store). d.jobs) (sym (ok-store (rw h at e)))
    ]

ensure_nodes-jobs :
    (inventory : List (String × String)) (t : ℕ) (ids : List String) (db db' : Store)
    → ensure_nodes inventory t ids db ≡ ok (tt, db')
    → db'.jobs ≡ db.jobs
unfolding ensure_nodes ensure_control_plane_target_node
ensure_nodes-jobs inventory t [] db db' e = ap (λ (d : Store). d.jobs) (sym (ok-store e))
ensure_nodes-jobs inventory t (id ∷ ids) db db' e =
    let (_, d1, e1, h1) = >>=-eq-ok _ _ db e in
    ensure_nodes-jobs inventory t ids d1 db' h1 ∙ add_node-jobs id t _ db d1 e1

insert_job-jobs :
    (new : JobRow) (db db' : Store)
    → insert_job new db ≡ ok (tt, db')
    → db'.jobs ≡ db.jobs ++ new ∷ []
unfolding insert_job
insert_job-jobs new db db' e = elim (Bool-cases (any (λ row. str_eq row.id new.id) db.jobs)) [
  | inl h ↦ cc (rw h at e)
  | inr h ↦ ap (λ (d : Store). d.jobs) (sym (ok-store (rw h at e)))
]

audit-jobs :
    (event : AuditEvent) (db db' : Store)
    → insert_audit_event event db ≡ ok (tt, db')
    → db'.jobs ≡ db.jobs
unfolding insert_audit_event
audit-jobs event db db' e = ap (λ (d : Store). d.jobs) (sym (ok-store e))

module _ {Bytes Plain : Type 0} (c : Crypto Bytes Plain) (key : Option Bytes)
    (iv : String → Bytes) where
  pub insert_one-jobs :
      (inventory : List (String × String)) (t : ℕ) (job : QueuedDispatchJob) (actor : Option String)
      (reason : String) (db db' : Store)
      → insert_dispatched_jobs c key iv inventory t (job ∷ []) actor reason db ≡ ok (tt, db')
      → db'.jobs ≡ db.jobs ++ dispatched_row c key iv actor reason job ∷ []
  unfolding insert_dispatched_jobs insert_each
  insert_one-jobs inventory t job actor reason db db' e =
      let (_, d1, e1, h1) = >>=-eq-ok _ _ db e in
      let (_, d2, e2, h2) = >>=-eq-ok _ _ d1 h1 in
      let (_, d3, e3, h3) = >>=-eq-ok _ _ d2 h2 in
      ap (λ (d : Store). d.jobs) (sym (ok-store h3))
      ∙ audit-jobs _ d2 d3 e3
      ∙ insert_job-jobs (dispatched_row c key iv actor reason job) d1 d2 e2
      ∙ ap (λ rows. rows ++ dispatched_row c key iv actor reason job ∷ [])
          (ensure_nodes-jobs inventory t _ db d1 e1)

  -- After a job is dispatched with a creation time later than every stored job's, its resource is
  -- dispatched again, as long as the job is not completed, exactly for another payload hash.
  dispatched-pending :
      (inventory : List (String × String)) (t : ℕ) (job next : QueuedDispatchJob)
      (actor : Option String) (reason : String) (db db' : Store)
      → insert_dispatched_jobs c key iv inventory t (job ∷ []) actor reason db ≡ ok (tt, db')
      → All (λ row. row.created_at < job.envelope.created_at) db.jobs
      → is_for_resource next (dispatched_row c key iv actor reason job) ≡ true
      → should_dispatch_queued_job next db' ≡ not (str_eq job.payload_hash next.payload_hash)
  unfolding should_dispatch_queued_job latest_job
  dispatched-pending inventory t job next actor reason db db' e latest same_resource =
      let new = dispatched_row c key iv actor reason job in
      rw
        (
          insert_one-jobs inventory t job actor reason db db' e,
          filter-append (is_for_resource next) db.jobs (new ∷ []),
          same_resource,
          head?-sort_last newer (filter (is_for_resource next) db.jobs) new (
              All-imp _ _ _ (All-filter_keep _ (is_for_resource next) db.jobs latest)
                (λ row p. ground arith)),
        )
        refl

-- The filtered, sorted and first row commute with an update that keeps what the query reads.
module _ (q : JobRow → Bool) (g : JobRow → JobRow) (keeps_q : (row : JobRow) → q (g row) ≡ q row)
    (keeps_time : (row : JobRow) → (g row).created_at ≡ row.created_at) where
  filter-map : (rows : List JobRow) → filter q (map g rows) ≡ map g (filter q rows)
  filter-map [] = refl
  filter-map (row ∷ rows) = elim (Bool-cases (q row)) [
    | inl e ↦ rw (keeps_q row, e) (ap (λ rs. g row ∷ rs) (filter-map rows))
    | inr e ↦ rw (keeps_q row, e) (filter-map rows)
  ]

  head?-map :
      (rows : List JobRow) (row : JobRow)
      → head? rows ≡ some row
      → head? (map g rows) ≡ some (g row)
  head?-map [] row e = cc
  head?-map (r ∷ rows) row e = cc

  latest-map :
      (rows : List JobRow) (row : JobRow)
      → head? (sort newer (filter q rows)) ≡ some row
      → head? (sort newer (filter q (map g rows))) ≡ some (g row)
  latest-map rows row e =
      rw
        (
          filter-map rows,
          ← map-sort newer g (λ x y. rw (keeps_time x, keeps_time y) refl) (filter q rows),
        )
        (head?-map (sort newer (filter q rows)) row e)

abbrev complete_row : ReportedJobResult → Fields → JobRow → JobRow
complete_row result payload row =
    if str_eq row.id result.job_id
    then record row { completed_at = some result.completed_at; payload = payload }
    else row

completed_jobs-map :
    (result : ReportedJobResult) (payload : Fields) (rows : List JobRow)
    → completed_jobs result payload rows ≡ map (complete_row result payload) rows
completed_jobs-map result payload [] = refl
completed_jobs-map result payload (row ∷ rows) =
    ap (λ rs. complete_row result payload row ∷ rs) (completed_jobs-map result payload rows)

complete_row-resource :
    (job : QueuedDispatchJob) (result : ReportedJobResult) (payload : Fields) (row : JobRow)
    → is_for_resource job (complete_row result payload row) ≡ is_for_resource job row
unfolding is_for_resource
complete_row-resource job result payload row = elim (Bool-cases (str_eq row.id result.job_id)) [
  | inl e ↦ rw e refl
  | inr e ↦ rw e refl
]

complete_row-time :
    (result : ReportedJobResult) (payload : Fields) (row : JobRow)
    → (complete_row result payload row).created_at ≡ row.created_at
complete_row-time result payload row = elim (Bool-cases (str_eq row.id result.job_id)) [
  | inl e ↦ rw e refl
  | inr e ↦ rw e refl
]

module _ {Bytes Plain : Type 0} (c : Crypto Bytes Plain) (key : Option Bytes)
    (sha256_hex : String → String) (dates : Dates) where
  -- After a report that succeeds on the newest job of a resource, the resource is dispatched again
  -- exactly when its desired payload hash differs from the job's or the reported status is not
  -- `applied`.
  pub report_job-should_dispatch :
      (now : ℕ) (request : JobReportRequest) (presented : Option String) (db db' : Store)
      (job : QueuedDispatchJob) (row : JobRow)
      → report_job c key sha256_hex dates now request presented db ≡ (ok tt, db')
      → latest_job job db ≡ some row
      → row.id ≡ request.result.job_id
      → should_dispatch_queued_job job db' ≡ (
          not (has_key job.payload_hash row.payload_hash)
          || not (str_eq request.result.status "applied"))
  unfolding should_dispatch_queued_job latest_job
  report_job-should_dispatch now request presented db db' job row e newest is_id =
      let (stored, decoded, _, _, after, results) =
        report_job_shape c key sha256_hex dates now request presented db db' e in
      let result = request.result in
      let payload = strip_fields decoded in
      let now_latest : head? (sort newer (filter (is_for_resource job) db'.jobs))
          ≡ some (complete_row result payload row) =
        rw (after, completed_jobs-map result payload db.jobs)
          (latest-map (is_for_resource job) (complete_row result payload)
            (complete_row-resource job result payload) (complete_row-time result payload) db.jobs
            row newest) in
      let status : find (λ r. str_eq r.job_id row.id) db'.job_results
          ≡ some (result_row result now) =
        rw (results, is_id)
          (find-upsert (λ r. str_eq r.job_id result.job_id) (result_row result now)
            (eq_refl result.job_id) db.job_results) in
      let same_id : str_eq row.id result.job_id ≡ true = rw is_id (eq_refl result.job_id) in
      rw now_latest (
        rw same_id (
          rw status (elim (Bool-cases (has_key job.payload_hash row.payload_hash)) [
            | inl h ↦ rw h refl
            | inr h ↦ rw h refl
          ])))
