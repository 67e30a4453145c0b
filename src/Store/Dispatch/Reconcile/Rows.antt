-- ===== src/Store/Dispatch/Reconcile/Rows.antt =====
-- The jobs that a cycle adds to the queue, and what the decision to dispatch reads of it.
use simple_host_man.Store.Dispatch.Reconcile.{insert_any}
use simple_host_man.Store.Jobs.Queue.{Keeps-insert_audit_event, queue, Keeps}
use simple_host_man.Payload.Envelope.{Crypto}
use simple_host_man.Store.Dispatch.{
  latest_job, should_dispatch_queued_job, insert_dispatched_jobs, is_for_resource, dispatched_row,
  add_node, ensure_control_plane_target_node, insert_each, QueuedDispatchJob, ensure_nodes,
  insert_job,
}
use simple_host_man.Prelude.{
  str_eq_sym, All-imp, All-zip, eq_refl, append_assoc, append-nil, filter, any, All, refl, sym, ap,
  ◌∙◌, ◌≡◌, inl, inr, ℕ, Bool, true, false, ◌&&◌, String, Option, none, List, [], ◌∷◌, ◌++◌, map,
  if◌then◌else◌, Bool-cases, str_eq,
}
use simple_host_man.Store.{
  ResultRow, ok-store, err, ok, StoreError, JobRow, Result, Store, >>=-eq-ok,
}

-- What the decision to dispatch reads of a job.
abbrev pub desire : QueuedDispatchJob → String × String × String × String
desire job = (job.envelope.node_id, job.envelope.kind, job.resource_key, job.payload_hash)

abbrev pub same_resource : QueuedDispatchJob → QueuedDispatchJob → Bool
same_resource a b =
    str_eq b.envelope.node_id a.envelope.node_id
    && str_eq b.envelope.kind a.envelope.kind
    && str_eq b.resource_key a.resource_key

-- No two of the jobs are of one resource.
abbrev pub IsDistinct : List QueuedDispatchJob → Type 0
IsDistinct [] = Unit
IsDistinct (job ∷ jobs) = All (λ other. same_resource job other ≡ false) jobs × IsDistinct jobs

pub same_resource_sym : (a b : QueuedDispatchJob) → same_resource a b ≡ same_resource b a
same_resource_sym a b =
    rw
      (
        str_eq_sym b.envelope.node_id a.envelope.node_id,
        str_eq_sym b.envelope.kind a.envelope.kind,
        str_eq_sym b.resource_key a.resource_key,
      )
      refl

pub same_resource_refl : (a : QueuedDispatchJob) → same_resource a a ≡ true
same_resource_refl a =
    rw (eq_refl a.envelope.node_id, eq_refl a.envelope.kind, eq_refl a.resource_key) refl

queue_of_ok :
    {a b : Unit {0}} {s t : Store}
    → ◌≡◌ {A = Result StoreError (Unit {0} × Store)} (ok (a, s)) (ok (b, t))
    → queue t ≡ queue s
queue_of_ok e = ap queue (sym (ok-store e))

Keeps-add_node :
    (node_id : String) (t : ℕ) (host : Result StoreError String) → Keeps (add_node node_id t host)
Keeps-add_node node_id t (err x) db db' a e = cc
Keeps-add_node node_id t (ok hostname) db db' a e =
    elim (Bool-cases (any (λ row. str_eq row.node_id node_id) db.nodes)) [
      | inl h ↦ queue_of_ok (rw h at e)
      | inr h ↦ queue_of_ok (rw h at e)
    ]

pub Keeps-ensure_nodes :
    (inventory : List (String × String)) (t : ℕ) (ids : List String)
    → Keeps (ensure_nodes inventory t ids)
unfolding ensure_nodes ensure_control_plane_target_node
Keeps-ensure_nodes inventory t [] db db' a e = queue_of_ok e
Keeps-ensure_nodes inventory t (id ∷ ids) db db' a e =
    let (_, d1, e1, h1) = >>=-eq-ok _ _ db e in
    Keeps-ensure_nodes inventory t ids d1 db' a h1 ∙ Keeps-add_node id t _ db d1 tt e1

pub insert_job-queue :
    (new : JobRow) (db db' : Store)
    → insert_job new db ≡ ok (tt, db')
    → queue db' ≡ (db.jobs ++ new ∷ [], db.job_results)
unfolding insert_job
insert_job-queue new db db' e = elim (Bool-cases (any (λ row. str_eq row.id new.id) db.jobs)) [
  | inl h ↦ cc (rw h at e)
  | inr h ↦ ap queue (sym (ok-store (rw h at e)))
]

-- The queue with more jobs at its end.
abbrev pub with_jobs : List JobRow → List JobRow × List ResultRow → List JobRow × List ResultRow
with_jobs rows q = (q.0 ++ rows, q.1)

module _ {Bytes Plain : Type 0} (c : Crypto Bytes Plain) (key : Option Bytes)
    (iv : String → Bytes) where
  pub insert_each-queue :
      (actor : Option String) (reason : String) (jobs : List QueuedDispatchJob) (db db' : Store)
      → insert_each c key iv actor reason jobs db ≡ ok (tt, db')
      → queue db' ≡ with_jobs (map (dispatched_row c key iv actor reason) jobs) (queue db)
  unfolding insert_each
  insert_each-queue actor reason [] db db' e =
      queue_of_ok e ∙ ap (λ rows. (rows, db.job_results)) (sym (append-nil db.jobs))
  insert_each-queue actor reason (job ∷ jobs) db db' e =
      let (_, d1, e1, h1) = >>=-eq-ok _ _ db e in
      let (_, d2, e2, h2) = >>=-eq-ok _ _ d1 h1 in
      let new = dispatched_row c key iv actor reason job in
      let rows = map (dispatched_row c key iv actor reason) jobs in
      insert_each-queue actor reason jobs d2 db' h2
      ∙ ap (with_jobs rows) (Keeps-insert_audit_event _ d1 d2 tt e2 ∙ insert_job-queue new db d1 e1)
      ∙ ap (λ all. (all, db.job_results)) (append_assoc db.jobs (new ∷ []) rows)

  pub insert_any-queue :
      (inventory : List (String × String)) (now : ℕ) (jobs : List QueuedDispatchJob)
      (db db' : Store)
      → insert_any c key iv inventory now jobs db ≡ ok (tt, db')
      → queue db'
        ≡ with_jobs (map (dispatched_row c key iv none "worker.reconcile") jobs) (queue db)
  unfolding insert_any insert_dispatched_jobs
  insert_any-queue inventory now [] db db' e =
      queue_of_ok e ∙ ap (λ rows. (rows, db.job_results)) (sym (append-nil db.jobs))
  insert_any-queue inventory now (job ∷ jobs) db db' e =
      let (_, d1, e1, h1) = >>=-eq-ok _ _ db e in
      insert_each-queue none "worker.reconcile" (job ∷ jobs) d1 db' h1
      ∙ ap (with_jobs (map (dispatched_row c key iv none "worker.reconcile") (job ∷ jobs)))
          (Keeps-ensure_nodes inventory now _ db d1 tt e1)

  module _ (actor : Option String) (reason : String) where
    abbrev pub row_of : QueuedDispatchJob → JobRow
    row_of = dispatched_row c key iv actor reason

    pub is_for_row : (a b : QueuedDispatchJob) → is_for_resource a (row_of b) ≡ same_resource a b
    unfolding is_for_resource
    is_for_row a b = refl

    no_rows :
        (job : QueuedDispatchJob) (p : QueuedDispatchJob → Bool) (others : List QueuedDispatchJob)
        → All (λ other. same_resource job other ≡ false) others
        → filter (is_for_resource job) (map row_of (filter p others)) ≡ []
    no_rows job p [] h = refl
    no_rows job p (other ∷ others) h = elim (Bool-cases (p other)) [
      | inl e ↦ rw (e, is_for_row job other, h.0) (no_rows job p others h.1)
      | inr e ↦ rw e (no_rows job p others h.1)
    ]

    -- Among rows of distinct resources a job selects its own, if it is there.
    pub own_row :
        (p : QueuedDispatchJob → Bool) (jobs : List QueuedDispatchJob)
        → IsDistinct jobs
        → All
            (λ job.
              filter (is_for_resource job) (map row_of (filter p jobs))
              ≡ (if p job then row_of job ∷ [] else []))
            jobs
    own_row p [] h = tt
    own_row p (job ∷ jobs) h =
        let others = All-zip _ _ jobs (own_row p jobs h.1) h.0 in
        elim (Bool-cases (p job)) [
          | inl e ↦ rw e (
            rw (is_for_row job job, same_resource_refl job)
                (ap (λ rows. row_of job ∷ rows) (no_rows job p jobs h.0)),
            All-imp _ _ jobs others
                (λ other k. rw (e, is_for_row other job, same_resource_sym other job, k.1) (k.0)),
          )
          | inr e ↦ rw e (no_rows job p jobs h.0, All-imp _ _ jobs others (λ other k. rw e (k.0)))
        ]

-- The decision reads no more of the tables than the queue, and no more of the job than its desire.
pub should_dispatch-queue :
    (job : QueuedDispatchJob) (db d : Store)
    → queue d ≡ queue db
    → should_dispatch_queued_job job d ≡ should_dispatch_queued_job job db
unfolding should_dispatch_queued_job latest_job
should_dispatch-queue job db d e =
    ap
      (λ (q : List JobRow × List ResultRow).
        should_dispatch_queued_job job (record db { jobs = q.0; job_results = q.1 }))
      e

pub should_dispatch-desire :
    (a b : QueuedDispatchJob) (db : Store)
    → desire a ≡ desire b
    → should_dispatch_queued_job a db ≡ should_dispatch_queued_job b db
unfolding should_dispatch_queued_job latest_job is_for_resource
should_dispatch-desire a b db e =
    ap
      (λ (d : String × String × String × String).
        should_dispatch_queued_job
          (record b {
            envelope = record b.envelope { node_id = d.0; kind = d.1 };
            resource_key = d.2;
            payload_hash = d.3;
          })
          db)
      e
