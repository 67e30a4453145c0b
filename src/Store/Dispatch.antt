-- ===== src/Store/Dispatch.antt =====
-- Dispatch of jobs and drift: `insertDispatchedJobs`, `shouldDispatchQueuedJob` and
-- `getLatestResourceJob` of packages/control-database/src/control-plane-store-operations.ts, and
-- `createResourceDriftSummary` of packages/control-database/src/control-plane-store-helpers.ts.
-- `inventory` is the table of managed nodes, a node's identifier and host name; `iv` gives what
-- `randomBytes` returned for a job. Rows with one creation time stand in the order of the table.
pub mod Drift
pub mod Delivery
pub mod Reconcile
pub mod Queued
use simple_host_man.Store.Jobs.{DispatchedJobEnvelope}
use simple_host_man.Store.Tables.{non_empty, is_none, any_id}
use simple_host_man.Payload.Envelope.{encode_stored_job_payload, Crypto}
use simple_host_man.Prelude.{
  filter, sort, leb, find, any, head?, refl, sym, ap, ◌∙◌, ◌≡◌, ◌≢◌, ◌⊎◌, ◌↔◌, inl, inr, ℕ, zero,
  suc, ◌+◌, ◌-◌, ◌*◌, ◌≤◌, ◌<◌, Bool, true, false, not, ◌&&◌, ◌||◌, String, Option, none, some,
  List, [], ◌∷◌, ◌++◌, map, if◌then◌else◌, arith, Bool-cases, Option-cases, str_eq,
}
use simple_host_man.Store.{
  job_dispatched, ok, node_not_in_inventory, unique_violation, insert_audit_event, err, StoreError,
  pure, ResultRow, Store, Tx, Result, JobRow, ◌>>=◌, ◌>>◌, >>=-eq-ok,
}

pub record QueuedDispatchJob : Type 0 where
  pub envelope : DispatchedJobEnvelope
  pub resource_key : String
  pub resource_kind : String
  pub payload_hash : String

pub record DriftStatusRow : Type 0 where
  pub id : String
  pub payload_hash : Option String
  pub completed_at : Option ℕ
  pub status : Option String
  pub summary : Option String

pub record ResourceDriftSummary : Type 0 where
  pub resource_kind : String
  pub resource_key : String
  pub node_id : String
  pub drift_status : String
  pub desired_payload_hash : String
  pub latest_payload_hash : Option String
  pub latest_job_id : Option String
  pub latest_job_status : Option String
  pub latest_summary : Option String
  pub dispatch_recommended : Bool

abbrev known_host : String → Option (String × String) → Result StoreError String
known_host node_id none = err (node_not_in_inventory node_id)
known_host node_id (some node) = ok node.1

-- `ON CONFLICT (node_id) DO NOTHING`
abbrev pub add_node : String → ℕ → Result StoreError String → Tx (Unit {0})
add_node node_id timestamp (err e) db = err e
add_node node_id timestamp (ok hostname) db =
    if any (λ row. str_eq row.node_id node_id) db.nodes
    then ok (tt, db)
    else ok (
      tt,
      record db {
        nodes =
            db.nodes
            ++ (record {
              node_id = node_id;
              hostname = hostname;
              version = "inventory";
              supported_job_kinds = [];
              runtime_snapshot = none;
              accepted_at = timestamp;
              last_seen_at = timestamp;
            })
              ∷ [];
      },
    )

unfoldable pub ensure_control_plane_target_node :
    List (String × String) → String → ℕ → Tx (Unit {0})
ensure_control_plane_target_node inventory node_id timestamp =
    add_node node_id timestamp (known_host node_id (find (λ node. str_eq node.0 node_id) inventory))

unfoldable pub ensure_nodes : List (String × String) → ℕ → List String → Tx (Unit {0})
ensure_nodes inventory timestamp [] = pure tt
ensure_nodes inventory timestamp (node_id ∷ ids) =
    ensure_control_plane_target_node inventory node_id timestamp
    >> ensure_nodes inventory timestamp ids

-- `new Set(…)`, in the order of insertion.
abbrev distinct_after : List String → List String → List String
distinct_after seen [] = []
distinct_after seen (id ∷ ids) =
    if any_id id seen then distinct_after seen ids else id ∷ distinct_after (id ∷ seen) ids

-- The identifier is the primary key.
unfoldable pub insert_job : JobRow → Tx (Unit {0})
insert_job new db =
    if any (λ row. str_eq row.id new.id) db.jobs
    then err unique_violation
    else ok (tt, record db { jobs = db.jobs ++ new ∷ [] })

abbrev actor_type_of : Option String → String
actor_type_of none = "system"
actor_type_of (some _) = "user"

abbrev actor_id_of : Option String → String
actor_id_of none = "reconciler"
actor_id_of (some id) = id

module _ {Bytes Plain : Type 0} (c : Crypto Bytes Plain) (key : Option Bytes)
    (iv : String → Bytes) where
  abbrev pub dispatched_row : Option String → String → QueuedDispatchJob → JobRow
  dispatched_row actor_user_id dispatch_reason job = record {
    id = job.envelope.id;
    desired_state_version = job.envelope.desired_state_version;
    kind = job.envelope.kind;
    node_id = job.envelope.node_id;
    created_at = job.envelope.created_at;
    payload = encode_stored_job_payload c (iv job.envelope.id) job.envelope.payload key;
    claimed_at = none;
    completed_at = none;
    dispatched_by_user_id = actor_user_id;
    dispatch_reason = some dispatch_reason;
    resource_key = some job.resource_key;
    resource_kind = some job.resource_kind;
    payload_hash = some job.payload_hash;
  }

  unfoldable pub insert_each : Option String → String → List QueuedDispatchJob → Tx (Unit {0})
  insert_each actor_user_id dispatch_reason [] = pure tt
  insert_each actor_user_id dispatch_reason (job ∷ jobs) = do
    insert_job (dispatched_row actor_user_id dispatch_reason job)
    insert_audit_event (record {
      actor_type = actor_type_of (non_empty actor_user_id);
      actor_id = actor_id_of actor_user_id;
      entity_type = "job";
      entity_id = job.envelope.id;
      payload =
          job_dispatched job.envelope.kind job.envelope.node_id dispatch_reason job.resource_key;
      occurred_at = job.envelope.created_at;
    })
    insert_each actor_user_id dispatch_reason jobs

  unfoldable pub insert_dispatched_jobs :
      List (String × String) → ℕ → List QueuedDispatchJob → Option String → String → Tx (Unit {0})
  insert_dispatched_jobs inventory created_at jobs actor_user_id dispatch_reason = do
    ensure_nodes inventory created_at (distinct_after [] (map (λ job. job.envelope.node_id) jobs))
    insert_each actor_user_id dispatch_reason jobs

abbrev pub has_key : String → Option String → Bool
has_key key none = false
has_key key (some k) = str_eq k key

unfoldable pub is_for_resource : QueuedDispatchJob → JobRow → Bool
is_for_resource job row =
    str_eq row.node_id job.envelope.node_id
    && str_eq row.kind job.envelope.kind
    && has_key job.resource_key row.resource_key

abbrev pub newer : JobRow → JobRow → Bool
newer left right = leb right.created_at left.created_at

-- `ORDER BY jobs.created_at DESC LIMIT 1`
unfoldable pub latest_job : QueuedDispatchJob → Store → Option JobRow
latest_job job db = head? (sort newer (filter (is_for_resource job) db.jobs))

abbrev result_status : Option ResultRow → Option String
result_status none = none
result_status (some row) = some row.status

abbrev result_summary : Option ResultRow → Option String
result_summary none = none
result_summary (some row) = some row.summary

abbrev result_of : String → Store → Option ResultRow
result_of id db = find (λ row. str_eq row.job_id id) db.job_results

abbrev pub with_result : Store → Option JobRow → Option DriftStatusRow
with_result db none = none
with_result db (some row) = some (record {
  id = row.id;
  payload_hash = row.payload_hash;
  completed_at = row.completed_at;
  status = result_status (result_of row.id db);
  summary = result_summary (result_of row.id db);
})

unfoldable pub get_latest_resource_job : QueuedDispatchJob → Store → Option DriftStatusRow
get_latest_resource_job job db = with_result db (latest_job job db)

-- The decision on the row that the query of `shouldDispatchQueuedJob` returns, the same query.
abbrev pub should_dispatch_after : QueuedDispatchJob → Option DriftStatusRow → Bool
should_dispatch_after job none = true
should_dispatch_after job (some latest) =
    if is_none latest.completed_at
    then not (has_key job.payload_hash latest.payload_hash)
    else if not (has_key job.payload_hash latest.payload_hash)
    then true
    else not (has_key "applied" latest.status)

unfoldable pub should_dispatch_queued_job : QueuedDispatchJob → Store → Bool
should_dispatch_queued_job job db = should_dispatch_after job (with_result db (latest_job job db))

abbrev drift_summary :
    QueuedDispatchJob
    → String
    → DriftStatusRow
    → Option String
    → Option String
    → Bool
    → ResourceDriftSummary
drift_summary job drift_status latest latest_status latest_summary recommended = record {
  resource_kind = job.resource_kind;
  resource_key = job.resource_key;
  node_id = job.envelope.node_id;
  drift_status = drift_status;
  desired_payload_hash = job.payload_hash;
  latest_payload_hash = latest.payload_hash;
  latest_job_id = some latest.id;
  latest_job_status = latest_status;
  latest_summary = latest_summary;
  dispatch_recommended = recommended;
}

unfoldable pub create_resource_drift_summary :
    QueuedDispatchJob → Option DriftStatusRow → ResourceDriftSummary
create_resource_drift_summary job none = record {
  resource_kind = job.resource_kind;
  resource_key = job.resource_key;
  node_id = job.envelope.node_id;
  drift_status = "out_of_sync";
  desired_payload_hash = job.payload_hash;
  latest_payload_hash = none;
  latest_job_id = none;
  latest_job_status = none;
  latest_summary = none;
  dispatch_recommended = true;
}
create_resource_drift_summary job (some latest) =
    let same_hash = has_key job.payload_hash latest.payload_hash in
    if is_none latest.completed_at
    then drift_summary job "pending" latest none none (not same_hash)
    else if not same_hash
    then drift_summary job "out_of_sync" latest latest.status latest.summary true
    else if not (has_key "applied" latest.status)
    then drift_summary job "failed" latest latest.status latest.summary true
    else drift_summary job "in_sync" latest (some "applied") latest.summary false
