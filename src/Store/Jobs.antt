-- ===== src/Store/Jobs.antt =====
-- The job queue of the control plane: `claimJobs` and `reportJob` of
-- packages/control-database/src/control-plane-store-auth.ts, and `toDispatchedJob` of
-- packages/control-database/src/control-plane-store-helpers.ts.
-- Rows with one creation time stand in the order of the table. `locked` tells which rows another
-- transaction holds when the statement runs (`FOR UPDATE SKIP LOCKED`).
pub mod Claim
pub mod Queue
pub mod Oldest
pub mod Handout
pub mod Once
pub mod Report
pub mod Completion
pub use simple_host_man.Store.{DispatchedJobEnvelope}
use simple_host_man.Prelude.{
  ℕ, ◌-◌, String, Bool, true, false, not, ◌&&◌, ◌||◌, Option, none, some, List, [], ◌∷◌, ◌++◌, ◌≡◌,
  map, str_eq, ltb, leb, if◌then◌else◌, filter, take, find, any, sort,
}
use simple_host_man.Prelude.Text.{Text, codes, same}
use simple_host_man.Prelude.Result.{Result, ok, err}
use simple_host_man.Payload.{Json, obj, Fields, end, field, sanitize_fields, strip_fields, lookup}
use simple_host_man.Payload.Envelope.{PayloadError, Crypto, decode_stored_job_payload}
use simple_host_man.Store.{
  StoreError, job_no_longer_exists, bad_payload, NodeRow, JobRow, ResultRow, AuditEvent,
  jobs_claimed, job_reported, Store, Tx, ◌>>=◌, ◌>>◌, pure, throw, query, execute, with_transaction,
  insert_audit_event,
}
use simple_host_man.Store.Tables.{update_where, upsert, any_id, is_none}
use simple_host_man.Store.Nodes.{authenticate_node}
use simple_host_man.Store.Packages.{
  Dates, extract_reported_installed_packages, replace_node_installed_packages,
}

pub record JobClaimRequest : Type 0 where
  pub node_id : String
  pub hostname : String
  pub version : String
  pub max_jobs : ℕ
  pub runtime_snapshot : Option Fields

pub record ReportedJobResult : Type 0 where
  pub job_id : String
  pub kind : String
  pub node_id : String
  pub status : String
  pub summary : String
  pub details : Option Fields
  pub completed_at : ℕ

pub record JobReportRequest : Type 0 where
  pub node_id : String
  pub result : ReportedJobResult

abbrev pub reclaimable_claimed_job_kinds : List String
reclaimable_claimed_job_kinds =
    "dns.sync" ∷ "proxy.render" ∷ "container.reconcile" ∷ "mail.sync" ∷ []

abbrev pub reclaimable_job_claim_timeout_ms : ℕ
reclaimable_job_claim_timeout_ms = 300000

-- `claimed_at IS NULL OR (kind = ANY(…) AND claimed_at < …)`. A time before the epoch is not
-- stored, so that a difference cut off at 0 gives the same answer.
unfoldable pub is_claimable : ℕ → String → Option ℕ → Bool
is_claimable now kind none = true
is_claimable now kind (some claimed_at) =
    any_id kind reclaimable_claimed_job_kinds
    && ltb claimed_at (now - reclaimable_job_claim_timeout_ms)

unfoldable pub is_candidate : String → ℕ → JobRow → Bool
is_candidate node_id now job =
    str_eq job.node_id node_id
    && is_none job.completed_at
    && is_claimable now job.kind job.claimed_at

abbrev pub older : JobRow → JobRow → Bool
older left right = leb left.created_at right.created_at

unfoldable pub candidate_jobs : (String → Bool) → String → ℕ → ℕ → Store → List JobRow
candidate_jobs locked node_id max_jobs now db =
    take max_jobs
      (sort older (filter (λ job. is_candidate node_id now job && not (locked job.id)) db.jobs))

abbrev pub job_ids : List JobRow → List String
job_ids = map (λ job. job.id)

abbrev pub mark_claimed : ℕ → JobRow → JobRow
mark_claimed now job = record job { claimed_at = some now }

-- `UPDATE … RETURNING`, and the rows that it returns. The primary key makes them the candidates.
unfoldable pub claim_candidates : ℕ → List JobRow → Tx (List JobRow)
claim_candidates now candidates db = ok (
  sort older (map (mark_claimed now) candidates),
  record db {
    jobs = update_where (λ job. any_id job.id (job_ids candidates)) (mark_claimed now) db.jobs;
  },
)

-- `COALESCE($4::jsonb, runtime_snapshot)`
abbrev coalesce : Option Fields → Option Fields → Option Fields
coalesce none old = old
coalesce (some new) old = some new

unfoldable pub touch_claiming_node : JobClaimRequest → ℕ → Tx (Unit {0})
touch_claiming_node request claimed_at = execute λ db. record db {
  nodes =
      update_where (λ row. str_eq row.node_id request.node_id)
        (λ row. record row {
          hostname = request.hostname;
          version = request.version;
          runtime_snapshot = coalesce request.runtime_snapshot row.runtime_snapshot;
          last_seen_at = claimed_at;
        })
        db.nodes;
}

unfoldable pub touch_reporting_node : String → ℕ → Tx (Unit {0})
touch_reporting_node node_id reported_at = execute λ db. record db {
  nodes =
      update_where (λ row. str_eq row.node_id node_id)
        (λ row. record row { last_seen_at = reported_at }) db.nodes;
}

-- `jsonb_set(…, '{key}', value, true)` on an object.
unfoldable pub set_field : Text → Json → Fields → Fields
set_field key value end = field key value end
set_field key value (field k v fs) =
    if same k key then field k value fs else field k v (set_field key value fs)

abbrev snapshot_with : Json → Option Fields → Option Fields
snapshot_with after none = some (set_field (codes "codeServer") after end)
snapshot_with after (some snapshot) = some (set_field (codes "codeServer") after snapshot)

unfoldable pub set_code_server : String → Json → Tx (Unit {0})
unfolding set_field
set_code_server node_id after = execute λ db. record db {
  nodes =
      update_where (λ row. str_eq row.node_id node_id)
        (λ row. record row { runtime_snapshot = snapshot_with after row.runtime_snapshot })
        db.nodes;
}

abbrev pub after_snapshot : Option Fields → Option Json
after_snapshot none = none
after_snapshot (some details) = lookup (codes "after") details

-- Only an object is stored.
abbrev pub store_after : String → Option Json → Tx (Unit {0})
store_after node_id (some (obj fs)) = set_code_server node_id (obj fs)
store_after node_id _ = pure tt

unfoldable pub record_code_server : JobReportRequest → Tx (Unit {0})
record_code_server request =
    if str_eq request.result.kind "code-server.update"
    then store_after request.node_id (after_snapshot request.result.details)
    else pure tt

unfoldable pub find_job : String → Store → Option JobRow
find_job job_id db = find (λ job. str_eq job.id job_id) db.jobs

abbrev require_job : String → Option JobRow → Tx JobRow
require_job job_id none = throw (job_no_longer_exists job_id)
require_job job_id (some job) = pure job

unfoldable pub complete_job : ReportedJobResult → Fields → Tx (Unit {0})
complete_job result payload = execute λ db. record db {
  jobs =
      update_where (λ job. str_eq job.id result.job_id)
        (λ job. record job { completed_at = some result.completed_at; payload = payload }) db.jobs;
}

abbrev pub result_row : ReportedJobResult → ℕ → ResultRow
result_row result reported_at = record {
  job_id = result.job_id;
  kind = result.kind;
  node_id = result.node_id;
  status = result.status;
  summary = result.summary;
  details = result.details;
  completed_at = result.completed_at;
  reported_at = reported_at;
}

unfoldable pub upsert_result : ReportedJobResult → ℕ → Tx (Unit {0})
upsert_result result reported_at = execute λ db. record db {
  job_results =
      upsert (λ row. str_eq row.job_id result.job_id) (λ row. result_row result reported_at)
        (result_row result reported_at) db.job_results;
}

abbrev pub lift : Result PayloadError Fields → Tx Fields
lift (ok payload) = pure payload
lift (err e) = throw (bad_payload e)

module _ {Bytes Plain : Type 0} (c : Crypto Bytes Plain) (key : Option Bytes) where
  unfoldable pub to_dispatched_job : Bool → JobRow → Tx DispatchedJobEnvelope
  to_dispatched_job sanitize_secrets row = do
    decoded ← lift (decode_stored_job_payload c row.payload key)
    pure (record {
      id = row.id;
      desired_state_version = row.desired_state_version;
      kind = row.kind;
      node_id = row.node_id;
      created_at = row.created_at;
      payload = if sanitize_secrets then sanitize_fields decoded else decoded;
    })

  unfoldable pub to_dispatched_jobs : List JobRow → Tx (List DispatchedJobEnvelope)
  to_dispatched_jobs [] = pure []
  to_dispatched_jobs (row ∷ rows) = do
    job ← to_dispatched_job false row
    jobs ← to_dispatched_jobs rows
    pure (job ∷ jobs)

  module _ (sha256_hex : String → String) where
    -- The body of the transaction of `claimJobs`.
    unfoldable pub claim_jobs_tx :
        (String → Bool) → ℕ → JobClaimRequest → Option String → Tx (List DispatchedJobEnvelope)
    claim_jobs_tx locked claimed_at request presented_token = do
      authenticate_node sha256_hex request.node_id presented_token claimed_at
      touch_claiming_node request claimed_at
      candidates ← query (candidate_jobs locked request.node_id request.max_jobs claimed_at)
      rows ← claim_candidates claimed_at candidates
      insert_audit_event (record {
        actor_type = "node";
        actor_id = request.node_id;
        entity_type = "node";
        entity_id = request.node_id;
        payload = jobs_claimed (job_ids rows) request.max_jobs request.hostname request.version;
        occurred_at = claimed_at;
      })
      to_dispatched_jobs rows

    unfoldable pub claim_jobs :
        (String → Bool)
        → ℕ
        → JobClaimRequest
        → Option String
        → Store
        → Result StoreError (List DispatchedJobEnvelope) × Store
    claim_jobs locked claimed_at request presented_token db =
        with_transaction (claim_jobs_tx locked claimed_at request presented_token) db

  module _ (sha256_hex : String → String) (dates : Dates) where
    abbrev replace_inventory : String → ℕ → Option Fields → Tx (Unit {0})
    replace_inventory node_id completed_at details =
        elim (extract_reported_installed_packages dates details) [
          | none ↦ pure tt
          | some packages ↦ replace_node_installed_packages dates node_id completed_at packages
        ]

    unfoldable pub record_inventory : JobReportRequest → Tx (Unit {0})
    record_inventory request =
        if (str_eq request.result.kind "package.inventory.collect"
            || str_eq request.result.kind "package.install")
          && str_eq request.result.status "applied"
        then replace_inventory request.node_id request.result.completed_at request.result.details
        else pure tt

    -- The body of the transaction of `reportJob`.
    unfoldable pub report_job_tx : ℕ → JobReportRequest → Option String → Tx (Unit {0})
    report_job_tx reported_at request presented_token = do
      authenticate_node sha256_hex request.node_id presented_token reported_at
      touch_reporting_node request.node_id reported_at
      record_inventory request
      record_code_server request
      found ← query (find_job request.result.job_id)
      stored_job ← require_job request.result.job_id found
      decoded ← lift (decode_stored_job_payload c stored_job.payload key)
      complete_job request.result (strip_fields decoded)
      upsert_result request.result reported_at
      insert_audit_event (record {
        actor_type = "node";
        actor_id = request.node_id;
        entity_type = "job";
        entity_id = request.result.job_id;
        payload = job_reported request.result.kind request.result.status request.result.summary;
        occurred_at = reported_at;
      })

    unfoldable pub report_job :
        ℕ → JobReportRequest → Option String → Store → Result StoreError (Unit {0}) × Store
    report_job reported_at request presented_token db =
        with_transaction (report_job_tx reported_at request presented_token) db
