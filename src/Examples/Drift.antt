-- ===== src/Examples/Drift.antt =====
-- Dispatch and drift of a zone.
use simple_host_man.Payload.Envelope.{encode_stored_job_payload}
use simple_host_man.Store.Jobs.{to_dispatched_job}
use simple_host_man.Store.Jobs.{candidate_jobs}
use simple_host_man.Store.Jobs.{to_dispatched_jobs}
use simple_host_man.Store.Jobs.{claim_candidates}
use simple_host_man.Store.Jobs.{touch_claiming_node}
use simple_host_man.Store.Jobs.Oldest.{waiting_jobs}
use simple_host_man.Payload.{lookup}
use simple_host_man.Store.Dispatch.Delivery.{dispatched-delivered}
use simple_host_man.Store.Jobs.{
  claim_jobs_tx, is_claimable, claim_jobs, is_candidate, DispatchedJobEnvelope, JobClaimRequest,
  upsert_result,
}
use simple_host_man.Store.Jobs.{complete_job}
use simple_host_man.Payload.Envelope.{is_encrypted_job_payload_envelope, decode_stored_job_payload}
use simple_host_man.Store.Jobs.{find_job}
use simple_host_man.Store.Jobs.{record_code_server}
use simple_host_man.Store.Jobs.{record_inventory}
use simple_host_man.Store.Jobs.{touch_reporting_node}
use simple_host_man.Store.Nodes.{touch_node_credential}
use simple_host_man.Store.Nodes.{hash_token}
use simple_host_man.Store.Nodes.{get_node_credential}
use simple_host_man.Store.Nodes.{check_credential}
use simple_host_man.Store.Nodes.{authenticate_node}
use simple_host_man.Store.{insert_audit_event}
use simple_host_man.Store.Dispatch.{insert_job}
use simple_host_man.Store.Dispatch.{insert_each}
use simple_host_man.Store.Dispatch.{ensure_control_plane_target_node}
use simple_host_man.Store.Dispatch.{ensure_nodes}
use simple_host_man.Prelude.Result.{ok}
use simple_host_man.Examples.{
  inl, toy_laws, length, IsSample, false, Option, List, dates, sha, job, sample, store, toy,
}
use simple_host_man.Store.Dispatch.Drift.{drift-should_dispatch, report_job-should_dispatch}
use simple_host_man.Prelude.Text.{codes, Text}
use simple_host_man.Store.Jobs.{report_job_tx, JobReportRequest, report_job}
use simple_host_man.Store.Dispatch.{
  dispatched_row, get_latest_resource_job, has_key, latest_job, should_dispatch_queued_job,
  is_for_resource, create_resource_drift_summary, QueuedDispatchJob, insert_dispatched_jobs,
}
use simple_host_man.Prelude.{
  ◌≤◌, Any, sort, refl, ◌≡◌, ℕ, not, ◌||◌, String, none, some, [], ◌∷◌, ◌++◌, arith, str_eq,
}
use simple_host_man.Store.{with_transaction, job_dispatched, Store, ◌>>=◌}

abbrev queued : String → ℕ → String → QueuedDispatchJob
queued id created_at payload_hash = record {
  envelope = record {
    id = id;
    desired_state_version = "v2";
    kind = "dns.sync";
    node_id = "web-1";
    created_at = created_at;
    payload = sample;
  };
  resource_key = "zone:example.org";
  resource_kind = "dns";
  payload_hash = payload_hash;
}

drift-should_dispatch_example :
    (create_resource_drift_summary
      (queued "j-3" 30 "h2")
      (get_latest_resource_job (queued "j-3" 30 "h2") store)).dispatch_recommended
    ≡ should_dispatch_queued_job (queued "j-3" 30 "h2") store
drift-should_dispatch_example = drift-should_dispatch (queued "j-3" 30 "h2") store

abbrev iv : String → Text
iv id = codes id

abbrev dispatched : Store
dispatched = record store {
  nodes =
      (record {
        node_id = "web-1";
        hostname = "web";
        version = "inventory";
        supported_job_kinds = [];
        runtime_snapshot = none;
        accepted_at = 30;
        last_seen_at = 30;
      })
      ∷ [];
  jobs = store.jobs ++ dispatched_row toy none iv none "drift" (queued "j-3" 30 "h2") ∷ [];
  audit_events =
      (record {
        actor_type = "system";
        actor_id = "reconciler";
        entity_type = "job";
        entity_id = "j-3";
        payload = job_dispatched "dns.sync" "web-1" "drift" "zone:example.org";
        occurred_at = 30;
      })
      ∷ [];
}

dispatch :
    insert_dispatched_jobs toy none iv
      (("web-1", "web") ∷ [])
      30
      (queued "j-3" 30 "h2" ∷ [])
      none
      "drift"
      store
    ≡ ok (tt, dispatched)
unfolding insert_dispatched_jobs ◌>>=◌ ensure_nodes ensure_control_plane_target_node insert_each
    insert_job insert_audit_event
dispatch = refl

abbrev report_request : JobReportRequest
report_request = record {
  node_id = "web-1";
  result = record {
    job_id = "j-2";
    kind = "dns.sync";
    node_id = "web-1";
    status = "applied";
    summary = "done";
    details = none;
    completed_at = 1000;
  };
}

abbrev reported_store : Store
reported_store = (report_job toy none sha dates 2000 report_request (some "node-token") store).1

reported :
    report_job toy none sha dates 2000 report_request (some "node-token") store
    ≡ (ok tt, reported_store)
unfolding report_job report_job_tx with_transaction ◌>>=◌ authenticate_node check_credential
    get_node_credential hash_token touch_node_credential touch_reporting_node record_inventory
    record_code_server find_job decode_stored_job_payload complete_job upsert_result
    insert_audit_event
reported = refl

newest : latest_job (queued "j-4" 40 "h1") store ≡ some (job "j-2" 20)
unfolding latest_job is_for_resource sort
newest = refl

report_job-should_dispatch_example :
    should_dispatch_queued_job (queued "j-4" 40 "h1") reported_store
    ≡ (not (has_key "h1" (some "h1")) || not (str_eq "applied" "applied"))
report_job-should_dispatch_example =
    report_job-should_dispatch toy none sha dates 2000 report_request (some "node-token") store
      reported_store (queued "j-4" 40 "h1") (job "j-2" 20) reported newest refl

abbrev key : Option Text
key = some (codes "key")

abbrev sealed : Store
sealed = record dispatched {
  jobs = store.jobs ++ dispatched_row toy key iv none "drift" (queued "j-3" 30 "h2") ∷ [];
}

dispatch_sealed :
    insert_dispatched_jobs toy key iv
      (("web-1", "web") ∷ [])
      30
      (queued "j-3" 30 "h2" ∷ [])
      none
      "drift"
      store
    ≡ ok (tt, sealed)
unfolding insert_dispatched_jobs ◌>>=◌ ensure_nodes ensure_control_plane_target_node insert_each
    insert_job insert_audit_event
dispatch_sealed = refl

abbrev claim_request : JobClaimRequest
claim_request = record {
  node_id = "web-1";
  hostname = "web";
  version = "1";
  max_jobs = 5;
  runtime_snapshot = none;
}

abbrev sent : String → ℕ → DispatchedJobEnvelope
sent id created_at = record {
  id = id;
  desired_state_version = "v1";
  kind = "dns.sync";
  node_id = "web-1";
  created_at = created_at;
  payload = sample;
}

abbrev all_sent : List DispatchedJobEnvelope
all_sent = sent "j-1" 10 ∷ sent "j-2" 20 ∷ (queued "j-3" 30 "h2").envelope ∷ []

abbrev claimed_store : Store
claimed_store =
    (claim_jobs toy key sha (λ id. false) 1000 claim_request (some "node-token") sealed).1

claimed :
    claim_jobs toy key sha (λ id. false) 1000 claim_request (some "node-token") sealed
    ≡ (ok all_sent, claimed_store)
unfolding claim_jobs claim_jobs_tx with_transaction ◌>>=◌ authenticate_node lookup
    is_encrypted_job_payload_envelope check_credential get_node_credential hash_token
    touch_node_credential touch_claiming_node claim_candidates insert_audit_event to_dispatched_jobs
    sort candidate_jobs is_candidate is_claimable to_dispatched_job decode_stored_job_payload
    encode_stored_job_payload
claimed = refl

three_waiting : length (waiting_jobs (λ id. false) "web-1" 1000 sealed) ≤ 5
unfolding is_candidate is_claimable
three_waiting = omega arith

dispatched-delivered_example : Any (λ s. s ≡ (queued "j-3" 30 "h2").envelope) all_sent
dispatched-delivered_example =
    dispatched-delivered toy IsSample toy_laws (codes "key") iv sha (("web-1", "web") ∷ []) 30
      (queued "j-3" 30 "h2") none "drift" store sealed claimed_store (λ id. false) 1000
      claim_request (some "node-token") all_sent (inl refl) dispatch_sealed claimed refl refl
      three_waiting
