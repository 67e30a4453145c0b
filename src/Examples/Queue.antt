-- ===== src/Examples/Queue.antt =====
-- A claim and a report of one node.
use simple_host_man.Store.Jobs.Claim.{AreDispatched}
use simple_host_man.Store.Jobs.{upsert_result}
use simple_host_man.Store.Jobs.{complete_job}
use simple_host_man.Store.Jobs.{record_code_server}
use simple_host_man.Store.Jobs.{record_inventory}
use simple_host_man.Store.Jobs.{touch_reporting_node}
use simple_host_man.Payload.Envelope.{decode_stored_job_payload}
use simple_host_man.Store.Jobs.{to_dispatched_job}
use simple_host_man.Store.Jobs.{is_claimable}
use simple_host_man.Store.Jobs.{is_candidate}
use simple_host_man.Store.Jobs.{candidate_jobs}
use simple_host_man.Store.Jobs.{to_dispatched_jobs}
use simple_host_man.Store.{insert_audit_event}
use simple_host_man.Store.Jobs.{claim_candidates}
use simple_host_man.Store.Jobs.{touch_claiming_node}
use simple_host_man.Store.Nodes.{touch_node_credential}
use simple_host_man.Store.Nodes.{hash_token}
use simple_host_man.Store.Nodes.{get_node_credential}
use simple_host_man.Store.Nodes.{check_credential}
use simple_host_man.Store.Jobs.Completion.{report_job_records}
use simple_host_man.Payload.Redaction.{is_public, every_field_fields}
use simple_host_man.Prelude.Result.{ok}
use simple_host_man.Store.Nodes.{authenticate_node}
use simple_host_man.Payload.{Fields}
use simple_host_man.Examples.{dates, store, sha, sample, toy}
use simple_host_man.Store.Tables.{any_id}
use simple_host_man.Store.Jobs.{
  result_row, find_job, report_job_tx, claim_jobs_tx, DispatchedJobEnvelope, claim_jobs,
  JobReportRequest, JobClaimRequest, report_job,
}
use simple_host_man.Prelude.{
  ◌++◌, Perm, find, sort, min, length, All, refl, ◌≡◌, ◌≢◌, ◌≤◌, Bool, true, false, String, none,
  some, List, [], ◌∷◌, arith, str_eq,
}
use simple_host_man.Store.Jobs.Once.{claim_jobs_once, report_job_final}
use simple_host_man.Store.Jobs.Handout.{envelope_ids, run_queue, QueueEvent}
use simple_host_man.Store.Jobs.Oldest.{AreOldestFirst, waiting_jobs, claim_jobs_oldest}
use simple_host_man.Store.{with_transaction, JobRow, Store, ◌>>=◌}

abbrev claim_request : JobClaimRequest
claim_request = record {
  node_id = "web-1";
  hostname = "web";
  version = "1";
  max_jobs = 1;
  runtime_snapshot = none;
}

abbrev report_request : JobReportRequest
report_request = record {
  node_id = "web-1";
  result = record {
    job_id = "j-1";
    kind = "dns.sync";
    node_id = "web-1";
    status = "applied";
    summary = "done";
    details = none;
    completed_at = 1000;
  };
}

abbrev nothing_locked : String → Bool
nothing_locked id = false

abbrev sent : List DispatchedJobEnvelope
sent =
    (record {
      id = "j-1";
      desired_state_version = "v1";
      kind = "dns.sync";
      node_id = "web-1";
      created_at = 10;
      payload = sample;
    })
    ∷ []

abbrev after_claim : Store
after_claim =
    (claim_jobs toy none sha nothing_locked 1000 claim_request (some "node-token") store).1

claimed :
    claim_jobs toy none sha nothing_locked 1000 claim_request (some "node-token") store
    ≡ (ok sent, after_claim)
unfolding claim_jobs claim_jobs_tx with_transaction ◌>>=◌ authenticate_node check_credential
    get_node_credential hash_token touch_node_credential touch_claiming_node claim_candidates
    insert_audit_event to_dispatched_jobs sort candidate_jobs is_candidate is_claimable
    to_dispatched_job decode_stored_job_payload
claimed = refl

abbrev after_report : Store
after_report = (report_job toy none sha dates 2000 report_request (some "node-token") store).1

reported :
    report_job toy none sha dates 2000 report_request (some "node-token") store
    ≡ (ok tt, after_report)
unfolding report_job report_job_tx with_transaction ◌>>=◌ authenticate_node check_credential
    get_node_credential hash_token touch_node_credential touch_reporting_node record_inventory
    record_code_server find_job decode_stored_job_payload complete_job upsert_result
    insert_audit_event
reported = refl

abbrev claims_again : List QueueEvent
claims_again =
    QueueEvent.claim nothing_locked 301000 claim_request (some "node-token")
    ∷ QueueEvent.report 2000 report_request (some "node-token")
    ∷ []

claim_jobs_once_example :
    All
      (λ id. any_id id (envelope_ids sent) ≡ false)
      (run_queue toy none sha dates claims_again after_claim)
claim_jobs_once_example =
    claim_jobs_once toy none sha dates nothing_locked 1000 claim_request (some "node-token") store
      after_claim sent claimed claims_again (omega arith, (omega arith, tt))

claim_jobs_oldest_example :
    let waiting = waiting_jobs nothing_locked "web-1" 1000 store in
    (taken : List JobRow) × (left : List JobRow) × Perm (taken ++ left) waiting
    × AreDispatched toy none taken sent
    × (length sent ≡ min 1 (length waiting))
    × All (λ j. j.node_id ≡ "web-1") sent
    × AreOldestFirst toy none sent
    × All (λ j. All (λ row. j.created_at ≤ row.created_at) left) sent
claim_jobs_oldest_example =
    claim_jobs_oldest toy none sha nothing_locked 1000 claim_request (some "node-token") store
      after_claim sent claimed

report_job_final_example :
    All (λ id. id ≢ "j-1") (run_queue toy none sha dates claims_again after_report)
report_job_final_example =
    report_job_final toy none sha dates 2000 report_request (some "node-token") store after_report
      reported claims_again

report_job_records_example :
    (stored : JobRow) × (payload : Fields) × (find_job "j-1" store ≡ some stored)
    × (find_job "j-1" after_report
        ≡ some (record stored { completed_at = some 1000; payload = payload }))
    × (every_field_fields is_public payload ≡ true)
    × (find (λ row. str_eq row.job_id "j-1") after_report.job_results
        ≡ some (result_row report_request.result 2000))
report_job_records_example =
    report_job_records toy none sha dates 2000 report_request (some "node-token") store after_report
      reported
