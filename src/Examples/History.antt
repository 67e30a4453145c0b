-- ===== src/Examples/History.antt =====
-- A purge of a completed job that a newer one has replaced.
use simple_host_man.Prelude.Result.{ok}
use simple_host_man.Payload.{strip_fields, lookup}
use simple_host_man.Payload.Envelope.{
  is_encrypted_job_payload_envelope, encode_stored_job_payload, decode_stored_job_payload,
}
use simple_host_man.Store.Nodes.{
  touch_node_credential, hash_token, get_node_credential, check_credential, authenticate_node,
}
use simple_host_man.Store.Dispatch.{
  insert_job, insert_each, ensure_control_plane_target_node, ensure_nodes, insert_dispatched_jobs,
}
use simple_host_man.Examples.Lifecycle.{
  inventory, zone_job, filled-IsReachable, iv, filled, environment,
}
use simple_host_man.Examples.{dates, collate, toy, sha}
use simple_host_man.Store.History.Invisible.{purge_operational_history-IsUnseen, IsUnseen}
use simple_host_man.Store.Lifecycle.{Step, IsReachable}
use simple_host_man.Store.Jobs.{
  upsert_result, complete_job, find_job, record_code_server, record_inventory, touch_reporting_node,
  report_job_tx, report_job, JobReportRequest,
}
use simple_host_man.Store.History.{
  get_latest_operation_history_purge_at, purge_runs, delete_events, purge_events,
  latest_resource_jobs, is_purgeable, purgeable_jobs, purge_jobs, purge_operational_history_rows,
  purge_now, PurgeSummary, Retention, purge_operational_history,
}
use simple_host_man.Prelude.{sort, refl, ◌≡◌, false, none, some, [], ◌∷◌}
use simple_host_man.Store.{insert_audit_event, with_transaction, Store, ◌>>=◌}

abbrev report_request : JobReportRequest
report_request = record {
  node_id = "web-1";
  result = record {
    job_id = "j-3";
    kind = "dns.sync";
    node_id = "web-1";
    status = "applied";
    summary = "done";
    details = none;
    completed_at = 1000;
  };
}

abbrev reported : Store
reported = (report_job toy none sha dates 2000 report_request (some "node-token") filled).1

abbrev again : Store
again =
    (with_transaction
      (insert_dispatched_jobs toy none iv inventory 5000
        (zone_job "j-9" "zone:example.org" 5000 "h9" ∷ []) none "test")
      reported).1

reported-IsReachable : IsReachable environment reported
reported-IsReachable =
    IsReachable.next filled reported filled-IsReachable
      (Step.report filled 2000 report_request (some "node-token"))

again-IsReachable : IsReachable environment again
again-IsReachable =
    IsReachable.next reported again reported-IsReachable
      (Step.dispatch reported 5000 (zone_job "j-9" "zone:example.org" 5000 "h9" ∷ []) none "test")

abbrev one_day : Retention
one_day = record { retention_days = 1; source = "default" }

abbrev after_purge : Store
after_purge = (purge_operational_history sha collate 864000000 one_day 1 none again).1

abbrev purge_summary : PurgeSummary
purge_summary = record {
  generated_at = 864000000;
  retention = one_day;
  cutoff_at = 777600000;
  deleted = record {
    deleted_audit_event_count = 4;
    deleted_reconciliation_run_count = 0;
    deleted_job_count = 1;
    deleted_job_result_count = 1;
    kept_latest_resource_job_count = 2;
  };
  skipped = false;
  next_purge_at = none;
}

purged_once :
    purge_operational_history sha collate 864000000 one_day 1 none again
    ≡ (ok purge_summary, after_purge)
unfolding purge_operational_history purge_now purge_operational_history_rows purge_jobs
    purgeable_jobs is_purgeable latest_resource_jobs purge_events delete_events purge_runs
    get_latest_operation_history_purge_at insert_audit_event with_transaction ◌>>=◌ sort report_job
    report_job_tx authenticate_node check_credential get_node_credential hash_token
    touch_node_credential touch_reporting_node record_inventory record_code_server find_job
    decode_stored_job_payload complete_job upsert_result insert_dispatched_jobs ensure_nodes
    ensure_control_plane_target_node insert_each insert_job encode_stored_job_payload
    is_encrypted_job_payload_envelope lookup strip_fields
purged_once = refl

purge_operational_history-IsUnseen_example : IsUnseen 777600000 again after_purge
purge_operational_history-IsUnseen_example =
    purge_operational_history-IsUnseen environment again after_purge 864000000 one_day 1 none
      purge_summary again-IsReachable purged_once
