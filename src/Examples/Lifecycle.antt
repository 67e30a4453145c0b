-- ===== src/Examples/Lifecycle.antt =====
-- A cycle over two zones, and the life of a job from an empty queue.
use simple_host_man.Store.Dispatch.Queued.{queued-should_dispatch, create_queued_dispatch_job}
use simple_host_man.Payload.Stringify.Order.{IsExchange, UnorderedPayload}
use simple_host_man.Payload.Stringify.{escape, text_leb, stringify_fields, stable_stringify}
use mathlib.Core.Quot
use mathlib.Core.Quot.{Quot}
use simple_host_man.Payload.{sanitize_fields}
use simple_host_man.Store.{DnsZoneRow, DispatchedJobEnvelope, insert_audit_event, ◌>>=◌}
use simple_host_man.Store.Dispatch.Reconcile.Convergence.{cycle_converges}
use simple_host_man.Store.Lifecycle.Moves.{Step-Move}
use simple_host_man.Prelude.Result.{ok, Result}
use simple_host_man.Store.Lifecycle.Consistency.{reachable-IsConsistent}
use simple_host_man.Examples.{obj, end, str, field, Fields, collate, dates, store, toy, sha, sample}
use simple_host_man.Store.Dispatch.{
  insert_job, insert_each, ensure_control_plane_target_node, ensure_nodes, is_for_resource,
  latest_job, should_dispatch_queued_job, insert_dispatched_jobs, QueuedDispatchJob,
}
use simple_host_man.Prelude.Text.{codes, Text}
use simple_host_man.Store.Dispatch.Reconcile.{
  insert_reconciliation_run, insert_any, skipped_job_count, jobs_to_dispatch,
  run_reconciliation_cycle_tx, run_reconciliation_cycle, run_row, Cycle,
}
use simple_host_man.Store.{StoreError, with_transaction, Store, ReconciliationRunRow}
use simple_host_man.Store.Lifecycle.{Step, job_state, IsReachable, Move, Environment, IsConsistent}
use simple_host_man.Store.Jobs.{claim_jobs, JobClaimRequest}
use simple_host_man.Prelude.{
  any, sort, refl, ◌≡◌, ℕ, false, String, none, some, List, [], ◌∷◌, ◌++◌, map, if◌then◌else◌,
  arith, str_eq,
}

abbrev pub zone_job : String → String → ℕ → String → QueuedDispatchJob
zone_job id zone created_at payload_hash = record {
  envelope = record {
    id = id;
    desired_state_version = "v1";
    kind = "dns.sync";
    node_id = "web-1";
    created_at = created_at;
    payload = sample;
  };
  resource_key = zone;
  resource_kind = "dns";
  payload_hash = payload_hash;
}

-- The first is queued already, the second is not.
abbrev candidates : List QueuedDispatchJob
candidates =
    zone_job "j-3" "zone:example.org" 30 "h1" ∷ zone_job "j-4" "zone:example.net" 40 "h2" ∷ []

abbrev renew : QueuedDispatchJob → QueuedDispatchJob
renew job = record job {
  envelope = record job.envelope { desired_state_version = "v2"; created_at = 90 };
}

-- One candidate for each zone of the store.
abbrev candidate_of : DnsZoneRow → QueuedDispatchJob
candidate_of zone =
    if str_eq zone.zone_id "z-1"
    then zone_job "j-3" "zone:example.org" 30 "h1"
    else zone_job "j-4" "zone:example.net" 40 "h2"

abbrev build : String → Store → Result StoreError (List QueuedDispatchJob × ℕ)
build version db =
    let found = map candidate_of db.dns_zones in
    if str_eq version "v1" then ok (found, 1) else ok (map renew found, 1)

abbrev cycle : String → String → Cycle
cycle run_id version = record {
  run_id = run_id;
  desired_state_version = version;
  started_at = 50;
  now = 50;
  completed_at = 60;
  presented_token = none;
}

abbrev pub iv : String → Text
iv id = codes id

abbrev pub inventory : List (String × String)
inventory = ("web-1", "web") ∷ []

abbrev first_run : ReconciliationRunRow
first_run = run_row (cycle "r-1" "v1") (zone_job "j-4" "zone:example.net" 40 "h2" ∷ []) 1 1

abbrev after_cycle : Store
after_cycle =
    (run_reconciliation_cycle sha collate toy none iv inventory build (cycle "r-1" "v1") store).1

ran :
    run_reconciliation_cycle sha collate toy none iv inventory build (cycle "r-1" "v1") store
    ≡ (ok first_run, after_cycle)
unfolding run_reconciliation_cycle run_reconciliation_cycle_tx with_transaction ◌>>=◌
    jobs_to_dispatch skipped_job_count should_dispatch_queued_job latest_job is_for_resource sort
    insert_any insert_dispatched_jobs ensure_nodes ensure_control_plane_target_node insert_each
    insert_job insert_audit_event insert_reconciliation_run sanitize_fields
ran = refl

fresh_run : any (λ old. str_eq old.run_id "r-2") after_cycle.reconciliation_runs ≡ false
unfolding run_reconciliation_cycle run_reconciliation_cycle_tx with_transaction ◌>>=◌
    jobs_to_dispatch skipped_job_count should_dispatch_queued_job latest_job is_for_resource sort
    insert_any insert_dispatched_jobs ensure_nodes ensure_control_plane_target_node insert_each
    insert_job insert_audit_event insert_reconciliation_run sanitize_fields
fresh_run = refl

rebuilt : build "v2" after_cycle ≡ ok (map renew candidates, 1)
unfolding run_reconciliation_cycle run_reconciliation_cycle_tx with_transaction ◌>>=◌
    jobs_to_dispatch skipped_job_count should_dispatch_queued_job latest_job is_for_resource sort
    insert_any insert_dispatched_jobs ensure_nodes ensure_control_plane_target_node insert_each
    insert_job insert_audit_event insert_reconciliation_run sanitize_fields
rebuilt = refl

cycle_converges_example :
    let row = run_row (cycle "r-2" "v2") [] 2 1 in
    run_reconciliation_cycle sha collate toy none iv inventory build (cycle "r-2" "v2") after_cycle
    ≡ (
      ok row,
      record after_cycle { reconciliation_runs = after_cycle.reconciliation_runs ++ row ∷ [] },
    )
cycle_converges_example =
    cycle_converges toy none iv sha collate inventory build (cycle "r-1" "v1") (cycle "r-2" "v2")
      store after_cycle first_run candidates 1 renew ran (λ sessions. refl) ((refl, tt), (tt, tt))
      ((omega arith, (omega arith, tt)), ((omega arith, (omega arith, tt)), tt)) rebuilt
      (λ job. refl) refl fresh_run

abbrev pub environment : Environment
environment = record {
  Bytes = Text;
  Plain = Text;
  crypto = toy;
  key = none;
  iv = iv;
  sha256_hex = sha;
  dates = dates;
  collate = collate;
  inventory = inventory;
  build = build;
}

abbrev empty_store : Store
empty_store = record store { jobs = []; job_results = [] }

abbrev pub filled : Store
filled =
    (with_transaction (insert_dispatched_jobs toy none iv inventory 50 candidates none "test")
      empty_store).1

abbrev claim_request : JobClaimRequest
claim_request = record {
  node_id = "web-1";
  hostname = "web";
  version = "1";
  max_jobs = 5;
  runtime_snapshot = none;
}

abbrev after_claim : Store
after_claim =
    (claim_jobs toy none sha (λ id. false) 1000 claim_request (some "node-token") filled).1

pub filled-IsReachable : IsReachable environment filled
filled-IsReachable =
    IsReachable.next empty_store filled (IsReachable.start empty_store refl refl)
      (Step.dispatch empty_store 50 candidates none "test")

reachable-IsConsistent_example : IsConsistent (filled.jobs, filled.job_results)
reachable-IsConsistent_example = reachable-IsConsistent environment filled filled-IsReachable

Step-Move_example : Move (job_state "j-3" filled.jobs) (job_state "j-3" after_claim.jobs)
Step-Move_example =
    Step-Move environment filled after_claim filled-IsReachable
      (Step.claim filled (λ id. false) 1000 claim_request (some "node-token")) "j-3"

abbrev swapped : Fields
swapped =
    field (codes "zone") (str (codes "example.org"))
      (field (codes "apiToken") (str (codes "t")) end)

abbrev envelope : Fields → DispatchedJobEnvelope
envelope payload = record {
  id = "dispatch-1";
  desired_state_version = "v1";
  kind = "dns.sync";
  node_id = "web-1";
  created_at = 50;
  payload = payload;
}

same_payload : ◌≡◌ {A = UnorderedPayload} (Quot.mk sample) (Quot.mk swapped)
same_payload = Quot.sound (
    IsExchange.swap (codes "apiToken") (codes "zone") (str (codes "t")) (str (codes "example.org"))
      end refl)

abbrev digest : Text → String
digest text = "0123456789abcdef"

queued-should_dispatch_example :
    should_dispatch_queued_job
      (create_queued_dispatch_job digest (envelope sample) "zone:example.org" "dns")
      store
    ≡ should_dispatch_queued_job
        (create_queued_dispatch_job digest (envelope swapped) "zone:example.org" "dns")
        store
queued-should_dispatch_example =
    queued-should_dispatch digest (envelope sample) (envelope swapped) "zone:example.org" "dns"
      "dns" store refl refl same_payload

-- The text of both, with the keys in order.
sorted_text : stable_stringify (obj swapped) ≡ codes "{\"apiToken\":\"t\",\"zone\":\"example.org\"}"
unfolding stable_stringify stringify_fields sort text_leb escape
sorted_text = refl
