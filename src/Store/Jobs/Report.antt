-- ===== src/Store/Jobs/Report.antt =====
-- What a report does to the job that it names and to its recorded result.
use simple_host_man.Store.Jobs.Queue.{
  Keeps-insert_audit_event, Keeps-authenticate_node, Keeps-touch_reporting_node,
  Keeps-record_inventory, Keeps-record_code_server, queue,
}
use simple_host_man.Store.Jobs.Claim.{lift_ok}
use simple_host_man.Payload.Envelope.{decode_stored_job_payload, Crypto}
use simple_host_man.Store.Jobs.{
  Dates, strip_fields, JobReportRequest, result_row, find_job, update_where, report_job_tx, upsert,
  report_job, require_job, ReportedJobResult, complete_job, upsert_result,
}
use simple_host_man.Prelude.{find, sym, ap, ◌∙◌, ◌≡◌, ℕ, String, Option, none, some, List, str_eq}
use simple_host_man.Store.{
  ok-value, with_transaction_ok, ok-store, Fields, ok, Store, ResultRow, JobRow, >>=-eq-ok,
}

-- The two tables after the report.
abbrev pub completed_jobs : ReportedJobResult → Fields → List JobRow → List JobRow
completed_jobs result payload =
    update_where (λ job. str_eq job.id result.job_id)
      (λ job. record job { completed_at = some result.completed_at; payload = payload })

abbrev pub recorded_results : ReportedJobResult → ℕ → List ResultRow → List ResultRow
recorded_results result now =
    upsert (λ row. str_eq row.job_id result.job_id) (λ row. result_row result now)
      (result_row result now)

require_job_ok :
    (job_id : String) (found : Option JobRow) (db db' : Store) (job : JobRow)
    → require_job job_id found db ≡ ok (job, db')
    → (found ≡ some job) × (db ≡ db')
require_job_ok job_id none db db' job e = cc
require_job_ok job_id (some j) db db' job e = (cc, cc)

complete_job_ok :
    (result : ReportedJobResult) (payload : Fields) (db db' : Store)
    → complete_job result payload db ≡ ok (tt, db')
    → (db'.jobs ≡ completed_jobs result payload db.jobs) × (db'.job_results ≡ db.job_results)
unfolding complete_job
complete_job_ok result payload db db' e = (rw (← ok-store e), rw (← ok-store e))

upsert_result_ok :
    (result : ReportedJobResult) (now : ℕ) (db db' : Store)
    → upsert_result result now db ≡ ok (tt, db')
    → (db'.jobs ≡ db.jobs) × (db'.job_results ≡ recorded_results result now db.job_results)
unfolding upsert_result
upsert_result_ok result now db db' e = (rw (← ok-store e), rw (← ok-store e))

abbrev pub jobs_of : List JobRow × List ResultRow → List JobRow
jobs_of q = q.0

abbrev pub results_of : List JobRow × List ResultRow → List ResultRow
results_of q = q.1

module _ {Bytes Plain : Type 0} (c : Crypto Bytes Plain) (key : Option Bytes)
    (sha256_hex : String → String) (dates : Dates) where
  -- A report that succeeds found the job and could read its payload; it completes the job with its
  -- payload stripped, and records the result.
  pub report_job_shape :
      (now : ℕ) (request : JobReportRequest) (presented : Option String) (db db' : Store)
      → report_job c key sha256_hex dates now request presented db ≡ (ok tt, db')
      → (stored : JobRow) × (decoded : Fields) × (find_job request.result.job_id db ≡ some stored)
        × (decode_stored_job_payload c stored.payload key ≡ ok decoded)
        × (db'.jobs ≡ completed_jobs request.result (strip_fields decoded) db.jobs)
        × (db'.job_results ≡ recorded_results request.result now db.job_results)
  unfolding report_job report_job_tx find_job
  report_job_shape now request presented db db' e =
      let tx =
        with_transaction_ok (report_job_tx c key sha256_hex dates now request presented) db db' tt
          e in
      let (_, d1, e1, h1) = >>=-eq-ok _ _ db tx in
      let (_, d2, e2, h2) = >>=-eq-ok _ _ d1 h1 in
      let (_, d3, e3, h3) = >>=-eq-ok _ _ d2 h2 in
      let (_, d4, e4, h4) = >>=-eq-ok _ _ d3 h3 in
      let (found, d5, e5, h5) = >>=-eq-ok _ _ d4 h4 in
      let (stored, d6, e6, h6) = >>=-eq-ok _ _ d5 h5 in
      let (decoded, d7, e7, h7) = >>=-eq-ok _ _ d6 h6 in
      let (_, d8, e8, h8) = >>=-eq-ok _ _ d7 h7 in
      let (_, d9, e9, h9) = >>=-eq-ok _ _ d8 h8 in
      let (is_found, same6) = require_job_ok request.result.job_id found d5 d6 stored e6 in
      let (is_decoded, same7) = lift_ok _ d6 d7 decoded e7 in
      let before : queue d7 ≡ queue db =
        ap queue (sym same7)
        ∙ ap queue (sym same6)
        ∙ ap queue (sym (ok-store e5))
        ∙ Keeps-record_code_server request d3 d4 tt e4
        ∙ Keeps-record_inventory c key sha256_hex dates request d2 d3 tt e3
        ∙ Keeps-touch_reporting_node request.node_id now d1 d2 tt e2
        ∙ Keeps-authenticate_node sha256_hex request.node_id now presented db d1 tt e1 in
      let at_query : queue d4 ≡ queue db =
        Keeps-record_code_server request d3 d4 tt e4
        ∙ Keeps-record_inventory c key sha256_hex dates request d2 d3 tt e3
        ∙ Keeps-touch_reporting_node request.node_id now d1 d2 tt e2
        ∙ Keeps-authenticate_node sha256_hex request.node_id now presented db d1 tt e1 in
      let (jobs8, results8) = complete_job_ok request.result (strip_fields decoded) d7 d8 e8 in
      let (jobs9, results9) = upsert_result_ok request.result now d8 d9 e9 in
      let last = Keeps-insert_audit_event _ d9 db' tt h9 in
      (
        stored,
        decoded,
        ap (find (λ job. str_eq job.id request.result.job_id)) (ap jobs_of (sym at_query))
            ∙ ok-value e5
            ∙ is_found,
        is_decoded,
        ap jobs_of last
            ∙ jobs9
            ∙ jobs8
            ∙ ap (completed_jobs request.result (strip_fields decoded)) (ap jobs_of before),
        ap results_of last
            ∙ results9
            ∙ ap (recorded_results request.result now) (results8 ∙ ap results_of before),
      )
