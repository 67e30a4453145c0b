-- ===== src/Store/Jobs/Completion.antt =====
-- What a successful report leaves in the tables.
use simple_host_man.Store.Tables.{find-upsert, find-update_where}
use simple_host_man.Store.Jobs.Report.{report_job_shape, completed_jobs}
use simple_host_man.Payload.Envelope.{Crypto}
use simple_host_man.Store.Jobs.{
  Dates, strip_fields, result_row, ok, report_job, JobRow, Store, JobReportRequest, Fields,
  ReportedJobResult, find_job,
}
use simple_host_man.Prelude.{
  eq_refl, find, ap, ◌∙◌, ◌≡◌, ℕ, true, String, Option, none, some, str_eq,
}
use simple_host_man.Payload.Redaction.{strip_fields_hides, every_field_fields, is_public}

find_completed :
    (result : ReportedJobResult) (payload : Fields) (db db' : Store) (stored : JobRow)
    → find_job result.job_id db ≡ some stored
    → db'.jobs ≡ completed_jobs result payload db.jobs
    → find_job result.job_id db'
      ≡ some (record stored { completed_at = some result.completed_at; payload = payload })
unfolding find_job
find_completed result payload db db' stored e after = rw after (
    find-update_where (λ job. str_eq job.id result.job_id) _ db.jobs (λ row h. h)
    ∙ ap
        (λ found. elim found [
          | none ↦ none
          | some row ↦
              some (record row { completed_at = some result.completed_at; payload = payload })
        ])
        e)

module _ {Bytes Plain : Type 0} (c : Crypto Bytes Plain) (key : Option Bytes)
    (sha256_hex : String → String) (dates : Dates) where
  -- A report that succeeds names a stored job. That job is then completed at the reported time and
  -- keeps its other columns but the payload, which has no property with a sensitive key at any depth;
  -- the result on record for it is the reported one.
  pub report_job_records :
      (now : ℕ) (request : JobReportRequest) (presented : Option String) (db db' : Store)
      → report_job c key sha256_hex dates now request presented db ≡ (ok tt, db')
      → let job_id = request.result.job_id in
        (stored : JobRow) × (payload : Fields) × (find_job job_id db ≡ some stored)
        × (find_job job_id db'
            ≡ some (record stored {
              completed_at = some request.result.completed_at;
              payload = payload;
            }))
        × (every_field_fields is_public payload ≡ true)
        × (find (λ row. str_eq row.job_id job_id) db'.job_results
            ≡ some (result_row request.result now))
  report_job_records now request presented db db' e =
      let (stored, decoded, found, _, after, results) =
        report_job_shape c key sha256_hex dates now request presented db db' e in
      (
        stored,
        strip_fields decoded,
        found,
        find_completed request.result (strip_fields decoded) db db' stored found after,
        strip_fields_hides decoded,
        rw results (
            find-upsert (λ row. str_eq row.job_id request.result.job_id)
              (result_row request.result now) (eq_refl request.result.job_id) db.job_results),
      )
