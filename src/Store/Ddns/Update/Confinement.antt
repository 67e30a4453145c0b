-- ===== src/Store/Ddns/Update/Confinement.antt =====
-- What an update of dynamic DNS can change, and for whom.
use simple_host_man.Store.Tables.{filter-update_where}
use simple_host_man.Store.Ddns.Records.{
  updated_host, is_target, records_of, DdnsHostUpdateResponse, DdnsHostUpdateRequest,
}
use simple_host_man.Store.Ddns.Update.Replacement.{
  replaced_records, DnsTables, replace_record_shape,
}
use simple_host_man.Store.Ddns.Update.Outcome.{requested_ip, update_cases, IsAdmitted, Outcome}
use simple_host_man.Store.Jobs.Queue.{queue}
use simple_host_man.Store.Ddns.Update.{same, new_record, update_ddns_host, ManagedHost, Ddns}
use simple_host_man.Prelude.{
  refl, filter, ap, ◌∙◌, ◌≡◌, ◌⊎◌, inl, inr, ℕ, false, not, String, List, [], ◌∷◌,
}
use simple_host_man.Store.{DdnsHostRow, with_transaction_ok, ok, DnsRecordRow, Store}

module _ (env : Ddns) (now : ℕ) (version : String) (request : DdnsHostUpdateRequest) where
  -- The host's own records are the address of the request, and nothing else.
  abbrev pub IsPointed : ManagedHost → Store → Type 0
  IsPointed managed db =
      records_of managed.host db
      ≡ new_record env now managed (requested_ip env now version request) ∷ []

  abbrev pub IsKept : Store → Store → Type 0
  IsKept db db' = (db'.dns_records ≡ db.dns_records) × (queue db' ≡ queue db)

  abbrev pub others : ManagedHost → Store → List DnsRecordRow
  others managed db = filter (λ row. not (is_target managed.host row)) db.dns_records

  abbrev pub other_hosts : ManagedHost → Store → List DdnsHostRow
  other_hosts managed db = filter (λ row. not (same row.host_id managed.host.host_id)) db.ddns_hosts

  abbrev pub IsConfined : Store → Store → DdnsHostUpdateResponse → Type 0
  IsConfined db db' r =
      ((db' ≡ db) × (r.changed ≡ false))
      ⊎ (managed : ManagedHost) × IsAdmitted env now version request db managed
        × (others managed db' ≡ others managed db)
        × (other_hosts managed db' ≡ other_hosts managed db)
        × (((r.changed ≡ false) × IsKept db db') ⊎ (IsPointed managed db'))

  IsConfined-cases :
      (r : DdnsHostUpdateResponse) (db db' : Store)
      → Outcome env now version request db db' r
      → IsConfined db db' r
  IsConfined-cases r db db' (inl refusal) = inl refusal
  IsConfined-cases r db db' (inr (managed, admitted, inl (f, same_id, noted, unchanged))) = inr (
    managed,
    admitted,
    ap (others managed) noted,
    ap (other_hosts managed) noted
        ∙ filter-update_where (λ row. same row.host_id managed.host.host_id) f db.ddns_hosts
            (λ row. ap (λ id. same id managed.host.host_id) (same_id row)),
    inl (unchanged, (ap (λ (d : Store). d.dns_records) noted, ap queue noted)),
  )
  IsConfined-cases r db db' (inr (managed, admitted, inr (typed, run))) =
      let shape = (replace_record_shape env now version request managed r db db' run).0 in
      let records = ap (λ (t : DnsTables). t.1) shape in
      let (own, rest) = replaced_records env now version request managed db.dns_records in
      inr (
        managed,
        admitted,
        ap (filter (λ row. not (is_target managed.host row))) records ∙ rest,
        ap (λ (t : DnsTables). filter (λ row. not (same row.host_id managed.host.host_id)) t.2)
              shape
            ∙ filter-update_where (λ row. same row.host_id managed.host.host_id)
                (updated_host now (requested_ip env now version request)) db.ddns_hosts
                (λ row. refl),
        inr (ap (filter (is_target managed.host)) records ∙ own),
      )

  -- An update of dynamic DNS that returns either changes no table, or is from a caller who gave the
  -- name and password of an enabled host. Then only records with that host's zone, name and type
  -- can differ, and no row of another host does: either no record and no job has changed, and the
  -- response says so, or the one record of that host is the address of the request.
  pub update_ddns_host-IsConfined :
      (r : DdnsHostUpdateResponse) (db db' : Store)
      → update_ddns_host env now version request db ≡ (ok r, db')
      → IsConfined db db' r
  unfolding update_ddns_host
  update_ddns_host-IsConfined r db db' e =
      IsConfined-cases r db db'
        (update_cases env now version request r db db' (with_transaction_ok _ db db' r e))
