-- ===== src/Store/Ddns/Update/Replacement.antt =====
-- What an update of dynamic DNS that changes a record leaves in the tables.
use simple_host_man.Store.Ddns.Records.{
  good, is_target, DdnsHostUpdateResponse, updated_host, delete_records, DdnsHostUpdateRequest,
  insert_record,
}
use simple_host_man.Prelude.Text.{same_refl}
use simple_host_man.Store.Dispatch.{QueuedDispatchJob}
use simple_host_man.Store.Dispatch.{insert_dispatched_jobs}
use simple_host_man.Store.Ddns.Update.Outcome.{
  update_cases, IsAdmitted, requested_ip, requested_hostname,
}
use simple_host_man.Store.Preserves.{
  Preserves-query, Preserves-bind, Preserves-pure, Preserves-execute, Preserves,
}
use simple_host_man.Store.Ddns.{update_where, same, ManagedHost, join_zone}
use simple_host_man.Store.Ddns.Update.{
  record_type_for_ip_address, is_type, update_ddns_host, new_record, dispatch_zone, replace_record,
  Ddns,
}
use simple_host_man.Store.Dispatch.{
  add_node, insert_each, ensure_control_plane_target_node, insert_job, ensure_nodes,
}
use simple_host_man.Prelude.{
  append-nil, filter-filter, filter-filter-not, filter-append, eq_refl, some-injective, find,
  filter, any, refl, sym, ap, ◌∙◌, ◌≡◌, inl, inr, ℕ, true, not, String, Option, none, some, List,
  [], ◌∷◌, ◌++◌, Bool-cases, Option-cases, str_eq,
}
use simple_host_man.Store.{
  with_transaction_ok, ok-value, >>=-eq-ok, err, ok-store, ok, DdnsHostRow, JobRow, StoreError,
  DnsRecordRow, AuditEvent, Result, insert_audit_event, DnsZoneRow, Store, Text,
}

abbrev pub DnsTables : Type 0
DnsTables = List DnsZoneRow × List DnsRecordRow × List DdnsHostRow

-- The tables of domain names.
abbrev pub dns : Store → DnsTables
dns db = (db.dns_zones, db.dns_records, db.ddns_hosts)

Preserves-insert_audit_event : (event : AuditEvent) → Preserves dns (insert_audit_event event)
unfolding insert_audit_event
Preserves-insert_audit_event event = Preserves-execute dns _ (λ db. refl)

Preserves-add_node :
    (node_id : String) (now : ℕ) (hostname : Result StoreError String)
    → Preserves dns (add_node node_id now hostname)
Preserves-add_node node_id now (err x) db db' a e = cc
Preserves-add_node node_id now (ok hostname) db db' a e =
    elim (Bool-cases (any (λ row. str_eq row.node_id node_id) db.nodes)) [
      | inl known ↦ ap dns (sym (ok-store (rw known at e)))
      | inr new ↦ ap dns (sym (ok-store (rw new at e)))
    ]

Preserves-ensure_nodes :
    (inventory : List (String × String)) (now : ℕ) (ids : List String)
    → Preserves dns (ensure_nodes inventory now ids)
unfolding ensure_nodes ensure_control_plane_target_node
Preserves-ensure_nodes inventory now [] = Preserves-pure dns tt
Preserves-ensure_nodes inventory now (id ∷ ids) =
    Preserves-bind dns _ _ (Preserves-add_node id now _)
      (λ _. Preserves-ensure_nodes inventory now ids)

Preserves-insert_job : (row : JobRow) → Preserves dns (insert_job row)
unfolding insert_job
Preserves-insert_job row db db' a e =
    elim (Bool-cases (any (λ old. str_eq old.id row.id) db.jobs)) [
      | inl taken ↦ cc (rw taken at e)
      | inr free ↦ ap dns (sym (ok-store (rw free at e)))
    ]

insert_record_ok :
    (new : DnsRecordRow) (db db' : Store)
    → insert_record new db ≡ ok (tt, db')
    → db' ≡ record db { dns_records = db.dns_records ++ new ∷ [] }
unfolding insert_record
insert_record_ok new db db' e =
    elim (Bool-cases (any (λ row. same row.record_id new.record_id) db.dns_records)) [
      | inl taken ↦ cc (rw taken at e)
      | inr free ↦ sym (ok-store (rw free at e))
    ]

-- A host that is found is found again after its columns of use have changed.
pub join_zone_again :
    (zones : List DnsZoneRow) (host : DdnsHostRow) (managed : ManagedHost) (now : ℕ) (ip : Text)
    → join_zone zones host ≡ some managed
    → (host ≡ managed.host)
      × (join_zone zones (updated_host now ip host)
          ≡ some
              (record { host = updated_host now ip managed.host; zone_name = managed.zone_name }))
unfolding join_zone
join_zone_again zones host managed now ip e =
    elim (Option-cases (find (λ zone. str_eq zone.zone_id host.zone_id) zones)) [
      | inl missing ↦ cc (rw missing at e)
      | inr (zone, found) ↦
          let joined = some-injective (rw found at e) in
          (
            ap (λ (m : ManagedHost). m.host) joined,
            rw found (
                ap
                  (λ (m : ManagedHost).
                    some (record { host = updated_host now ip m.host; zone_name = m.zone_name }))
                  joined),
          )
    ]

module _ (env : Ddns) (now : ℕ) (version : String) (request : DdnsHostUpdateRequest) where
  abbrev hostname : Text
  hostname = requested_hostname env now version request

  abbrev ip : Text
  ip = requested_ip env now version request

  Preserves-insert_each :
      (actor : Option String) (reason : String) (jobs : List QueuedDispatchJob)
      → Preserves dns (insert_each env.crypto env.key env.iv actor reason jobs)
  unfolding insert_each
  Preserves-insert_each actor reason [] = Preserves-pure dns tt
  Preserves-insert_each actor reason (job ∷ jobs) =
      Preserves-bind dns _ _ (Preserves-insert_job _) (λ _.
        Preserves-bind dns _ _ (Preserves-insert_audit_event _)
          (λ _. Preserves-insert_each actor reason jobs))

  Preserves-dispatch_zone :
      (managed : ManagedHost) → Preserves dns (dispatch_zone env now version managed hostname)
  unfolding dispatch_zone insert_dispatched_jobs
  Preserves-dispatch_zone managed = Preserves-bind dns _ _ (Preserves-query dns _) (λ jobs.
      Preserves-bind dns _ _
        (Preserves-bind dns _ _ (Preserves-ensure_nodes env.inventory now _)
          (λ _. Preserves-insert_each none _ jobs))
        (λ _. Preserves-pure dns jobs))

  -- The tables of domain names after a record is replaced.
  abbrev pub replaced : ManagedHost → Store → DnsTables
  replaced managed db = (
    db.dns_zones,
    filter (λ row. not (is_target managed.host row)) db.dns_records
        ++ new_record env now managed ip ∷ [],
    update_where (λ row. same row.host_id managed.host.host_id) (updated_host now ip) db.ddns_hosts,
  )

  pub replace_record_shape :
      (managed : ManagedHost) (r : DdnsHostUpdateResponse) (db db' : Store)
      → replace_record env now version request managed hostname ip db ≡ ok (r, db')
      → (dns db' ≡ replaced managed db) × (r.status ≡ good)
  unfolding replace_record delete_records
  replace_record_shape managed r db db' e =
      let (_, d1, e1, h1) = >>=-eq-ok _ _ db e in
      let (_, d2, e2, h2) = >>=-eq-ok _ _ d1 h1 in
      let (_, d3, e3, h3) = >>=-eq-ok _ _ d2 h2 in
      let (jobs, d4, e4, h4) = >>=-eq-ok _ _ d3 h3 in
      let (_, d5, e5, h5) = >>=-eq-ok _ _ d4 h4 in
      (
        ap dns (sym (ok-store h5))
            ∙ Preserves-insert_audit_event _ d4 d5 tt e5
            ∙ Preserves-dispatch_zone managed d3 d4 jobs e4
            ∙ ap dns (sym (ok-store e3))
            ∙ ap
                (λ (d : Store). dns (record d {
                  ddns_hosts =
                      update_where (λ row. same row.host_id managed.host.host_id)
                        (updated_host now ip) d.ddns_hosts;
                }))
                (insert_record_ok _ d1 d2 e2
                  ∙ ap
                      (λ (d : Store). record d {
                        dns_records = d.dns_records ++ new_record env now managed ip ∷ [];
                      })
                      (sym (ok-store e1))),
        ap (λ (x : DdnsHostUpdateResponse). x.status) (sym (ok-value h5)),
      )

  -- A change by an update: who is admitted, and the tables of domain names after it.
  pub changed_shape :
      (r : DdnsHostUpdateResponse) (db db' : Store)
      → update_ddns_host env now version request db ≡ (ok r, db')
      → r.changed ≡ true
      → (managed : ManagedHost) × IsAdmitted env now version request db managed
        × (is_type env managed.host.record_type (record_type_for_ip_address env ip) ≡ true)
        × (dns db' ≡ replaced managed db)
  unfolding update_ddns_host
  changed_shape r db db' e changed =
      let tx = with_transaction_ok _ db db' r e in
      elim (update_cases env now version request r db db' tx) [
        | inl (same_store, unchanged) ↦ cc
        | inr (managed, admitted, inl (f, same_id, noted, unchanged)) ↦ cc
        | inr (managed, admitted, inr (typed, run)) ↦
            (managed, admitted, typed, (replace_record_shape managed r db db' run).0)
      ]

  target_itself :
      (managed : ManagedHost) → is_target managed.host (new_record env now managed ip) ≡ true
  unfolding is_target
  target_itself managed =
      rw
        (
          eq_refl managed.host.zone_id,
          same_refl managed.host.record_name,
          eq_refl managed.host.record_type,
        )
        refl

  -- The host's own records are the new one, the others are as they were.
  pub replaced_records :
      (managed : ManagedHost) (rows : List DnsRecordRow)
      → let new = new_record env now managed ip in
        let after = filter (λ row. not (is_target managed.host row)) rows ++ new ∷ [] in
        (filter (is_target managed.host) after ≡ new ∷ [])
        × (filter (λ row. not (is_target managed.host row)) after
            ≡ filter (λ row. not (is_target managed.host row)) rows)
  replaced_records managed rows =
      let new = new_record env now managed ip in
      let mine = is_target managed.host in
      let other = λ (row : DnsRecordRow). not (is_target managed.host row) in
      (
        filter-append mine (filter other rows) (new ∷ [])
            ∙ ap (λ zs. zs ++ filter mine (new ∷ [])) (filter-filter-not mine rows)
            ∙ rw (target_itself managed) refl,
        filter-append other (filter other rows) (new ∷ [])
            ∙ ap (λ zs. zs ++ filter other (new ∷ [])) (filter-filter other rows)
            ∙ rw (target_itself managed) (append-nil (filter other rows)),
      )
