-- ===== src/Store/Ddns/Update/Again.antt =====
-- The same update of dynamic DNS again.
use simple_host_man.Store.Ddns.Records.{
  DdnsHostUpdateResponse, is_target, unchanged_host, nochg, refused, records_of, is_current,
  updated_host, DdnsHostUpdateRequest,
}
use simple_host_man.Prelude.Text.{trim, same_refl}
use simple_host_man.Store.Tables.{find-update_kept}
use simple_host_man.Store.Ddns.Update.Replacement.{
  DnsTables, replaced_records, changed_shape, join_zone_again,
}
use simple_host_man.Store.Ddns.Update.Outcome.{
  with_hosts, requested_hostname, requested_ip, IsAdmitted,
}
use simple_host_man.Store.Ddns.{given, join_found, same, update_where, ManagedHost, find_ddns_host}
use simple_host_man.Store.Ddns.Update.{
  update_ddns_host, record_type_for_ip_address, is_type, point_host, update_known,
  update_ddns_host_tx, Ddns,
}
use simple_host_man.Prelude.{
  ==_refl, filter, ap₂, find, refl, ap, ◌∙◌, ◌≡◌, inl, inr, ℕ, Bool, true, false, not, String, some,
  if◌then◌else◌, Option-cases,
}
use simple_host_man.Store.{with_transaction_commit, ok, DdnsHostRow, Store, Tx, Text, ◌>>=◌}

guard_passed :
    {A : Type 0} (m n : Tx A) (db : Store) (b : Bool)
    → b ≡ true
    → (if not b then m else n) db ≡ n db
guard_passed m n db b h = ap (λ x. (if not x then m else n) db) h

then_taken :
    {A : Type 0} (m n : Tx A) (db : Store) (b : Bool) → b ≡ true → (if b then m else n) db ≡ m db
then_taken m n db b h = ap (λ x. (if x then m else n) db) h

else_taken :
    {A : Type 0} (m n : Tx A) (db : Store) (b : Bool) → b ≡ false → (if b then m else n) db ≡ n db
else_taken m n db b h = ap (λ x. (if x then m else n) db) h

-- A host that is found is found after its columns of use have changed.
found_again :
    (hostname : Text) (managed : ManagedHost) (now : ℕ) (ip : Text) (db db' : Store)
    → find_ddns_host hostname db ≡ some managed
    → db'.dns_zones ≡ db.dns_zones
    → db'.ddns_hosts
      ≡ update_where
          (λ row. same row.host_id managed.host.host_id)
          (updated_host now ip)
          db.ddns_hosts
    → find_ddns_host hostname db'
      ≡ some (record { host = updated_host now ip managed.host; zone_name = managed.zone_name })
unfolding find_ddns_host
found_again hostname managed now ip db db' e zones hosts =
    elim (Option-cases (find (λ row. same row.hostname hostname) db.ddns_hosts)) [
      | inl missing ↦ cc (rw missing at e)
      | inr (row, found) ↦
          let (own, joined) = join_zone_again db.dns_zones row managed now ip (rw found at e) in
          let kept =
            find-update_kept (λ row. same row.hostname hostname)
              (λ row. same row.host_id managed.host.host_id) (updated_host now ip) db.ddns_hosts row
              (λ x. refl) found in
          let its_own : same row.host_id managed.host.host_id ≡ true =
            ap (λ (x : DdnsHostRow). same x.host_id managed.host.host_id) own
            ∙ same_refl managed.host.host_id in
          ap₂ (λ zs hs. join_found zs (find (λ row. same row.hostname hostname) hs)) zones hosts
          ∙ ap (join_found db.dns_zones)
              (kept ∙ ap (λ b. some (if b then updated_host now ip row else row)) its_own)
          ∙ joined
    ]

module _ (env : Ddns) (now : ℕ) (version : String) (request : DdnsHostUpdateRequest) where
  -- An update of a record that has the address of the request already.
  nothing_to_change :
      (managed : ManagedHost) (db : Store)
      → IsAdmitted env now version request db managed
      → is_type env managed.host.record_type
          (record_type_for_ip_address env (requested_ip env now version request))
        ≡ true
      → is_current managed.host (requested_ip env now version request) (records_of managed.host db)
        ≡ true
      → update_ddns_host_tx env now version request db
        ≡ ok (
          refused nochg
              (some (requested_hostname env now version request))
              (some (requested_ip env now version request)),
          with_hosts env now version request
              (update_where
                (λ row. same row.host_id managed.host.host_id)
                (unchanged_host now (requested_ip env now version request))
                db.ddns_hosts)
              db,
        )
  unfolding update_ddns_host_tx update_known point_host ◌>>=◌
  nothing_to_change managed db (complete, known, on, right) typed current =
      else_taken _ _ db _ complete
      ∙ ap
          (λ found.
            update_known env now version request (requested_hostname env now version request)
              (trim (given request.username)) (given request.password) found db)
          known
      ∙ guard_passed _ _ db managed.host.enabled on
      ∙ guard_passed _ _ db _ right
      ∙ guard_passed _ _ db _ typed
      ∙ then_taken _ _ db _ current

module _ (env : Ddns) (now : ℕ) (version : String) (request : DdnsHostUpdateRequest) where
  -- An update that changes a record can be repeated: with the same request, at any later time, it
  -- returns `nochg` for the host and address and changes no row of any table, but the columns of the
  -- host that note the address and the time.
  pub update_ddns_host_again :
      (r : DdnsHostUpdateResponse) (db db' : Store) (later : ℕ) (next_version : String)
      → update_ddns_host env now version request db ≡ (ok r, db')
      → r.changed ≡ true
      → (managed : ManagedHost) × (find_ddns_host (requested_hostname env now version request) db
          ≡ some managed)
        × (update_ddns_host env later next_version request db' ≡ (
          ok (
              refused nochg
                (some (requested_hostname env now version request))
                (some (requested_ip env now version request))),
          with_hosts env now version request
              (update_where
                (λ row. same row.host_id managed.host.host_id)
                (unchanged_host later (requested_ip env now version request))
                db'.ddns_hosts)
              db',
        ))
  unfolding update_ddns_host is_target
  update_ddns_host_again r db db' later next_version e changed =
      let (managed, (complete, known, on, right), typed, shape) =
        changed_shape env now version request r db db' e changed in
      let ip = requested_ip env now version request in
      let noted : ManagedHost = record {
        host = updated_host now ip managed.host;
        zone_name = managed.zone_name;
      } in
      let own = (replaced_records env now version request managed db.dns_records).0 in
      let current : is_current noted.host ip (records_of noted.host db') ≡ true =
        ap (λ (t : DnsTables). is_current managed.host ip (filter (is_target managed.host) t.1))
          shape
        ∙ ap (is_current managed.host ip) own
        ∙ rw (same_refl ip, ==_refl managed.host.ttl) refl in
      let known_again =
        found_again (requested_hostname env now version request) managed now ip db db' known
          (ap (λ (t : DnsTables). t.0) shape) (ap (λ (t : DnsTables). t.2) shape) in
      (
        managed,
        known,
        with_transaction_commit _ db' _ _ (
            nothing_to_change env later next_version request noted db'
              (complete, known_again, on, right) typed current),
      )
