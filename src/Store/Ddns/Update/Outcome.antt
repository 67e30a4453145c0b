-- ===== src/Store/Ddns/Update/Outcome.antt =====
-- How an update of dynamic DNS ends, and what it can change.
use simple_host_man.Store.Ddns.Records.{
  records_of, is_current, change_host, DdnsHostUpdateResponse, DdnsHostUpdateRequest,
}
use simple_host_man.Store.Ddns.Update.{
  replace_record, admits, record_type_for_ip_address, same, is_blank, update_where, find_ddns_host,
  given, is_type, trim, update_ddns_host_tx, ManagedHost, normalize_ddns_hostname, point_host,
  update_known, Ddns,
}
use simple_host_man.Prelude.{
  refl, sym, ap, ◌∙◌, ◌≡◌, ◌⊎◌, inl, inr, ℕ, Bool, true, false, not, ◌||◌, String, Option, none,
  some, List, if◌then◌else◌, Bool-cases,
}
use simple_host_man.Store.{
  StoreError, Result, ok-value, ok-store, pure, ok, DdnsHostRow, Store, Tx, Text, ◌>>=◌, ◌>>◌,
}

-- The branch of a guard that is taken.
module _ {A : Type 0} (m n : Tx A) (db : Store) {r : Result StoreError (A × Store)} where
  past_guard : (b : Bool) → b ≡ true → (if not b then m else n) db ≡ r → n db ≡ r
  past_guard true h e = e
  past_guard false h e = cc

  at_guard : (b : Bool) → b ≡ false → (if not b then m else n) db ≡ r → m db ≡ r
  at_guard true h e = cc
  at_guard false h e = e

module _ (env : Ddns) (now : ℕ) (version : String) (request : DdnsHostUpdateRequest) where
  abbrev pub requested_hostname : Text
  requested_hostname = normalize_ddns_hostname (given request.hostname)

  abbrev pub requested_ip : Text
  requested_ip = trim (given request.ip_address)

  abbrev pub is_incomplete : Bool
  is_incomplete =
      is_blank requested_hostname
      || is_blank (trim (given request.username))
      || is_blank (given request.password)

  -- The host is known and enabled, and the name and password are its own.
  abbrev pub IsAdmitted : Store → ManagedHost → Type 0
  IsAdmitted db managed =
      (is_incomplete ≡ false)
      × (find_ddns_host requested_hostname db ≡ some managed)
      × (managed.host.enabled ≡ true)
      × (admits env managed.host (trim (given request.username)) (given request.password) ≡ true)

  abbrev pub with_hosts : List DdnsHostRow → Store → Store
  with_hosts hosts db = record db { ddns_hosts = hosts }

  abbrev pub IsRefused : Store → Store → DdnsHostUpdateResponse → Type 0
  IsRefused db db' r = (db' ≡ db) × (r.changed ≡ false)

  abbrev pub IsNoted : Store → ManagedHost → Store → DdnsHostUpdateResponse → Type 0
  IsNoted db managed db' r =
      (f : DdnsHostRow → DdnsHostRow) × ((row : DdnsHostRow) → (f row).host_id ≡ row.host_id)
      × (db'
          ≡ with_hosts (update_where (λ row. same row.host_id managed.host.host_id) f db.ddns_hosts)
              db)
      × (r.changed ≡ false)

  abbrev pub IsReplaced : Store → ManagedHost → Store → DdnsHostUpdateResponse → Type 0
  IsReplaced db managed db' r =
      (is_type env managed.host.record_type (record_type_for_ip_address env requested_ip) ≡ true)
      × (replace_record env now version request managed requested_hostname requested_ip db
          ≡ ok (r, db'))

  abbrev pub Outcome : Store → Store → DdnsHostUpdateResponse → Type 0
  Outcome db db' r =
      IsRefused db db' r
      ⊎ (managed : ManagedHost) × IsAdmitted db managed
        × (IsNoted db managed db' r ⊎ IsReplaced db managed db' r)

  pure-IsRefused :
      (x r : DdnsHostUpdateResponse) (db db' : Store)
      → pure x db ≡ ok (r, db')
      → x.changed ≡ false
      → IsRefused db db' r
  pure-IsRefused x r db db' e unchanged = (
    sym (ok-store e),
    ap (λ (y : DdnsHostUpdateResponse). y.changed) (sym (ok-value e)) ∙ unchanged,
  )

  noted :
      (x r : DdnsHostUpdateResponse) (managed : ManagedHost) (f : DdnsHostRow → DdnsHostRow)
      (db db' : Store)
      → (change_host managed.host.host_id f >> pure x) db ≡ ok (r, db')
      → ((row : DdnsHostRow) → (f row).host_id ≡ row.host_id)
      → x.changed ≡ false
      → IsNoted db managed db' r
  unfolding ◌>>=◌
  noted x r managed f db db' e same_id unchanged = (
    f,
    same_id,
    sym (ok-store e),
    ap (λ (y : DdnsHostUpdateResponse). y.changed) (sym (ok-value e)) ∙ unchanged,
  )

  point_host_cases :
      (managed : ManagedHost) (r : DdnsHostUpdateResponse) (db db' : Store)
      → is_type env managed.host.record_type (record_type_for_ip_address env requested_ip) ≡ true
      → point_host env now version request managed requested_hostname requested_ip db ≡ ok (r, db')
      → IsNoted db managed db' r ⊎ IsReplaced db managed db' r
  unfolding point_host ◌>>=◌
  point_host_cases managed r db db' typed e =
      elim (Bool-cases (is_current managed.host requested_ip (records_of managed.host db))) [
        | inl current ↦ inl (noted _ r managed _ db db' (rw current at e) (λ row. refl) refl)
        | inr stale ↦ inr (typed, rw stale at e)
      ]

  known_cases :
      (found : Option ManagedHost) (r : DdnsHostUpdateResponse) (db db' : Store)
      → is_incomplete ≡ false
      → find_ddns_host requested_hostname db ≡ found
      → update_known env now version request requested_hostname
          (trim (given request.username))
          (given request.password)
          found
          db
        ≡ ok (r, db')
      → Outcome db db' r
  unfolding update_known
  known_cases none r db db' complete known e = inl (pure-IsRefused _ r db db' e refl)
  known_cases (some managed) r db db' complete known e = elim (Bool-cases managed.host.enabled) [
    | inr off ↦ inl (pure-IsRefused _ r db db' (at_guard _ _ db managed.host.enabled off e) refl)
    | inl on ↦
        let e1 = past_guard _ _ db managed.host.enabled on e in
        elim (Bool-cases
          (admits env managed.host (trim (given request.username)) (given request.password))) [
            | inr wrong ↦ inl (pure-IsRefused _ r db db' (at_guard _ _ db _ wrong e1) refl)
            | inl right ↦
                let e2 = past_guard _ _ db _ right e1 in
                elim (Bool-cases (
                  is_type env managed.host.record_type
                    (record_type_for_ip_address env requested_ip))) [
                      | inr untyped ↦ inr (
                        managed,
                        (complete, known, on, right),
                        inl (
                            noted _ r managed _ db db' (at_guard _ _ db _ untyped e2) (λ row. refl)
                              refl),
                      )
                      | inl typed ↦ inr (
                        managed,
                        (complete, known, on, right),
                        point_host_cases managed r db db' typed (past_guard _ _ db _ typed e2),
                      )
                    ]
          ]
  ]

  pub update_cases :
      (r : DdnsHostUpdateResponse) (db db' : Store)
      → update_ddns_host_tx env now version request db ≡ ok (r, db')
      → Outcome db db' r
  unfolding update_ddns_host_tx ◌>>=◌
  update_cases r db db' e = elim (Bool-cases is_incomplete) [
    | inl blank ↦ inl (pure-IsRefused _ r db db' (rw blank at e) refl)
    | inr complete ↦
        known_cases (find_ddns_host requested_hostname db) r db db' complete refl (rw complete at e)
  ]
