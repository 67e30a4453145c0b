-- ===== src/Store/Ddns/Hosts.antt =====
-- The hosts of dynamic DNS: `listDdnsHosts`, `upsertDdnsHost` and `deleteDdnsHost` of
-- packages/control-database/src/control-plane-store-operations.ts. `text_order` is the order of
-- texts in the database; `salt` and `generated` are made of what `randomBytes` returned.
use simple_host_man.Store.Tables.{upsert}
use simple_host_man.Prelude.Int.{ℤ}
use simple_host_man.Store.Users.{Scrypt}
use simple_host_man.Store.Ddns.{
  normalize_ddns_ttl, trim, find_ddns_host, relative_record_name_for_zone, to_ddns_host_summary,
  given, normalize_ddns_username, join_all, create_password_hash, codes, normalize_ddns_hostname,
  find_zone, require_authorized_user, is_blank, same, stable_id, ManagedHost, DdnsHostSummary,
}
use simple_host_man.Prelude.{
  find, filter, sort, any, ℕ, Bool, true, false, not, ◌&&◌, ◌||◌, String, Option, none, some, List,
  [], ◌∷◌, map, if◌then◌else◌, str_eq,
}
use simple_host_man.Store.{
  ddns_host_deleted, ddns_hostname_required, insert_audit_event, unique_violation, ok, pure, err,
  execute, with_transaction, ddns_record_type_invalid, ddns_host_saved, query, AuditEvent,
  StoreError, ddns_host_not_loaded, no_managed_zone, StoredPasswordHash, throw, DnsZoneRow,
  DdnsHostRow, Result, AuditPayload, Store, Tx, Text, ◌>>=◌, ◌>>◌,
}

pub record UpsertDdnsHostRequest : Type 0 where
  pub hostname : Option Text
  pub zone_name : Option Text
  pub record_type : Option String
  pub username : Option Text
  pub password : Option Text
  pub ttl : Option ℤ
  pub enabled : Option Bool

-- The identifier is unique, and so is a zone with a record's name and type.
abbrev collides : DdnsHostRow → DdnsHostRow → Bool
collides new row =
    not (same row.hostname new.hostname)
    && (same row.host_id new.host_id
        || (str_eq row.zone_id new.zone_id
            && same row.record_name new.record_name
            && str_eq row.record_type new.record_type))

-- `ON CONFLICT (hostname) DO UPDATE`
abbrev saved_over : DdnsHostRow → DdnsHostRow → DdnsHostRow
saved_over new row = record row {
  zone_id = new.zone_id;
  record_name = new.record_name;
  record_type = new.record_type;
  username = new.username;
  password = new.password;
  ttl = new.ttl;
  enabled = new.enabled;
  updated_at = new.updated_at;
}

unfoldable pub save_ddns_host : DdnsHostRow → Tx (Unit {0})
save_ddns_host new db =
    if any (collides new) db.ddns_hosts
    then err unique_violation
    else ok (
      tt,
      record db {
        ddns_hosts =
            upsert (λ row. same row.hostname new.hostname) (saved_over new) new db.ddns_hosts;
      },
    )

abbrev lift : {A : Type 0} → Result StoreError A → Tx A
lift (err e) = throw e
lift (ok a) = pure a

abbrev require_zone : Text → Option DnsZoneRow → Tx DnsZoneRow
require_zone hostname none = throw (no_managed_zone hostname)
require_zone hostname (some zone) = pure zone

abbrev require_saved : Text → Option ManagedHost → Tx ManagedHost
require_saved hostname none = throw (ddns_host_not_loaded hostname)
require_saved hostname (some host) = pure host

abbrev old_id : Text → Option ManagedHost → Text
old_id fresh none = fresh
old_id fresh (some managed) = managed.host.host_id

abbrev is_known : Option ManagedHost → Bool
is_known none = false
is_known (some managed) = true

abbrev or_default : {A : Type 0} → A → Option A → A
or_default a none = a
or_default a (some b) = b

abbrev event_of : Bool → String
event_of true = "ddns.host.updated"
event_of false = "ddns.host.created"

-- The password that is generated: for a new host, where none is given.
abbrev generated_password : Text → Text → Option ManagedHost → Option Text
generated_password fresh given_password (some managed) = none
generated_password fresh given_password none = if is_blank given_password then some fresh else none

module _ {Bytes : Type 0} (s : Scrypt Bytes) (salt : Text) where
  -- The hash of a password that is given or generated, or the old one.
  abbrev next_hash : Text → Text → Option ManagedHost → StoredPasswordHash
  next_hash fresh given_password none =
      create_password_hash s salt (if is_blank given_password then fresh else given_password)
  next_hash fresh given_password (some managed) =
      if is_blank given_password
      then managed.host.password
      else create_password_hash s salt given_password

abbrev managers : List String
managers = "platform_admin" ∷ "platform_operator" ∷ []

abbrev with_record_type : {A : Type 0} → String → Tx A → Tx A
with_record_type record_type rest =
    if str_eq record_type "A" || str_eq record_type "AAAA"
    then rest
    else throw ddns_record_type_invalid

module _ (sha256_hex : String → String) (collate : String → String → Bool)
    (text_order : Text → Text → Bool) where
  abbrev list_ddns_host_rows : Store → List ManagedHost
  list_ddns_host_rows db =
      sort (λ left right. text_order left.host.hostname right.host.hostname)
        (join_all db.dns_zones db.ddns_hosts)

  unfoldable pub list_ddns_hosts :
      ℕ → Option String → Store → Result StoreError (List DdnsHostSummary) × Store
  list_ddns_hosts now presented_token db =
      with_transaction
        (require_authorized_user sha256_hex collate now presented_token managers
          >> query (λ db. map to_ddns_host_summary (list_ddns_host_rows db)))
        db

  module _ (text : Text → String) where
    abbrev host_event : ℕ → String → Text → AuditPayload → AuditEvent
    host_event now actor hostname payload = record {
      actor_type = "user";
      actor_id = actor;
      entity_type = "ddns_host";
      entity_id = text hostname;
      payload = payload;
      occurred_at = now;
    }

    unfoldable pub delete_ddns_host_tx : ℕ → Text → Option String → Tx (List DdnsHostSummary)
    delete_ddns_host_tx now hostname presented_token = do
      actor ← require_authorized_user sha256_hex collate now presented_token managers
      execute (λ db. record db {
        ddns_hosts =
            filter (λ row. not (same row.hostname (normalize_ddns_hostname hostname)))
              db.ddns_hosts;
      })
      insert_audit_event
          (host_event now actor.user_id (normalize_ddns_hostname hostname) ddns_host_deleted)
      query (λ db. map to_ddns_host_summary (list_ddns_host_rows db))

    unfoldable pub delete_ddns_host :
        ℕ → Text → Option String → Store → Result StoreError (List DdnsHostSummary) × Store
    delete_ddns_host now hostname presented_token db =
        with_transaction (delete_ddns_host_tx now hostname presented_token) db

    module _ {Bytes : Type 0} (s : Scrypt Bytes) (digest : Text → Text)
        (salt generated : Text) where
      abbrev saved_host :
          ℕ → Text → UpsertDdnsHostRequest → DnsZoneRow → Text → Option ManagedHost → DdnsHostRow
      saved_host now hostname request zone record_name existing = record {
        host_id = old_id (stable_id digest (codes "ddns") (hostname ∷ [])) existing;
        hostname = hostname;
        zone_id = zone.zone_id;
        record_name = record_name;
        record_type = or_default "A" request.record_type;
        username = normalize_ddns_username request.username hostname;
        password = next_hash s salt generated (trim (given request.password)) existing;
        ttl = normalize_ddns_ttl request.ttl;
        enabled = or_default true request.enabled;
        last_ip = none;
        last_seen_at = none;
        last_updated_at = none;
        created_at = now;
        updated_at = now;
      }

      abbrev saved_payload : DdnsHostRow → Text → Option ManagedHost → AuditPayload
      saved_payload row zone_name existing =
          ddns_host_saved (event_of (is_known existing)) zone_name row.record_name row.record_type
            row.username row.ttl row.enabled

      unfoldable pub save_host :
          ℕ → String → Text → UpsertDdnsHostRequest → Tx (DdnsHostSummary × Option Text)
      save_host now actor hostname request = do
        found ← query (find_zone request.zone_name hostname)
        zone ← require_zone hostname found
        record_name ← lift (relative_record_name_for_zone hostname zone.zone_name)
        existing ← query (find_ddns_host hostname)
        save_ddns_host (saved_host now hostname request zone record_name existing)
        insert_audit_event (
            host_event now actor hostname (
              saved_payload (saved_host now hostname request zone record_name existing)
                zone.zone_name existing))
        loaded ←
            query (λ db. find (λ entry. same entry.host.hostname hostname) (list_ddns_host_rows db))
        host ← require_saved hostname loaded
        pure (
          to_ddns_host_summary host,
          generated_password generated (trim (given request.password)) existing,
        )

      unfoldable pub upsert_ddns_host_tx :
          ℕ → UpsertDdnsHostRequest → Option String → Tx (DdnsHostSummary × Option Text)
      upsert_ddns_host_tx now request presented_token = do
        actor ← require_authorized_user sha256_hex collate now presented_token managers
        if is_blank (normalize_ddns_hostname (given request.hostname))
            then throw ddns_hostname_required
            else with_record_type (or_default "A" request.record_type) (
                save_host now actor.user_id (normalize_ddns_hostname (given request.hostname))
                  request)

      unfoldable pub upsert_ddns_host :
          ℕ
          → UpsertDdnsHostRequest
          → Option String
          → Store
          → Result StoreError (DdnsHostSummary × Option Text) × Store
      upsert_ddns_host now request presented_token db =
          with_transaction (upsert_ddns_host_tx now request presented_token) db
