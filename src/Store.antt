-- ===== src/Store.antt =====
-- The control-plane store: the tables that packages/control-database/src/control-plane-store-auth.ts
-- reads and writes, and transactions (packages/control-database/src/control-plane-store-db.ts).
-- A table is a list of rows. A time is a number of milliseconds. A column of jsonb holds a value of
-- `Payload`; an identifier, a kind or a status is an opaque text.
pub mod Tables
pub mod Preserves
pub mod Nodes
pub mod Jobs
pub mod Packages
pub mod Users
pub mod Sessions
pub mod Accounts
pub mod Dispatch
pub mod History
pub mod Ddns
pub mod Lifecycle
use simple_host_man.Prelude.{
  ℕ, String, Bool, true, false, Option, none, some, List, [], ◌∷◌, ◌++◌, ◌≡◌, refl, arith,
}
use simple_host_man.Prelude.Text.{Text}
use simple_host_man.Prelude.Result.{Result, ok, err}
use simple_host_man.Payload.{Json, Fields}
use simple_host_man.Payload.Envelope.{PayloadError}

-- The errors that the handlers throw, one for each message, and those of the database.
pub data StoreError : Type 0 where
  missing_bearer_token : StoreError
  node_not_enrolled bearer_token_rejected enrollment_token_rejected : String → StoreError
  enrollment_token_not_configured : StoreError
  missing_session_token invalid_session_token session_revoked session_expired : StoreError
  missing_role invalid_email_or_password : StoreError
  trusted_proxy_user_not_active oauth_user_not_active : StoreError
  user_does_not_exist tenant_does_not_exist job_no_longer_exists : String → StoreError
  node_not_in_inventory : String → StoreError
  user_already_exists : Text → StoreError
  bad_payload : PayloadError → StoreError
  ddns_hostname_required ddns_record_type_invalid : StoreError
  no_managed_zone ddns_host_not_loaded : Text → StoreError
  not_in_zone : Text → Text → StoreError
  unique_violation invalid_timestamp : StoreError

pub record UserRow : Type 0 where
  pub user_id : String
  pub email : Text
  pub display_name : String
  pub status : String
  pub created_at : ℕ

pub record StoredPasswordHash : Type 0 where
  pub hash : Text
  pub salt : Text
  pub key_length : ℕ
  pub cost : ℕ
  pub block_size : ℕ
  pub parallelization : ℕ

pub record SessionMetadata : Type 0 where
  pub auth_provider_slug : Option String
  pub external_subject : Option Text
  pub mfa_satisfied : Option Bool
  pub assurance_level : Option String
  pub oauth_client_id : Option String
  pub oauth_scopes : List String
  pub oauth_token_hash : Option String
  pub oauth_issuer : Option String

pub record SessionRow : Type 0 where
  pub session_id : String
  pub user_id : String
  pub session_token_hash : String
  pub created_at : ℕ
  pub expires_at : ℕ
  pub last_used_at : ℕ
  pub revoked_at : Option ℕ
  pub metadata : SessionMetadata

pub record NodeCredentialRow : Type 0 where
  pub node_id : String
  pub token_hash : String
  pub issued_at : ℕ
  pub last_used_at : ℕ

pub record NodeRow : Type 0 where
  pub node_id : String
  pub hostname : String
  pub version : String
  pub supported_job_kinds : List String
  pub runtime_snapshot : Option Fields
  pub accepted_at : ℕ
  pub last_seen_at : ℕ

pub record JobRow : Type 0 where
  pub id : String
  pub desired_state_version : String
  pub kind : String
  pub node_id : String
  pub created_at : ℕ
  pub payload : Fields
  pub claimed_at : Option ℕ
  pub completed_at : Option ℕ
  pub dispatched_by_user_id : Option String
  pub dispatch_reason : Option String
  pub resource_key : Option String
  pub resource_kind : Option String
  pub payload_hash : Option String

pub record DispatchedJobEnvelope : Type 0 where
  pub id : String
  pub desired_state_version : String
  pub kind : String
  pub node_id : String
  pub created_at : ℕ
  pub payload : Fields

pub record ResultRow : Type 0 where
  pub job_id : String
  pub kind : String
  pub node_id : String
  pub status : String
  pub summary : String
  pub details : Option Fields
  pub completed_at : ℕ
  pub reported_at : ℕ

pub record ReportedInstalledPackage : Type 0 where
  pub package_name : Text
  pub epoch : Option Text
  pub version : Text
  pub release : Text
  pub arch : Text
  pub nevra : Text
  pub source : Option Text
  pub installed_at : Option Text

pub record InstalledPackageRow : Type 0 where
  pub node_id : String
  pub pkg : ReportedInstalledPackage
  pub last_collected_at : ℕ

pub record MembershipRow : Type 0 where
  pub tenant_id : String
  pub user_id : String
  pub role : String

pub record TenantRow : Type 0 where
  pub tenant_id : String
  pub slug : String
  pub display_name : String

-- `summary` holds `summary.jobs`, whose payloads are sanitized.
pub record ReconciliationRunRow : Type 0 where
  pub run_id : String
  pub desired_state_version : String
  pub generated_job_count : ℕ
  pub skipped_job_count : ℕ
  pub missing_credential_count : ℕ
  pub summary : List DispatchedJobEnvelope
  pub started_at : ℕ
  pub completed_at : ℕ

pub record DnsZoneRow : Type 0 where
  pub zone_id : String
  pub zone_name : Text

pub record DnsRecordRow : Type 0 where
  pub record_id : Text
  pub zone_id : String
  pub name : Text
  pub record_type : String
  pub value : Text
  pub ttl : ℕ
  pub created_at : ℕ
  pub updated_at : ℕ

pub record DdnsHostRow : Type 0 where
  pub host_id : Text
  pub hostname : Text
  pub zone_id : String
  pub record_name : Text
  pub record_type : String
  pub username : Text
  pub password : StoredPasswordHash
  pub ttl : ℕ
  pub enabled : Bool
  pub last_ip : Option Text
  pub last_seen_at : Option ℕ
  pub last_updated_at : Option ℕ
  pub created_at : ℕ
  pub updated_at : ℕ

-- The payload of an audit event, by its `event_type`.
pub data AuditPayload : Type 0 where
  node_upserted : String → String → List String → Bool → AuditPayload
  jobs_claimed : List String → ℕ → String → String → AuditPayload
  job_reported : String → String → String → AuditPayload
  job_dispatched : String → String → String → String → AuditPayload
  auth_login : Text → AuditPayload
  auth_trusted_proxy_login :
      Text → String → Option Text → List String → Option String → SessionMetadata → AuditPayload
  auth_oauth_login :
      Text
      → String
      → Option Text
      → Option String
      → List String
      → Option String
      → Option String
      → SessionMetadata
      → AuditPayload
  auth_oauth_callback_rejected :
      String → String → Option Text → Option String → Option Text → Option String → AuditPayload
  auth_oauth_token_revoked : String → Option String → Option String → Option Text → AuditPayload
  auth_logout : SessionMetadata → AuditPayload
  user_created : Text → List String → List (String × String) → AuditPayload
  user_bootstrap_admin_ensured : Text → AuditPayload
  history_purged : ℕ → List ℕ → AuditPayload
  inventory_exported : AuditPayload
  -- the event type, then the payload
  ddns_host_saved : String → Text → Text → String → Text → ℕ → Bool → AuditPayload
  ddns_host_deleted : AuditPayload
  ddns_record_updated : Text → Text → String → Text → Option String → Option String → AuditPayload

-- The random `event_id` is left out.
pub record AuditEvent : Type 0 where
  pub actor_type : String
  pub actor_id : String
  pub entity_type : String
  pub entity_id : String
  pub payload : AuditPayload
  pub occurred_at : ℕ

pub record Store : Type 0 where
  pub users : List UserRow
  pub user_credentials : List (String × StoredPasswordHash)
  pub user_global_roles : List (String × String)
  pub memberships : List MembershipRow
  pub tenants : List TenantRow
  pub sessions : List SessionRow
  pub node_credentials : List NodeCredentialRow
  pub nodes : List NodeRow
  pub jobs : List JobRow
  pub job_results : List ResultRow
  pub installed_packages : List InstalledPackageRow
  pub reconciliation_runs : List ReconciliationRunRow
  pub audit_events : List AuditEvent
  pub dns_zones : List DnsZoneRow
  pub dns_records : List DnsRecordRow
  pub ddns_hosts : List DdnsHostRow

-- The statements of one transaction: from the tables to a value and the new tables, or an error.
abbrev pub Tx : Type 0 → Type 0
Tx A = Store → Result StoreError (A × Store)

infixl 5 ◌>>=◌ ◌>>◌
unfoldable pub ◌>>=◌ : {A B : Type 0} → Tx A → (A → Tx B) → Tx B
◌>>=◌ m f db = elim (m db) [ ok (a, db') ↦ f a db' | err e ↦ err e ]

abbrev pub ◌>>◌ : {A B : Type 0} → Tx A → Tx B → Tx B
◌>>◌ m k = m >>= λ _. k

abbrev pub pure : {A : Type 0} → A → Tx A
pure a db = ok (a, db)

abbrev pub throw : {A : Type 0} → StoreError → Tx A
throw e db = err e

abbrev pub query : {A : Type 0} → (Store → A) → Tx A
query f db = ok (f db, db)

abbrev pub execute : (Store → Store) → Tx (Unit {0})
execute f db = ok (tt, f db)

-- `COMMIT` keeps the new tables; an error means `ROLLBACK` to the old ones, and is thrown again.
unfoldable pub with_transaction : {A : Type 0} → Tx A → Store → Result StoreError A × Store
with_transaction action db = elim (action db) [
  | ok (result, db') ↦ (ok result, db')
  | err e ↦ (err e, db)
]

unfoldable pub insert_audit_event : AuditEvent → Tx (Unit {0})
insert_audit_event event =
    execute (λ db. record db { audit_events = db.audit_events ++ event ∷ [] })

pub with_transaction_rollback :
    {A : Type 0} (action : Tx A) (db : Store) (e : StoreError)
    → (with_transaction action db).0 ≡ err e
    → (with_transaction action db).1 ≡ db
unfolding with_transaction
with_transaction_rollback action db e h = ground arith

pub with_transaction_ok :
    {A : Type 0} (action : Tx A) (db db' : Store) (a : A)
    → with_transaction action db ≡ (ok a, db')
    → action db ≡ ok (a, db')
unfolding with_transaction
with_transaction_ok action db db' a h = ground arith

pub with_transaction_commit :
    {A : Type 0} (action : Tx A) (db db' : Store) (a : A)
    → action db ≡ ok (a, db')
    → with_transaction action db ≡ (ok a, db')
unfolding with_transaction
with_transaction_commit action db db' a e = rw (e, with_transaction) refl

pub with_transaction_fail :
    {A : Type 0} (action : Tx A) (db : Store) (x : StoreError)
    → action db ≡ err x
    → with_transaction action db ≡ (err x, db)
unfolding with_transaction
with_transaction_fail action db x e = rw (e, with_transaction) refl

-- The parts of a successful result.
pub ok-store :
    {A : Type 0} {a b : A} {s t : Store}
    → ◌≡◌ {A = Result StoreError (A × Store)} (ok (a, s)) (ok (b, t))
    → s ≡ t
ok-store h = cc

pub ok-value :
    {A : Type 0} {a b : A} {s t : Store}
    → ◌≡◌ {A = Result StoreError (A × Store)} (ok (a, s)) (ok (b, t))
    → a ≡ b
ok-value h = cc

pub >>=-eq-ok :
    {A B : Type 0} (m : Tx A) (f : A → Tx B) (db : Store) {r : B × Store}
    → (m >>= f) db ≡ ok r
    → (a : A) × (db' : Store) × (m db ≡ ok (a, db')) × (f a db' ≡ ok r)
unfolding ◌>>=◌
>>=-eq-ok {A} {B} m f db {r} h = go (m db) refl h
  where
    go :
        (x : Result StoreError (A × Store))
        → m db ≡ x
        → (elim x [ ok (a, db') ↦ f a db' | err e ↦ err e ]) ≡ ok r
        → (a : A) × (db' : Store) × (m db ≡ ok (a, db')) × (f a db' ≡ ok r)
    go (ok (a, db')) e k = (a, db', e, k)
    go (err e') e k = cc

-- A statement that succeeds hands its value and its tables to the next one.
pub >>=-run :
    {A B : Type 0} (m : Tx A) (f : A → Tx B) (db db' : Store) (a : A)
    → m db ≡ ok (a, db')
    → (m >>= f) db ≡ f a db'
unfolding ◌>>=◌
>>=-run m f db db' a e = rw (e, ◌>>=◌) refl
