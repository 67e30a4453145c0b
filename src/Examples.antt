-- ===== src/Examples.antt =====
-- A small control plane for the examples: one node with two jobs, one administrator with a session,
-- and concrete functions in the place of node:crypto and of the database's order of texts.
pub mod Payloads
pub mod Queue
pub mod Nodes
pub mod Access
pub mod Packages
pub mod Drift
pub mod Lifecycle
pub mod Ddns
pub mod History
pub mod Maintenance
pub mod Workspace
pub mod Worker
use simple_host_man.Store.Packages.{Dates}
use simple_host_man.Prelude.Text.{codes, same, same_refl, Text}
use simple_host_man.Store.{
  StoredPasswordHash, NodeCredentialRow, SessionMetadata, SessionRow, UserRow, Store, JobRow,
}
use simple_host_man.Payload.{end, str, obj, field, Fields, Json}
use simple_host_man.Prelude.{
  length, refl, sym, ap, ◌∙◌, ◌≡◌, ◌≢◌, ◌⊎◌, ◌↔◌, inl, inr, ℕ, zero, suc, ◌+◌, ◌-◌, ◌*◌, ◌≤◌, ◌<◌,
  Bool, true, false, not, ◌&&◌, ◌||◌, String, Option, none, some, List, [], ◌∷◌, ◌++◌, map,
  if◌then◌else◌, arith, Bool-cases, Option-cases, str_eq,
}
use simple_host_man.Store.Users.{Scrypt, ScryptLaws, create_password_hash}
use simple_host_man.Payload.Envelope.{Crypto, CryptoLaws}

abbrev pub sha : String → String
sha value = value

abbrev pub collate : String → String → Bool
collate left right = true

abbrev first_code : Text → Option ℕ
first_code [] = none
first_code (c ∷ s) = some c

abbrev is_given : Text → Bool
is_given [] = false
is_given (c ∷ s) = true

abbrev pub dates : Dates
dates = record { parse_date = first_code; is_timestamp = is_given }

abbrev pub sample : Fields
sample =
    field (codes "apiToken") (str (codes "t"))
      (field (codes "zone") (str (codes "example.org")) end)

abbrev pub password_object : Fields
password_object = field (codes "password") (str (codes "pw")) end

-- The first key of an object stands for its text.
abbrev first_key : Json → Text
first_key (obj (field k v fs)) = k
first_key _ = []

abbrev pub toy : Crypto Text Text
toy = record {
  sha256 = λ t. t;
  encrypt = λ key iv p. (p, key);
  decrypt = λ key iv tag p. some p;
  to_base64url = λ b. b;
  from_base64url = λ t. t;
  stringify = first_key;
  parse = λ t. if same t (codes "password") then some (obj password_object) else some (obj sample);
}

abbrev pub IsSample : Json → Type 0
IsSample v = (v ≡ obj sample) ⊎ (v ≡ obj password_object)

abbrev pub toy-parse : (v : Json) → IsSample v → toy.parse (toy.stringify v) ≡ some v
toy-parse v (inl e) = rw e refl
toy-parse v (inr e) = rw e refl

abbrev pub toy_laws : CryptoLaws toy IsSample
toy_laws = record {
  decrypt-encrypt = λ key iv p. refl;
  from_base64url-to_base64url = λ b. refl;
  parse-stringify = toy-parse;
}

abbrev pub scrypt : Scrypt Text
scrypt = record {
  derive = λ password salt n cost block parallel. password ++ salt;
  to_base64url = λ b. b;
  from_base64url = λ t. t;
  byte_length = λ b. length b;
  timing_safe_equal = same;
}

abbrev pub scrypt_laws : ScryptLaws scrypt
scrypt_laws = record { from_base64url-to_base64url = λ b. refl; timing_safe_equal_refl = same_refl }

abbrev pub job : String → ℕ → JobRow
job id created_at = record {
  id = id;
  desired_state_version = "v1";
  kind = "dns.sync";
  node_id = "web-1";
  created_at = created_at;
  payload = sample;
  claimed_at = none;
  completed_at = none;
  dispatched_by_user_id = none;
  dispatch_reason = none;
  resource_key = some "zone:example.org";
  resource_kind = some "dns";
  payload_hash = some "h1";
}

abbrev pub credential : NodeCredentialRow
credential = record {
  node_id = "web-1";
  token_hash = "node-token";
  issued_at = 0;
  last_used_at = 0;
}

abbrev pub no_session_metadata : SessionMetadata
no_session_metadata = record {
  auth_provider_slug = none;
  external_subject = none;
  mfa_satisfied = none;
  assurance_level = none;
  oauth_client_id = none;
  oauth_scopes = [];
  oauth_token_hash = none;
  oauth_issuer = none;
}

abbrev pub admin_session : SessionRow
admin_session = record {
  session_id = "s-1";
  user_id = "user-1";
  session_token_hash = "admin-token";
  created_at = 0;
  expires_at = 1000000;
  last_used_at = 0;
  revoked_at = none;
  metadata = no_session_metadata;
}

abbrev pub admin : UserRow
admin = record {
  user_id = "user-1";
  email = codes "admin@example.org";
  display_name = "Admin";
  status = "active";
  created_at = 0;
}

abbrev pub admin_hash : StoredPasswordHash
admin_hash = record {
  hash = codes "pwsalt";
  salt = codes "salt";
  key_length = 64;
  cost = 16384;
  block_size = 8;
  parallelization = 1;
}

abbrev pub store : Store
store = record {
  users = admin ∷ [];
  user_credentials = ("user-1", admin_hash) ∷ [];
  user_global_roles = ("user-1", "platform_admin") ∷ [];
  memberships = [];
  tenants = [];
  sessions = admin_session ∷ [];
  node_credentials = credential ∷ [];
  nodes = [];
  jobs = job "j-2" 20 ∷ job "j-1" 10 ∷ [];
  job_results = [];
  installed_packages = [];
  reconciliation_runs = [];
  audit_events = [];
  dns_zones =
      (record { zone_id = "z-1"; zone_name = codes "example.org" })
      ∷ (record { zone_id = "z-2"; zone_name = codes "example.net" })
      ∷ [];
  dns_records = [];
  ddns_hosts = [];
}
