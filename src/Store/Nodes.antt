-- ===== src/Store/Nodes.antt =====
-- Node credentials and enrolment: `authenticateNode` and `registerNode` of
-- packages/control-database/src/control-plane-store-auth.ts.
-- `sha256_hex` is the digest of node:crypto; the issued token is what `randomBytes` returned.
pub mod Enrollment
use simple_host_man.Prelude.{
  ℕ, String, Bool, true, false, Option, none, some, List, [], ◌∷◌, ◌++◌, ◌≡◌, refl, str_eq,
  if◌then◌else◌, find, any,
}
use simple_host_man.Prelude.Result.{Result, ok, err}
use simple_host_man.Payload.{Fields, end}
use simple_host_man.Store.{
  StoreError, missing_bearer_token, node_not_enrolled, bearer_token_rejected,
  enrollment_token_rejected, enrollment_token_not_configured, unique_violation, NodeCredentialRow,
  NodeRow, AuditEvent, node_upserted, Store, Tx, ◌>>=◌, ◌>>◌, pure, throw, query, execute,
  with_transaction, insert_audit_event,
}
use simple_host_man.Store.Tables.{update_where, upsert, non_empty}

pub record NodeRegistrationRequest : Type 0 where
  pub node_id : String
  pub hostname : String
  pub version : String
  pub supported_job_kinds : List String
  pub runtime_snapshot : Option Fields

pub record NodeRegistrationResponse : Type 0 where
  pub node_id : String
  pub accepted_at : ℕ
  pub poll_interval_ms : ℕ
  pub node_token : Option String

unfoldable pub get_node_credential : String → Store → Option NodeCredentialRow
get_node_credential node_id db = find (λ row. str_eq row.node_id node_id) db.node_credentials

unfoldable pub touch_node_credential : String → String → ℕ → Tx (Unit {0})
touch_node_credential node_id token_hash timestamp = execute λ db. record db {
  node_credentials =
      update_where
        (λ row. if str_eq row.node_id node_id then str_eq row.token_hash token_hash else false)
        (λ row. record row { last_used_at = timestamp }) db.node_credentials;
}

abbrev snapshot_or_empty : Option Fields → Option Fields
snapshot_or_empty none = some end
snapshot_or_empty (some fs) = some fs

unfoldable pub upsert_node : NodeRegistrationRequest → ℕ → Tx (Unit {0})
upsert_node request accepted_at = execute λ db. record db {
  nodes =
      upsert (λ row. str_eq row.node_id request.node_id)
        (λ row. record row {
          hostname = request.hostname;
          version = request.version;
          supported_job_kinds = request.supported_job_kinds;
          runtime_snapshot = snapshot_or_empty request.runtime_snapshot;
          last_seen_at = accepted_at;
        })
        (record {
          node_id = request.node_id;
          hostname = request.hostname;
          version = request.version;
          supported_job_kinds = request.supported_job_kinds;
          runtime_snapshot = snapshot_or_empty request.runtime_snapshot;
          accepted_at = accepted_at;
          last_seen_at = accepted_at;
        })
        db.nodes;
}

module _ (sha256_hex : String → String) where
  unfoldable pub hash_token : String → String
  hash_token value = sha256_hex value

  -- The column `token_hash` is unique: another node's equal hash fails the statement.
  unfoldable pub upsert_node_credential : String → String → ℕ → Tx (Unit {0})
  upsert_node_credential node_id raw_token timestamp db =
      if any
        (λ row.
          if str_eq row.node_id node_id
          then false
          else str_eq row.token_hash (hash_token raw_token))
        db.node_credentials
      then err unique_violation
      else execute
          (λ db. record db {
            node_credentials =
                upsert (λ row. str_eq row.node_id node_id)
                  (λ row. record row {
                    token_hash = hash_token raw_token;
                    issued_at = timestamp;
                    last_used_at = timestamp;
                  })
                  (record {
                    node_id = node_id;
                    token_hash = hash_token raw_token;
                    issued_at = timestamp;
                    last_used_at = timestamp;
                  })
                  db.node_credentials;
          })
          db

  unfoldable pub check_credential : String → String → ℕ → Option NodeCredentialRow → Tx (Unit {0})
  check_credential node_id token timestamp none = throw (node_not_enrolled node_id)
  check_credential node_id token timestamp (some credential) =
      if str_eq (hash_token token) credential.token_hash
      then touch_node_credential node_id (hash_token token) timestamp
      else throw (bearer_token_rejected node_id)

  abbrev pub authenticate_with : String → ℕ → Option String → Tx (Unit {0})
  authenticate_with node_id timestamp none = throw missing_bearer_token
  authenticate_with node_id timestamp (some token) = do
    credential ← query (get_node_credential node_id)
    check_credential node_id token timestamp credential

  unfoldable pub authenticate_node : String → Option String → ℕ → Tx (Unit {0})
  authenticate_node node_id presented_token timestamp =
      authenticate_with node_id timestamp (non_empty presented_token)

  -- The first enrolment: the presented token against the configured one.
  abbrev is_presented : Option String → String → Bool
  is_presented none expected = false
  is_presented (some token) expected = str_eq token expected

  abbrev pub enroll : String → Option String → Option String → String → Tx (Option String)
  enroll node_id none presented_token fresh_token = throw enrollment_token_not_configured
  enroll node_id (some expected) presented_token fresh_token =
      if is_presented presented_token expected
      then pure (some fresh_token)
      else throw (enrollment_token_rejected node_id)

  abbrev pub admit :
      NodeRegistrationRequest
      → Option String
      → Option String
      → String
      → ℕ
      → Option NodeCredentialRow
      → Tx (Option String)
  admit request bootstrap_token presented_token fresh_token accepted_at none =
      enroll request.node_id (non_empty bootstrap_token) presented_token fresh_token
  admit request bootstrap_token presented_token fresh_token accepted_at (some credential) = do
    authenticate_node request.node_id presented_token accepted_at
    pure none

  abbrev pub store_issued : String → ℕ → Option String → Tx (Unit {0})
  store_issued node_id accepted_at none = pure tt
  store_issued node_id accepted_at (some token) = upsert_node_credential node_id token accepted_at

  abbrev issued_flag : Option String → Bool
  issued_flag none = false
  issued_flag (some _) = true

  -- The rest of the transaction, once the token is issued or the presented one accepted.
  unfoldable pub record_registration :
      NodeRegistrationRequest → ℕ → Option String → Tx (Option String)
  record_registration request accepted_at issued = do
    upsert_node request accepted_at
    store_issued request.node_id accepted_at issued
    insert_audit_event (record {
      actor_type = "node";
      actor_id = request.node_id;
      entity_type = "node";
      entity_id = request.node_id;
      payload =
          node_upserted request.hostname request.version request.supported_job_kinds
            (issued_flag issued);
      occurred_at = accepted_at;
    })
    pure issued

  -- The body of the transaction of `registerNode`; its result is the issued token.
  unfoldable pub register_node_tx :
      Option String → String → ℕ → NodeRegistrationRequest → Option String → Tx (Option String)
  register_node_tx bootstrap_token fresh_token accepted_at request presented_token = do
    credential ← query (get_node_credential request.node_id)
    issued ← admit request bootstrap_token presented_token fresh_token accepted_at credential
    record_registration request accepted_at issued

  abbrev pub respond :
      NodeRegistrationRequest
      → ℕ
      → ℕ
      → Result StoreError (Option String) × Store
      → Result StoreError NodeRegistrationResponse × Store
  respond request accepted_at poll_interval_ms (ok issued, db) = (
    ok (record {
      node_id = request.node_id;
      accepted_at = accepted_at;
      poll_interval_ms = poll_interval_ms;
      node_token = issued;
    }),
    db,
  )
  respond request accepted_at poll_interval_ms (err e, db) = (err e, db)

  unfoldable pub register_node :
      Option String
      → ℕ
      → String
      → ℕ
      → NodeRegistrationRequest
      → Option String
      → Store
      → Result StoreError NodeRegistrationResponse × Store
  register_node bootstrap_token poll_interval_ms fresh_token accepted_at request presented_token
        db =
      respond request accepted_at poll_interval_ms (
        with_transaction
          (register_node_tx bootstrap_token fresh_token accepted_at request presented_token) db)
