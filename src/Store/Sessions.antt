-- ===== src/Store/Sessions.antt =====
-- Sessions: `createSession`, `authenticateSession`, the log-in handlers, `getCurrentUser`,
-- `logoutUser` and the OAuth audit handlers of
-- packages/control-database/src/control-plane-store-auth.ts.
-- `Fresh` holds what `randomUUID` and `randomBytes` returned. `now` is the one time of a call.
mod Requests
pub mod Untouched
pub mod Validity
pub mod Login
pub mod Access
pub mod Revocation
pub use Requests.*
use simple_host_man.Store.Tables.{any_id, update_where, non_empty}
use simple_host_man.Store.Nodes.{hash_token}
use simple_host_man.Store.Users.{
  get_user_credential, verify_password_hash, get_user_by_email, build_authenticated_user_summary,
  AuthenticatedUserSummary, Scrypt,
}
use simple_host_man.Prelude.{
  leb, any, find, refl, sym, ap, ◌∙◌, ◌≡◌, ◌≢◌, ◌⊎◌, ◌↔◌, inl, inr, ℕ, zero, suc, ◌+◌, ◌-◌, ◌*◌,
  ◌≤◌, ◌<◌, Bool, true, false, not, ◌&&◌, ◌||◌, String, Option, none, some, List, [], ◌∷◌, ◌++◌,
  map, if◌then◌else◌, arith, Bool-cases, Option-cases, str_eq,
}
use simple_host_man.Store.{
  session_expired, auth_trusted_proxy_login, auth_oauth_login, auth_login, auth_logout,
  auth_oauth_token_revoked, session_revoked, oauth_user_not_active, trusted_proxy_user_not_active,
  auth_oauth_callback_rejected, invalid_session_token, invalid_email_or_password, missing_role,
  insert_audit_event, unique_violation, missing_session_token, pure, AuditEvent, with_transaction,
  execute, StoredPasswordHash, query, UserRow, err, ok, throw, Text, StoreError, Result, SessionRow,
  AuditPayload, Tx, SessionMetadata, Store, ◌>>=◌, ◌>>◌, >>=-eq-ok,
}

module _ (sha256_hex : String → String) where
  -- The session's identifier and the token's hash are unique.
  unfoldable pub insert_session : SessionRow → Tx (Unit {0})
  insert_session new db =
      if any
        (λ row.
          str_eq row.session_id new.session_id
          || str_eq row.session_token_hash new.session_token_hash)
        db.sessions
      then err unique_violation
      else ok (tt, record db { sessions = db.sessions ++ new ∷ [] })

  abbrev pub new_session : Fresh → ℕ → String → ℕ → SessionMetadata → SessionRow
  new_session fresh now user_id session_ttl_seconds metadata = record {
    session_id = fresh.session_id;
    user_id = user_id;
    session_token_hash = hash_token sha256_hex fresh.session_token;
    created_at = now;
    expires_at = now + session_ttl_seconds * 1000;
    last_used_at = now;
    revoked_at = none;
    metadata = metadata;
  }

  -- The session's token and the time at which it ends.
  unfoldable pub create_session : Fresh → ℕ → String → ℕ → SessionMetadata → Tx (String × ℕ)
  create_session fresh now user_id session_ttl_seconds metadata = do
    insert_session (new_session fresh now user_id session_ttl_seconds metadata)
    pure (fresh.session_token, now + session_ttl_seconds * 1000)

  unfoldable pub find_session : String → Store → Option SessionRow
  find_session token db =
      find (λ row. str_eq row.session_token_hash (hash_token sha256_hex token)) db.sessions

  abbrev pub touched : String → ℕ → Store → Store
  touched session_id now db = record db {
    sessions =
        update_where (λ row. str_eq row.session_id session_id)
          (λ row. record row { last_used_at = now }) db.sessions;
  }

  unfoldable pub touch_session : String → ℕ → Tx (Unit {0})
  touch_session session_id now = execute (touched session_id now)

  unfoldable pub revoke_session : String → ℕ → Tx (Unit {0})
  revoke_session token now = execute λ db. record db {
    sessions =
        update_where (λ row. str_eq row.session_token_hash (hash_token sha256_hex token))
          (λ row. record row { revoked_at = some now }) db.sessions;
  }

  -- The tests on the row that the token's hash selects.
  unfoldable pub check_session : ℕ → Option SessionRow → Result StoreError SessionRow
  check_session now none = err invalid_session_token
  check_session now (some session) = elim session.revoked_at [
    | some _ ↦ err session_revoked
    | none ↦ if leb session.expires_at now then err session_expired else ok session
  ]

  abbrev pub lift_check : Result StoreError SessionRow → Tx SessionRow
  lift_check (ok session) = pure session
  lift_check (err e) = throw e

  abbrev metadata_of : Option SessionRow → SessionMetadata
  metadata_of none = no_metadata
  metadata_of (some session) = session.metadata

  module _ (collate : String → String → Bool) where
    abbrev pub authenticate_token : String → ℕ → Tx AuthenticatedUserSummary
    authenticate_token token now = do
      found ← query (find_session token)
      session ← lift_check (check_session now found)
      touch_session session.session_id now
      build_authenticated_user_summary collate session.user_id

    abbrev pub authenticate_presented : ℕ → Option String → Tx AuthenticatedUserSummary
    authenticate_presented now none = throw missing_session_token
    authenticate_presented now (some token) = authenticate_token token now

    unfoldable pub authenticate_session : Option String → ℕ → Tx AuthenticatedUserSummary
    authenticate_session presented_token now =
        authenticate_presented now (non_empty presented_token)

    unfoldable pub get_current_user :
        ℕ → Option String → Store → Result StoreError AuthenticatedUserSummary × Store
    get_current_user now presented_token db =
        with_transaction (authenticate_session presented_token now) db

    -- The end of each log-in, once its user is accepted.
    unfoldable pub start_session :
        Fresh → ℕ → ℕ → SessionMetadata → AuditPayload → UserRow → Tx AuthLoginResponse
    start_session fresh now session_ttl_seconds metadata payload user = do
      session ← create_session fresh now user.user_id session_ttl_seconds metadata
      summary ← build_authenticated_user_summary collate user.user_id
      insert_audit_event (user_event user.user_id payload now)
      pure (record { session_token = session.0; expires_at = session.1; user = summary })

    abbrev pub require_user : StoreError → Option UserRow → Tx UserRow
    require_user e none = throw e
    require_user e (some user) = pure user

    abbrev pub require_active_user : StoreError → Option UserRow → Tx UserRow
    require_active_user e none = throw e
    require_active_user e (some user) = if str_eq user.status "active" then pure user else throw e

    module _ {Bytes : Type 0} (s : Scrypt Bytes) where
      abbrev pub check_password : Text → Option StoredPasswordHash → Tx (Unit {0})
      check_password password none = throw invalid_email_or_password
      check_password password (some stored) =
          if verify_password_hash s password stored
          then pure tt
          else throw invalid_email_or_password

      unfoldable pub login_user_tx : Fresh → ℕ → ℕ → AuthLoginRequest → Tx AuthLoginResponse
      login_user_tx fresh now session_ttl_seconds request = do
        found ← query (get_user_by_email request.email)
        user ← require_user invalid_email_or_password found
        credential ← query (get_user_credential user.user_id)
        check_password request.password credential
        start_session fresh now session_ttl_seconds no_metadata (auth_login user.email) user

      unfoldable pub login_user :
          Fresh → ℕ → ℕ → AuthLoginRequest → Store → Result StoreError AuthLoginResponse × Store
      login_user fresh now session_ttl_seconds request db =
          with_transaction (login_user_tx fresh now session_ttl_seconds request) db

    unfoldable pub login_trusted_proxy_user_tx :
        Fresh → ℕ → ℕ → TrustedProxyLoginRequest → Tx AuthLoginResponse
    login_trusted_proxy_user_tx fresh now session_ttl_seconds request = do
      found ← query (get_user_by_email request.email)
      user ← require_active_user trusted_proxy_user_not_active found
      start_session fresh now session_ttl_seconds (proxy_metadata request)
          (auth_trusted_proxy_login user.email request.provider request.username
            (with_default request.groups []) request.remote_address (proxy_metadata request))
          user

    unfoldable pub login_trusted_proxy_user :
        Fresh
        → ℕ
        → ℕ
        → TrustedProxyLoginRequest
        → Store
        → Result StoreError AuthLoginResponse × Store
    login_trusted_proxy_user fresh now session_ttl_seconds request db =
        with_transaction (login_trusted_proxy_user_tx fresh now session_ttl_seconds request) db

    unfoldable pub login_oauth_user_tx :
        Fresh → ℕ → ℕ → OauthIdentityLoginRequest → Tx AuthLoginResponse
    login_oauth_user_tx fresh now session_ttl_seconds request = do
      found ← query (get_user_by_email request.email)
      user ← require_active_user oauth_user_not_active found
      start_session fresh now session_ttl_seconds (oauth_metadata request)
          (auth_oauth_login user.email request.provider request.username request.client_id
            (with_default request.scopes []) request.audience request.issuer
            (oauth_metadata request))
          user

    unfoldable pub login_oauth_user :
        Fresh
        → ℕ
        → ℕ
        → OauthIdentityLoginRequest
        → Store
        → Result StoreError AuthLoginResponse × Store
    login_oauth_user fresh now session_ttl_seconds request db =
        with_transaction (login_oauth_user_tx fresh now session_ttl_seconds request) db

    unfoldable pub record_oauth_login_rejected :
        ℕ → OauthLoginRejectedAuditRequest → Store → Result StoreError (Unit {0}) × Store
    record_oauth_login_rejected now request db =
        with_transaction
          (insert_audit_event (record {
            actor_type = "system";
            actor_id = request.provider;
            entity_type = "iam_provider";
            entity_id = request.provider;
            payload =
                auth_oauth_callback_rejected request.provider request.reason request.email
                  request.client_id request.external_subject request.assurance_level;
            occurred_at = now;
          }))
          db

    unfoldable pub record_oauth_token_revoked :
        ℕ
        → OauthTokenRevokedAuditRequest
        → Option String
        → Store
        → Result StoreError (Unit {0}) × Store
    record_oauth_token_revoked now request presented_token db =
        with_transaction
          (do
            user ← authenticate_session presented_token now
            insert_audit_event (record {
              actor_type = "user";
              actor_id = user.user_id;
              entity_type = "iam_provider";
              entity_id = request.provider;
              payload =
                  auth_oauth_token_revoked request.provider request.token_hash request.client_id
                    request.external_subject;
              occurred_at = now;
            }))
          db

    abbrev pub logout_token : ℕ → String → AuthenticatedUserSummary → Tx SessionMetadata
    logout_token now token user = do
      found ← query (find_session token)
      revoke_session token now
      insert_audit_event (user_event user.user_id (auth_logout (metadata_of found)) now)
      pure (metadata_of found)

    -- An absent token never gets past `authenticateSession`.
    abbrev token_text : Option String → String
    token_text none = ""
    token_text (some token) = token

    unfoldable pub logout_user_tx : ℕ → Option String → Tx SessionMetadata
    logout_user_tx now presented_token = do
      user ← authenticate_session presented_token now
      logout_token now (token_text presented_token) user

    -- The response is the session's metadata, of which the source leaves out `mfa_satisfied`.
    unfoldable pub logout_user :
        ℕ → Option String → Store → Result StoreError SessionMetadata × Store
    logout_user now presented_token db = with_transaction (logout_user_tx now presented_token) db

    unfoldable pub ensure_global_role : AuthenticatedUserSummary → List String → Bool
    ensure_global_role user allowed_roles =
        any (λ role. any_id role user.global_roles) allowed_roles

    unfoldable pub require_authorized_user :
        ℕ → Option String → List String → Tx AuthenticatedUserSummary
    require_authorized_user now presented_token allowed_roles = do
      user ← authenticate_session presented_token now
      if ensure_global_role user allowed_roles then pure user else throw missing_role
