-- ===== src/Store/Sessions/Login.antt =====
-- What a log-in grants.
use simple_host_man.Store.Sessions.Validity.{build_summary_ok}
use simple_host_man.Store.Users.{
  summary_of, get_user_memberships, get_user_global_roles, get_user_by_id,
}
use simple_host_man.Store.Sessions.{
  oauth_metadata, proxy_metadata, login_oauth_user_tx, login_trusted_proxy_user_tx, no_metadata,
  verify_password_hash, login_oauth_user, require_user, login_trusted_proxy_user, check_password,
  require_active_user, get_user_credential, login_user, login_user_tx, get_user_by_email, Scrypt,
  AuthenticatedUserSummary, user_event, new_session, AuthLoginResponse, create_session,
  OauthIdentityLoginRequest, start_session, TrustedProxyLoginRequest, Fresh, insert_session,
  AuthLoginRequest,
}
use simple_host_man.Prelude.{
  eq_iff, ap₂, find, any, refl, sym, ap, ◌∙◌, ◌≡◌, inl, inr, ℕ, ◌+◌, ◌*◌, Bool, true, false, ◌||◌,
  String, Option, none, some, [], ◌∷◌, ◌++◌, Bool-cases, str_eq,
}
use simple_host_man.Store.{
  oauth_user_not_active, trusted_proxy_user_not_active, with_transaction_ok, auth_login, query,
  StoreError, Text, Result, StoredPasswordHash, ok-value, ok-store, UserRow, insert_audit_event, ok,
  AuditPayload, Store, SessionMetadata, AuditEvent, SessionRow, ◌>>=◌, >>=-eq-ok,
}

-- The three ways to log in.
pub data LoginCall : Type 0 where
  with_password : AuthLoginRequest → LoginCall
  through_proxy : TrustedProxyLoginRequest → LoginCall
  with_oauth : OauthIdentityLoginRequest → LoginCall

module _ (sha256_hex : String → String) (collate : String → String → Bool) where
  -- The tables after the log-in.
  abbrev pub logged_in : SessionRow → AuditEvent → Store → Store
  logged_in new event db = record db {
    sessions = db.sessions ++ new ∷ [];
    audit_events = db.audit_events ++ event ∷ [];
  }

  abbrev pub collides : SessionRow → SessionRow → Bool
  collides new row =
      str_eq row.session_id new.session_id || str_eq row.session_token_hash new.session_token_hash

  insert_session_ok :
      (new : SessionRow) (db db' : Store)
      → insert_session sha256_hex new db ≡ ok (tt, db')
      → (any (collides new) db.sessions ≡ false)
        × (db' ≡ record db { sessions = db.sessions ++ new ∷ [] })
  unfolding insert_session
  insert_session_ok new db db' e = elim (Bool-cases (any (collides new) db.sessions)) [
    | inl h ↦ cc (rw h at e)
    | inr h ↦ (h, sym (ok-store (rw h at e)))
  ]

  module _ (fresh : Fresh) (now ttl : ℕ) where
    -- A session that was started: its user exists, no row had its token, and the answer and the
    -- tables are these.
    abbrev pub IsStarted :
        String
        → SessionMetadata
        → AuditPayload
        → Store
        → AuthLoginResponse
        → Store
        → UserRow
        → Type 0
    IsStarted user_id metadata payload db r db' user =
        let new = new_session sha256_hex fresh now user_id ttl metadata in
        (get_user_by_id user_id db ≡ some user)
        × (any (collides new) db.sessions ≡ false)
        × (r ≡ record {
          session_token = fresh.session_token;
          expires_at = now + ttl * 1000;
          user = summary_of collate user_id user db;
        })
        × (db' ≡ logged_in new (user_event user_id payload now) db)

    pub start_session_ok :
        (metadata : SessionMetadata) (payload : AuditPayload) (who : UserRow) (db db' : Store)
        (r : AuthLoginResponse)
        → start_session sha256_hex collate fresh now ttl metadata payload who db ≡ ok (r, db')
        → (user : UserRow) × IsStarted who.user_id metadata payload db r db' user
    unfolding start_session create_session insert_audit_event get_user_by_id get_user_global_roles
        get_user_memberships
    start_session_ok metadata payload who db db' r e =
        let (session, d1, e1, h1) = >>=-eq-ok _ _ db e in
        let (summary, d2, e2, h2) = >>=-eq-ok _ _ d1 h1 in
        let (_, d3, e3, h3) = >>=-eq-ok _ _ d2 h2 in
        let (_, d0, e0, h0) = >>=-eq-ok _ _ db e1 in
        let (no_row, after) = insert_session_ok _ db d0 e0 in
        let (user, u, s_eq, same) =
          build_summary_ok sha256_hex collate who.user_id d1 d2 summary e2 in
        let d1_eq : d1 ≡ record db {
          sessions = db.sessions ++ new_session sha256_hex fresh now who.user_id ttl metadata ∷ [];
        } =
          sym (ok-store h0) ∙ after in
        (
          user,
          (
            ap (λ (s : Store). find (λ row. str_eq row.user_id who.user_id) s.users) (sym d1_eq)
                ∙ u,
            no_row,
            sym (ok-value h3)
                ∙ ap₂
                    (λ (p : String × ℕ) (s : AuthenticatedUserSummary). record {
                      session_token = p.0;
                      expires_at = p.1;
                      user = s;
                    })
                    (sym (ok-value h0)) (s_eq ∙ ap (summary_of collate who.user_id user) d1_eq),
            sym (ok-store h3)
                ∙ sym (ok-store e3)
                ∙ ap
                    (λ (s : Store). record s {
                      audit_events = s.audit_events ++ user_event who.user_id payload now ∷ [];
                    })
                    (sym same ∙ d1_eq),
          ),
        )

  module _ {Bytes : Type 0} (s : Scrypt Bytes) where
    unfoldable pub log_in :
        Fresh → ℕ → ℕ → LoginCall → Store → Result StoreError AuthLoginResponse × Store
    log_in fresh now ttl (with_password request) db =
        login_user sha256_hex collate s fresh now ttl request db
    log_in fresh now ttl (through_proxy request) db =
        login_trusted_proxy_user sha256_hex collate fresh now ttl request db
    log_in fresh now ttl (with_oauth request) db =
        login_oauth_user sha256_hex collate fresh now ttl request db

    require_user_ok :
        (x : StoreError) (found : Option UserRow) (db db' : Store) (user : UserRow)
        → require_user sha256_hex collate x found db ≡ ok (user, db')
        → (found ≡ some user) × (db ≡ db')
    require_user_ok x none db db' user e = cc
    require_user_ok x (some row) db db' user e = (cc, cc)

    require_active_user_ok :
        (x : StoreError) (found : Option UserRow) (db db' : Store) (user : UserRow)
        → require_active_user sha256_hex collate x found db ≡ ok (user, db')
        → (found ≡ some user) × (user.status ≡ "active") × (db ≡ db')
    require_active_user_ok x none db db' user e = cc
    require_active_user_ok x (some row) db db' user e =
        elim (Bool-cases (str_eq row.status "active")) [
          | inl active ↦
              let h : ok (row, db) ≡ ok (user, db') = rw active at e in
              (
                ap some (ok-value h),
                ap (λ (u : UserRow). u.status) (sym (ok-value h))
                    ∙ (eq_iff row.status "active").0 active,
                ok-store h,
              )
          | inr inactive ↦ cc (rw inactive at e)
        ]

    check_password_ok :
        (password : Text) (credential : Option StoredPasswordHash) (db db' : Store)
        → check_password sha256_hex collate s password credential db ≡ ok (tt, db')
        → (stored : StoredPasswordHash) × (credential ≡ some stored)
          × (verify_password_hash s password stored ≡ true)
          × (db ≡ db')
    check_password_ok password none db db' e = cc
    check_password_ok password (some stored) db db' e =
        elim (Bool-cases (verify_password_hash s password stored)) [
          | inl h ↦ (stored, refl, h, ok-store (rw h at e))
          | inr h ↦ cc (rw h at e)
        ]

    abbrev pub login_email : LoginCall → Text
    login_email (with_password request) = request.email
    login_email (through_proxy request) = request.email
    login_email (with_oauth request) = request.email

    -- What each way to log in asks of the user that the address names.
    abbrev pub IsAdmitted : LoginCall → Store → UserRow → Type 0
    IsAdmitted (with_password request) db user =
        (stored : StoredPasswordHash) × (get_user_credential user.user_id db ≡ some stored)
        × (verify_password_hash s request.password stored ≡ true)
    IsAdmitted (through_proxy request) db user = user.status ≡ "active"
    IsAdmitted (with_oauth request) db user = user.status ≡ "active"

    abbrev pub HasStarted :
        Fresh → ℕ → ℕ → LoginCall → Store → AuthLoginResponse → Store → UserRow → UserRow → Type 0
    HasStarted fresh now ttl call db r db' who user =
        (get_user_by_email (login_email call) db ≡ some who)
        × IsAdmitted call db who
        × ((metadata : SessionMetadata) × (payload : AuditPayload) × IsStarted fresh now ttl
              who.user_id metadata payload db r db' user)

    with_password_ok :
        (fresh : Fresh) (now ttl : ℕ) (request : AuthLoginRequest) (db db' : Store)
        (r : AuthLoginResponse)
        → login_user_tx sha256_hex collate s fresh now ttl request db ≡ ok (r, db')
        → (who : UserRow) × (user : UserRow) × HasStarted fresh now ttl
            (with_password request)
            db
            r
            db'
            who
            user
    unfolding login_user_tx
    with_password_ok fresh now ttl request db db' r e =
        let (found, d1, e1, h1) = >>=-eq-ok _ _ db e in
        let (who, d2, e2, h2) = >>=-eq-ok _ _ d1 h1 in
        let (credential, d3, e3, h3) = >>=-eq-ok _ _ d2 h2 in
        let (_, d4, e4, h4) = >>=-eq-ok _ _ d3 h3 in
        let (f, same2) = require_user_ok _ found d1 d2 who e2 in
        let (stored, c, v, same4) = check_password_ok request.password credential d3 d4 e4 in
        let same : d4 ≡ db = sym same4 ∙ sym (ok-store e3) ∙ sym same2 ∙ sym (ok-store e1) in
        let (user, started) = start_session_ok fresh now ttl _ _ who db db' r (rw same at h4) in
        (
          who,
          user,
          (
            ok-value e1 ∙ f,
            (
              stored,
              ap (get_user_credential who.user_id) (ok-store e1 ∙ same2) ∙ ok-value e3 ∙ c,
              v,
            ),
            (no_metadata, auth_login who.email, started),
          ),
        )

    active_ok :
        (fresh : Fresh) (now ttl : ℕ) (x : StoreError) (email : Text) (metadata : SessionMetadata)
        (payload : UserRow → AuditPayload) (db db' : Store) (r : AuthLoginResponse)
        → (do
          found ← query (get_user_by_email email)
          user ← require_active_user sha256_hex collate x found
          start_session sha256_hex collate fresh now ttl metadata (payload user) user)
            db
          ≡ ok (r, db')
        → (who : UserRow) × (user : UserRow) × (get_user_by_email email db ≡ some who)
          × (who.status ≡ "active")
          × IsStarted fresh now ttl who.user_id metadata (payload who) db r db' user
    active_ok fresh now ttl x email metadata payload db db' r e =
        let (found, d1, e1, h1) = >>=-eq-ok _ _ db e in
        let (who, d2, e2, h2) = >>=-eq-ok _ _ d1 h1 in
        let (f, active, same2) = require_active_user_ok _ found d1 d2 who e2 in
        let same : d2 ≡ db = sym same2 ∙ sym (ok-store e1) in
        let (user, started) =
          start_session_ok fresh now ttl metadata (payload who) who db db' r (rw same at h2) in
        (who, user, ok-value e1 ∙ f, active, started)

    -- A log-in that succeeds has found the user and started the session.
    pub log_in_ok :
        (fresh : Fresh) (now ttl : ℕ) (call : LoginCall) (db db' : Store) (r : AuthLoginResponse)
        → log_in fresh now ttl call db ≡ (ok r, db')
        → (who : UserRow) × (user : UserRow) × HasStarted fresh now ttl call db r db' who user
    unfolding log_in login_user login_trusted_proxy_user login_oauth_user
        login_trusted_proxy_user_tx login_oauth_user_tx
    log_in_ok fresh now ttl (with_password request) db db' r e =
        with_password_ok fresh now ttl request db db' r (with_transaction_ok _ db db' r e)
    log_in_ok fresh now ttl (through_proxy request) db db' r e =
        let (who, user, f, active, started) =
          active_ok fresh now ttl trusted_proxy_user_not_active request.email
            (proxy_metadata request) _ db db' r
            (with_transaction_ok
              (login_trusted_proxy_user_tx sha256_hex collate fresh now ttl request) db db' r e) in
        (who, user, (f, active, (proxy_metadata request, _, started)))
    log_in_ok fresh now ttl (with_oauth request) db db' r e =
        let (who, user, f, active, started) =
          active_ok fresh now ttl oauth_user_not_active request.email (oauth_metadata request) _ db
            db' r
            (with_transaction_ok (login_oauth_user_tx sha256_hex collate fresh now ttl request) db
              db' r e) in
        (who, user, (f, active, (oauth_metadata request, _, started)))
