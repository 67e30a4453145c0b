-- ===== src/Store/Sessions/Access.antt =====
-- Whom a log-in admits, and for how long.
use simple_host_man.Store.Sessions.Validity.{authenticate_live}
use simple_host_man.Store.Sessions.Login.{
  IsAdmitted, login_email, log_in_ok, logged_in, IsStarted, collides, log_in, LoginCall,
}
use simple_host_man.Store.Sessions.{
  user_event, new_session, get_user_by_email, hash_token, AuthLoginResponse,
  AuthenticatedUserSummary, Fresh, find_session, authenticate_session, check_session,
  get_current_user,
}
use simple_host_man.Store.Users.{
  get_user_memberships, get_user_global_roles, get_user_by_id, Scrypt,
}
use simple_host_man.Prelude.{
  find_sound, ◌∙◌, sym, [], ◌∷◌, ◌++◌, eq_refl, ltb→lt, eq_iff, any-weaken, find_of_any-false,
  find-append_none, ltb, le→leb, any, refl, ap, ◌≡◌, inl, inr, ℕ, ◌+◌, ◌*◌, ◌≤◌, Bool, false,
  String, Option, none, some, if◌then◌else◌, arith, Bool-cases, str_eq,
}
use simple_host_man.Store.{
  with_transaction_commit, with_transaction_fail, UserRow, AuditPayload, ok, session_expired,
  SessionMetadata, err, StoreError, AuditEvent, SessionRow, Store, ◌>>=◌,
}

module _ (sha256_hex : String → String) (collate : String → String → Bool) where
  -- No row had the token's hash, so that the new row is the one that the token selects.
  pub find_new_session :
      (new : SessionRow) (token : String) (event : AuditEvent) (db : Store)
      → new.session_token_hash ≡ hash_token sha256_hex token
      → any (collides sha256_hex collate new) db.sessions ≡ false
      → find_session sha256_hex token (logged_in sha256_hex collate new event db) ≡ some new
  unfolding find_session
  find_new_session new token event db is_hash no_row =
      find-append_none _ db.sessions new
        (find_of_any-false _ db.sessions (
          any-weaken (collides sha256_hex collate new) _ db.sessions
            (λ row h. ground (
              arith,
              eq_iff row.session_token_hash (hash_token sha256_hex token),
              eq_iff row.session_token_hash new.session_token_hash,
            ))
            no_row))
        (rw is_hash (eq_refl (hash_token sha256_hex token)))

  check_session_expired :
      (now : ℕ) (session : SessionRow)
      → session.revoked_at ≡ none
      → session.expires_at ≤ now
      → check_session sha256_hex now (some session) ≡ err session_expired
  unfolding check_session
  check_session_expired now session revoked late =
      rw (revoked, le→leb session.expires_at now late) refl

  authenticate_expired :
      (token : String) (now : ℕ) (db : Store) (session : SessionRow)
      → str_eq token "" ≡ false
      → find_session sha256_hex token db ≡ some session
      → session.revoked_at ≡ none
      → session.expires_at ≤ now
      → authenticate_session sha256_hex collate (some token) now db ≡ err session_expired
  unfolding authenticate_session ◌>>=◌
  authenticate_expired token now db session t f revoked late =
      rw (t, f, check_session_expired now session revoked late) refl

  current_user_ok :
      (token : Option String) (now : ℕ) (db db' : Store) (user : AuthenticatedUserSummary)
      → authenticate_session sha256_hex collate token now db ≡ ok (user, db')
      → (get_current_user sha256_hex collate now token db).0 ≡ ok user
  unfolding get_current_user
  current_user_ok token now db db' user e =
      ap (λ r. r.0)
        (with_transaction_commit (authenticate_session sha256_hex collate token now) db db' user e)

  pub current_user_err :
      (token : Option String) (now : ℕ) (db : Store) (x : StoreError)
      → authenticate_session sha256_hex collate token now db ≡ err x
      → (get_current_user sha256_hex collate now token db).0 ≡ err x
  unfolding get_current_user
  current_user_err token now db x e =
      ap (λ r. r.0)
        (with_transaction_fail (authenticate_session sha256_hex collate token now) db x e)

  started_session_access :
      (fresh : Fresh) (t ttl now : ℕ) (user_id : String) (metadata : SessionMetadata)
      (payload : AuditPayload) (db db' : Store) (r : AuthLoginResponse) (user : UserRow)
      → IsStarted sha256_hex collate fresh t ttl user_id metadata payload db r db' user
      → str_eq fresh.session_token "" ≡ false
      → (get_current_user sha256_hex collate now (some r.session_token) db').0
        ≡ (if ltb now r.expires_at then ok r.user else err session_expired)
  unfolding get_user_by_id get_user_global_roles get_user_memberships
  started_session_access fresh t ttl now user_id metadata payload db db' r user
        (u, no_row, r_eq, after) is_text =
      let new = new_session sha256_hex fresh t user_id ttl metadata in
      let found =
        find_new_session new fresh.session_token (user_event user_id payload t) db refl no_row in
      rw (r_eq, after)
        (elim (Bool-cases (ltb now (t + ttl * 1000))) [
          | inl early ↦ rw early (
              current_user_ok (some fresh.session_token) now _ _ _ (
                authenticate_live sha256_hex collate fresh.session_token now
                  (logged_in sha256_hex collate new (user_event user_id payload t) db) new user
                  is_text (found, refl, ltb→lt _ _ early, u)))
          | inr late ↦ rw late (
              current_user_err (some fresh.session_token) now _ session_expired (
                authenticate_expired fresh.session_token now
                  (logged_in sha256_hex collate new (user_event user_id payload t) db) new is_text
                  found refl (ground arith)))
        ])

  module _ {Bytes : Type 0} (s : Scrypt Bytes) where
    -- A log-in that succeeds admits the user whom the normalized address names: with a password that
    -- the stored hash accepts, or, through the trusted proxy or OAuth, with an active account. It adds
    -- one session, that of this user, which ends at the announced time and is the one that the
    -- answer's token selects; the answer describes the same user.
    pub log_in_admits :
        (fresh : Fresh) (now ttl : ℕ) (call : LoginCall) (db db' : Store) (r : AuthLoginResponse)
        → log_in sha256_hex collate s fresh now ttl call db ≡ (ok r, db')
        → (who : UserRow) × (session : SessionRow) × (get_user_by_email
              (login_email sha256_hex collate s call)
              db
            ≡ some who)
          × IsAdmitted sha256_hex collate s call db who
          × (db'.sessions ≡ db.sessions ++ session ∷ [])
          × (find_session sha256_hex r.session_token db' ≡ some session)
          × (session.user_id ≡ who.user_id)
          × (session.expires_at ≡ r.expires_at)
          × (r.user.user_id ≡ who.user_id)
    unfolding get_user_by_id
    log_in_admits fresh now ttl call db db' r e =
        let (who, user, (found, admitted, (metadata, payload, (u, no_row, r_eq, after)))) =
          log_in_ok sha256_hex collate s fresh now ttl call db db' r e in
        let new = new_session sha256_hex fresh now who.user_id ttl metadata in
        let selected =
          find_new_session new fresh.session_token (user_event who.user_id payload now) db refl
            no_row in
        (
          who,
          new,
          found,
          admitted,
          ap (λ (d : Store). d.sessions) after,
          rw (r_eq, after) selected,
          refl,
          ap (λ (x : AuthLoginResponse). x.expires_at) (sym r_eq),
          ap (λ (x : AuthLoginResponse). x.user.user_id) r_eq
              ∙ (eq_iff user.user_id who.user_id).0
                  (find_sound (λ row. str_eq row.user_id who.user_id) db.users user u),
        )

    -- After a log-in at `t` that succeeds, its token, when it is not empty, is answered with the same
    -- user as the log-in until the announced time, and refused as expired from then on.
    pub log_in-get_current_user :
        (fresh : Fresh) (t ttl now : ℕ) (call : LoginCall) (db db' : Store) (r : AuthLoginResponse)
        → log_in sha256_hex collate s fresh t ttl call db ≡ (ok r, db')
        → str_eq fresh.session_token "" ≡ false
        → (get_current_user sha256_hex collate now (some r.session_token) db').0
          ≡ (if ltb now r.expires_at then ok r.user else err session_expired)
    log_in-get_current_user fresh t ttl now call db db' r e is_text =
        let (who, user, (found, admitted, (metadata, payload, started))) =
          log_in_ok sha256_hex collate s fresh t ttl call db db' r e in
        started_session_access fresh t ttl now who.user_id metadata payload db db' r user started
          is_text
