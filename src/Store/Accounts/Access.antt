-- ===== src/Store/Accounts/Access.antt =====
-- A new account can be used.
use simple_host_man.Store.Accounts.Creation.{users_of, new_account, create_account_ok, is_taken}
use simple_host_man.Prelude.Text.{same_refl}
use simple_host_man.Store.Users.{summarize, summary_of, get_user_by_id}
use simple_host_man.Store.Users.{get_user_by_email}
use simple_host_man.Store.Users.{build_authenticated_user_summary}
use simple_host_man.Prelude.Result.{ok_of_is_ok, is_ok}
use simple_host_man.Store.Sessions.Login.{collides}
use simple_host_man.Store.Nodes.{hash_token}
use simple_host_man.Store.Sessions.{
  AuthLoginRequest, new_session, no_metadata, insert_session, create_session, Fresh, start_session,
  login_user_tx, login_user,
}
use simple_host_man.Store.Tables.{find-upsert, upsert}
use simple_host_man.Store.Accounts.{
  user_event, create_user_tx, create_user, create_password_hash, normalize_email,
  AuthenticatedUserSummary, CreateUserRequest, same,
}
use simple_host_man.Store.Users.{
  verify_password_hash-create_password_hash, verify_password_hash, get_user_credential, ScryptLaws,
  Scrypt,
}
use simple_host_man.Prelude.{
  find_of_any-false, eq_refl, find-append_none, find, any-weaken, any, refl, ap, ◌∙◌, ◌≡◌, ℕ, ◌+◌,
  ◌*◌, Bool, true, false, ◌||◌, String, Option, some, List, [], ◌∷◌, ◌++◌, arith, str_eq,
}
use simple_host_man.Store.{
  query, >>=-run, AuditPayload, SessionMetadata, auth_login, with_transaction_commit,
  with_transaction_ok, SessionRow, ok, AuditEvent, StoredPasswordHash, Store, insert_audit_event,
  Text, UserRow, ◌>>=◌, >>=-eq-ok,
}

module _ (sha256_hex : String → String) (collate : String → String → Bool) {Bytes : Type 0}
    (s : Scrypt Bytes) where
  inserted :
      (new : SessionRow) (db : Store)
      → any (collides sha256_hex collate new) db.sessions ≡ false
      → insert_session sha256_hex new db ≡ ok (tt, record db { sessions = db.sessions ++ new ∷ [] })
  unfolding insert_session
  inserted new db free = rw (free, insert_session) refl

  created :
      (fresh : Fresh) (now ttl : ℕ) (metadata : SessionMetadata) (who : UserRow) (db : Store)
      → any
          (collides sha256_hex collate (new_session sha256_hex fresh now who.user_id ttl metadata))
          db.sessions
        ≡ false
      → create_session sha256_hex fresh now who.user_id ttl metadata db
        ≡ ok (
          (fresh.session_token, now + ttl * 1000),
          record db {
            sessions =
                db.sessions ++ new_session sha256_hex fresh now who.user_id ttl metadata ∷ [];
          },
        )
  unfolding create_session
  created fresh now ttl metadata who db free =
      let new = new_session sha256_hex fresh now who.user_id ttl metadata in
      >>=-run (insert_session sha256_hex new) _ db
        (record db { sessions = db.sessions ++ new ∷ [] }) tt (inserted new db free)

  by_same_users :
      (db db' : Store) (user_id : String)
      → db'.users ≡ db.users
      → get_user_by_id user_id db' ≡ get_user_by_id user_id db
  unfolding get_user_by_id
  by_same_users db db' user_id e = rw e refl

  summarized :
      (user_id : String) (user : UserRow) (db : Store)
      → get_user_by_id user_id db ≡ some user
      → build_authenticated_user_summary collate user_id db
        ≡ ok (summary_of collate user_id user db, db)
  unfolding build_authenticated_user_summary
  summarized user_id user db u =
      >>=-run (query (get_user_by_id user_id)) (summarize collate user_id) db db
        (get_user_by_id user_id db) refl
      ∙ ap (λ found. summarize collate user_id found db) u

  audited :
      (event : AuditEvent) (db : Store)
      → insert_audit_event event db
        ≡ ok (tt, record db { audit_events = db.audit_events ++ event ∷ [] })
  unfolding insert_audit_event
  audited event db = refl

  started :
      (fresh : Fresh) (now ttl : ℕ) (metadata : SessionMetadata) (payload : AuditPayload)
      (who user : UserRow) (db : Store)
      → get_user_by_id who.user_id db ≡ some user
      → any
          (collides sha256_hex collate (new_session sha256_hex fresh now who.user_id ttl metadata))
          db.sessions
        ≡ false
      → is_ok (start_session sha256_hex collate fresh now ttl metadata payload who db) ≡ true
  unfolding start_session
  started fresh now ttl metadata payload who user db u free =
      let new = new_session sha256_hex fresh now who.user_id ttl metadata in
      let db1 : Store = record db { sessions = db.sessions ++ new ∷ [] } in
      let session : String × ℕ = (fresh.session_token, now + ttl * 1000) in
      ap is_ok (
        >>=-run (create_session sha256_hex fresh now who.user_id ttl metadata) _ db db1 session
          (created fresh now ttl metadata who db free)
        ∙ >>=-run (build_authenticated_user_summary collate who.user_id) _ db1 db1
            (summary_of collate who.user_id user db1)
            (summarized who.user_id user db1 (by_same_users db db1 who.user_id refl ∙ u))
        ∙ >>=-run (insert_audit_event (user_event who.user_id payload now)) _ db1
            (record db1 {
              audit_events = db1.audit_events ++ user_event who.user_id payload now ∷ [];
            })
            tt (audited (user_event who.user_id payload now) db1))

  new_credential :
      (user_id : String) (hashed : StoredPasswordHash) (db : Store)
      → (rows : List (String × StoredPasswordHash))
      → db.user_credentials
        ≡ upsert (λ row. str_eq row.0 user_id) (λ row. (user_id, hashed)) (user_id, hashed) rows
      → get_user_credential user_id db ≡ some hashed
  unfolding get_user_credential
  new_credential user_id hashed db rows e =
      rw e (
        rw (find-upsert (λ row. str_eq row.0 user_id) (user_id, hashed) (eq_refl user_id) rows)
          refl)

  new_user_found :
      (new : UserRow) (p : UserRow → Bool) (rows : List UserRow)
      → ((row : UserRow) → p row ≡ true → is_taken new row ≡ true)
      → any (is_taken new) rows ≡ false
      → p new ≡ true
      → find p (rows ++ new ∷ []) ≡ some new
  new_user_found new p rows imp free e =
      find-append_none p rows new
        (find_of_any-false p rows (any-weaken (is_taken new) p rows imp free)) e

  by_email :
      (email : Text) (new : UserRow) (rows : List UserRow) (db : Store)
      → db.users ≡ rows ++ new ∷ []
      → any (is_taken new) rows ≡ false
      → new.email ≡ normalize_email email
      → get_user_by_email email db ≡ some new
  unfolding get_user_by_email
  by_email email new rows db e free is_email =
      rw (e, ← is_email)
        (new_user_found new (λ row. same row.email new.email) rows (λ row h. ground arith) free
          (same_refl new.email))

  by_id :
      (new : UserRow) (rows : List UserRow) (db : Store)
      → db.users ≡ rows ++ new ∷ []
      → any (is_taken new) rows ≡ false
      → get_user_by_id new.user_id db ≡ some new
  unfolding get_user_by_id
  by_id new rows db e free = rw e (
      new_user_found new (λ row. str_eq row.user_id new.user_id) rows (λ row h. ground arith) free
        (eq_refl new.user_id))

  login_runs :
      (fresh : Fresh) (now ttl : ℕ) (email password : Text) (who : UserRow)
      (hashed : StoredPasswordHash) (db : Store)
      → get_user_by_email email db ≡ some who
      → get_user_credential who.user_id db ≡ some hashed
      → verify_password_hash s password hashed ≡ true
      → login_user_tx sha256_hex collate s fresh now ttl
          (record { email = email; password = password })
          db
        ≡ start_session sha256_hex collate fresh now ttl no_metadata (auth_login who.email) who db
  unfolding login_user_tx ◌>>=◌
  login_runs fresh now ttl email password who hashed db f c v = rw (f, c, v) refl

  login_ok :
      (fresh : Fresh) (now ttl : ℕ) (email password : Text) (who : UserRow)
      (hashed : StoredPasswordHash) (db : Store)
      → get_user_by_email email db ≡ some who
      → get_user_credential who.user_id db ≡ some hashed
      → verify_password_hash s password hashed ≡ true
      → get_user_by_id who.user_id db ≡ some who
      → any
          (collides sha256_hex collate
            (new_session sha256_hex fresh now who.user_id ttl no_metadata))
          db.sessions
        ≡ false
      → is_ok
          (login_user sha256_hex collate s fresh now ttl
            (record { email = email; password = password })
            db).0
        ≡ true
  unfolding login_user
  login_ok fresh now ttl email password who hashed db f c v u free =
      let request : AuthLoginRequest = record { email = email; password = password } in
      let payload = auth_login who.email in
      let ((r, db'), session) =
        ok_of_is_ok _ (started fresh now ttl no_metadata payload who who db u free) in
      ap (λ r. is_ok r.0)
        (with_transaction_commit (login_user_tx sha256_hex collate s fresh now ttl request) db db' r
          (login_runs fresh now ttl email password who hashed db f c v ∙ session))

  -- After a user is created, a log-in with the same address and password succeeds, at any time and
  -- with any session identifier and token that no session has.
  pub create_user-login_user :
      (laws : ScryptLaws s) (user_id : String) (salt : Text) (t : ℕ) (request : CreateUserRequest)
      (presented : Option String) (db db' : Store) (r : AuthenticatedUserSummary)
      → create_user sha256_hex collate s user_id salt t request presented db ≡ (ok r, db')
      → (fresh : Fresh) (now ttl : ℕ)
      → any
          (λ row.
            str_eq row.session_id fresh.session_id
            || str_eq row.session_token_hash (hash_token sha256_hex fresh.session_token))
          db'.sessions
        ≡ false
      → is_ok
          (login_user sha256_hex collate s fresh now ttl
            (record { email = request.email; password = request.password })
            db').0
        ≡ true
  unfolding create_user create_user_tx
  create_user-login_user laws user_id salt t request presented db db' r e fresh now ttl unused =
      let tx =
        with_transaction_ok (create_user_tx sha256_hex collate s user_id salt t request presented)
          db db' r e in
      let (actor, d1, e1, h1) = >>=-eq-ok _ _ db tx in
      let (absent, (free, after)) =
        create_account_ok sha256_hex collate s user_id salt t request actor r d1 db' h1 in
      let new = new_account sha256_hex collate s user_id t request in
      let hashed = create_password_hash s salt request.password in
      login_ok fresh now ttl request.email request.password new hashed db'
        (by_email request.email new d1.users db' (ap users_of after) free refl)
        (new_credential user_id hashed db' d1.user_credentials (ap (λ a. a.1) after))
        (verify_password_hash-create_password_hash s laws salt request.password)
        (by_id new d1.users db' (ap users_of after) free) unused
