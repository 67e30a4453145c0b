-- ===== src/Store/Sessions/Revocation.antt =====
-- A log-out is final.
use simple_host_man.Store.Sessions.Access.{current_user_err}
use simple_host_man.Store.Sessions.Validity.{
  authenticate_live, authenticate_session-IsLive, build_summary_ok,
}
use simple_host_man.Store.Sessions.Login.{
  with_oauth, through_proxy, with_password, log_in_ok, log_in, LoginCall,
}
use simple_host_man.Store.Tables.{find-update_where, is_none}
use simple_host_man.Store.Users.{build_authenticated_user_summary}
use simple_host_man.Store.Sessions.{
  touched, login_oauth_user_tx, login_trusted_proxy_user_tx, login_user_tx, login_oauth_user,
  login_trusted_proxy_user, login_user, logout_token, record_oauth_token_revoked, get_current_user,
  AuthLoginResponse, authenticate_token, logout_user, AuthenticatedUserSummary, Scrypt, hash_token,
  lift_check, OauthTokenRevokedAuditRequest, check_session, update_where, non_empty, find_session,
  Fresh, authenticate_session, authenticate_presented, logout_user_tx, touch_session,
  revoke_session,
}
use simple_host_man.Prelude.{
  find-append_some, find, refl, sym, ap, ◌∙◌, ◌≡◌, inl, inr, ℕ, Bool, true, false, not, String,
  Option, none, some, List, [], ◌∷◌, ◌++◌, Bool-cases, Option-cases, str_eq,
}
use simple_host_man.Store.{
  with_transaction_fail, missing_session_token, throw, with_transaction_commit,
  with_transaction_rollback, with_transaction_ok, SessionMetadata, with_transaction,
  session_revoked, err, execute, StoreError, ok-store, AuditEvent, ok, query, Result, Tx, Store,
  pure, insert_audit_event, SessionRow, ◌>>=◌, >>=-eq-ok,
}

-- The calls that read or write sessions, each with its time.
pub data SessionEvent : Type 0 where
  log_in_call : Fresh → ℕ → ℕ → LoginCall → SessionEvent
  current_user_call : ℕ → Option String → SessionEvent
  token_revoked_call : ℕ → OauthTokenRevokedAuditRequest → Option String → SessionEvent
  logout_call : ℕ → Option String → SessionEvent

abbrev holds : (SessionRow → Bool) → Option SessionRow → Bool
holds r none = false
holds r (some session) = r session

abbrev is_revoked : Option SessionRow → Bool
is_revoked = holds (λ session. not (is_none session.revoked_at))

-- An update that keeps both tests.
found-update_where :
    (r p q : SessionRow → Bool) (f : SessionRow → SessionRow) (rows : List SessionRow)
    → ((row : SessionRow) → p (f row) ≡ p row)
    → ((row : SessionRow) → r row ≡ true → r (f row) ≡ true)
    → holds r (find p rows) ≡ true
    → holds r (find p (update_where q f rows)) ≡ true
found-update_where r p q f [] same keeps h = cc
found-update_where r p q f (row ∷ rows) same keeps h = elim (Bool-cases (q row)) [
  | inl e ↦ rw e (elim (Bool-cases (p row)) [
    | inl here ↦ rw (same row ∙ here) (keeps row (rw here at h))
    | inr there ↦ rw (same row ∙ there) (found-update_where r p q f rows same keeps (rw there at h))
  ])
  | inr e ↦ rw e (elim (Bool-cases (p row)) [
    | inl here ↦ rw here (rw here at h)
    | inr there ↦ rw there (found-update_where r p q f rows same keeps (rw there at h))
  ])
]

found-append :
    (p : SessionRow → Bool) (rows more : List SessionRow)
    → is_revoked (find p rows) ≡ true
    → is_revoked (find p (rows ++ more)) ≡ true
found-append p rows more h = elim (Option-cases (find p rows)) [
  | inl e ↦ cc (rw e at h)
  | inr (row, e) ↦ rw (find-append_some p rows more row e) (rw e at h)
]

module _ (sha256_hex : String → String) (collate : String → String → Bool) (token : String) where
  -- The token selects a revoked session.
  abbrev IsRevoked : List SessionRow → Type 0
  IsRevoked rows =
      is_revoked (find (λ row. str_eq row.session_token_hash (hash_token sha256_hex token)) rows)
      ≡ true

  abbrev Preserves : {A : Type 0} → Tx A → Type 0
  Preserves {A} m =
      (db db' : Store) (a : A) → m db ≡ ok (a, db') → IsRevoked db.sessions → IsRevoked db'.sessions

  Preserves-bind :
      {A B : Type 0} (m : Tx A) (f : A → Tx B)
      → Preserves m
      → ((a : A) → Preserves (f a))
      → Preserves (m >>= f)
  Preserves-bind m f h k db db' b e r =
      let (a, d, e1, e2) = >>=-eq-ok m f db e in k a d db' b e2 (h db d a e1 r)

  Preserves-execute :
      (f : Store → Store)
      → ((db : Store) → IsRevoked db.sessions → IsRevoked (f db).sessions)
      → Preserves (execute f)
  Preserves-execute f h db db' a e r = rw (← ok-store e) (h db r)

  Preserves-query : {A : Type 0} (f : Store → A) → Preserves (query f)
  Preserves-query f db db' a e r = rw (← ok-store e) r

  Preserves-pure : {A : Type 0} (a : A) → Preserves (pure a)
  Preserves-pure a db db' b e r = rw (← ok-store e) r

  Preserves-throw : {A : Type 0} (x : StoreError) → Preserves {A = A} (throw x)
  Preserves-throw x db db' a e r = cc

  Preserves-touch :
      (session_id : String) (now : ℕ) → Preserves (touch_session sha256_hex session_id now)
  unfolding touch_session
  Preserves-touch session_id now = Preserves-execute _ (λ db r.
      found-update_where _ _ (λ row. str_eq row.session_id session_id)
        (λ row. record row { last_used_at = now }) db.sessions (λ row. refl) (λ row h. h) r)

  Preserves-revoke : (other : String) (now : ℕ) → Preserves (revoke_session sha256_hex other now)
  unfolding revoke_session
  Preserves-revoke other now = Preserves-execute _ (λ db r.
      found-update_where _ _ (λ row. str_eq row.session_token_hash (hash_token sha256_hex other))
        (λ row. record row { revoked_at = some now }) db.sessions (λ row. refl) (λ row h. refl) r)

  Preserves-audit : (event : AuditEvent) → Preserves (insert_audit_event event)
  unfolding insert_audit_event
  Preserves-audit event = Preserves-execute _ (λ db r. r)

  Preserves-check : (x : Result StoreError SessionRow) → Preserves (lift_check sha256_hex x)
  Preserves-check (ok session) = Preserves-pure session
  Preserves-check (err x) = Preserves-throw x

  Preserves-summary :
      (user_id : String) → Preserves (build_authenticated_user_summary collate user_id)
  Preserves-summary user_id db db' a e r =
      let (user, u, s, same) = build_summary_ok sha256_hex collate user_id db db' a e in
      rw (← same) r

  Preserves-authenticate :
      (presented : Option String) (now : ℕ)
      → Preserves (authenticate_presented sha256_hex collate now presented)
  Preserves-authenticate none now = Preserves-throw missing_session_token
  Preserves-authenticate (some t) now =
      Preserves-bind _ _ (Preserves-query (find_session sha256_hex t)) (λ found.
        Preserves-bind _ _ (Preserves-check (check_session sha256_hex now found)) (λ session.
          Preserves-bind _ _ (Preserves-touch session.session_id now)
            (λ _. Preserves-summary session.user_id)))

  Preserves-authenticate_session :
      (presented : Option String) (now : ℕ)
      → Preserves (authenticate_session sha256_hex collate presented now)
  unfolding authenticate_session
  Preserves-authenticate_session presented now = Preserves-authenticate (non_empty presented) now

  Preserves-logout :
      (now : ℕ) (presented : Option String)
      → Preserves (logout_user_tx sha256_hex collate now presented)
  unfolding logout_user_tx
  Preserves-logout now presented =
      Preserves-bind _ _ (Preserves-authenticate_session presented now) (λ user.
        Preserves-bind _ _ (Preserves-query _) (λ found.
          Preserves-bind _ _ (Preserves-revoke _ now)
            (λ _. Preserves-bind _ _ (Preserves-audit _) (λ _. Preserves-pure _))))

  abbrev has_token : SessionRow → Bool
  has_token row = str_eq row.session_token_hash (hash_token sha256_hex token)

  abbrev revoke_row : ℕ → SessionRow → SessionRow
  revoke_row now row = record row { revoked_at = some now }

  found-IsRevoked :
      (now : ℕ) (rows : List SessionRow) (session : SessionRow)
      → find has_token rows ≡ some session
      → IsRevoked (update_where has_token (revoke_row now) rows)
  found-IsRevoked now rows session e =
      rw
        (find-update_where has_token (revoke_row now) rows (λ row h. h)
          ∙ ap (λ found. elim found [ none ↦ none | some row ↦ some (revoke_row now row) ]) e)
        refl

  -- The last steps of a log-out leave the session revoked.
  logout_token_revokes :
      (now : ℕ) (user : AuthenticatedUserSummary) (db db' : Store) (m : SessionMetadata)
      (session : SessionRow)
      → find_session sha256_hex token db ≡ some session
      → logout_token sha256_hex collate now token user db ≡ ok (m, db')
      → IsRevoked db'.sessions
  unfolding revoke_session find_session
  logout_token_revokes now user db db' m session f e =
      let (found, d1, e1, h1) = >>=-eq-ok _ _ db e in
      let (_, d2, e2, h2) = >>=-eq-ok _ _ d1 h1 in
      let (_, d3, e3, h3) = >>=-eq-ok _ _ d2 h2 in
      let revoked : IsRevoked d2.sessions =
        rw (← ok-store e2, ← ok-store e1) (found-IsRevoked now db.sessions session f) in
      rw (← ok-store h3) (Preserves-audit _ d2 d3 tt e3 revoked)

  authenticate_revoked :
      (now : ℕ) (db : Store)
      → str_eq token "" ≡ false
      → IsRevoked db.sessions
      → authenticate_session sha256_hex collate (some token) now db ≡ err session_revoked
  unfolding authenticate_session find_session ◌>>=◌ check_session
  authenticate_revoked now db t r = rw t (refused (find_session sha256_hex token db) refl r)
    where
      refused :
          (found : Option SessionRow)
          → find_session sha256_hex token db ≡ found
          → is_revoked found ≡ true
          → authenticate_token sha256_hex collate token now db ≡ err session_revoked
      refused none f h = cc
      refused (some session) f h = elim (Option-cases session.revoked_at) [
        | inl e ↦ cc (rw e at h)
        | inr (at, e) ↦ rw (f, e) refl
      ]

  module _ {Bytes : Type 0} (s : Scrypt Bytes) where
    -- The tables after a call.
    unfoldable pub session_step : SessionEvent → Store → Store
    session_step (log_in_call fresh now ttl call) db =
        (log_in sha256_hex collate s fresh now ttl call db).1
    session_step (current_user_call now presented) db =
        (get_current_user sha256_hex collate now presented db).1
    session_step (token_revoked_call now request presented) db =
        (record_oauth_token_revoked sha256_hex collate now request presented db).1
    session_step (logout_call now presented) db =
        (logout_user sha256_hex collate now presented db).1

    unfoldable pub run_sessions : List SessionEvent → Store → Store
    run_sessions [] db = db
    run_sessions (e ∷ es) db = run_sessions es (session_step e db)

    transaction-Preserves :
        {A : Type 0} (m : Tx A) (db : Store)
        → Preserves m
        → IsRevoked db.sessions
        → IsRevoked (with_transaction m db).1.sessions
    transaction-Preserves {A} m db h r = go (m db) refl
      where
        go :
            (x : Result StoreError (A × Store))
            → m db ≡ x
            → IsRevoked (with_transaction m db).1.sessions
        go (ok (a, db')) e = rw (with_transaction_commit m db db' a e) (h db db' a e r)
        go (err x) e = rw (with_transaction_fail m db x e) r

    log_in_rollback :
        (fresh : Fresh) (now ttl : ℕ) (call : LoginCall) (db db' : Store) (x : StoreError)
        → log_in sha256_hex collate s fresh now ttl call db ≡ (err x, db')
        → db ≡ db'
    unfolding log_in login_user login_trusted_proxy_user login_oauth_user
    log_in_rollback fresh now ttl (with_password request) db db' x e =
        sym (
          with_transaction_rollback (login_user_tx sha256_hex collate s fresh now ttl request) db x
            (ap (λ r. r.0) e))
        ∙ ap (λ r. r.1) e
    log_in_rollback fresh now ttl (through_proxy request) db db' x e =
        sym (
          with_transaction_rollback
            (login_trusted_proxy_user_tx sha256_hex collate fresh now ttl request) db x
            (ap (λ r. r.0) e))
        ∙ ap (λ r. r.1) e
    log_in_rollback fresh now ttl (with_oauth request) db db' x e =
        sym (
          with_transaction_rollback (login_oauth_user_tx sha256_hex collate fresh now ttl request)
            db x (ap (λ r. r.0) e))
        ∙ ap (λ r. r.1) e

    log_in_preserves :
        (fresh : Fresh) (now ttl : ℕ) (call : LoginCall) (db : Store)
        (r : Result StoreError AuthLoginResponse × Store)
        → log_in sha256_hex collate s fresh now ttl call db ≡ r
        → IsRevoked db.sessions
        → IsRevoked r.1.sessions
    log_in_preserves fresh now ttl call db (err x, db') e h =
        rw (← log_in_rollback fresh now ttl call db db' x e) h
    log_in_preserves fresh now ttl call db (ok r, db') e h =
        let (who, user, (f, admitted, (metadata, payload, (u, no_row, r_eq, after)))) =
          log_in_ok sha256_hex collate s fresh now ttl call db db' r e in
        rw after (found-append _ db.sessions _ h)

    step_preserves :
        (e : SessionEvent) (db : Store)
        → IsRevoked db.sessions
        → IsRevoked (session_step e db).sessions
    unfolding session_step get_current_user record_oauth_token_revoked logout_user
    step_preserves (log_in_call fresh now ttl call) db h =
        log_in_preserves fresh now ttl call db _ refl h
    step_preserves (current_user_call now presented) db h =
        transaction-Preserves _ db (Preserves-authenticate_session presented now) h
    step_preserves (token_revoked_call now request presented) db h =
        transaction-Preserves _ db
          (Preserves-bind _ _ (Preserves-authenticate_session presented now)
            (λ user. Preserves-audit _))
          h
    step_preserves (logout_call now presented) db h =
        transaction-Preserves (logout_user_tx sha256_hex collate now presented) db
          (Preserves-logout now presented) h

    run_preserves :
        (es : List SessionEvent) (db : Store)
        → IsRevoked db.sessions
        → IsRevoked (run_sessions es db).sessions
    unfolding run_sessions
    run_preserves [] db h = h
    run_preserves (e ∷ es) db h = run_preserves es (session_step e db) (step_preserves e db h)

    found-none : {o : Option SessionRow} → o ≡ none → holds (λ row. true) o ≡ true → ⊥
    found-none e h = cc

    found_touched :
        (session : SessionRow) (now : ℕ) (db : Store)
        → find_session sha256_hex token db ≡ some session
        → holds
            (λ row. true)
            (find_session sha256_hex token (touched sha256_hex session.session_id now db))
          ≡ true
    unfolding find_session
    found_touched session now db f =
        found-update_where (λ row. true) has_token (λ row. str_eq row.session_id session.session_id)
          (λ row. record row { last_used_at = now }) db.sessions (λ row. refl) (λ row h. refl)
          (ap (holds (λ row. true)) f)

    logout_revokes :
        (now : ℕ) (db db' : Store) (m : SessionMetadata)
        → str_eq token "" ≡ false
        → logout_user_tx sha256_hex collate now (some token) db ≡ ok (m, db')
        → IsRevoked db'.sessions
    unfolding logout_user_tx
    logout_revokes now db db' m t e =
        let (user, d1, e1, h1) = >>=-eq-ok _ _ db e in
        let (session, who, live) =
          authenticate_session-IsLive sha256_hex collate token now db d1 user t e1 in
        let d1_eq : touched sha256_hex session.session_id now db ≡ d1 =
          ok-store
            (sym (authenticate_live sha256_hex collate token now db session who t live) ∙ e1) in
        elim (Option-cases (find_session sha256_hex token d1)) [
          | inr (row, found) ↦ logout_token_revokes now user d1 db' m row found h1
          | inl gone ↦ absurd (
              found-none (ap (find_session sha256_hex token) d1_eq ∙ gone)
                (found_touched session now db live.0))
        ]

    -- After a log-out that succeeds, the token is refused as revoked whatever sequence of log-ins,
    -- look-ups, token revocations and log-outs, by anyone and at any times, has run since.
    pub logout_user_final :
        (t : ℕ) (db db' : Store) (m : SessionMetadata)
        → logout_user sha256_hex collate t (some token) db ≡ (ok m, db')
        → str_eq token "" ≡ false
        → (later : List SessionEvent) (now : ℕ)
        → (get_current_user sha256_hex collate now (some token) (run_sessions later db')).0
          ≡ err session_revoked
    unfolding logout_user
    logout_user_final t db db' m e is_text later now =
        current_user_err sha256_hex collate (some token) now _ session_revoked (
          authenticate_revoked now (run_sessions later db') is_text (
            run_preserves later db' (
              logout_revokes t db db' m is_text (
                with_transaction_ok (logout_user_tx sha256_hex collate t (some token)) db db' m
                  e))))
