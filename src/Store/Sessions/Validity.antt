-- ===== src/Store/Sessions/Validity.antt =====
-- Which session tokens are accepted.
use simple_host_man.Prelude.Result.{err, ok_of_is_ok, ok, is_ok}
use simple_host_man.Store.Users.{
  get_user_memberships, summary_of, get_user_global_roles, summarize, get_user_by_id,
  build_authenticated_user_summary,
}
use simple_host_man.Store.Sessions.{
  authenticate_token, touched, find_session, lift_check, touch_session, AuthenticatedUserSummary,
  check_session, authenticate_session,
}
use simple_host_man.Prelude.{
  find, leb, refl, sym, ap, ◌∙◌, ◌≡◌, ◌↔◌, inl, inr, ℕ, ◌<◌, Bool, true, false, String, Option,
  none, some, if◌then◌else◌, arith, Bool-cases, str_eq,
}
use simple_host_man.Store.{
  session_expired, ok-value, session_revoked, ok-store, SessionRow, StoreError, Result, UserRow,
  Store, ◌>>=◌, >>=-eq-ok,
}

module _ (sha256_hex : String → String) (collate : String → String → Bool) where
  -- The session and the user behind a token that is accepted at the time.
  abbrev pub IsLive : String → ℕ → Store → SessionRow → UserRow → Type 0
  IsLive token now db session user =
      (find_session sha256_hex token db ≡ some session)
      × (session.revoked_at ≡ none)
      × (now < session.expires_at)
      × (get_user_by_id session.user_id db ≡ some user)

  check_session_ok :
      (now : ℕ) (found : Option SessionRow) (session : SessionRow)
      → check_session sha256_hex now found ≡ ok session
      → (found ≡ some session) × (session.revoked_at ≡ none) × (now < session.expires_at)
  unfolding check_session
  check_session_ok now none session e = cc
  check_session_ok now (some row) session e = go row.revoked_at refl e
    where
      go :
          (revoked : Option ℕ)
          → row.revoked_at ≡ revoked
          → (elim revoked [
            | some _ ↦ err session_revoked
            | none ↦ if leb row.expires_at now then err session_expired else ok row
          ])
            ≡ ok session
          → (some row ≡ some session) × (session.revoked_at ≡ none) × (now < session.expires_at)
      go (some t) r h = cc
      go none r h = elim (Bool-cases (leb row.expires_at now)) [
        | inl late ↦ cc (rw late at h)
        | inr early ↦
            let same_row : row ≡ session = cc (rw early at h) in
            rw (← same_row) (refl, r, ground arith)
      ]

  check_session_live :
      (now : ℕ) (session : SessionRow)
      → session.revoked_at ≡ none
      → now < session.expires_at
      → check_session sha256_hex now (some session) ≡ ok session
  unfolding check_session
  check_session_live now session revoked early = rw revoked (ground arith)

  lift_check_ok :
      (r : Result StoreError SessionRow) (db db' : Store) (session : SessionRow)
      → lift_check sha256_hex r db ≡ ok (session, db')
      → (r ≡ ok session) × (db ≡ db')
  lift_check_ok (ok row) db db' session e = (cc, cc)
  lift_check_ok (err x) db db' session e = cc

  summarize_ok :
      (user_id : String) (found : Option UserRow) (db db' : Store) (r : AuthenticatedUserSummary)
      → summarize collate user_id found db ≡ ok (r, db')
      → (user : UserRow) × (found ≡ some user)
        × (r ≡ summary_of collate user_id user db)
        × (db ≡ db')
  summarize_ok user_id none db db' r e = cc
  summarize_ok user_id (some user) db db' r e = (user, refl, sym (ok-value e), ok-store e)

  pub build_summary_ok :
      (user_id : String) (db db' : Store) (r : AuthenticatedUserSummary)
      → build_authenticated_user_summary collate user_id db ≡ ok (r, db')
      → (user : UserRow) × (get_user_by_id user_id db ≡ some user)
        × (r ≡ summary_of collate user_id user db)
        × (db ≡ db')
  unfolding build_authenticated_user_summary
  build_summary_ok user_id db db' r e =
      let (found, d, e1, h1) = >>=-eq-ok _ _ db e in
      let (user, f, r_eq, same) = summarize_ok user_id found d db' r h1 in
      (user, ok-value e1 ∙ f, rw (ok-store e1) r_eq, ok-store e1 ∙ same)

  -- The answer for a live session.
  pub authenticate_live :
      (token : String) (now : ℕ) (db : Store) (session : SessionRow) (user : UserRow)
      → str_eq token "" ≡ false
      → IsLive token now db session user
      → authenticate_session sha256_hex collate (some token) now db
        ≡ ok (
          summary_of collate session.user_id user db,
          touched sha256_hex session.session_id now db,
        )
  unfolding authenticate_session ◌>>=◌ touch_session build_authenticated_user_summary get_user_by_id
      get_user_global_roles get_user_memberships
  authenticate_live token now db session user t (f, r, early, u) =
      rw (t, f, check_session_live now session r early, u) refl

  authenticate_token-IsLive :
      (token : String) (now : ℕ) (db db' : Store) (r : AuthenticatedUserSummary)
      → authenticate_token sha256_hex collate token now db ≡ ok (r, db')
      → (session : SessionRow) × (user : UserRow) × IsLive token now db session user
  unfolding touch_session get_user_by_id
  authenticate_token-IsLive token now db db' r e =
      let (found, d1, e1, h1) = >>=-eq-ok _ _ db e in
      let (session, d2, e2, h2) = >>=-eq-ok _ _ d1 h1 in
      let (_, d3, e3, h3) = >>=-eq-ok _ _ d2 h2 in
      let (is_checked, same2) = lift_check_ok _ d1 d2 session e2 in
      let (is_found, revoked, early) = check_session_ok now found session is_checked in
      let (user, u, _, _) = build_summary_ok session.user_id d3 db' r h3 in
      let users3 : d3.users ≡ db.users =
        ap (λ (s : Store). s.users) (sym (ok-store e3))
        ∙ ap (λ (s : Store). s.users) (sym same2)
        ∙ ap (λ (s : Store). s.users) (sym (ok-store e1)) in
      (
        session,
        user,
        (
          ok-value e1 ∙ is_found,
          revoked,
          early,
          ap (find (λ row. str_eq row.user_id session.user_id)) (sym users3) ∙ u,
        ),
      )

  pub authenticate_session-IsLive :
      (token : String) (now : ℕ) (db db' : Store) (r : AuthenticatedUserSummary)
      → str_eq token "" ≡ false
      → authenticate_session sha256_hex collate (some token) now db ≡ ok (r, db')
      → (session : SessionRow) × (user : UserRow) × IsLive token now db session user
  unfolding authenticate_session
  authenticate_session-IsLive token now db db' r t e =
      authenticate_token-IsLive token now db db' r (rw t at e)

  -- A session token that is not empty is accepted exactly when its hash selects a session that is not
  -- revoked and has not ended, and the session's user exists.
  pub authenticate_session_iff :
      (token : String) (now : ℕ) (db : Store)
      → str_eq token "" ≡ false
      → (is_ok (authenticate_session sha256_hex collate (some token) now db) ≡ true)
        ↔ ((session : SessionRow) × (user : UserRow) × IsLive token now db session user)
  authenticate_session_iff token now db t = (
    λ h. let ((r, db'), e) = ok_of_is_ok _ h in authenticate_session-IsLive token now db db' r t e,
    λ (session, user, live). rw (authenticate_live token now db session user t live) refl,
  )
