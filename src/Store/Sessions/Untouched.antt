-- ===== src/Store/Sessions/Untouched.antt =====
-- A check of the session changes the table of sessions alone.
use simple_host_man.Store.Preserves.{
  Preserves, Preserves-bind, Preserves-pure, Preserves-throw, Preserves-query, Preserves-execute,
  Preserves-if,
}
use simple_host_man.Prelude.{◌≡◌, ℕ, Bool, String, Option, none, some, List}
use simple_host_man.Prelude.Result.{Result, ok, err}
use simple_host_man.Store.Tables.{non_empty}
use simple_host_man.Store.Users.{summarize, build_authenticated_user_summary}
use simple_host_man.Store.{Store, StoreError, SessionRow, UserRow}
use simple_host_man.Store.Sessions.{
  ensure_global_role, check_session, lift_check, authenticate_presented, authenticate_session,
  touch_session, require_authorized_user,
}

module _ {V : Type 0} (view : Store → V)
    (blind : (db : Store) (sessions : List SessionRow)
      → view (record db { sessions = sessions }) ≡ view db)
    (sha256_hex : String → String) (collate : String → String → Bool) where
  Preserves-summarize :
      (user_id : String) (user : Option UserRow) → Preserves view (summarize collate user_id user)
  Preserves-summarize user_id none = Preserves-throw view _
  Preserves-summarize user_id (some user) = Preserves-query view _

  Preserves-check_session :
      (r : Result StoreError SessionRow) → Preserves view (lift_check sha256_hex r)
  Preserves-check_session (ok session) = Preserves-pure view session
  Preserves-check_session (err e) = Preserves-throw view e

  Preserves-authenticate :
      (now : ℕ) (token : Option String)
      → Preserves view (authenticate_presented sha256_hex collate now token)
  unfolding touch_session build_authenticated_user_summary
  Preserves-authenticate now none = Preserves-throw view _
  Preserves-authenticate now (some token) =
      Preserves-bind view _ _ (Preserves-query view _) (λ found.
        Preserves-bind view _ _ (Preserves-check_session (check_session sha256_hex now found))
          (λ session. Preserves-bind view _ _ (Preserves-execute view _ (λ db. blind db _)) (λ _.
            Preserves-bind view _ _ (Preserves-query view _)
              (λ user. Preserves-summarize session.user_id user))))

  pub Preserves-require_authorized_user :
      (now : ℕ) (token : Option String) (roles : List String)
      → Preserves view (require_authorized_user sha256_hex collate now token roles)
  unfolding require_authorized_user authenticate_session
  Preserves-require_authorized_user now token roles =
      Preserves-bind view _ _ (Preserves-authenticate now (non_empty token)) (λ user.
        Preserves-if view (ensure_global_role sha256_hex collate user roles) _ _
          (Preserves-pure view user) (Preserves-throw view _))
