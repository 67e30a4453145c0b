-- ===== src/Examples/Access.antt =====
-- Log-in, log-out and a new account.
use simple_host_man.Store.Users.{build_authenticated_user_summary}
use simple_host_man.Store.Users.{get_user_memberships}
use simple_host_man.Store.Users.{get_user_global_roles}
use simple_host_man.Store.Users.{replace_user_tenant_memberships}
use simple_host_man.Store.Users.{insert_memberships}
use simple_host_man.Store.Users.{replace_user_global_roles}
use simple_host_man.Store.Users.{upsert_user_credential}
use simple_host_man.Store.Users.{get_user_credential}
use simple_host_man.Store.Users.{get_user_by_id}
use simple_host_man.Store.Users.{get_user_by_email}
use simple_host_man.Store.Users.{verify_password_hash}
use simple_host_man.Store.Users.{create_password_hash}
use simple_host_man.Prelude.{◌++◌, sort}
use simple_host_man.Store.Sessions.{ensure_global_role, require_authorized_user, insert_session}
use simple_host_man.Store.Sessions.{create_session}
use simple_host_man.Store.Sessions.{start_session}
use simple_host_man.Store.{insert_audit_event}
use simple_host_man.Store.Sessions.{revoke_session}
use simple_host_man.Store.Sessions.{touch_session}
use simple_host_man.Store.Nodes.{hash_token}
use simple_host_man.Store.Sessions.{find_session}
use simple_host_man.Store.Sessions.{check_session}
use simple_host_man.Store.Sessions.Access.{log_in-get_current_user, log_in_admits}
use simple_host_man.Store.Sessions.Validity.{authenticate_session_iff, IsLive}
use simple_host_man.Store.Tables.{any_id}
use simple_host_man.Store.Accounts.Creation.{create_user_authorized}
use simple_host_man.Store.Accounts.Access.{create_user-login_user}
use simple_host_man.Prelude.Text.{trim, codes}
use simple_host_man.Examples.{
  same, no_session_metadata, scrypt_laws, SessionRow, store, scrypt, collate, sha,
}
use simple_host_man.Prelude.Result.{ok, err, is_ok}
use simple_host_man.Store.Users.{normalize_email, AuthenticatedUserSummary}
use simple_host_man.Store.Sessions.Login.{IsAdmitted, login_email, log_in, LoginCall}
use simple_host_man.Store.Accounts.{
  insert_user, create_account, create_user_tx, create_user, CreateUserRequest,
}
use simple_host_man.Store.Sessions.{
  login_user_tx, authenticate_session, login_user, logout_user_tx, AuthLoginResponse,
  get_current_user, Fresh, logout_user,
}
use simple_host_man.Prelude.{
  any, ltb, refl, ◌≡◌, ◌↔◌, true, false, ◌||◌, none, some, List, [], ◌∷◌, if◌then◌else◌, str_eq,
}
use simple_host_man.Store.{
  session_revoked, session_expired, with_transaction, UserRow, Store, ◌>>=◌,
}
use simple_host_man.Store.Sessions.Revocation.{logout_user_final, SessionEvent, run_sessions}

abbrev fresh : Fresh
fresh = record { session_id = "s-2"; session_token = "t-2" }

abbrev call : LoginCall
call =
    LoginCall.with_password (record { email = codes " Admin@example.org"; password = codes "pw" })

abbrev summary : AuthenticatedUserSummary
summary = record {
  user_id = "user-1";
  email = codes "admin@example.org";
  display_name = "Admin";
  status = "active";
  global_roles = "platform_admin" ∷ [];
  tenant_memberships = [];
}

abbrev answer : AuthLoginResponse
answer = record { session_token = "t-2"; expires_at = 61000; user = summary }

abbrev logged : Store
logged = (log_in sha collate scrypt fresh 1000 60 call store).1

login : log_in sha collate scrypt fresh 1000 60 call store ≡ (ok answer, logged)
unfolding log_in login_user login_user_tx with_transaction ◌>>=◌ trim get_user_by_email
    get_user_credential verify_password_hash start_session create_session insert_session hash_token
    build_authenticated_user_summary get_user_by_id insert_audit_event get_user_global_roles
    get_user_memberships sort
login = refl

log_in-get_current_user_example :
    (get_current_user sha collate 2000 (some "t-2") logged).0
    ≡ (if ltb 2000 61000 then ok summary else err session_expired)
log_in-get_current_user_example =
    log_in-get_current_user sha collate scrypt fresh 1000 60 2000 call store logged answer login
      refl

log_in_admits_example :
    (who : UserRow) × (session : SessionRow) × (get_user_by_email
        (login_email sha collate scrypt call)
        store
      ≡ some who)
    × IsAdmitted sha collate scrypt call store who
    × (logged.sessions ≡ store.sessions ++ session ∷ [])
    × (find_session sha answer.session_token logged ≡ some session)
    × (session.user_id ≡ who.user_id)
    × (session.expires_at ≡ answer.expires_at)
    × (answer.user.user_id ≡ who.user_id)
log_in_admits_example =
    log_in_admits sha collate scrypt fresh 1000 60 call store logged answer login

authenticate_session_iff_example :
    (is_ok (authenticate_session sha collate (some "admin-token") 5 store) ≡ true) ↔ (
      (session : SessionRow) × (user : UserRow) × IsLive sha collate "admin-token" 5 store session
        user)
authenticate_session_iff_example = authenticate_session_iff sha collate "admin-token" 5 store refl

abbrev left : Store
left = (logout_user sha collate 1000 (some "admin-token") store).1

logout : logout_user sha collate 1000 (some "admin-token") store ≡ (ok no_session_metadata, left)
unfolding logout_user logout_user_tx with_transaction ◌>>=◌ authenticate_session check_session
    find_session hash_token touch_session build_authenticated_user_summary get_user_by_id
    revoke_session insert_audit_event
logout = refl

abbrev later : List SessionEvent
later =
    SessionEvent.log_in_call fresh 2000 60 call
    ∷ SessionEvent.logout_call 3000 (some "admin-token")
    ∷ []

logout_user_final_example :
    (get_current_user sha collate 4000
      (some "admin-token")
      (run_sessions sha collate "admin-token" scrypt later left)).0
    ≡ err session_revoked
logout_user_final_example =
    logout_user_final sha collate "admin-token" scrypt 1000 store left no_session_metadata logout
      refl later 4000

abbrev request : CreateUserRequest
request = record {
  email = codes "New@example.org";
  display_name = "New";
  password = codes "secret";
  global_roles = none;
  tenant_memberships = none;
}

abbrev created_summary : AuthenticatedUserSummary
created_summary = record {
  user_id = "user-2";
  email = codes "new@example.org";
  display_name = "New";
  status = "active";
  global_roles = [];
  tenant_memberships = [];
}

abbrev created : Store
created =
    (create_user sha collate scrypt "user-2" (codes "s") 1000 request (some "admin-token") store).1

creation :
    create_user sha collate scrypt "user-2" (codes "s") 1000 request (some "admin-token") store
    ≡ (ok created_summary, created)
unfolding create_user create_user_tx with_transaction ◌>>=◌ trim require_authorized_user
    authenticate_session check_session find_session hash_token touch_session
    build_authenticated_user_summary get_user_by_id ensure_global_role get_user_global_roles
    get_user_memberships sort create_account get_user_by_email insert_user upsert_user_credential
    create_password_hash replace_user_global_roles replace_user_tenant_memberships
    insert_memberships insert_audit_event
creation = refl

create_user_authorized_example :
    ((a : AuthenticatedUserSummary) × ((get_current_user sha collate 1000
          (some "admin-token")
          store).0
        ≡ ok a)
      × (any_id "platform_admin" a.global_roles ≡ true))
    × (any (λ row. same row.email (normalize_email (codes "New@example.org"))) store.users ≡ false)
create_user_authorized_example =
    create_user_authorized sha collate scrypt "user-2" (codes "s") 1000 request (some "admin-token")
      store created created_summary creation

unused :
    any
      (λ row. str_eq row.session_id "s-2" || str_eq row.session_token_hash (hash_token sha "t-2"))
      created.sessions
    ≡ false
unfolding create_user create_user_tx with_transaction ◌>>=◌ trim require_authorized_user
    authenticate_session check_session find_session hash_token touch_session
    build_authenticated_user_summary get_user_by_id ensure_global_role get_user_global_roles
    get_user_memberships sort create_account get_user_by_email insert_user upsert_user_credential
    create_password_hash replace_user_global_roles replace_user_tenant_memberships
    insert_memberships insert_audit_event
unused = refl

create_user-login_user_example :
    is_ok
      (login_user sha collate scrypt fresh 5000 60
        (record { email = codes "New@example.org"; password = codes "secret" })
        created).0
    ≡ true
create_user-login_user_example =
    create_user-login_user sha collate scrypt scrypt_laws "user-2" (codes "s") 1000 request
      (some "admin-token") store created created_summary creation fresh 5000 60 unused
