-- ===== src/Store/Accounts.antt =====
-- Accounts: `createUser`, `listUsers` and `ensureBootstrapAdmin` of
-- packages/control-database/src/control-plane-store-auth.ts.
-- `user_id` is made of what `randomUUID` returned, and `salt` of what `randomBytes` returned.
pub mod Creation
pub mod Access
use simple_host_man.Store.Tables.{update_where}
use simple_host_man.Store.Sessions.{user_event, with_default, require_authorized_user}
use simple_host_man.Prelude.Text.{same}
use simple_host_man.Store.Users.{
  replace_user_tenant_memberships, replace_user_global_roles, create_password_hash,
  upsert_user_credential, normalize_email, get_user_by_email, build_authenticated_user_summary,
  AuthenticatedUserSummary, Scrypt,
}
use simple_host_man.Prelude.{
  leb, sort, any, refl, sym, ap, ◌∙◌, ◌≡◌, ◌≢◌, ◌⊎◌, ◌↔◌, inl, inr, ℕ, zero, suc, ◌+◌, ◌-◌, ◌*◌,
  ◌≤◌, ◌<◌, Bool, true, false, not, ◌&&◌, ◌||◌, String, Option, none, some, List, [], ◌∷◌, ◌++◌,
  map, if◌then◌else◌, arith, Bool-cases, Option-cases, str_eq,
}
use simple_host_man.Store.{
  user_created, user_bootstrap_admin_ensured, insert_audit_event, unique_violation, ok,
  with_transaction, user_already_exists, err, throw, StoreError, execute, Result, query, pure, Tx,
  Store, UserRow, Text, ◌>>=◌, ◌>>◌, >>=-eq-ok,
}

pub record CreateUserRequest : Type 0 where
  pub email : Text
  pub display_name : String
  pub password : Text
  pub global_roles : Option (List String)
  pub tenant_memberships : Option (List (String × String))

-- The user's identifier and address are unique.
unfoldable pub insert_user : UserRow → Tx (Unit {0})
insert_user new db =
    if any (λ row. str_eq row.user_id new.user_id || same row.email new.email) db.users
    then err unique_violation
    else ok (tt, record db { users = db.users ++ new ∷ [] })

abbrev pub require_absent : Text → Option UserRow → Tx (Unit {0})
require_absent email none = pure tt
require_absent email (some user) = throw (user_already_exists email)

abbrev pub new_user : String → ℕ → Text → String → UserRow
new_user user_id now email display_name = record {
  user_id = user_id;
  email = email;
  display_name = display_name;
  status = "active";
  created_at = now;
}

unfoldable pub set_display_name : String → Option String → Tx (Unit {0})
set_display_name user_id none = pure tt
set_display_name user_id (some name) = execute λ db. record db {
  users =
      update_where (λ row. str_eq row.user_id user_id) (λ row. record row { display_name = name })
        db.users;
}

abbrev admin_name : Option String → String
admin_name none = "Bootstrap Admin"
admin_name (some name) = name

-- The identifier of the administrator, who is created or renamed.
abbrev ensure_user : String → ℕ → Text → Option String → Option UserRow → Tx String
ensure_user fresh_id now email name none =
    insert_user (new_user fresh_id now email (admin_name name)) >> pure fresh_id
ensure_user fresh_id now email name (some existing) =
    set_display_name existing.user_id name >> pure existing.user_id

abbrev is_empty : Text → Bool
is_empty [] = true
is_empty (c ∷ s) = false

-- An absent or an empty setting is falsy.
abbrev given : Option Text → Option Text
given none = none
given (some s) = if is_empty s then none else some s

abbrev both : Option Text → Option Text → Option (Text × Text)
both (some email) (some password) = some (email, password)
both _ _ = none

module _ {Bytes : Type 0} (s : Scrypt Bytes) where
  unfoldable pub ensure_bootstrap_admin_tx :
      String → Text → ℕ → Option String → Text × Text → Tx (Unit {0})
  ensure_bootstrap_admin_tx fresh_id salt now name (address, password) = do
    existing ← query (get_user_by_email (normalize_email address))
    user_id ← ensure_user fresh_id now (normalize_email address) name existing
    upsert_user_credential user_id (create_password_hash s salt password)
    replace_user_global_roles user_id ("platform_admin" ∷ [])
    insert_audit_event (record {
      actor_type = "system";
      actor_id = "bootstrap";
      entity_type = "user";
      entity_id = user_id;
      payload = user_bootstrap_admin_ensured (normalize_email address);
      occurred_at = now;
    })

  abbrev ensure_configured :
      String
      → Text
      → ℕ
      → Option String
      → Option (Text × Text)
      → Store
      → Result StoreError (Unit {0}) × Store
  ensure_configured fresh_id salt now name none db = (ok tt, db)
  ensure_configured fresh_id salt now name (some account) db =
      with_transaction (ensure_bootstrap_admin_tx fresh_id salt now name account) db

  unfoldable pub ensure_bootstrap_admin :
      String
      → Text
      → ℕ
      → Option String
      → Option Text
      → Option Text
      → Store
      → Result StoreError (Unit {0}) × Store
  ensure_bootstrap_admin fresh_id salt now name email password db =
      ensure_configured fresh_id salt now name (both (given email) (given password)) db

module _ (sha256_hex : String → String) (collate : String → String → Bool) where
  unfoldable pub summaries : List UserRow → Tx (List AuthenticatedUserSummary)
  summaries [] = pure []
  summaries (row ∷ rows) = do
    first ← build_authenticated_user_summary collate row.user_id
    rest ← summaries rows
    pure (first ∷ rest)

  unfoldable pub list_users_tx : ℕ → Option String → Tx (List AuthenticatedUserSummary)
  list_users_tx now presented_token = do
    actor ←
        require_authorized_user sha256_hex collate now presented_token
          ("platform_admin" ∷ "platform_operator" ∷ [])
    rows ← query (λ db. sort (λ left right. leb left.created_at right.created_at) db.users)
    summaries rows

  unfoldable pub list_users :
      ℕ → Option String → Store → Result StoreError (List AuthenticatedUserSummary) × Store
  list_users now presented_token db = with_transaction (list_users_tx now presented_token) db

  module _ {Bytes : Type 0} (s : Scrypt Bytes) where
    -- The rest of the transaction of `createUser`, once the actor is authorized.
    unfoldable pub create_account :
        String
        → Text
        → ℕ
        → CreateUserRequest
        → AuthenticatedUserSummary
        → Tx AuthenticatedUserSummary
    create_account user_id salt now request actor = do
      existing ← query (get_user_by_email (normalize_email request.email))
      require_absent (normalize_email request.email) existing
      insert_user (new_user user_id now (normalize_email request.email) request.display_name)
      upsert_user_credential user_id (create_password_hash s salt request.password)
      replace_user_global_roles user_id (with_default request.global_roles [])
      replace_user_tenant_memberships user_id (with_default request.tenant_memberships [])
      insert_audit_event (record {
        actor_type = "user";
        actor_id = actor.user_id;
        entity_type = "user";
        entity_id = user_id;
        payload =
            user_created (normalize_email request.email) (with_default request.global_roles [])
              (with_default request.tenant_memberships []);
        occurred_at = now;
      })
      build_authenticated_user_summary collate user_id

    unfoldable pub create_user_tx :
        String → Text → ℕ → CreateUserRequest → Option String → Tx AuthenticatedUserSummary
    create_user_tx user_id salt now request presented_token = do
      actor ← require_authorized_user sha256_hex collate now presented_token ("platform_admin" ∷ [])
      create_account user_id salt now request actor

    unfoldable pub create_user :
        String
        → Text
        → ℕ
        → CreateUserRequest
        → Option String
        → Store
        → Result StoreError AuthenticatedUserSummary × Store
    create_user user_id salt now request presented_token db =
        with_transaction (create_user_tx user_id salt now request presented_token) db
