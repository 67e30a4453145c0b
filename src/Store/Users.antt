-- ===== src/Store/Users.antt =====
-- Users, their passwords, roles and memberships: packages/control-database/src/auth.ts and the
-- queries of packages/control-database/src/control-plane-store-auth.ts on them.
-- `Scrypt` stands for node:crypto and `Buffer`; `collate` is the order of texts in the database.
use simple_host_man.Store.Tables.{upsert, any_id}
use simple_host_man.Prelude.Text.{trim, same, to_lower}
use simple_host_man.Prelude.{
  find, filter, ==_refl, sort, ◌==◌, any, refl, ◌≡◌, ℕ, Bool, true, false, not, ◌&&◌, String,
  Option, none, some, List, [], ◌∷◌, ◌++◌, map, if◌then◌else◌, str_eq,
}
use simple_host_man.Store.{
  ok, unique_violation, tenant_does_not_exist, user_does_not_exist, throw, execute, pure, err,
  query, MembershipRow, TenantRow, Tx, UserRow, Store, Text, StoredPasswordHash, ◌>>=◌, ◌>>◌,
}

pub record Scrypt (Bytes : Type 0) : Type 0 where
  -- password, salt, key length, cost, block size, parallelization
  pub derive : Text → Text → ℕ → ℕ → ℕ → ℕ → Bytes
  pub to_base64url : Bytes → Text
  pub from_base64url : Text → Bytes
  pub byte_length : Bytes → ℕ
  -- Of two buffers of one length.
  pub timing_safe_equal : Bytes → Bytes → Bool

pub record ScryptLaws {Bytes : Type 0} (s : Scrypt Bytes) : Type 0 where
  pub from_base64url-to_base64url : (b : Bytes) → s.from_base64url (s.to_base64url b) ≡ b
  pub timing_safe_equal_refl : (b : Bytes) → s.timing_safe_equal b b ≡ true

abbrev pub normalize_email : Text → Text
normalize_email value = to_lower (trim value)

module _ {Bytes : Type 0} (s : Scrypt Bytes) where
  -- `salt` is the text of the random bytes.
  unfoldable pub create_password_hash : Text → Text → StoredPasswordHash
  create_password_hash salt password = record {
    hash = s.to_base64url (s.derive password salt 64 16384 8 1);
    salt = salt;
    key_length = 64;
    cost = 16384;
    block_size = 8;
    parallelization = 1;
  }

  unfoldable pub verify_password_hash : Text → StoredPasswordHash → Bool
  verify_password_hash password stored =
      let derived_key =
        s.derive password stored.salt stored.key_length stored.cost stored.block_size
          stored.parallelization in
      let expected_key = s.from_base64url stored.hash in
      if s.byte_length derived_key == s.byte_length expected_key
      then s.timing_safe_equal derived_key expected_key
      else false

  -- The password that a hash was made of is accepted by it.
  pub verify_password_hash-create_password_hash :
      (laws : ScryptLaws s) (salt password : Text)
      → verify_password_hash password (create_password_hash salt password) ≡ true
  unfolding verify_password_hash create_password_hash
  verify_password_hash-create_password_hash laws salt password =
      let key = s.derive password salt 64 16384 8 1 in
      rw
        (
          laws.from_base64url-to_base64url key,
          ==_refl (s.byte_length key),
          laws.timing_safe_equal_refl key,
        )
        refl

unfoldable pub get_user_by_email : Text → Store → Option UserRow
get_user_by_email email db = find (λ row. same row.email (normalize_email email)) db.users

unfoldable pub get_user_by_id : String → Store → Option UserRow
get_user_by_id user_id db = find (λ row. str_eq row.user_id user_id) db.users

abbrev credential_hash : Option (String × StoredPasswordHash) → Option StoredPasswordHash
credential_hash none = none
credential_hash (some row) = some row.1

unfoldable pub get_user_credential : String → Store → Option StoredPasswordHash
get_user_credential user_id db =
    credential_hash (find (λ row. str_eq row.0 user_id) db.user_credentials)

unfoldable pub upsert_user_credential : String → StoredPasswordHash → Tx (Unit {0})
upsert_user_credential user_id hashed = execute λ db. record db {
  user_credentials =
      upsert (λ row. str_eq row.0 user_id) (λ row. (user_id, hashed)) (user_id, hashed)
        db.user_credentials;
}

-- `ON CONFLICT (user_id, role) DO NOTHING`
abbrev insert_role : String → String → List (String × String) → List (String × String)
insert_role user_id role rows =
    if any (λ row. str_eq row.0 user_id && str_eq row.1 role) rows
    then rows
    else rows ++ (user_id, role) ∷ []

abbrev pub insert_roles : String → List String → List (String × String) → List (String × String)
insert_roles user_id [] rows = rows
insert_roles user_id (role ∷ roles) rows =
    insert_roles user_id roles (insert_role user_id role rows)

unfoldable pub replace_user_global_roles : String → List String → Tx (Unit {0})
replace_user_global_roles user_id roles = execute λ db. record db {
  user_global_roles =
      insert_roles user_id roles (filter (λ row. not (str_eq row.0 user_id)) db.user_global_roles);
}

unfoldable pub find_tenant : String → Store → Option TenantRow
find_tenant slug db = find (λ row. str_eq row.slug slug) db.tenants

-- The primary key is the tenant, the user and the role.
unfoldable pub insert_membership : MembershipRow → Tx (Unit {0})
insert_membership new db =
    if any
      (λ row.
        str_eq row.tenant_id new.tenant_id
        && str_eq row.user_id new.user_id
        && str_eq row.role new.role)
      db.memberships
    then err unique_violation
    else ok (tt, record db { memberships = db.memberships ++ new ∷ [] })

abbrev pub add_membership : String → String × String → Option TenantRow → Tx (Unit {0})
add_membership user_id (slug, role) none = throw (tenant_does_not_exist slug)
add_membership user_id (slug, role) (some tenant) =
    insert_membership (record { tenant_id = tenant.tenant_id; user_id = user_id; role = role })

unfoldable pub insert_memberships : String → List (String × String) → Tx (Unit {0})
insert_memberships user_id [] = pure tt
insert_memberships user_id (m ∷ ms) = do
  tenant ← query (find_tenant m.0)
  add_membership user_id m tenant
  insert_memberships user_id ms

unfoldable pub replace_user_tenant_memberships : String → List (String × String) → Tx (Unit {0})
replace_user_tenant_memberships user_id memberships = do
  execute (λ db. record db {
    memberships = filter (λ row. not (str_eq row.user_id user_id)) db.memberships;
  })
  insert_memberships user_id memberships

pub record TenantMembershipSummary : Type 0 where
  pub tenant_id : String
  pub tenant_slug : String
  pub tenant_display_name : String
  pub role : String

pub record AuthenticatedUserSummary : Type 0 where
  pub user_id : String
  pub email : Text
  pub display_name : String
  pub status : String
  pub global_roles : List String
  pub tenant_memberships : List TenantMembershipSummary

abbrev pub control_global_roles : List String
control_global_roles = "platform_admin" ∷ "platform_operator" ∷ []

module _ (collate : String → String → Bool) where
  unfoldable pub get_user_global_roles : String → Store → List String
  get_user_global_roles user_id db =
      filter (λ role. any_id role control_global_roles)
        (sort collate
          (map (λ row. row.1) (filter (λ row. str_eq row.0 user_id) db.user_global_roles)))

  abbrev joined : String → Option TenantRow → List TenantMembershipSummary
  joined role none = []
  joined role (some tenant) =
      (record {
        tenant_id = tenant.tenant_id;
        tenant_slug = tenant.slug;
        tenant_display_name = tenant.display_name;
        role = role;
      })
      ∷ []

  -- The inner join on the tenants' primary key.
  abbrev join_tenants : List TenantRow → List MembershipRow → List TenantMembershipSummary
  join_tenants tenants [] = []
  join_tenants tenants (m ∷ ms) =
      joined m.role (find (λ row. str_eq row.tenant_id m.tenant_id) tenants)
      ++ join_tenants tenants ms

  -- `ORDER BY tenants.slug ASC, memberships.role ASC`
  abbrev membership_before : TenantMembershipSummary → TenantMembershipSummary → Bool
  membership_before left right =
      if collate left.tenant_slug right.tenant_slug
      then (if collate right.tenant_slug left.tenant_slug
          then collate left.role right.role
          else true)
      else false

  unfoldable pub get_user_memberships : String → Store → List TenantMembershipSummary
  get_user_memberships user_id db =
      sort membership_before
        (join_tenants db.tenants (filter (λ row. str_eq row.user_id user_id) db.memberships))

  abbrev pub summary_of : String → UserRow → Store → AuthenticatedUserSummary
  summary_of user_id user db = record {
    user_id = user.user_id;
    email = user.email;
    display_name = user.display_name;
    status = user.status;
    global_roles = get_user_global_roles user_id db;
    tenant_memberships = get_user_memberships user_id db;
  }

  abbrev pub summarize : String → Option UserRow → Tx AuthenticatedUserSummary
  summarize user_id none = throw (user_does_not_exist user_id)
  summarize user_id (some user) = query (summary_of user_id user)

  unfoldable pub build_authenticated_user_summary : String → Tx AuthenticatedUserSummary
  build_authenticated_user_summary user_id = do
    user ← query (get_user_by_id user_id)
    summarize user_id user
