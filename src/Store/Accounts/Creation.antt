-- ===== src/Store/Accounts/Creation.antt =====
-- Who may create an account, and what creation leaves in the tables.
use simple_host_man.Store.Users.{get_user_by_email}
use simple_host_man.Store.Sessions.{
  get_current_user, lift_check, ensure_global_role, authenticate_presented, touch_session,
  authenticate_session,
}
use simple_host_man.Store.Sessions.Validity.{build_summary_ok}
use simple_host_man.Store.Tables.{any_id, non_empty, upsert}
use simple_host_man.Store.Sessions.{require_authorized_user}
use simple_host_man.Store.Accounts.{
  create_user_tx, create_user, create_password_hash, normalize_email, new_user,
  AuthenticatedUserSummary, CreateUserRequest, require_absent, same, create_account, insert_user,
}
use simple_host_man.Store.Users.{
  add_membership, replace_user_global_roles, replace_user_tenant_memberships, insert_membership,
  upsert_user_credential, insert_memberships, Scrypt,
}
use simple_host_man.Prelude.{
  any-weaken, any, refl, sym, ap, ◌∙◌, ◌≡◌, inl, inr, ℕ, Bool, true, false, ◌&&◌, ◌||◌, String,
  Option, none, some, List, [], ◌∷◌, ◌++◌, arith, Bool-cases, str_eq,
}
use simple_host_man.Store.{
  with_transaction_commit, with_transaction_ok, err, SessionRow, StoreError, Result, ok-value,
  ok-store, MembershipRow, ok, AuditEvent, StoredPasswordHash, Store, insert_audit_event, TenantRow,
  Text, UserRow, >>=-eq-ok,
}

abbrev pub accounts : Store → List UserRow × List (String × StoredPasswordHash)
accounts db = (db.users, db.user_credentials)

abbrev pub is_taken : UserRow → UserRow → Bool
is_taken new row = str_eq row.user_id new.user_id || same row.email new.email

insert_user_ok :
    (new : UserRow) (db db' : Store)
    → insert_user new db ≡ ok (tt, db')
    → (any (is_taken new) db.users ≡ false)
      × (accounts db' ≡ (db.users ++ new ∷ [], db.user_credentials))
unfolding insert_user
insert_user_ok new db db' e = elim (Bool-cases (any (is_taken new) db.users)) [
  | inl h ↦ cc (rw h at e)
  | inr h ↦ (h, ap accounts (sym (ok-store (rw h at e))))
]

insert_membership_keeps :
    (new : MembershipRow) (db db' : Store)
    → insert_membership new db ≡ ok (tt, db')
    → accounts db' ≡ accounts db
unfolding insert_membership
insert_membership_keeps new db db' e =
    elim (Bool-cases (
      any
        (λ row.
          str_eq row.tenant_id new.tenant_id
          && str_eq row.user_id new.user_id
          && str_eq row.role new.role)
        db.memberships)) [
          | inl h ↦ cc (rw h at e)
          | inr h ↦ ap accounts (sym (ok-store (rw h at e)))
        ]

add_membership_keeps :
    (user_id : String) (m : String × String) (tenant : Option TenantRow) (db db' : Store)
    → add_membership user_id m tenant db ≡ ok (tt, db')
    → accounts db' ≡ accounts db
add_membership_keeps user_id m none db db' e = cc
add_membership_keeps user_id m (some tenant) db db' e = insert_membership_keeps _ db db' e

insert_memberships_keeps :
    (user_id : String) (ms : List (String × String)) (db db' : Store)
    → insert_memberships user_id ms db ≡ ok (tt, db')
    → accounts db' ≡ accounts db
unfolding insert_memberships
insert_memberships_keeps user_id [] db db' e = ap accounts (sym (ok-store e))
insert_memberships_keeps user_id (m ∷ ms) db db' e =
    let (tenant, d1, e1, h1) = >>=-eq-ok _ _ db e in
    let (_, d2, e2, h2) = >>=-eq-ok _ _ d1 h1 in
    insert_memberships_keeps user_id ms d2 db' h2
    ∙ add_membership_keeps user_id m tenant d1 d2 e2
    ∙ ap accounts (sym (ok-store e1))

replace_memberships_keeps :
    (user_id : String) (ms : List (String × String)) (db db' : Store)
    → replace_user_tenant_memberships user_id ms db ≡ ok (tt, db')
    → accounts db' ≡ accounts db
unfolding replace_user_tenant_memberships
replace_memberships_keeps user_id ms db db' e =
    let (_, d1, e1, h1) = >>=-eq-ok _ _ db e in
    insert_memberships_keeps user_id ms d1 db' h1 ∙ ap accounts (sym (ok-store e1))

replace_roles_keeps :
    (user_id : String) (roles : List String) (db db' : Store)
    → replace_user_global_roles user_id roles db ≡ ok (tt, db')
    → accounts db' ≡ accounts db
unfolding replace_user_global_roles
replace_roles_keeps user_id roles db db' e = ap accounts (sym (ok-store e))

upsert_credential_ok :
    (user_id : String) (hashed : StoredPasswordHash) (db db' : Store)
    → upsert_user_credential user_id hashed db ≡ ok (tt, db')
    → accounts db' ≡ (
      db.users,
      upsert
          (λ row. str_eq row.0 user_id)
          (λ row. (user_id, hashed))
          (user_id, hashed)
          db.user_credentials,
    )
unfolding upsert_user_credential
upsert_credential_ok user_id hashed db db' e = ap accounts (sym (ok-store e))

require_absent_ok :
    (email : Text) (found : Option UserRow) (db db' : Store)
    → require_absent email found db ≡ ok (tt, db')
    → (found ≡ none) × (db ≡ db')
require_absent_ok email none db db' e = (refl, ok-store e)
require_absent_ok email (some user) db db' e = cc

audit_keeps :
    (event : AuditEvent) (db db' : Store)
    → insert_audit_event event db ≡ ok (tt, db')
    → accounts db' ≡ accounts db
unfolding insert_audit_event
audit_keeps event db db' e = ap accounts (sym (ok-store e))

abbrev pub users_of : List UserRow × List (String × StoredPasswordHash) → List UserRow
users_of a = a.0

or-true-left : {b : Bool} → (b || false) ≡ true → b ≡ true
or-true-left h = ground arith

module _ (sha256_hex : String → String) (collate : String → String → Bool) {Bytes : Type 0}
    (s : Scrypt Bytes) where
  abbrev pub new_account : String → ℕ → CreateUserRequest → UserRow
  new_account user_id now request =
      new_user user_id now (normalize_email request.email) request.display_name

  -- The tables of users and credentials after an account was created.
  abbrev pub IsCreated : String → Text → ℕ → CreateUserRequest → Store → Store → Type 0
  IsCreated user_id salt now request db db' =
      (any (is_taken (new_account user_id now request)) db.users ≡ false)
      × (accounts db' ≡ (
        db.users ++ new_account user_id now request ∷ [],
        upsert (λ row. str_eq row.0 user_id)
            (λ row. (user_id, create_password_hash s salt request.password))
            (user_id, create_password_hash s salt request.password) db.user_credentials,
      ))

  pub create_account_ok :
      (user_id : String) (salt : Text) (now : ℕ) (request : CreateUserRequest)
      (actor r : AuthenticatedUserSummary) (db db' : Store)
      → create_account sha256_hex collate s user_id salt now request actor db ≡ ok (r, db')
      → (get_user_by_email (normalize_email request.email) db ≡ none)
        × IsCreated user_id salt now request db db'
  unfolding create_account
  create_account_ok user_id salt now request actor r db db' e =
      let hashed = create_password_hash s salt request.password in
      let (found, d1, e1, h1) = >>=-eq-ok _ _ db e in
      let (_, d2, e2, h2) = >>=-eq-ok _ _ d1 h1 in
      let (_, d3, e3, h3) = >>=-eq-ok _ _ d2 h2 in
      let (_, d4, e4, h4) = >>=-eq-ok _ _ d3 h3 in
      let (_, d5, e5, h5) = >>=-eq-ok _ _ d4 h4 in
      let (_, d6, e6, h6) = >>=-eq-ok _ _ d5 h5 in
      let (_, d7, e7, h7) = >>=-eq-ok _ _ d6 h6 in
      let (absent, same2) = require_absent_ok _ found d1 d2 e2 in
      let (free, after3) = insert_user_ok (new_account user_id now request) d2 d3 e3 in
      let (user, u, r_eq, same8) = build_summary_ok sha256_hex collate user_id d7 db' r h7 in
      let same : d2 ≡ db = sym same2 ∙ sym (ok-store e1) in
      (
        ok-value e1 ∙ absent,
        (
          rw (← same) free,
          ap accounts (sym same8)
              ∙ audit_keeps _ d6 d7 e7
              ∙ replace_memberships_keeps user_id _ d5 d6 e6
              ∙ replace_roles_keeps user_id _ d4 d5 e5
              ∙ upsert_credential_ok user_id hashed d3 d4 e4
              ∙ ap
                  (λ (a : List UserRow × List (String × StoredPasswordHash)). (
                    a.0,
                    upsert (λ row. str_eq row.0 user_id) (λ row. (user_id, hashed))
                        (user_id, hashed) a.1,
                  ))
                  (after3
                    ∙ ap
                        (λ (d : Store).
                          (d.users ++ new_account user_id now request ∷ [], d.user_credentials))
                        same),
        ),
      )

  users_check :
      (x : Result StoreError SessionRow) (db db' : Store) (session : SessionRow)
      → lift_check sha256_hex x db ≡ ok (session, db')
      → db'.users ≡ db.users
  users_check (ok row) db db' session e = ap (λ (d : Store). d.users) (sym (ok-store e))
  users_check (err x) db db' session e = cc

  users_presented :
      (presented : Option String) (now : ℕ) (db db' : Store) (r : AuthenticatedUserSummary)
      → authenticate_presented sha256_hex collate now presented db ≡ ok (r, db')
      → db'.users ≡ db.users
  unfolding touch_session
  users_presented none now db db' r e = cc
  users_presented (some token) now db db' r e =
      let (found, d1, e1, h1) = >>=-eq-ok _ _ db e in
      let (session, d2, e2, h2) = >>=-eq-ok _ _ d1 h1 in
      let (_, d3, e3, h3) = >>=-eq-ok _ _ d2 h2 in
      let (user, u, s_eq, same3) =
        build_summary_ok sha256_hex collate session.user_id d3 db' r h3 in
      ap (λ (d : Store). d.users) (sym same3)
      ∙ ap (λ (d : Store). d.users) (sym (ok-store e3))
      ∙ users_check _ d1 d2 session e2
      ∙ ap (λ (d : Store). d.users) (sym (ok-store e1))

  -- Authentication leaves the users alone.
  authenticate_users :
      (presented : Option String) (now : ℕ) (db db' : Store) (r : AuthenticatedUserSummary)
      → authenticate_session sha256_hex collate presented now db ≡ ok (r, db')
      → db'.users ≡ db.users
  unfolding authenticate_session
  authenticate_users presented now db db' r e = users_presented (non_empty presented) now db db' r e

  authorized_ok :
      (now : ℕ) (presented : Option String) (roles : List String) (db db' : Store)
      (actor : AuthenticatedUserSummary)
      → require_authorized_user sha256_hex collate now presented roles db ≡ ok (actor, db')
      → (authenticate_session sha256_hex collate presented now db ≡ ok (actor, db'))
        × (ensure_global_role sha256_hex collate actor roles ≡ true)
  unfolding require_authorized_user
  authorized_ok now presented roles db db' actor e =
      let (user, d1, e1, h1) = >>=-eq-ok _ _ db e in
      elim (Bool-cases (ensure_global_role sha256_hex collate user roles)) [
        | inl h ↦
            let fine : ok (user, d1) ≡ ok (actor, db') = rw h at h1 in
            (
              e1 ∙ fine,
              ap (λ u. ensure_global_role sha256_hex collate u roles) (sym (ok-value fine)) ∙ h,
            )
        | inr h ↦ cc (rw h at h1)
      ]

  -- A user is created only for a presented session token that `getCurrentUser` answers, at the same
  -- time, with a platform administrator, and only where no account has the normalized address.
  pub create_user_authorized :
      (user_id : String) (salt : Text) (now : ℕ) (request : CreateUserRequest)
      (presented : Option String) (db db' : Store) (r : AuthenticatedUserSummary)
      → create_user sha256_hex collate s user_id salt now request presented db ≡ (ok r, db')
      → ((admin : AuthenticatedUserSummary) × ((get_current_user sha256_hex collate now presented
              db).0
            ≡ ok admin)
          × (any_id "platform_admin" admin.global_roles ≡ true))
        × (any (λ row. same row.email (normalize_email request.email)) db.users ≡ false)
  unfolding create_user create_user_tx ensure_global_role get_current_user
  create_user_authorized user_id salt now request presented db db' r e =
      let tx =
        with_transaction_ok (create_user_tx sha256_hex collate s user_id salt now request presented)
          db db' r e in
      let (actor, d1, e1, h1) = >>=-eq-ok _ _ db tx in
      let (session, role) = authorized_ok now presented ("platform_admin" ∷ []) db d1 actor e1 in
      let (absent, (free, after)) = create_account_ok user_id salt now request actor r d1 db' h1 in
      (
        (
          actor,
          ap (λ r. r.0)
              (with_transaction_commit (authenticate_session sha256_hex collate presented now) db d1
                actor session),
          (or-true-left role),
        ),
        any-weaken (is_taken (new_account user_id now request)) _ db.users (λ row h. ground arith)
            (rw (← authenticate_users presented now db d1 actor session) free),
      )
