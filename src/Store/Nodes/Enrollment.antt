-- ===== src/Store/Nodes/Enrollment.antt =====
-- Who may register a node, and what a registered node may present afterwards.
use simple_host_man.Prelude.{
  ◌↔◌, ℕ, String, Bool, true, false, not, ◌&&◌, Option, none, some, ◌≡◌, refl, sym, ◌∙◌, ◌≢◌, inl,
  inr, str_eq, if◌then◌else◌, any, arith, Bool-cases, Option-cases, eq_iff, eq_refl,
}
use simple_host_man.Prelude.Result.{ok_of_is_ok, Result, ok, err, is_ok}
use simple_host_man.Store.{
  with_transaction_ok, ◌>>=◌, AuditEvent, insert_audit_event, StoreError, NodeCredentialRow, Store,
  ok-store, ok-value, >>=-eq-ok,
}
use simple_host_man.Store.Tables.{non_empty, find-upsert_new}
use simple_host_man.Store.Nodes.{
  touch_node_credential, respond, NodeRegistrationRequest, NodeRegistrationResponse,
  get_node_credential, hash_token, upsert_node, upsert_node_credential, enroll, record_registration,
  upsert_node, check_credential, authenticate_node, register_node_tx, register_node,
}

module _ (sha256_hex : String → String) where
  upsert_then_get :
      (node_id token : String) (now : ℕ) (db db' : Store)
      → get_node_credential node_id db ≡ none
      → upsert_node_credential sha256_hex node_id token now db ≡ ok (tt, db')
      → get_node_credential node_id db'
        ≡ some (record {
          node_id = node_id;
          token_hash = hash_token sha256_hex token;
          issued_at = now;
          last_used_at = now;
        })
  unfolding get_node_credential upsert_node_credential
  upsert_then_get node_id token now db db' h e = elim (Bool-cases (clashes)) [
    | inl c ↦ cc (rw c at e)
    | inr c ↦
        rw (← ok-store (rw c at e)) (find-upsert_new _ _ _ db.node_credentials h (eq_refl node_id))
  ]
    where
      clashes : Bool
      clashes =
          any
            (λ row.
              if str_eq row.node_id node_id
              then false
              else str_eq row.token_hash (hash_token sha256_hex token))
            db.node_credentials

  abbrev issued_row : String → String → ℕ → NodeCredentialRow
  issued_row node_id token now = record {
    node_id = node_id;
    token_hash = hash_token sha256_hex token;
    issued_at = now;
    last_used_at = now;
  }

  upsert_node-credentials :
      (request : NodeRegistrationRequest) (now : ℕ) (node_id : String) (db db' : Store)
      → upsert_node request now db ≡ ok (tt, db')
      → get_node_credential node_id db' ≡ get_node_credential node_id db
  unfolding upsert_node get_node_credential
  upsert_node-credentials request now node_id db db' e = rw (← ok-store e)

  insert_audit_event-credentials :
      (event : AuditEvent) (node_id : String) (db db' : Store)
      → insert_audit_event event db ≡ ok (tt, db')
      → get_node_credential node_id db' ≡ get_node_credential node_id db
  unfolding insert_audit_event get_node_credential
  insert_audit_event-credentials event node_id db db' e = rw (← ok-store e)

  record_registration_new :
      (request : NodeRegistrationRequest) (now : ℕ) (token : String) (db db' : Store)
      (issued : Option String)
      → get_node_credential request.node_id db ≡ none
      → record_registration sha256_hex request now (some token) db ≡ ok (issued, db')
      → (issued ≡ some token)
        × (get_node_credential request.node_id db' ≡ some (issued_row request.node_id token now))
  unfolding record_registration
  record_registration_new request now token db db' issued h e =
      let (_, d1, e1, h1) = >>=-eq-ok _ _ db e in
      let (_, d2, e2, h2) = >>=-eq-ok _ _ d1 h1 in
      let (_, d3, e3, h3) = >>=-eq-ok _ _ d2 h2 in
      let none1 = upsert_node-credentials request now request.node_id db d1 e1 ∙ h in
      let row = upsert_then_get request.node_id token now d1 d2 none1 e2 in
      (
        sym (ok-value h3),
        rw (← ok-store h3) (insert_audit_event-credentials _ request.node_id d2 d3 e3 ∙ row),
      )

  enroll_sound :
      (node_id : String) (expected presented : Option String) (fresh : String) (db db' : Store)
      (issued : Option String)
      → enroll sha256_hex node_id expected presented fresh db ≡ ok (issued, db')
      → (issued ≡ some fresh) × (db ≡ db') × (expected ≢ none) × (presented ≡ expected)
  enroll_sound node_id none presented fresh db db' issued e = cc
  enroll_sound node_id (some t) none fresh db db' issued e = cc
  enroll_sound node_id (some t) (some u) fresh db db' issued e = ground (arith, eq_iff u t)

  -- What a first registration that succeeds has checked, issued and stored.
  register_new :
      (bootstrap : Option String) (fresh : String) (now : ℕ) (request : NodeRegistrationRequest)
      (presented : Option String) (db db' : Store) (issued : Option String)
      → get_node_credential request.node_id db ≡ none
      → register_node_tx sha256_hex bootstrap fresh now request presented db ≡ ok (issued, db')
      → (issued ≡ some fresh)
        × (get_node_credential request.node_id db' ≡ some (issued_row request.node_id fresh now))
        × (non_empty bootstrap ≢ none)
        × (presented ≡ non_empty bootstrap)
  unfolding register_node_tx
  register_new bootstrap fresh now request presented db db' issued new h =
      let (c, db0, e0, h0) = >>=-eq-ok _ _ db h in
      let (i, db1, e1, h1) = >>=-eq-ok _ _ db (rw (← ok-store e0, ← ok-value e0, new) at h0) in
      let (is_fresh, same_db, set, shown) =
        enroll_sound request.node_id _ presented fresh db db1 i e1 in
      let (a, b) =
        record_registration_new request now fresh db1 db' issued (rw (← same_db) new)
          (rw (← is_fresh) h1) in
      (a, b, set, shown)

  -- A token that is presented with a node's name fits the credential stored for it.
  abbrev pub IsAccepted : Store → String → Option String → Type 0
  IsAccepted db node_id presented =
      (token : String) × (credential : NodeCredentialRow) × (non_empty presented ≡ some token)
      × (get_node_credential node_id db ≡ some credential)
      × (hash_token sha256_hex token ≡ credential.token_hash)

  check_sound :
      (node_id token : String) (now : ℕ) (c : Option NodeCredentialRow) (db db' : Store)
      → check_credential sha256_hex node_id token now c db ≡ ok (tt, db')
      → (credential : NodeCredentialRow) × (c ≡ some credential)
        × (hash_token sha256_hex token ≡ credential.token_hash)
  unfolding check_credential
  check_sound node_id token now none db db' e = cc
  check_sound node_id token now (some credential) db db' e =
      (credential, refl, ground (arith, eq_iff (hash_token sha256_hex token) credential.token_hash))

  authenticate_sound :
      (node_id : String) (now : ℕ) (presented : Option String) (db db' : Store)
      → authenticate_node sha256_hex node_id presented now db ≡ ok (tt, db')
      → IsAccepted db node_id presented
  unfolding authenticate_node
  authenticate_sound node_id now presented db db' e = elim (Option-cases (non_empty presented)) [
    | inl no_token ↦ cc (rw no_token at e)
    | inr (token, given) ↦
        let (c, d, e0, h) = >>=-eq-ok _ _ db (rw given at e) in
        let (credential, found, fits) =
          check_sound node_id token now _ db db' (rw (← ok-store e0, ← ok-value e0) at h) in
        (token, credential, given, found, fits)
  ]

  is_ok-authenticate_node :
      (node_id token : String) (now : ℕ) (db : Store) (c : NodeCredentialRow)
      → get_node_credential node_id db ≡ some c
      → is_ok (authenticate_node sha256_hex node_id (some token) now db)
        ≡ (not (str_eq token "") && str_eq (hash_token sha256_hex token) c.token_hash)
  unfolding authenticate_node ◌>>=◌ check_credential touch_node_credential
  is_ok-authenticate_node node_id token now db c found = elim (Bool-cases (str_eq token "")) [
    | inl e ↦ rw e
    | inr e ↦ rw e (rw (found, ◌>>=◌) (ground arith))
  ]

  respond_ok :
      (request : NodeRegistrationRequest) (now poll : ℕ)
      (x : Result StoreError (Option String) × Store) (response : NodeRegistrationResponse)
      (db' : Store)
      → respond sha256_hex request now poll x ≡ (ok response, db')
      → x ≡ (ok response.node_token, db')
  respond_ok request now poll (ok issued, db) response db' e = ground arith
  respond_ok request now poll (err x, db) response db' e = cc

  -- After the first registration of a node that succeeds, the bootstrap token was configured and
  -- was presented, the answer carries the fresh token, and from then on the node is authenticated
  -- by exactly those tokens that are not empty and have the digest of the fresh token.
  pub register_node_first :
      (bootstrap : Option String) (poll : ℕ) (fresh : String) (now : ℕ)
      (request : NodeRegistrationRequest) (presented : Option String) (db db' : Store)
      (response : NodeRegistrationResponse) (token : String) (later : ℕ)
      → get_node_credential request.node_id db ≡ none
      → register_node sha256_hex bootstrap poll fresh now request presented db ≡ (ok response, db')
      → (non_empty bootstrap ≢ none)
        × (presented ≡ non_empty bootstrap)
        × (response.node_token ≡ some fresh)
        × (is_ok (authenticate_node sha256_hex request.node_id (some token) later db') ≡ (
            not (str_eq token "")
            && str_eq (hash_token sha256_hex token) (hash_token sha256_hex fresh)))
  unfolding register_node
  register_node_first bootstrap poll fresh now request presented db db' response token later new e =
      let tx = with_transaction_ok _ db db' _ (respond_ok request now poll _ response db' e) in
      let (a, b, set, shown) = register_new bootstrap fresh now request presented db db' _ new tx in
      (set, shown, a, is_ok-authenticate_node request.node_id token later db' _ b)

  record_registration-issued :
      (request : NodeRegistrationRequest) (now : ℕ) (i issued : Option String) (db db' : Store)
      → record_registration sha256_hex request now i db ≡ ok (issued, db')
      → i ≡ issued
  unfolding record_registration
  record_registration-issued request now i issued db db' e =
      let (_, d1, e1, h1) = >>=-eq-ok _ _ db e in
      let (_, d2, e2, h2) = >>=-eq-ok _ _ d1 h1 in
      let (_, d3, e3, h3) = >>=-eq-ok _ _ d2 h2 in ok-value h3

  -- A node that has a credential registers again only with a token that fits it, the bootstrap
  -- token counting for nothing, and is issued no other.
  pub register_node_again :
      (bootstrap : Option String) (poll : ℕ) (fresh : String) (now : ℕ)
      (request : NodeRegistrationRequest) (presented : Option String) (db db' : Store)
      (response : NodeRegistrationResponse) (credential : NodeCredentialRow)
      → get_node_credential request.node_id db ≡ some credential
      → register_node sha256_hex bootstrap poll fresh now request presented db ≡ (ok response, db')
      → IsAccepted db request.node_id presented × (response.node_token ≡ none)
  unfolding register_node register_node_tx
  register_node_again bootstrap poll fresh now request presented db db' response credential known
        e =
      let tx =
        with_transaction_ok (register_node_tx sha256_hex bootstrap fresh now request presented) db
          db' _ (respond_ok request now poll _ response db' e) in
      let (c, db0, e0, h0) = >>=-eq-ok _ _ db tx in
      let (i, db1, e1, h1) = >>=-eq-ok _ _ db (rw (← ok-store e0, ← ok-value e0, known) at h0) in
      let (_, db2, e2, h2) = >>=-eq-ok _ _ db e1 in
      (
        authenticate_sound request.node_id now presented db db2 e2,
        sym (record_registration-issued request now i _ db1 db' h1) ∙ sym (ok-value h2),
      )

  authenticate_complete :
      (node_id : String) (now : ℕ) (presented : Option String) (db : Store)
      → IsAccepted db node_id presented
      → is_ok (authenticate_node sha256_hex node_id presented now db) ≡ true
  authenticate_complete node_id now none db (token, c, given, found, fits) = cc
  authenticate_complete node_id now (some t) db (token, c, given, found, fits) =
      rw (is_ok-authenticate_node node_id t now db c found)
        (ground (arith, eq_iff (hash_token sha256_hex t) c.token_hash, eq_iff t ""))

  -- A node is authenticated exactly if the token presented with its name is not empty and fits the
  -- credential stored for it.
  pub authenticate_node_iff :
      (node_id : String) (now : ℕ) (presented : Option String) (db : Store)
      → (is_ok (authenticate_node sha256_hex node_id presented now db) ≡ true)
        ↔ IsAccepted db node_id presented
  authenticate_node_iff node_id now presented db = (
    λ h. let ((_, db'), e) = ok_of_is_ok _ h in authenticate_sound node_id now presented db db' e,
    authenticate_complete node_id now presented db,
  )
