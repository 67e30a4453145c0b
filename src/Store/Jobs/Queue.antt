-- ===== src/Store/Jobs/Queue.antt =====
-- The statements that leave the job queue alone: authentication, the touch of a node's row, the
-- package inventory, the runtime snapshot and the audit trail.
use simple_host_man.Store.Preserves.{
  Preserves, Preserves-bind, Preserves-pure, Preserves-throw, Preserves-query, Preserves-execute,
  Preserves-if,
}
use simple_host_man.Store.Tables.{non_empty}
use simple_host_man.Payload.Envelope.{Crypto}
use simple_host_man.Store.Jobs.{
  Dates, extract_reported_installed_packages, obj, after_snapshot, record_inventory,
  JobClaimRequest, JobReportRequest, store_after, record_code_server, touch_reporting_node,
  set_code_server, touch_claiming_node,
}
use simple_host_man.Store.Nodes.{
  hash_token, authenticate_node, check_credential, touch_node_credential, authenticate_with,
}
use simple_host_man.Store.Packages.{
  is_storable, same_package_row, replace_node_installed_packages, insert_packages, insert_package,
}
use simple_host_man.Prelude.{
  any, refl, sym, ap, ◌≡◌, inl, inr, ℕ, Bool, ◌&&◌, ◌||◌, String, Option, none, some, List, [], ◌∷◌,
  if◌then◌else◌, Bool-cases, str_eq,
}
use simple_host_man.Store.{
  ResultRow, ReportedInstalledPackage, JobRow, query, throw, NodeCredentialRow, AuditEvent,
  ok-store, execute, Json, Tx, pure, insert_audit_event, Store, StoreError, ◌>>=◌,
}

-- The two tables of the queue.
abbrev pub queue : Store → List JobRow × List ResultRow
queue db = (db.jobs, db.job_results)

abbrev pub Keeps : {A : Type 0} → Tx A → Type 0
Keeps m = Preserves queue m

pub Keeps-bind :
    {A B : Type 0} (m : Tx A) (f : A → Tx B) → Keeps m → ((a : A) → Keeps (f a)) → Keeps (m >>= f)
Keeps-bind = Preserves-bind queue

pub Keeps-pure : {A : Type 0} (a : A) → Keeps (pure a)
Keeps-pure = Preserves-pure queue

pub Keeps-throw : {A : Type 0} (x : StoreError) → Keeps {A = A} (throw x)
Keeps-throw = Preserves-throw queue

pub Keeps-query : {A : Type 0} (f : Store → A) → Keeps (query f)
Keeps-query = Preserves-query queue

pub Keeps-execute :
    (f : Store → Store) → ((db : Store) → queue (f db) ≡ queue db) → Keeps (execute f)
Keeps-execute = Preserves-execute queue

pub Keeps-if : {A : Type 0} (b : Bool) (m n : Tx A) → Keeps m → Keeps n → Keeps (if b then m else n)
Keeps-if = Preserves-if queue

pub Keeps-insert_audit_event : (event : AuditEvent) → Keeps (insert_audit_event event)
unfolding insert_audit_event
Keeps-insert_audit_event event = Keeps-execute _ (λ db. refl)

module _ (sha256_hex : String → String) where
  Keeps-touch : (node_id hash : String) (now : ℕ) → Keeps (touch_node_credential node_id hash now)
  unfolding touch_node_credential
  Keeps-touch node_id hash now = Keeps-execute _ (λ db. refl)

  Keeps-check :
      (node_id token : String) (now : ℕ) (c : Option NodeCredentialRow)
      → Keeps (check_credential sha256_hex node_id token now c)
  unfolding check_credential
  Keeps-check node_id token now none = Keeps-throw _
  Keeps-check node_id token now (some credential) =
      Keeps-if (str_eq (hash_token sha256_hex token) credential.token_hash) _ _
        (Keeps-touch node_id _ now) (Keeps-throw _)

  Keeps-authenticate_with :
      (node_id : String) (now : ℕ) (token : Option String)
      → Keeps (authenticate_with sha256_hex node_id now token)
  Keeps-authenticate_with node_id now none = Keeps-throw _
  Keeps-authenticate_with node_id now (some token) =
      Keeps-bind _ _ (Keeps-query _) (λ c. Keeps-check node_id token now c)

  pub Keeps-authenticate_node :
      (node_id : String) (now : ℕ) (presented : Option String)
      → Keeps (authenticate_node sha256_hex node_id presented now)
  unfolding authenticate_node
  Keeps-authenticate_node node_id now presented =
      Keeps-authenticate_with node_id now (non_empty presented)

pub Keeps-touch_claiming_node :
    (request : JobClaimRequest) (now : ℕ) → Keeps (touch_claiming_node request now)
unfolding touch_claiming_node
Keeps-touch_claiming_node request now = Keeps-execute _ (λ db. refl)

pub Keeps-touch_reporting_node :
    (node_id : String) (now : ℕ) → Keeps (touch_reporting_node node_id now)
unfolding touch_reporting_node
Keeps-touch_reporting_node node_id now = Keeps-execute _ (λ db. refl)

Keeps-set_code_server : (node_id : String) (after : Json) → Keeps (set_code_server node_id after)
unfolding set_code_server
Keeps-set_code_server node_id after = Keeps-execute _ (λ db. refl)

Keeps-store_after : (node_id : String) (after : Option Json) → Keeps (store_after node_id after)
Keeps-store_after node_id (some (obj fs)) = Keeps-set_code_server node_id (obj fs)
Keeps-store_after node_id _ = Keeps-pure tt

pub Keeps-record_code_server : (request : JobReportRequest) → Keeps (record_code_server request)
unfolding record_code_server
Keeps-record_code_server request =
    Keeps-if (str_eq request.result.kind "code-server.update") _ _
      (Keeps-store_after request.node_id (after_snapshot request.result.details)) (Keeps-pure tt)

module _ (dates : Dates) (node_id : String) (at : ℕ) where
  Keeps-insert_package :
      (pkg : ReportedInstalledPackage) → Keeps (insert_package dates node_id at pkg)
  unfolding insert_package
  Keeps-insert_package pkg db db' a e = elim (Bool-cases (is_storable dates pkg)) [
    | inr h ↦ cc (rw h at e)
    | inl h ↦
        let stored = rw h at e in
        elim (Bool-cases (any (same_package_row node_id pkg) db.installed_packages)) [
          | inl taken ↦ cc (rw taken at stored)
          | inr free ↦ ap queue (sym (ok-store (rw free at stored)))
        ]
  ]

  Keeps-insert_packages :
      (ps : List ReportedInstalledPackage) → Keeps (insert_packages dates node_id at ps)
  unfolding insert_packages
  Keeps-insert_packages [] = Keeps-pure tt
  Keeps-insert_packages (p ∷ ps) =
      Keeps-bind (insert_package dates node_id at p) _ (Keeps-insert_package p)
        (λ _. Keeps-insert_packages ps)

  Keeps-replace :
      (ps : List ReportedInstalledPackage)
      → Keeps (replace_node_installed_packages dates node_id at ps)
  unfolding replace_node_installed_packages
  Keeps-replace ps = Keeps-bind _ _ (Keeps-execute _ (λ db. refl)) (λ _. Keeps-insert_packages ps)

module _ {Bytes Plain : Type 0} (c : Crypto Bytes Plain) (key : Option Bytes)
    (sha256_hex : String → String) (dates : Dates) where
  Keeps-replace_inventory :
      (node_id : String) (at : ℕ) (found : Option (List ReportedInstalledPackage))
      → Keeps (elim found [
        | none ↦ pure tt
        | some packages ↦ replace_node_installed_packages dates node_id at packages
      ])
  Keeps-replace_inventory node_id at none = Keeps-pure tt
  Keeps-replace_inventory node_id at (some packages) = Keeps-replace dates node_id at packages

  pub Keeps-record_inventory :
      (request : JobReportRequest) → Keeps (record_inventory c key sha256_hex dates request)
  unfolding record_inventory
  Keeps-record_inventory request =
      Keeps-if
        ((str_eq request.result.kind "package.inventory.collect"
            || str_eq request.result.kind "package.install")
          && str_eq request.result.status "applied")
        _ _
        (Keeps-replace_inventory request.node_id request.result.completed_at
          (extract_reported_installed_packages dates request.result.details))
        (Keeps-pure tt)
