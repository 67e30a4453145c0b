-- ===== src/Store/Ddns/Update.antt =====
-- An update of dynamic DNS: `updateDdnsHost` of
-- packages/control-database/src/control-plane-store-operations.ts. `ip_family` stands for `isIP` of
-- node:net; `plans` for `buildZoneDnsPlans`, which reads the desired state of a zone and writes no
-- table. The desired state version is made of the clock and of what `randomUUID` returned.
pub mod Outcome
pub mod Replacement
pub mod Confinement
pub mod Again
use simple_host_man.Store.Ddns.Records.{
  badip, nochg, updated_host, unchanged_host, seen_host, change_host, nohost, is_current, badauth,
  insert_record, delete_records, records_of, good, refused, DdnsHostUpdateResponse,
  DdnsHostUpdateRequest, create_dispatched_job_envelope,
}
use simple_host_man.Store.Users.{Scrypt}
use simple_host_man.Store.Tables.{update_where}
use simple_host_man.Prelude.Text.{same}
use simple_host_man.Prelude.Text.{codes}
use simple_host_man.Prelude.Text.{trim}
use simple_host_man.Store.Users.{verify_password_hash}
use simple_host_man.Store.Dispatch.Reconcile.{sanitized}
use simple_host_man.Store.Dispatch.Queued.{text_append, create_queued_dispatch_job}
use simple_host_man.Store.Dispatch.{insert_dispatched_jobs, QueuedDispatchJob}
use simple_host_man.Payload.Envelope.{Crypto}
use simple_host_man.Store.Ddns.{
  find_ddns_host, is_blank, given, stable_id, ManagedHost, normalize_ddns_hostname,
}
use Prim.Native.Char.{code}
use simple_host_man.Prelude.{
  filter, any, ◌==◌, refl, sym, ap, ◌∙◌, ◌≡◌, ℕ, zero, suc, ◌+◌, ◌-◌, ◌*◌, ◌≤◌, ◌<◌, Bool, true,
  false, not, ◌&&◌, ◌||◌, String, Option, none, some, List, [], ◌∷◌, ◌++◌, map, if◌then◌else◌,
  arith, Bool-cases, Option-cases, str_eq,
}
use simple_host_man.Store.{
  ok, unique_violation, with_transaction, err, ddns_record_updated, AuditEvent, StoreError, pure,
  execute, insert_audit_event, query, DdnsHostRow, Result, DispatchedJobEnvelope, DnsRecordRow,
  Fields, Store, Tx, Text, ◌>>=◌, ◌>>◌,
}

-- What the process gives an update: node:crypto and node:net, the key of job payloads, the table of
-- managed nodes and the plans of a zone.
pub record Ddns : Type 1 where
  pub Bytes : Type 0
  pub Plain : Type 0
  pub PasswordBytes : Type 0
  pub crypto : Crypto Bytes Plain
  pub key : Option Bytes
  pub iv : String → Bytes
  pub inventory : List (String × String)
  pub scrypt : Scrypt PasswordBytes
  pub digest : Text → Text
  pub job_digest : Text → String
  pub text : Text → String
  pub ip_family : Text → ℕ
  pub plans : Text → Store → List (String × Fields)

module _ (env : Ddns) where
  abbrev pub record_type_for_ip_address : Text → Option String
  record_type_for_ip_address ip =
      if env.ip_family ip == 4
      then some "A"
      else if env.ip_family ip == 6
      then some "AAAA"
      else none

  abbrev pub is_type : String → Option String → Bool
  is_type record_type none = false
  is_type record_type (some found) = str_eq found record_type

  abbrev pub admits : DdnsHostRow → Text → Text → Bool
  admits host username password =
      same host.username username && verify_password_hash env.scrypt password host.password

  abbrev pub zone_jobs : ℕ → String → Text → List (String × Fields) → List QueuedDispatchJob
  zone_jobs now version zone_name [] = []
  zone_jobs now version zone_name (plan ∷ plans) =
      create_queued_dispatch_job env.job_digest
        (create_dispatched_job_envelope now "dns.sync" plan.0 version plan.1)
        (text_append "zone:" (env.text zone_name)) "dns"
      ∷ zone_jobs now version zone_name plans

  abbrev pub new_record : ℕ → ManagedHost → Text → DnsRecordRow
  new_record now managed ip =
      let host = managed.host in
      record {
        record_id =
            stable_id env.digest (codes "record")
              (managed.zone_name ∷ host.record_name ∷ codes host.record_type ∷ ip ∷ []);
        zone_id = host.zone_id;
        name = host.record_name;
        record_type = host.record_type;
        value = ip;
        ttl = host.ttl;
        created_at = now;
        updated_at = now;
      }

  unfoldable pub dispatch_zone : ℕ → String → ManagedHost → Text → Tx (List QueuedDispatchJob)
  dispatch_zone now version managed hostname = do
    jobs ← query (λ db. zone_jobs now version managed.zone_name (env.plans managed.zone_name db))
    insert_dispatched_jobs env.crypto env.key env.iv env.inventory now jobs none
        (text_append "ddns.update:" (env.text hostname))
    pure jobs

  abbrev pub good_response : Text → Text → String → List QueuedDispatchJob → DdnsHostUpdateResponse
  good_response hostname ip version jobs = record {
    status = good;
    hostname = some hostname;
    ip_address = some ip;
    changed = true;
    dispatch = some (version, map sanitized jobs);
  }

  abbrev pub update_event : ℕ → DdnsHostUpdateRequest → ManagedHost → Text → Text → AuditEvent
  update_event now request managed hostname ip = record {
    actor_type = "system";
    actor_id = "ddns";
    entity_type = "ddns_host";
    entity_id = env.text hostname;
    payload =
        ddns_record_updated managed.zone_name managed.host.record_name managed.host.record_type ip
          request.user_agent request.remote_address;
    occurred_at = now;
  }

  unfoldable pub replace_record :
      ℕ → String → DdnsHostUpdateRequest → ManagedHost → Text → Text → Tx DdnsHostUpdateResponse
  replace_record now version request managed hostname ip = do
    delete_records managed.host
    insert_record (new_record now managed ip)
    change_host managed.host.host_id (updated_host now ip)
    jobs ← dispatch_zone now version managed hostname
    insert_audit_event (update_event now request managed hostname ip)
    pure (good_response hostname ip version jobs)

  unfoldable pub point_host :
      ℕ → String → DdnsHostUpdateRequest → ManagedHost → Text → Text → Tx DdnsHostUpdateResponse
  point_host now version request managed hostname ip = do
    records ← query (records_of managed.host)
    if is_current managed.host ip records
        then change_host managed.host.host_id (unchanged_host now ip)
          >> pure (refused nochg (some hostname) (some ip))
        else replace_record now version request managed hostname ip

  unfoldable pub update_known :
      ℕ
      → String
      → DdnsHostUpdateRequest
      → Text
      → Text
      → Text
      → Option ManagedHost
      → Tx DdnsHostUpdateResponse
  update_known now version request hostname username password none =
      pure (refused nohost (some hostname) none)
  update_known now version request hostname username password (some managed) =
      let ip = trim (given request.ip_address) in
      if not managed.host.enabled
      then pure (refused nohost (some hostname) none)
      else if not (admits managed.host username password)
      then pure (refused badauth (some hostname) none)
      else if not (is_type managed.host.record_type (record_type_for_ip_address ip))
      then change_host managed.host.host_id (seen_host now)
        >> pure (refused badip (some hostname) (some ip))
      else point_host now version request managed hostname ip

  unfoldable pub update_ddns_host_tx :
      ℕ → String → DdnsHostUpdateRequest → Tx DdnsHostUpdateResponse
  update_ddns_host_tx now version request =
      let hostname = normalize_ddns_hostname (given request.hostname) in
      let username = trim (given request.username) in
      let password = given request.password in
      if is_blank hostname || is_blank username || is_blank password
      then pure (refused badauth none none)
      else query (find_ddns_host hostname)
        >>= update_known now version request hostname username password

  unfoldable pub update_ddns_host :
      ℕ → String → DdnsHostUpdateRequest → Store → Result StoreError DdnsHostUpdateResponse × Store
  update_ddns_host now version request db =
      with_transaction (update_ddns_host_tx now version request) db
