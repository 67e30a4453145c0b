-- ===== src/Examples/Ddns.antt =====
-- Updates of dynamic DNS.
use simple_host_man.Store.Ddns.Records.{
  unchanged_host, nochg, create_dispatched_job_envelope, insert_record, delete_records, is_target,
  nohost, refused, DdnsHostUpdateResponse, DdnsHostUpdateRequest,
}
use simple_host_man.Store.Ddns.Update.Again.{update_ddns_host_again}
use simple_host_man.Store.Tables.{update_where}
use simple_host_man.Store.Ddns.Update.Outcome.{with_hosts}
use simple_host_man.Store.Users.{verify_password_hash}
use simple_host_man.Store.Users.{create_password_hash}
use simple_host_man.Payload.{sanitize_fields}
use simple_host_man.Payload.Stringify.{stable_stringify, hash_desired_payload}
use simple_host_man.Store.Dispatch.Queued.{create_queued_dispatch_job}
use simple_host_man.Payload.Envelope.{encode_stored_job_payload}
use simple_host_man.Store.Dispatch.{
  insert_job, insert_each, ensure_control_plane_target_node, ensure_nodes, insert_dispatched_jobs,
}
use simple_host_man.Store.Ddns.{
  ManagedHost, stable_id, join_zone, find_ddns_host, without_last_dot, normalize_ddns_hostname,
}
use simple_host_man.Prelude.Text.{trim, Text}
use simple_host_man.Examples.Lifecycle.{inventory}
use simple_host_man.Examples.Lifecycle.{iv}
use simple_host_man.Prelude.Result.{err, ok, Result}
use simple_host_man.Store.Ddns.Update.{
  dispatch_zone, replace_record, point_host, update_known, update_ddns_host_tx, update_ddns_host,
  Ddns,
}
use simple_host_man.Store.Ddns.Update.Confinement.{update_ddns_host-IsConfined, IsConfined}
use simple_host_man.Examples.{sample, same, scrypt, codes, toy, store}
use simple_host_man.Prelude.{
  insert, sort, refl, ◌≡◌, true, String, none, some, [], ◌∷◌, if◌then◌else◌,
}
use simple_host_man.Store.{
  insert_audit_event, with_transaction, StoreError, DnsRecordRow, DdnsHostRow, Store, ◌>>=◌,
}

abbrev home : DdnsHostRow
home = record {
  host_id = codes "ddns-1";
  hostname = codes "home.example.org";
  zone_id = "z-1";
  record_name = codes "home";
  record_type = "A";
  username = codes "router";
  password = create_password_hash scrypt (codes "salt") (codes "pw");
  ttl = 300;
  enabled = true;
  last_ip = none;
  last_seen_at = none;
  last_updated_at = none;
  created_at = 0;
  updated_at = 0;
}

abbrev record_at : String → String → DnsRecordRow
record_at name value = record {
  record_id = codes name;
  zone_id = "z-1";
  name = codes name;
  record_type = "A";
  value = codes value;
  ttl = 300;
  created_at = 0;
  updated_at = 0;
}

abbrev with_home : Store
with_home = record store {
  dns_zones = record { zone_id = "z-1"; zone_name = codes "example.org" } ∷ [];
  dns_records = record_at "home" "203.0.113.1" ∷ record_at "www" "203.0.113.2" ∷ [];
  ddns_hosts = home ∷ [];
}

abbrev process : Ddns
process = record {
  Bytes = Text;
  Plain = Text;
  PasswordBytes = Text;
  crypto = toy;
  key = none;
  iv = iv;
  inventory = inventory;
  scrypt = scrypt;
  digest = λ t. t;
  job_digest = λ t. "0123456789abcdef";
  text = λ t. "home.example.org";
  ip_family = λ t. if same t (codes "203.0.113.7") then 4 else 0;
  plans = λ zone db. ("web-1", sample) ∷ [];
}

abbrev from_router : DdnsHostUpdateRequest
from_router = record {
  hostname = some (codes " Home.Example.org.");
  username = some (codes "router");
  password = some (codes "pw");
  ip_address = some (codes "203.0.113.7");
  user_agent = none;
  remote_address = none;
}

abbrev pointed : Store
pointed = (update_ddns_host process 5000 "v1" from_router with_home).1

abbrev response_of : Result StoreError DdnsHostUpdateResponse → DdnsHostUpdateResponse
response_of (ok r) = r
response_of (err e) = refused nohost none none

abbrev response : DdnsHostUpdateResponse
response = response_of (update_ddns_host process 5000 "v1" from_router with_home).0

pointed_once : update_ddns_host process 5000 "v1" from_router with_home ≡ (ok response, pointed)
unfolding update_ddns_host update_ddns_host_tx update_known point_host with_transaction
    normalize_ddns_hostname without_last_dot trim ◌>>=◌ find_ddns_host join_zone
    verify_password_hash create_password_hash is_target replace_record delete_records insert_record
    stable_id dispatch_zone insert_dispatched_jobs ensure_nodes ensure_control_plane_target_node
    insert_each insert_job insert_audit_event encode_stored_job_payload
    create_dispatched_job_envelope create_queued_dispatch_job hash_desired_payload stable_stringify
    sanitize_fields sort insert
pointed_once = refl

was_changed : response.changed ≡ true
unfolding update_ddns_host update_ddns_host_tx update_known point_host with_transaction
    normalize_ddns_hostname without_last_dot trim ◌>>=◌ find_ddns_host join_zone
    verify_password_hash create_password_hash is_target replace_record delete_records insert_record
    stable_id dispatch_zone insert_dispatched_jobs ensure_nodes ensure_control_plane_target_node
    insert_each insert_job insert_audit_event encode_stored_job_payload
    create_dispatched_job_envelope create_queued_dispatch_job hash_desired_payload stable_stringify
    sanitize_fields sort insert
was_changed = refl

update_ddns_host-IsConfined_example :
    IsConfined process 5000 "v1" from_router with_home pointed response
update_ddns_host-IsConfined_example =
    update_ddns_host-IsConfined process 5000 "v1" from_router response with_home pointed
      pointed_once

update_ddns_host_again_example :
    (managed : ManagedHost) × (find_ddns_host (codes "home.example.org") with_home ≡ some managed)
    × (update_ddns_host process 6000 "v2" from_router pointed ≡ (
      ok (refused nochg (some (codes "home.example.org")) (some (codes "203.0.113.7"))),
      with_hosts process 5000 "v1" from_router
          (update_where
            (λ row. same row.host_id managed.host.host_id)
            (unchanged_host 6000 (codes "203.0.113.7"))
            pointed.ddns_hosts)
          pointed,
    ))
unfolding normalize_ddns_hostname without_last_dot trim
update_ddns_host_again_example =
    update_ddns_host_again process 5000 "v1" from_router response with_home pointed 6000 "v2"
      pointed_once was_changed
