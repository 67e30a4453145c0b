-- ===== src/Store/Ddns/Records.antt =====
-- The requests and statements of an update of dynamic DNS, and `createDispatchedJobEnvelope` of
-- packages/control-contracts/src/jobs.ts.
use simple_host_man.Store.Tables.{update_where}
use simple_host_man.Prelude.Text.{same}
use simple_host_man.Store.Dispatch.Queued.{text_append}
use Prim.Native.Char.{code}
use simple_host_man.Prelude.{
  any, filter, ◌==◌, ℕ, Bool, false, not, ◌&&◌, String, Option, none, some, List, [], ◌∷◌, ◌++◌,
  if◌then◌else◌, str_eq,
}
use simple_host_man.Store.{
  ok, unique_violation, err, execute, DispatchedJobEnvelope, Fields, DdnsHostRow, DnsRecordRow,
  Store, Tx, Text,
}

pub data DdnsUpdateStatus : Type 0 where
  good nochg nohost badauth badip : DdnsUpdateStatus

pub record DdnsHostUpdateRequest : Type 0 where
  pub hostname : Option Text
  pub username : Option Text
  pub password : Option Text
  pub ip_address : Option Text
  pub user_agent : Option String
  pub remote_address : Option String

pub record DdnsHostUpdateResponse : Type 0 where
  pub status : DdnsUpdateStatus
  pub hostname : Option Text
  pub ip_address : Option Text
  pub changed : Bool
  -- The version and the sanitized jobs.
  pub dispatch : Option (String × List DispatchedJobEnvelope)

abbrev pub refused : DdnsUpdateStatus → Option Text → Option Text → DdnsHostUpdateResponse
refused status hostname ip_address = record {
  status = status;
  hostname = hostname;
  ip_address = ip_address;
  changed = false;
  dispatch = none;
}

unfoldable pub is_target : DdnsHostRow → DnsRecordRow → Bool
is_target host row =
    str_eq row.zone_id host.zone_id
    && same row.name host.record_name
    && str_eq row.record_type host.record_type

abbrev pub is_current : DdnsHostRow → Text → List DnsRecordRow → Bool
is_current host ip [] = false
is_current host ip (row ∷ []) = same row.value ip && row.ttl == host.ttl
is_current host ip (row ∷ next ∷ rows) = false

-- `ORDER BY value ASC` leaves one row or none as it is.
abbrev pub records_of : DdnsHostRow → Store → List DnsRecordRow
records_of host db = filter (is_target host) db.dns_records

abbrev pub change_host : Text → (DdnsHostRow → DdnsHostRow) → Tx (Unit {0})
change_host host_id f =
    execute λ db. record db {
      ddns_hosts = update_where (λ row. same row.host_id host_id) f db.ddns_hosts;
    }

abbrev pub seen_host : ℕ → DdnsHostRow → DdnsHostRow
seen_host now row = record row { last_seen_at = some now; updated_at = now }

abbrev pub unchanged_host : ℕ → Text → DdnsHostRow → DdnsHostRow
unchanged_host now ip row = record row {
  last_ip = some ip;
  last_seen_at = some now;
  updated_at = now;
}

abbrev pub updated_host : ℕ → Text → DdnsHostRow → DdnsHostRow
updated_host now ip row = record row {
  last_ip = some ip;
  last_seen_at = some now;
  last_updated_at = some now;
  updated_at = now;
}

unfoldable pub delete_records : DdnsHostRow → Tx (Unit {0})
delete_records host =
    execute
      λ db. record db { dns_records = filter (λ row. not (is_target host row)) db.dns_records }

unfoldable pub insert_record : DnsRecordRow → Tx (Unit {0})
insert_record new db =
    if any (λ row. same row.record_id new.record_id) db.dns_records
    then err unique_violation
    else ok (tt, record db { dns_records = db.dns_records ++ new ∷ [] })

-- `replace(/\./g, "-")`
abbrev dashed : String → String
dashed String.[] = String.[]
dashed (String.◌∷◌ c s) =
    let rest = dashed s in if code c == b'.' then text_append "-" rest else String.◌∷◌ c rest

-- `createDispatchedJobEnvelope`
unfoldable pub create_dispatched_job_envelope :
    ℕ → String → String → String → Fields → DispatchedJobEnvelope
create_dispatched_job_envelope now kind node_id version payload = record {
  id = text_append version (text_append "-" (text_append node_id (text_append "-" (dashed kind))));
  desired_state_version = version;
  kind = kind;
  node_id = node_id;
  created_at = now;
  payload = payload;
}
