-- ===== src/Store/Ddns.antt =====
-- Dynamic DNS: host names, zones and the rows of hosts, of
-- packages/control-database/src/control-plane-store-operations.ts and
-- packages/control-database/src/control-plane-store-helpers.ts. A lifetime that is no
-- integer is an absent one. `digest` stands for the SHA-256 of a text.
pub mod Hosts
pub mod Records
pub mod Update
use simple_host_man.Store.Sessions.{require_authorized_user}
use simple_host_man.Store.Users.{create_password_hash, Scrypt}
use simple_host_man.Store.Tables.{update_where}
use simple_host_man.Prelude.Int.{ℤ, pos, negsuc}
use simple_host_man.Prelude.Text.{starts_with, same, trim, to_lower, codes}
use simple_host_man.Prelude.{
  refl, sym, ap, ◌∙◌, ◌≡◌, ℕ, zero, suc, ◌+◌, ◌-◌, ◌*◌, ◌≤◌, ◌<◌, Bool, true, false, not, ◌&&◌,
  ◌||◌, String, Option, none, some, List, [], ◌∷◌, ◌++◌, map, if◌then◌else◌, arith, Bool-cases,
  Option-cases, str_eq, reverse, take, drop, any, find, filter, sort, leb, ◌==◌, head?, length,
}
use simple_host_man.Store.{
  not_in_zone, err, ok, StoreError, DnsZoneRow, Result, DdnsHostRow, Store, Tx, Text,
}

-- `replace(/\.$/, "")`, on the reversed text.
abbrev without_dot : Text → Text
without_dot [] = []
without_dot (c ∷ s) = if c == b'.' then s else c ∷ s

unfoldable pub without_last_dot : Text → Text
without_last_dot s = reverse (without_dot (reverse s))

unfoldable pub normalize_ddns_hostname : Text → Text
normalize_ddns_hostname value = to_lower (without_last_dot (trim value))

abbrev pub is_blank : Text → Bool
is_blank [] = true
is_blank (c ∷ s) = false

abbrev pub given : Option Text → Text
given none = []
given (some s) = s

unfoldable pub normalize_ddns_username : Option Text → Text → Text
normalize_ddns_username value hostname =
    let username = trim (given value) in if is_blank username then hostname else username

abbrev bounded : ℤ → ℕ
bounded (negsuc n) = 60
bounded (pos n) = if leb n 60 then 60 else if leb 86400 n then 86400 else n

unfoldable pub normalize_ddns_ttl : Option ℤ → ℕ
normalize_ddns_ttl none = 300
normalize_ddns_ttl (some value) = bounded value

-- A pattern of `LIKE`, where a backslash quotes the next character.
pub data Wild : Type 0 where
  any_run any_one : Wild
  exactly : ℕ → Wild

abbrev wild : ℕ → Wild
wild c = if c == b'%' then any_run else if c == b'_' then any_one else exactly c

abbrev pattern_of : Bool → Text → List Wild
pattern_of quoted [] = []
pattern_of true (c ∷ s) = exactly c ∷ pattern_of false s
pattern_of false (c ∷ s) =
    let rest = pattern_of (c == b'\\') s in if c == b'\\' then rest else wild c ∷ rest

abbrev suffixes : Text → List Text
suffixes [] = [] ∷ []
suffixes (c ∷ s) = (c ∷ s) ∷ suffixes s

abbrev matches : List Wild → Text → Bool
matches [] s = is_blank s
matches (any_run ∷ p) s = any (matches p) (suffixes s)
matches (any_one ∷ p) [] = false
matches (any_one ∷ p) (c ∷ s) = matches p s
matches (exactly d ∷ p) [] = false
matches (exactly d ∷ p) (c ∷ s) = c == d && matches p s

unfoldable pub like : Text → Text → Bool
like s pattern = matches (pattern_of false pattern) s

abbrev ends_with : Text → Text → Bool
ends_with suffix s = starts_with (reverse suffix) (reverse s)

unfoldable pub relative_record_name_for_zone : Text → Text → Result StoreError Text
relative_record_name_for_zone hostname zone_name =
    let host = to_lower (without_last_dot hostname) in
    let zone = to_lower (without_last_dot zone_name) in
    if same host zone
    then ok (codes "@")
    else if ends_with (b'.' ∷ zone) host
    then ok (take (length host - length (b'.' ∷ zone)) host)
    else err (not_in_zone hostname zone_name)

-- A host, joined with the name of its zone.
pub record ManagedHost : Type 0 where
  pub host : DdnsHostRow
  pub zone_name : Text

abbrev in_zone : DdnsHostRow → Option DnsZoneRow → Option ManagedHost
in_zone host none = none
in_zone host (some zone) = some (record { host = host; zone_name = zone.zone_name })

unfoldable pub join_zone : List DnsZoneRow → DdnsHostRow → Option ManagedHost
join_zone zones host = in_zone host (find (λ zone. str_eq zone.zone_id host.zone_id) zones)

abbrev pub join_found : List DnsZoneRow → Option DdnsHostRow → Option ManagedHost
join_found zones none = none
join_found zones (some host) = join_zone zones host

unfoldable pub find_ddns_host : Text → Store → Option ManagedHost
find_ddns_host hostname db =
    join_found db.dns_zones (find (λ row. same row.hostname hostname) db.ddns_hosts)

abbrev add_joined : Option ManagedHost → List ManagedHost → List ManagedHost
add_joined none hosts = hosts
add_joined (some host) hosts = host ∷ hosts

abbrev join_all : List DnsZoneRow → List DdnsHostRow → List ManagedHost
join_all zones [] = []
join_all zones (host ∷ hosts) = add_joined (join_zone zones host) (join_all zones hosts)

unfoldable pub find_zone : Option Text → Text → Store → Option DnsZoneRow
find_zone zone_name hostname db =
    if is_blank (given zone_name)
    then head? (
        sort (λ left right. leb (length right.zone_name) (length left.zone_name))
          (filter
            (λ zone. same hostname zone.zone_name || like hostname (b'%' ∷ b'.' ∷ zone.zone_name))
            db.dns_zones))
    else find (λ zone. same zone.zone_name (normalize_ddns_hostname (given zone_name))) db.dns_zones

pub record DdnsHostSummary : Type 0 where
  pub hostname : Text
  pub zone_name : Text
  pub record_name : Text
  pub record_type : String
  pub username : Text
  pub ttl : ℕ
  pub enabled : Bool
  pub last_ip : Option Text
  pub last_seen_at : Option ℕ
  pub last_updated_at : Option ℕ
  pub created_at : ℕ
  pub updated_at : ℕ

abbrev pub to_ddns_host_summary : ManagedHost → DdnsHostSummary
to_ddns_host_summary managed =
    let host = managed.host in
    record {
      hostname = host.hostname;
      zone_name = managed.zone_name;
      record_name = host.record_name;
      record_type = host.record_type;
      username = host.username;
      ttl = host.ttl;
      enabled = host.enabled;
      last_ip = host.last_ip;
      last_seen_at = host.last_seen_at;
      last_updated_at = host.last_updated_at;
      created_at = host.created_at;
      updated_at = host.updated_at;
    }

-- `join` by the null character.
abbrev joined : List Text → Text
joined [] = []
joined (part ∷ []) = part
joined (part ∷ next ∷ parts) = part ++ 0 ∷ joined (next ∷ parts)

unfoldable pub stable_id : (Text → Text) → Text → List Text → Text
stable_id digest prefix parts = prefix ++ b'-' ∷ take 16 (digest (joined parts))
