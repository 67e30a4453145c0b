-- ===== src/Worker/Replication.antt =====
-- Where a finished backup is copied to: `resolveBackupReplicationPlan`,
-- `deriveReplicaStorageLocation`, `parseOptionalBoolean`, `normalizeHostname`, `stripCidr` and
-- `resolveReplicaRetentionDays` of apps/worker/src/backup-runner.ts. `Paths` stands for node:path.
pub mod Target
use simple_host_man.Prelude.Text.{
  split, elem, is_digit, codes, same, drop_end_while, trim, to_lower, Text,
}
use simple_host_man.Prelude.Int.{ℤ}
use simple_host_man.Prelude.{
  find, ◌==◌, refl, sym, ap, ◌∙◌, ◌≡◌, ◌≢◌, ◌⊎◌, ◌↔◌, inl, inr, ℕ, zero, suc, ◌+◌, ◌-◌, ◌*◌, ◌≤◌,
  ◌<◌, Bool, true, false, not, ◌&&◌, ◌||◌, String, Option, none, some, List, [], ◌∷◌, ◌++◌, map,
  if◌then◌else◌, arith, Bool-cases, Option-cases, str_eq,
}
use simple_host_man.Prelude.Result.{ok, err, Result, ◌>>=◌}

pub record Paths : Type 0 where
  pub join : Text → Text → Text
  pub basename : Text → Text
  pub dirname : Text → Text

pub data ReplicationError : Type 0 where
  invalid_boolean : Text → ReplicationError
  target_node_not_configured target_node_is_local : ReplicationError
  target_host_not_configured : Text → ReplicationError
  invalid_timeout : Text → ReplicationError

-- The settings that the plan reads.
pub record RuntimeEnv : Type 0 where
  pub enabled : Option Text
  pub target_node_id : Option Text
  pub target_host : Option Text
  pub storage_root : Option Text
  pub connect_timeout_seconds : Option Text
  pub rsync_bin : Option Text
  pub ssh_bin : Option Text

pub record DesiredNode : Type 0 where
  pub node_id : Text
  pub hostname : Text
  pub wireguard_address : Text

pub record BackupReplicationPlan : Type 0 where
  pub target_node_id : Text
  pub target_host : Text
  pub replica_storage_location : Text
  pub replica_run_directory : Text
  pub rsync_binary : Text
  pub ssh_binary : Text
  pub connect_timeout_seconds : ℕ

abbrev pub is_blank : Text → Bool
is_blank [] = true
is_blank (c ∷ s) = false

-- A setting, trimmed where it is set.
abbrev trimmed : Option Text → Option Text
trimmed none = none
trimmed (some t) = some (trim t)

-- `Boolean(value)`
abbrev is_set : Option Text → Bool
is_set none = false
is_set (some t) = not (is_blank t)

-- `value || fallback`
abbrev or_text : Option Text → Text → Text
or_text none fallback = fallback
or_text (some t) fallback = if is_blank t then fallback else t

abbrev drop_end : ℕ → Text → Text
drop_end c = drop_end_while (λ d. d == c)

abbrev read_boolean : Text → Text → Result ReplicationError (Option Bool)
read_boolean value normalized =
    if is_blank normalized
    then ok none
    else if elem normalized (codes "1" ∷ codes "true" ∷ codes "yes" ∷ codes "on" ∷ [])
    then ok (some true)
    else if elem normalized (codes "0" ∷ codes "false" ∷ codes "no" ∷ codes "off" ∷ [])
    then ok (some false)
    else err (invalid_boolean value)

unfoldable pub parse_optional_boolean : Option Text → Result ReplicationError (Option Bool)
parse_optional_boolean none = ok none
parse_optional_boolean (some value) = read_boolean value (to_lower (trim value))

unfoldable pub normalize_hostname : Text → Option Text
normalize_hostname value =
    if is_blank value then none else some (to_lower (drop_end b'.' (trim value)))

abbrev first_part : List Text → Text
first_part [] = []
first_part (t ∷ ts) = t

unfoldable pub strip_cidr : Text → Option Text
strip_cidr value =
    if is_blank (trim value) then none else some (first_part (split b'/' (trim value)))

-- `a ?? b`
abbrev or_else : Option Text → Option Text → Option Text
or_else none other = other
or_else (some t) other = some t

-- `Number.parseInt(value, 10)` on a text without a space in front, read exactly; `none` for a number that is not
-- positive, and for none at all.
abbrev leading_digits : ℕ → Text → ℕ
leading_digits acc [] = acc
leading_digits acc (c ∷ s) = if is_digit c then leading_digits (acc * 10 + (c - b'0')) s else acc

abbrev unsigned : Text → Text
unsigned [] = []
unsigned (c ∷ s) = if c == b'+' then s else c ∷ s

abbrev positive : ℕ → Option ℕ
positive zero = none
positive (suc n) = some (suc n)

unfoldable pub parse_timeout : Text → Option ℕ
parse_timeout value = positive (leading_digits 0 (unsigned value))

unfoldable pub resolve_replica_retention_days : ℤ → Option ℤ → ℤ
resolve_replica_retention_days retention_days none = retention_days
resolve_replica_retention_days retention_days (some days) = days

module _ (paths : Paths) where
  abbrev policy_or_base : Option Text → Text → Text
  policy_or_base none location = paths.basename location
  policy_or_base (some slug) location = slug

  abbrev beside : Text → Text → Text
  beside source_node_id location =
      if same (paths.basename location) source_node_id
      then paths.join (paths.dirname location) (source_node_id ++ codes "-replicated")
      else paths.join location (source_node_id ++ codes "-replicated")

  unfoldable pub derive_replica_storage_location : Text → Text → Option Text → Option Text → Text
  derive_replica_storage_location storage_location source_node_id policy_slug storage_root =
      let location = drop_end b'/' storage_location in
      if is_set (trimmed storage_root)
      then paths.join
          (paths.join (drop_end b'/' (or_text (trimmed storage_root) [])) source_node_id)
          (policy_or_base policy_slug location)
      else beside source_node_id location

  abbrev node_or_other : Text → List DesiredNode → Option Text → Option DesiredNode
  node_or_other local_node_id nodes target =
      if is_set target
      then find (λ node. same node.node_id (or_text target [])) nodes
      else find (λ node. not (same node.node_id local_node_id)) nodes

  abbrev node_id_of : Option DesiredNode → Option Text
  node_id_of none = none
  node_id_of (some node) = some node.node_id

  abbrev host_of : Option DesiredNode → Option Text
  host_of none = none
  host_of (some node) =
      or_else (strip_cidr node.wireguard_address) (normalize_hostname node.hostname)

  abbrev pub require_target : Text → Option Text → Result ReplicationError Text
  require_target local_node_id none = err target_node_not_configured
  require_target local_node_id (some id) =
      if is_blank id
      then err target_node_not_configured
      else if same id local_node_id
      then err target_node_is_local
      else ok id

  abbrev pub require_host : Text → Option Text → Result ReplicationError Text
  require_host node_id none = err (target_host_not_configured node_id)
  require_host node_id (some host) =
      if is_blank host then err (target_host_not_configured node_id) else ok host

  abbrev timeout_text : Option Text → Text
  timeout_text none = codes "10"
  timeout_text (some t) = trim t

  abbrev pub require_timeout : Text → Option ℕ → Result ReplicationError ℕ
  require_timeout value none = err (invalid_timeout value)
  require_timeout value (some n) = ok n

  -- `explicitEnabled === false || (explicitEnabled !== true && !hasReplicationConfig)`
  abbrev pub is_disabled : Option Bool → Bool → Bool
  is_disabled (some enabled) has_config = not enabled
  is_disabled none has_config = not has_config

  abbrev pub chosen_target : RuntimeEnv → Text → List DesiredNode → Result ReplicationError Text
  chosen_target env local_node_id nodes = require_target local_node_id (
      or_else (trimmed env.target_node_id)
        (node_id_of (node_or_other local_node_id nodes (trimmed env.target_node_id))))

  abbrev pub chosen_host :
      RuntimeEnv → Text → List DesiredNode → Text → Result ReplicationError Text
  chosen_host env local_node_id nodes target_node_id = require_host target_node_id (
      or_else (trimmed env.target_host)
        (host_of (node_or_other local_node_id nodes (trimmed env.target_node_id))))

  abbrev pub chosen_timeout : RuntimeEnv → Result ReplicationError ℕ
  chosen_timeout env =
      require_timeout (timeout_text env.connect_timeout_seconds)
        (parse_timeout (timeout_text env.connect_timeout_seconds))

  abbrev pub plan_of :
      RuntimeEnv → Text → Text → Text → Text → Text → Text → ℕ → BackupReplicationPlan
  plan_of env local_node_id policy_slug storage_location run_directory node_id host timeout =
      let location =
        derive_replica_storage_location storage_location local_node_id (some policy_slug)
          (trimmed env.storage_root) in
      record {
        target_node_id = node_id;
        target_host = host;
        replica_storage_location = location;
        replica_run_directory = paths.join location (paths.basename run_directory);
        rsync_binary = or_text (trimmed env.rsync_bin) (codes "/usr/bin/rsync");
        ssh_binary = or_text (trimmed env.ssh_bin) (codes "/usr/bin/ssh");
        connect_timeout_seconds = timeout;
      }

  unfoldable pub enabled_plan :
      RuntimeEnv
      → Text
      → List DesiredNode
      → Text
      → Text
      → Text
      → Result ReplicationError BackupReplicationPlan
  enabled_plan env local_node_id nodes policy_slug storage_location run_directory = do
    node_id ← chosen_target env local_node_id nodes
    host ← chosen_host env local_node_id nodes node_id
    timeout ← chosen_timeout env
    ok (plan_of env local_node_id policy_slug storage_location run_directory node_id host timeout)

  abbrev pub has_config : RuntimeEnv → Bool
  has_config env =
      is_set (trimmed env.target_node_id)
      || is_set (trimmed env.target_host)
      || is_set (trimmed env.storage_root)

  abbrev pub plan_if :
      Bool
      → Result ReplicationError BackupReplicationPlan
      → Result ReplicationError (Option BackupReplicationPlan)
  plan_if true plan = ok none
  plan_if false (ok plan) = ok (some plan)
  plan_if false (err e) = err e

  unfoldable pub resolve_backup_replication_plan :
      RuntimeEnv
      → Text
      → List DesiredNode
      → Text
      → Text
      → Text
      → Result ReplicationError (Option BackupReplicationPlan)
  resolve_backup_replication_plan env local_node_id nodes policy_slug storage_location
        run_directory =
      do
        explicit ← parse_optional_boolean env.enabled
        plan_if (is_disabled explicit (has_config env))
            (enabled_plan env local_node_id nodes policy_slug storage_location run_directory)
