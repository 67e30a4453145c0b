-- ===== src/Examples/Worker.antt =====
-- Schedules, retention and quoting.
use simple_host_man.Worker.Replication.{derive_replica_storage_location}
use simple_host_man.Worker.Replication.{parse_timeout}
use simple_host_man.Worker.Replication.{strip_cidr}
use simple_host_man.Worker.Replication.{enabled_plan}
use simple_host_man.Worker.Replication.Target.{replication_target}
use simple_host_man.Prelude.Result.{err, ok}
use simple_host_man.Worker.Replication.{
  is_blank, has_config, is_disabled, target_node_not_configured, parse_optional_boolean,
  DesiredNode, BackupReplicationPlan, resolve_backup_replication_plan, Paths, RuntimeEnv,
}
use simple_host_man.Worker.Cron.Weekdays.{weekday_range_to_seven}
use simple_host_man.Examples.{none, Bool, Option, collate}
use simple_host_man.Worker.Cron.{
  field_is_wildcard, parse_integer, normalize_cron_value, match_field, should_run_policy_at_time,
  match_base, match_cron_segment, matches_cron_expression,
}
use simple_host_man.Worker.Retention.{
  retention_keeps_newest, select_backup_retention_candidates, directories, BackupRetentionEntry,
}
use simple_host_man.Prelude.Text.{trim, codes, Text}
use simple_host_man.Worker.Cron.Polling.{Poll, run_polls}
use simple_host_man.Prelude.{
  ◌≢◌, ◌++◌, ltb, filter, All, Perm, refl, ◌≡◌, ℕ, ◌≤◌, true, false, String, some, List, [], ◌∷◌,
  arith,
}
use simple_host_man.Worker.Shell.{read_word, ShellState, shell_quote, read_word-shell_quote}

-- Every fifteen minutes; 1970-01-01 is a Thursday.
abbrev schedule : Text
schedule = codes "*/15 * * * *"

abbrev poll : ℕ → ℕ → Poll
poll now recorded_at = record { now = now; recorded_at = recorded_at }

abbrev polls : List Poll
polls = poll 900000 915000 ∷ poll 930000 930000 ∷ poll 1800000 1830000 ∷ []

weekday_test : matches_cron_expression (codes "0 0 * 1 4") 0 ≡ true
unfolding matches_cron_expression match_field match_cron_segment match_base normalize_cron_value
    parse_integer field_is_wildcard trim
weekday_test = refl

-- 2026-11-26 is a Thursday.
date_test : matches_cron_expression (codes "30 12 26 11 4") 1795696200000 ≡ true
unfolding matches_cron_expression match_field match_cron_segment match_base normalize_cron_value
    parse_integer field_is_wildcard trim
date_test = refl

run_polls_test : run_polls schedule (some 0) polls ≡ poll 900000 915000 ∷ poll 1800000 1830000 ∷ []
unfolding run_polls should_run_policy_at_time matches_cron_expression match_field match_cron_segment
    match_base normalize_cron_value parse_integer field_is_wildcard trim
run_polls_test = refl

-- A run that is recorded in the next due minute takes the place of that minute's own run.
long_run_test :
    run_polls schedule (some 0) (poll 900000 1800500 ∷ poll 1801000 1810000 ∷ [])
    ≡ poll 900000 1800500 ∷ []
unfolding run_polls should_run_policy_at_time matches_cron_expression match_field match_cron_segment
    match_base normalize_cron_value parse_integer field_is_wildcard trim
long_run_test = refl

abbrev entry : String → ℕ → BackupRetentionEntry
entry name mtime_ms = record { name = name; path = name; is_directory = true; mtime_ms = mtime_ms }

abbrev entries : List BackupRetentionEntry
entries = entry "a" 10 ∷ entry "b" 30 ∷ entry "c" 20 ∷ []

retention_keeps_newest_example :
    (newest : BackupRetentionEntry) × (rest : List BackupRetentionEntry) × Perm
      (newest ∷ rest)
      (directories collate entries)
    × All (λ e. e.mtime_ms ≤ newest.mtime_ms) rest
    × (select_backup_retention_candidates collate entries 25 ≡ filter (λ e. ltb e.mtime_ms 25) rest)
retention_keeps_newest_example = retention_keeps_newest collate entries 25 (omega arith)

read_word-shell_quote_example :
    read_word ShellState.outside (shell_quote (codes "it's; rm")) ≡ some (codes "it's; rm")
read_word-shell_quote_example = read_word-shell_quote (codes "it's; rm")

weekday_range_to_seven_example : match_cron_segment (codes "5-7") 6 0 7 ≡ false
weekday_range_to_seven_example = weekday_range_to_seven 5 6 (omega arith) (omega arith)

abbrev paths : Paths
paths = record { join = λ a b. a ++ codes "/" ++ b; basename = λ p. p; dirname = λ p. p }

abbrev env : RuntimeEnv
env = record {
  enabled = some (codes "yes");
  target_node_id = none;
  target_host = none;
  storage_root = none;
  connect_timeout_seconds = none;
  rsync_bin = none;
  ssh_bin = none;
}

abbrev nodes : List DesiredNode
nodes =
    (record { node_id = codes "n1"; hostname = codes "h1."; wireguard_address = [] })
    ∷ (record {
      node_id = codes "n2";
      hostname = codes "h2.";
      wireguard_address = codes "10.0.0.2/32";
    })
    ∷ []

abbrev plan : BackupReplicationPlan
plan = record {
  target_node_id = codes "n2";
  target_host = codes "10.0.0.2";
  replica_storage_location = codes "/b/n1-replicated";
  replica_run_directory = codes "/b/n1-replicated/run";
  rsync_binary = codes "/usr/bin/rsync";
  ssh_binary = codes "/usr/bin/ssh";
  connect_timeout_seconds = 10;
}

planned :
    resolve_backup_replication_plan paths env
      (codes "n1")
      nodes
      (codes "p")
      (codes "/b/")
      (codes "run")
    ≡ ok (some plan)
unfolding resolve_backup_replication_plan parse_optional_boolean trim enabled_plan strip_cidr
    parse_timeout derive_replica_storage_location
planned = refl

-- A target node that is set to an empty text is not replaced by the other node.
empty_target_test :
    resolve_backup_replication_plan paths
      (record env { target_node_id = some [] })
      (codes "n1")
      nodes
      (codes "p")
      (codes "/b/")
      (codes "run")
    ≡ err target_node_not_configured
unfolding resolve_backup_replication_plan parse_optional_boolean trim enabled_plan
empty_target_test = refl

replication_target_example :
    ((explicit : Option Bool) × (parse_optional_boolean env.enabled ≡ ok explicit)
      × (is_disabled paths explicit (has_config paths env) ≡ false))
    × (plan.target_node_id ≢ codes "n1")
    × (is_blank plan.target_host ≡ false)
    × (1 ≤ plan.connect_timeout_seconds)
replication_target_example =
    replication_target paths env (codes "n1") nodes (codes "p") (codes "/b/") (codes "run") plan
      planned
