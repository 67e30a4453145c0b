-- ===== src/Examples/Maintenance.antt =====
-- Three releases, one of them old enough to be removed, and the default options.
use simple_host_man.Worker.Maintenance.Options.{parse_non_negative_integer}
use simple_host_man.Worker.Maintenance.Options.{parse_percent}
use simple_host_man.Worker.Maintenance.{remove_release_candidate}
use simple_host_man.Worker.Maintenance.{protected_reasons}
use simple_host_man.Prelude.{sort}
use simple_host_man.Worker.Maintenance.{classify_all}
use simple_host_man.Worker.Maintenance.{remove_candidates}
use simple_host_man.Worker.Maintenance.{should_apply_maintenance}
use simple_host_man.Worker.Maintenance.Removal.{maintenance-IsSafe, IsRemovable, entries_of}
use simple_host_man.Examples.{collate}
use simple_host_man.Prelude.Result.{err, ok}
use simple_host_man.Prelude.Text.{codes, Text}
use simple_host_man.Worker.Maintenance.{
  day_ms, select_release_candidates, apply, ordered, SelectionOptions, ReleaseEntry,
  remove_releases,
}
use simple_host_man.Worker.Maintenance.Options.{
  report_requires_path, options-AreBounded, default_blocking_process_patterns, options_with,
  is_blank, parse_storage_maintenance_cli_args, MaintenanceOptions, parse_arguments, CliOptions,
  build_storage_maintenance_options,
}
use simple_host_man.Prelude.{
  Perm, take, All, refl, ◌≡◌, ℕ, zero, ◌+◌, ◌*◌, ◌≤◌, ◌<◌, Bool, true, false, String, Option, none,
  some, List, [], ◌∷◌, if◌then◌else◌, str_eq,
}

abbrev release : String → ℕ → ReleaseEntry
release name mtime_ms = record { name = name; path = name; mtime_ms = mtime_ms; size_bytes = 1000 }

abbrev releases : List ReleaseEntry
releases = release "r-1" 100 ∷ release "r-3" 300 ∷ release "r-2" 200 ∷ []

abbrev selection : SelectionOptions
selection = record {
  active_release = some "r-2";
  pinned_releases = [];
  metadata_releases = [];
  keep = 1;
  min_age_days = 7;
  now = 1000000000;
}

abbrev any_path : String → Bool
any_path path = true

maintenance-IsSafe_example :
    let kept = take 1 (ordered collate releases) in
    let inventory = select_release_candidates collate releases selection in
    Perm (entries_of inventory) releases
    × All
        (λ c.
          (c.entry.mtime_ms + 7 * day_ms ≤ 1000000000)
          × All (λ k. c.entry.mtime_ms ≤ k.mtime_ms) kept)
        inventory.candidates
    × All
        (λ name. (apply ≡ apply) × (85 * 100 ≤ 9000) × (zero ≡ 0) × IsRemovable selection kept name)
        (remove_releases any_path apply 9000 85 0 inventory).removed
maintenance-IsSafe_example = maintenance-IsSafe collate any_path releases selection apply 9000 85 0

removes_one :
    (remove_releases any_path apply 9000 85 0
      (select_release_candidates collate releases selection)).removed
    ≡ "r-1" ∷ []
unfolding remove_releases should_apply_maintenance remove_candidates select_release_candidates
    classify_all sort protected_reasons remove_release_candidate
removes_one = refl

abbrev integer : Text → Option ℕ
integer [] = none
integer (c ∷ s) = some c

abbrev env : String → Option Text
env name = if str_eq name "SIMPLEHOST_STORAGE_RELEASE_PINS" then some (codes "r-1, r-2") else none

abbrev cli : CliOptions
cli = record { mode = apply; json = false; report_path = none }

abbrev built_options : MaintenanceOptions
built_options = options_with integer env cli 5 85 80 5 7 168

built : build_storage_maintenance_options integer env cli 5 ≡ ok built_options
unfolding build_storage_maintenance_options parse_percent parse_non_negative_integer
built = refl

options-AreBounded_example :
    (80 < 85)
    × (85 ≤ 100)
    × All (λ pin. is_blank pin ≡ false) built_options.pinned_releases
    × All (λ pattern. is_blank pattern ≡ false) built_options.blocking_process_patterns
    × (take 8 built_options.blocking_process_patterns ≡ default_blocking_process_patterns)
options-AreBounded_example = options-AreBounded integer env cli 5 built_options built

-- A report without a path is refused.
report_wants_path :
    parse_storage_maintenance_cli_args (codes "--apply" ∷ codes "--report" ∷ [])
    ≡ err report_requires_path
unfolding parse_arguments
report_wants_path = refl
