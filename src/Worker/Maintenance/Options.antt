-- ===== src/Worker/Maintenance/Options.antt =====
-- The options of storage maintenance: `parseStorageMaintenanceCliArgs` and
-- `buildStorageMaintenanceOptions` of apps/worker/src/storage-maintenance.ts.
-- `integer` is `Number(value)` where that is an integer that is not negative.
use simple_host_man.Worker.Maintenance.{apply, dry_run, Mode}
use simple_host_man.Prelude.Text.{is_space, drop_while, split, trim, same, codes, Text}
use mathlib.Core.List.{reverse-cons}
use simple_host_man.Prelude.{
  ◌∙◌, ap, ◌⊎◌, any, reverse, All-append, take, All, ltb, leb, filter, refl, ◌≡◌, inl, inr, ℕ, ◌≤◌,
  ◌<◌, Bool, true, false, not, String, Option, none, some, List, [], ◌∷◌, ◌++◌, map, if◌then◌else◌,
  arith, Bool-cases,
}
use simple_host_man.Prelude.Result.{ok_of_bind, err, ok, Result, ◌>>=◌}

pub data OptionsError : Type 0 where
  help report_requires_path target_not_below_high : OptionsError
  unknown_argument : Text → OptionsError
  not_a_non_negative_integer above_one_hundred : String → OptionsError

pub record CliOptions : Type 0 where
  pub mode : Mode
  pub json : Bool
  pub report_path : Option Text

pub data Argument : Type 0 where
  sets : CliOptions → Argument
  takes_path : Argument
  fails : OptionsError → Argument

abbrev argument : CliOptions → Text → Argument
argument options arg =
    if same arg (codes "--apply")
    then sets (record options { mode = apply })
    else if same arg (codes "--dry-run")
    then sets (record options { mode = dry_run })
    else if same arg (codes "--json")
    then sets (record options { json = true })
    else if same arg (codes "--no-report")
    then sets (record options { report_path = some [] })
    else if same arg (codes "--report")
    then takes_path
    else if same arg (codes "--help")
    then fails help
    else fails (unknown_argument arg)

-- A path that is absent or empty is falsy.
unfoldable pub parse_arguments : CliOptions → List Text → Result OptionsError CliOptions
parse_arguments options [] = ok options
parse_arguments options (arg ∷ []) = elim (argument options arg) [
  | sets options' ↦ ok options'
  | takes_path ↦ err report_requires_path
  | fails e ↦ err e
]
parse_arguments options (arg ∷ [] ∷ rest) = elim (argument options arg) [
  | sets options' ↦ parse_arguments options' ([] ∷ rest)
  | takes_path ↦ err report_requires_path
  | fails e ↦ err e
]
parse_arguments options (arg ∷ (c ∷ path) ∷ rest) = elim (argument options arg) [
  | sets options' ↦ parse_arguments options' ((c ∷ path) ∷ rest)
  | takes_path ↦ parse_arguments (record options { report_path = some (c ∷ path) }) rest
  | fails e ↦ err e
]

abbrev pub parse_storage_maintenance_cli_args : List Text → Result OptionsError CliOptions
parse_storage_maintenance_cli_args =
    parse_arguments (record { mode = dry_run; json = false; report_path = none })

pub record MaintenanceOptions : Type 0 where
  pub cli : CliOptions
  pub report_path : Option Text
  pub root_path : Text
  pub release_root : Text
  pub backup_root : Text
  pub recovery_root : Text
  pub watched_backup_paths : List Text
  pub release_keep : ℕ
  pub release_min_age_days : ℕ
  pub image_min_age_hours : ℕ
  pub high_watermark_percent : ℕ
  pub target_watermark_percent : ℕ
  pub pinned_releases : List Text
  pub blocking_process_patterns : List Text
  pub now : ℕ

abbrev pub is_empty : Text → Bool
is_empty [] = true
is_empty (c ∷ s) = false

abbrev pub non_empty : List Text → List Text
non_empty = filter (λ entry. not (is_empty entry))

unfoldable pub parse_csv : Option Text → List Text
parse_csv none = []
parse_csv (some value) = non_empty (map trim (split b',' value))

abbrev or_text : Option Text → String → Text
or_text none fallback = codes fallback
or_text (some value) fallback = value

-- `cliReportPath || undefined` of a path that was given, the environment's or the default of one that
-- was not.
abbrev report_path_of : Option Text → Option Text → Option Text
report_path_of none env_path =
    some (or_text env_path "/var/lib/simplehost/storage-maintenance/latest.json")
report_path_of (some []) env_path = none
report_path_of (some (c ∷ path)) env_path = some (c ∷ path)

abbrev pub default_blocking_process_patterns : List Text
default_blocking_process_patterns =
    codes "run-platform-genesis-aal2.sh"
    ∷ codes "prepare-platform-genesis-live-input.mjs"
    ∷ codes "prepare-platform-genesis-private.mjs"
    ∷ codes "authorize-and-execute-platform-genesis.mjs"
    ∷ codes "execute-dictionary-catalog-genesis-product.mjs"
    ∷ codes "install-release.sh"
    ∷ codes "deploy-release.sh"
    ∷ codes "install-bundle.sh"
    ∷ []

module _ (integer : Text → Option ℕ) where
  abbrev integer_or : String → Option ℕ → Result OptionsError ℕ
  integer_or name none = err (not_a_non_negative_integer name)
  integer_or name (some n) = ok n

  unfoldable pub parse_non_negative_integer : Option Text → ℕ → String → Result OptionsError ℕ
  parse_non_negative_integer none fallback name = ok fallback
  parse_non_negative_integer (some value) fallback name =
      if is_empty (trim value) then ok fallback else integer_or name (integer value)

  abbrev pub at_most_hundred : String → ℕ → Result OptionsError ℕ
  at_most_hundred name parsed = if ltb 100 parsed then err (above_one_hundred name) else ok parsed

  unfoldable pub parse_percent : Option Text → ℕ → String → Result OptionsError ℕ
  parse_percent value fallback name = do
    parsed ← parse_non_negative_integer value fallback name
    at_most_hundred name parsed

  module _ (env : String → Option Text) where
    abbrev pub read : String → ℕ → Result OptionsError ℕ
    read name fallback = parse_non_negative_integer (env name) fallback name

    abbrev pub options_with : CliOptions → ℕ → ℕ → ℕ → ℕ → ℕ → ℕ → MaintenanceOptions
    options_with cli now high target keep min_age_days image_hours = record {
      cli = cli;
      report_path = report_path_of cli.report_path (env "SIMPLEHOST_STORAGE_REPORT_PATH");
      root_path = or_text (env "SIMPLEHOST_STORAGE_ROOT_PATH") "/";
      release_root = or_text (env "SIMPLEHOST_STORAGE_RELEASE_ROOT") "/opt/simplehostman/release";
      backup_root = or_text (env "SIMPLEHOST_STORAGE_BACKUP_ROOT") "/srv/backups";
      recovery_root =
          or_text (env "SIMPLEHOST_STORAGE_GENESIS_RECOVERY_ROOT")
            "/var/lib/pyrosa-platform/genesis-recovery";
      watched_backup_paths = parse_csv (
          some (
            or_text (env "SIMPLEHOST_STORAGE_WATCHED_BACKUP_PATHS")
              "/srv/backups/databases/pyrosa-sync"));
      release_keep = keep;
      release_min_age_days = min_age_days;
      image_min_age_hours = image_hours;
      high_watermark_percent = high;
      target_watermark_percent = target;
      pinned_releases = parse_csv (env "SIMPLEHOST_STORAGE_RELEASE_PINS");
      blocking_process_patterns =
          default_blocking_process_patterns
          ++ parse_csv (env "SIMPLEHOST_STORAGE_BLOCKING_PROCESS_PATTERNS");
      now = now;
    }

    abbrev pub below_high : ℕ → ℕ → Result OptionsError (Unit {0})
    below_high target high = if leb high target then err target_not_below_high else ok tt

    unfoldable pub build_storage_maintenance_options :
        CliOptions → ℕ → Result OptionsError MaintenanceOptions
    build_storage_maintenance_options cli now = do
      high ←
          parse_percent (env "SIMPLEHOST_STORAGE_HIGH_WATERMARK_PERCENT") 85
            "SIMPLEHOST_STORAGE_HIGH_WATERMARK_PERCENT"
      target ←
          parse_percent (env "SIMPLEHOST_STORAGE_TARGET_WATERMARK_PERCENT") 80
            "SIMPLEHOST_STORAGE_TARGET_WATERMARK_PERCENT"
      _ ← below_high target high
      keep ← read "SIMPLEHOST_STORAGE_RELEASE_KEEP" 5
      min_age_days ← read "SIMPLEHOST_STORAGE_RELEASE_MIN_AGE_DAYS" 7
      image_hours ← read "SIMPLEHOST_STORAGE_IMAGE_MIN_AGE_HOURS" 168
      ok (options_with cli now high target keep min_age_days image_hours)

-- White space alone, or nothing.
abbrev pub is_blank : Text → Bool
is_blank s = not (any (λ c. not (is_space c)) s)

any-append_last : (p : ℕ → Bool) (s : Text) (c : ℕ) → p c ≡ true → any p (s ++ c ∷ []) ≡ true
any-append_last p [] c h = ground (arith, h)
any-append_last p (d ∷ s) c h = ground (arith, any-append_last p s c h)

-- What is left of a text begins with a code unit that is no white space.
drop_while-first :
    (s : Text)
    → (drop_while is_space s ≡ [])
      ⊎ ((c : ℕ) × (t : Text) × (drop_while is_space s ≡ c ∷ t) × (is_space c ≡ false))
drop_while-first [] = inl refl
drop_while-first (c ∷ s) = elim (Bool-cases (is_space c)) [
  | inl e ↦ rw e (drop_while-first s)
  | inr e ↦ rw e (inr (c, s, refl, e))
]

trim-is_blank : (s : Text) → is_empty (trim s) ≡ false → is_blank (trim s) ≡ false
unfolding trim
trim-is_blank s h = elim (drop_while-first (reverse (drop_while is_space s))) [
  | inl e ↦ cc (rw e at h)
  | inr (c, t, e, visible) ↦ rw e (
      ap not (
        ap (any (λ d. not (is_space d))) (reverse-cons c t)
        ∙ any-append_last (λ d. not (is_space d)) (reverse t) c (ap not visible)))
]

csv-is_blank :
    (entries : List Text) → All (λ entry. is_blank entry ≡ false) (non_empty (map trim entries))
csv-is_blank [] = tt
csv-is_blank (entry ∷ entries) = elim (Bool-cases (is_empty (trim entry))) [
  | inl e ↦ rw e (csv-is_blank entries)
  | inr e ↦ rw e (trim-is_blank entry e, csv-is_blank entries)
]

csv_blank_free : (value : Option Text) → All (λ entry. is_blank entry ≡ false) (parse_csv value)
unfolding parse_csv
csv_blank_free none = tt
csv_blank_free (some value) = csv-is_blank (split b',' value)

module _ (integer : Text → Option ℕ) where
  parse_percent_bound :
      (value : Option Text) (fallback : ℕ) (name : String) (n : ℕ)
      → parse_percent integer value fallback name ≡ ok n
      → n ≤ 100
  unfolding parse_percent
  parse_percent_bound value fallback name n e =
      let (parsed, _, h) =
        ok_of_bind (parse_non_negative_integer integer value fallback name) _ e in
      go parsed h
    where
      go : (parsed : ℕ) → at_most_hundred integer name parsed ≡ ok n → n ≤ 100
      go parsed h = elim (Bool-cases (ltb 100 parsed)) [
        | inl above ↦ cc (rw above at h)
        | inr below ↦ let same : parsed ≡ n = cc (rw below at h) in ground (arith, same, below)
      ]

  target_below_high :
      (env : String → Option Text) (target high : ℕ) (u : Unit {0})
      → below_high integer env target high ≡ ok u
      → target < high
  target_below_high env target high u h = elim (Bool-cases (leb high target)) [
    | inl e ↦ cc (rw e at h)
    | inr e ↦ ground (arith, e)
  ]

  -- Whatever the environment holds, options that are built have a target watermark below the high one
  -- and the high one at most 100 per cent; no pin and no pattern of a blocking process is empty or white
  -- space alone, and the patterns begin with those that are built in.
  pub options-AreBounded :
      (env : String → Option Text) (cli : CliOptions) (now : ℕ) (options : MaintenanceOptions)
      → build_storage_maintenance_options integer env cli now ≡ ok options
      → (options.target_watermark_percent < options.high_watermark_percent)
        × (options.high_watermark_percent ≤ 100)
        × All (λ pin. is_blank pin ≡ false) options.pinned_releases
        × All (λ pattern. is_blank pattern ≡ false) options.blocking_process_patterns
        × (take 8 options.blocking_process_patterns ≡ default_blocking_process_patterns)
  unfolding build_storage_maintenance_options
  options-AreBounded env cli now options e =
      let (high, e1, h1) =
        ok_of_bind
          (parse_percent integer (env "SIMPLEHOST_STORAGE_HIGH_WATERMARK_PERCENT") 85
            "SIMPLEHOST_STORAGE_HIGH_WATERMARK_PERCENT")
          _ e in
      let (target, e2, h2) =
        ok_of_bind
          (parse_percent integer (env "SIMPLEHOST_STORAGE_TARGET_WATERMARK_PERCENT") 80
            "SIMPLEHOST_STORAGE_TARGET_WATERMARK_PERCENT")
          _ h1 in
      let (u, e3, h3) = ok_of_bind (below_high integer env target high) _ h2 in
      let (keep, _, h4) = ok_of_bind (read integer env "SIMPLEHOST_STORAGE_RELEASE_KEEP" 5) _ h3 in
      let (days, _, h5) =
        ok_of_bind (read integer env "SIMPLEHOST_STORAGE_RELEASE_MIN_AGE_DAYS" 7) _ h4 in
      let (hours, _, h6) =
        ok_of_bind (read integer env "SIMPLEHOST_STORAGE_IMAGE_MIN_AGE_HOURS" 168) _ h5 in
      let same : options_with integer env cli now high target keep days hours ≡ options = cc h6 in
      rw (← same) (
        target_below_high env target high u e3,
        parse_percent_bound _ 85 _ high e1,
        csv_blank_free (env "SIMPLEHOST_STORAGE_RELEASE_PINS"),
        All-append _ default_blocking_process_patterns _
            (refl, (refl, (refl, (refl, (refl, (refl, (refl, (refl, tt))))))))
            (csv_blank_free (env "SIMPLEHOST_STORAGE_BLOCKING_PROCESS_PATTERNS")),
        refl,
      )
