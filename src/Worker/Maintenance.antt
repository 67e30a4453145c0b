-- ===== src/Worker/Maintenance.antt =====
-- Storage maintenance: apps/worker/src/storage-maintenance.ts, which release directories it may
-- remove, when it applies its plan, and the options it runs with.
-- A percentage of use is in hundredths, as `readFilesystemUsage` computes it; a modification time and
-- the clock are numbers of milliseconds.
pub mod Options
pub mod Processes
pub mod Removal
use simple_host_man.Store.Tables.{any_id}
use simple_host_man.Prelude.{
  ◌/◌, ◌==◌, leb, take, sort, ltb, refl, sym, ap, ◌∙◌, ◌≡◌, ◌≢◌, ◌⊎◌, ◌↔◌, inl, inr, ℕ, zero, suc,
  ◌+◌, ◌-◌, ◌*◌, ◌≤◌, ◌<◌, Bool, true, false, not, ◌&&◌, ◌||◌, String, Option, none, some, List, [],
  ◌∷◌, ◌++◌, map, if◌then◌else◌, arith, Bool-cases, Option-cases, str_eq,
}

abbrev pub day_ms : ℕ
day_ms = 24 * 60 * 60 * 1000

pub data Mode : Type 0 where
  dry_run apply : Mode

pub record ReleaseEntry : Type 0 where
  pub name : String
  pub path : String
  pub mtime_ms : ℕ
  pub size_bytes : ℕ

pub record ReleaseInventoryEntry : Type 0 where
  pub entry : ReleaseEntry
  pub protected_reasons : List String

pub record ReleaseInventory : Type 0 where
  pub active_release : Option String
  pub protected : List ReleaseInventoryEntry
  pub candidates : List ReleaseInventoryEntry

pub record SelectionOptions : Type 0 where
  pub active_release : Option String
  pub pinned_releases : List String
  pub metadata_releases : List String
  pub keep : ℕ
  pub min_age_days : ℕ
  pub now : ℕ

abbrev pub is_active : String → Option String → Bool
is_active name none = false
is_active name (some active) = str_eq name active

abbrev when : Bool → String → List String
when b reason = if b then reason ∷ [] else []

abbrev pub names_of : List ReleaseEntry → List String
names_of = map (λ entry. entry.name)

unfoldable pub protected_reasons : SelectionOptions → List String → ReleaseEntry → List String
protected_reasons options newest entry =
    when (is_active entry.name options.active_release) "active"
    ++ when (any_id entry.name newest) "latest"
    ++ when (any_id entry.name options.pinned_releases) "pinned"
    ++ when (any_id entry.name options.metadata_releases) "release-metadata"

-- `ageDays < minAgeDays`, with a modification time after now as a negative age.
abbrev pub is_young : SelectionOptions → ReleaseEntry → Bool
is_young options entry = ltb options.now (entry.mtime_ms + options.min_age_days * day_ms)

abbrev pub to_protected : ReleaseInventoryEntry → ReleaseInventory → ReleaseInventory
to_protected entry inventory = record inventory { protected = entry ∷ inventory.protected }

abbrev pub to_candidates : ReleaseInventoryEntry → ReleaseInventory → ReleaseInventory
to_candidates entry inventory = record inventory { candidates = entry ∷ inventory.candidates }

abbrev pub classify :
    SelectionOptions → ReleaseEntry → List String → ReleaseInventory → ReleaseInventory
classify options entry [] inventory =
    if is_young options entry
    then to_protected (record { entry = entry; protected_reasons = "minimum-age" ∷ [] }) inventory
    else to_candidates (record { entry = entry; protected_reasons = [] }) inventory
classify options entry (reason ∷ reasons) inventory =
    to_protected (record { entry = entry; protected_reasons = reason ∷ reasons }) inventory

unfoldable pub classify_all : SelectionOptions → List String → List ReleaseEntry → ReleaseInventory
classify_all options newest [] = record {
  active_release = options.active_release;
  protected = [];
  candidates = [];
}
classify_all options newest (entry ∷ entries) =
    classify options entry (protected_reasons options newest entry)
      (classify_all options newest entries)

-- `collate` is `right.name.localeCompare(left.name) <= 0`.
module _ (collate : String → String → Bool) where
  abbrev pub comes_first : ReleaseEntry → ReleaseEntry → Bool
  comes_first left right =
      if ltb right.mtime_ms left.mtime_ms
      then true
      else if ltb left.mtime_ms right.mtime_ms
      then false
      else collate right.name left.name

  abbrev pub ordered : List ReleaseEntry → List ReleaseEntry
  ordered = sort comes_first

  unfoldable pub select_release_candidates : List ReleaseEntry → SelectionOptions → ReleaseInventory
  select_release_candidates entries options =
      classify_all options (names_of (take options.keep (ordered entries))) (ordered entries)

-- `usedPercent` in hundredths. A file system does not have more free than all blocks.
unfoldable pub used_percent : ℕ → ℕ → ℕ → ℕ → ℕ
used_percent blocks bfree bavail bsize =
    let used = (blocks - bfree) * bsize in
    let capacity = used + bavail * bsize in if capacity == 0 then 0 else (used * 10000) / capacity

abbrev is_apply : Mode → Bool
is_apply dry_run = false
is_apply apply = true

unfoldable pub should_apply_maintenance : Mode → ℕ → ℕ → ℕ → Bool
should_apply_maintenance mode used high_watermark_percent blocker_count =
    is_apply mode && leb (high_watermark_percent * 100) used && blocker_count == 0

-- The directories that are removed, and the names of those whose removal fails.
pub record Removed : Type 0 where
  pub removed : List String
  pub bytes_removed : ℕ
  pub failed : List String

-- `remove` tells whether a path passes the validation of `removeReleaseCandidate` and is deleted.
module _ (remove : String → Bool) where
  unfoldable pub remove_release_candidate : ReleaseInventoryEntry → Option String → Bool
  remove_release_candidate candidate active_release =
      if is_active candidate.entry.name active_release then false else remove candidate.entry.path

  unfoldable pub remove_candidates : Option String → List ReleaseInventoryEntry → Removed
  remove_candidates active_release [] = record { removed = []; bytes_removed = 0; failed = [] }
  remove_candidates active_release (candidate ∷ candidates) =
      let rest = remove_candidates active_release candidates in
      if remove_release_candidate candidate active_release
      then record rest {
        removed = candidate.entry.name ∷ rest.removed;
        bytes_removed = candidate.entry.size_bytes + rest.bytes_removed;
      }
      else record rest { failed = candidate.entry.name ∷ rest.failed }

  -- The part of `runStorageMaintenance` that removes releases.
  unfoldable pub remove_releases : Mode → ℕ → ℕ → ℕ → ReleaseInventory → Removed
  remove_releases mode used high_watermark_percent blocker_count inventory =
      if should_apply_maintenance mode used high_watermark_percent blocker_count
      then remove_candidates inventory.active_release inventory.candidates
      else record { removed = []; bytes_removed = 0; failed = [] }
