-- ===== src/Worker/Retention.antt =====
-- `selectBackupRetentionCandidates` of apps/worker/src/backup-runner.ts. `collate` is
-- `left.localeCompare(right) <= 0`; a modification time is a number of its smallest unit.
use simple_host_man.Prelude.{
  sort-IsDescending, IsDescending, subst, sort-perm, length-sort, drop, Perm, length, ltb, filter,
  sort, All, refl, ap, ◌≡◌, ℕ, ◌≤◌, Bool, true, false, String, List, [], ◌∷◌, if◌then◌else◌, arith,
}

pub record BackupRetentionEntry : Type 0 where
  pub name : String
  pub path : String
  pub is_directory : Bool
  pub mtime_ms : ℕ

module _ (collate : String → String → Bool) where
  -- The comparator's result is not positive.
  abbrev pub comes_first : BackupRetentionEntry → BackupRetentionEntry → Bool
  comes_first left right =
      if ltb right.mtime_ms left.mtime_ms
      then true
      else if ltb left.mtime_ms right.mtime_ms
      then false
      else collate left.name right.name

  abbrev pub directories : List BackupRetentionEntry → List BackupRetentionEntry
  directories entries = filter (λ entry. entry.is_directory) entries

  unfoldable pub select_backup_retention_candidates :
      List BackupRetentionEntry → ℕ → List BackupRetentionEntry
  select_backup_retention_candidates entries cutoff_ms =
      filter (λ entry. ltb entry.mtime_ms cutoff_ms)
        (drop 1 (sort comes_first (directories entries)))

  none_left : {m n : ℕ} → m ≡ 0 → m ≡ n → 1 ≤ n → ⊥
  none_left a b h = omega arith

  newest_first :
      (x : BackupRetentionEntry) (xs : List BackupRetentionEntry)
      → IsDescending comes_first (λ entry. entry.mtime_ms) (x ∷ xs)
      → All (λ y. y.mtime_ms ≤ x.mtime_ms) xs
  newest_first x xs h = h.0

  -- If there is a directory, then all of them are the newest one, which is never deleted, and some
  -- others, of which exactly those from before the cutoff are deleted.
  pub retention_keeps_newest :
      (entries : List BackupRetentionEntry) (cutoff_ms : ℕ)
      → 1 ≤ length (directories entries)
      → (newest : BackupRetentionEntry) × (rest : List BackupRetentionEntry) × Perm
          (newest ∷ rest)
          (directories entries)
        × All (λ entry. entry.mtime_ms ≤ newest.mtime_ms) rest
        × (select_backup_retention_candidates entries cutoff_ms
            ≡ filter (λ entry. ltb entry.mtime_ms cutoff_ms) rest)
  unfolding select_backup_retention_candidates
  retention_keeps_newest entries cutoff_ms some_directory =
      go (sort comes_first (directories entries)) refl
    where
      go :
          (sorted : List BackupRetentionEntry)
          → sort comes_first (directories entries) ≡ sorted
          → (newest : BackupRetentionEntry) × (rest : List BackupRetentionEntry) × Perm
              (newest ∷ rest)
              (directories entries)
            × All (λ entry. entry.mtime_ms ≤ newest.mtime_ms) rest
            × (select_backup_retention_candidates entries cutoff_ms
                ≡ filter (λ entry. ltb entry.mtime_ms cutoff_ms) rest)
      go [] e =
          absurd
            (none_left (ap length e) (length-sort comes_first (directories entries)) some_directory)
      go (newest ∷ rest) e = (
        newest,
        rest,
        rw (← e) (sort-perm comes_first (directories entries)),
        newest_first newest rest (
            subst (IsDescending comes_first (λ entry. entry.mtime_ms)) e (
              sort-IsDescending comes_first (λ entry. entry.mtime_ms) (λ x y h. ground arith)
                (λ x y h. ground arith) (directories entries))),
        ap (λ sorted. filter (λ entry. ltb entry.mtime_ms cutoff_ms) (drop 1 sorted)) e,
      )
