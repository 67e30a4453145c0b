-- ===== src/Worker/Maintenance/Removal.antt =====
-- What storage maintenance removes.
use mathlib.Core.List.Perm
use mathlib.Core.List.{perm_middle}
use simple_host_man.Worker.Maintenance.{
  dry_run, apply, day_ms, remove_release_candidate, apply, remove_releases, ReleaseInventoryEntry,
  Mode, select_release_candidates, should_apply_maintenance, remove_candidates, ordered, names_of,
  classify, comes_first, any_id, is_active, is_young, ReleaseInventory, classify_all, when,
  ReleaseEntry, SelectionOptions, protected_reasons,
}
use simple_host_man.Prelude.{
  ==_iff, sort-perm, sort-IsDescending, or-false, All-zip, All-imp, eq_refl, All-tabulate, take,
  All, Perm, IsDescending, refl, ◌≡◌, inl, inr, ℕ, zero, suc, ◌+◌, ◌*◌, ◌≤◌, Bool, true, false,
  String, Option, List, [], ◌∷◌, ◌++◌, map, arith, Bool-cases, str_eq,
}

abbrev pub entries_of : ReleaseInventory → List ReleaseEntry
entries_of inventory =
    map (λ c. c.entry) inventory.protected ++ map (λ c. c.entry) inventory.candidates

module _ (options : SelectionOptions) (newest : List String) where
  -- An entry that no reason protects.
  abbrev IsFree : ReleaseEntry → Type 0
  IsFree entry = (protected_reasons options newest entry ≡ []) × (is_young options entry ≡ false)

  classify-IsFree :
      (entry : ReleaseEntry) (reasons : List String) (inventory : ReleaseInventory)
      → protected_reasons options newest entry ≡ reasons
      → All (λ c. IsFree c.entry) inventory.candidates
      → All (λ c. IsFree c.entry) (classify options entry reasons inventory).candidates
  classify-IsFree entry [] inventory e h = elim (Bool-cases (is_young options entry)) [
    | inl young ↦ rw young h
    | inr old ↦ rw old ((e, old), h)
  ]
  classify-IsFree entry (reason ∷ reasons) inventory e h = h

  candidates-IsFree :
      (entries : List ReleaseEntry)
      → All (λ c. IsFree c.entry) (classify_all options newest entries).candidates
  unfolding classify_all
  candidates-IsFree [] = tt
  candidates-IsFree (entry ∷ entries) =
      classify-IsFree entry _ (classify_all options newest entries) refl (candidates-IsFree entries)

  -- What holds of every entry holds of every candidate.
  candidates-All :
      (P : ReleaseEntry → Type 0) (entries : List ReleaseEntry)
      → All P entries
      → All (λ c. P c.entry) (classify_all options newest entries).candidates
  unfolding classify_all
  candidates-All P [] h = tt
  candidates-All P (entry ∷ entries) h =
      go (protected_reasons options newest entry) (candidates-All P entries h.1)
    where
      go :
          (reasons : List String)
          → All (λ c. P c.entry) (classify_all options newest entries).candidates
          → All
              (λ c. P c.entry)
              (classify options entry reasons (classify_all options newest entries)).candidates
      go [] k = elim (Bool-cases (is_young options entry)) [
        | inl young ↦ rw young k
        | inr old ↦ rw old (h.0, k)
      ]
      go (reason ∷ reasons) k = k

  -- Every entry is protected or a candidate, once.
  classify_all-perm :
      (entries : List ReleaseEntry)
      → Perm (entries_of (classify_all options newest entries)) entries
  unfolding classify_all
  classify_all-perm [] = Perm.refl _
  classify_all-perm (entry ∷ entries) =
      Perm.trans (go (protected_reasons options newest entry))
        (Perm.cons entry (classify_all-perm entries))
    where
      go :
          (reasons : List String)
          → Perm
              (entries_of (classify options entry reasons (classify_all options newest entries)))
              (entry ∷ entries_of (classify_all options newest entries))
      go [] = elim (Bool-cases (is_young options entry)) [
        | inl young ↦ rw young (Perm.refl _)
        | inr old ↦
            rw old
              (perm_middle (map (λ c. c.entry) (classify_all options newest entries).protected) _)
      ]
      go (reason ∷ reasons) = Perm.refl _

empty_parts : (xs ys : List String) → xs ++ ys ≡ [] → (xs ≡ []) × (ys ≡ [])
empty_parts [] ys h = (refl, h)
empty_parts (x ∷ xs) ys h = cc

no_reason : (b : Bool) (reason : String) → when b reason ≡ [] → b ≡ false
no_reason true reason h = cc
no_reason false reason h = refl

unprotected :
    (options : SelectionOptions) (newest : List String) (entry : ReleaseEntry)
    → protected_reasons options newest entry ≡ []
    → (is_active entry.name options.active_release ≡ false)
      × (any_id entry.name newest ≡ false)
      × (any_id entry.name options.pinned_releases ≡ false)
      × (any_id entry.name options.metadata_releases ≡ false)
unfolding protected_reasons
unprotected options newest entry h =
    let active = when (is_active entry.name options.active_release) "active" in
    let latest = when (any_id entry.name newest) "latest" in
    let pinned = when (any_id entry.name options.pinned_releases) "pinned" in
    let metadata = when (any_id entry.name options.metadata_releases) "release-metadata" in
    let (first_three, no_metadata) = empty_parts ((active ++ latest) ++ pinned) metadata h in
    let (first_two, no_pin) = empty_parts (active ++ latest) pinned first_three in
    let (not_active, not_latest) = empty_parts active latest first_two in
    (
      no_reason _ "active" not_active,
      no_reason _ "latest" not_latest,
      no_reason _ "pinned" no_pin,
      no_reason _ "release-metadata" no_metadata,
    )

-- In a list that descends, an entry whose name is not among the first ones is none of them, and so no
-- newer than any.
module _ (collate : String → String → Bool) where
  beyond_first :
      (n : ℕ) (entries : List ReleaseEntry)
      → IsDescending (comes_first collate) (λ entry. entry.mtime_ms) entries
      → All
          (λ entry.
            any_id entry.name (names_of (take n entries)) ≡ false
            → All (λ kept. entry.mtime_ms ≤ kept.mtime_ms) (take n entries))
          entries
  beyond_first zero entries h = All-tabulate _ entries (λ entry k. tt)
  beyond_first (suc n) [] h = tt
  beyond_first (suc n) (first ∷ entries) h = (
    (λ k. absurd (cc (k, eq_refl first.name))),
    All-imp _ _ entries (All-zip _ _ entries h.0 (beyond_first n entries h.1))
        (λ entry p k. (p.0, p.1 ((or-false {a = str_eq entry.name first.name} k).1))),
  )

  ordered-IsDescending :
      (entries : List ReleaseEntry)
      → IsDescending (comes_first collate) (λ entry. entry.mtime_ms) (ordered collate entries)
  ordered-IsDescending =
      sort-IsDescending (comes_first collate) (λ entry. entry.mtime_ms) (λ x y h. ground arith)
        (λ x y h. ground arith)

module _ (remove : String → Bool) (P : String → Type 0) where
  removed-All :
      (active : Option String) (candidates : List ReleaseInventoryEntry)
      → All (λ c. P c.entry.name) candidates
      → All P (remove_candidates remove active candidates).removed
  unfolding remove_candidates
  removed-All active [] h = tt
  removed-All active (c ∷ candidates) h =
      elim (Bool-cases (remove_release_candidate remove c active)) [
        | inl gone ↦ rw gone (h.0, removed-All active candidates h.1)
        | inr left ↦ rw left (removed-All active candidates h.1)
      ]

applied :
    (mode : Mode) (used high blockers : ℕ)
    → should_apply_maintenance mode used high blockers ≡ true
    → (mode ≡ apply) × (high * 100 ≤ used) × (blockers ≡ 0)
unfolding should_apply_maintenance
applied dry_run used high blockers h = cc
applied apply used high blockers h = (refl, ground (arith), ground (arith, ==_iff blockers 0))

abbrev pub IsRemovable : SelectionOptions → List ReleaseEntry → String → Type 0
IsRemovable options kept name =
    (is_active name options.active_release ≡ false)
    × (any_id name (names_of kept) ≡ false)
    × (any_id name options.pinned_releases ≡ false)
    × (any_id name options.metadata_releases ≡ false)

-- Every release stands once among the protected ones and the candidates; a candidate is as old as the
-- minimum age and no newer than any of the releases that are kept for being the latest. A run removes
-- a release only if it is to apply its plan, use is at the high watermark and nothing blocks it, and
-- then none that is active, one of the latest, pinned or named in the metadata.
pub maintenance-IsSafe :
    (collate : String → String → Bool) (remove : String → Bool) (entries : List ReleaseEntry)
    (options : SelectionOptions) (mode : Mode) (used high blockers : ℕ)
    → let kept = take options.keep (ordered collate entries) in
      let inventory = select_release_candidates collate entries options in
      Perm (entries_of inventory) entries
      × All
          (λ c.
            (c.entry.mtime_ms + options.min_age_days * day_ms ≤ options.now)
            × All (λ k. c.entry.mtime_ms ≤ k.mtime_ms) kept)
          inventory.candidates
      × All
          (λ name.
            (mode ≡ apply) × (high * 100 ≤ used) × (blockers ≡ 0) × IsRemovable options kept name)
          (remove_releases remove mode used high blockers inventory).removed
unfolding select_release_candidates remove_releases
maintenance-IsSafe collate remove entries options mode used high blockers =
    let sorted = ordered collate entries in
    let newest = names_of (take options.keep sorted) in
    let free =
      All-imp _
        (λ c.
          IsRemovable options (take options.keep sorted) c.entry.name
          × (is_young options c.entry ≡ false))
        _ (candidates-IsFree options newest sorted)
        (λ c p. (unprotected options newest c.entry (p.0), p.1)) in
    let beyond =
      candidates-All options newest _ sorted
        (beyond_first collate options.keep sorted (ordered-IsDescending collate entries)) in
    let candidates = (classify_all options newest sorted).candidates in
    (
      Perm.trans (classify_all-perm options newest sorted)
          (sort-perm (comes_first collate) entries),
      All-imp _ _ candidates (All-zip _ _ candidates free beyond)
          (λ c p. (ground (arith, p.0.1), p.1 (p.0.0.1))),
      elim (Bool-cases (should_apply_maintenance mode used high blockers)) [
        | inl e ↦
            let (is_mode, is_high, is_free) = applied mode used high blockers e in
            rw e (
              removed-All remove _ _ candidates
                (All-imp _ _ candidates free (λ c p. (is_mode, is_high, is_free, p.0))))
        | inr e ↦ rw e tt
      ],
    )
