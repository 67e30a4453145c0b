-- ===== src/Control.antt =====
-- The search for the root of the workspace: `resolveWorkspaceRoot` of
-- apps/control/src/release-sandbox-layout.ts. `dirname` and `join` of node:path are parameters, and so
-- is `package_name`, the name that a package.json file declares, if it can be read.
use simple_host_man.Prelude.Result.{err, ok, Result}
use simple_host_man.Prelude.Text.{same_sound, same_refl, codes, same, Text}
use simple_host_man.Prelude.{
  sym, length, refl, ap, ◌∙◌, ◌≡◌, ◌⊎◌, inl, inr, ℕ, zero, suc, ◌<◌, Bool, true, false, Option,
  none, some, if◌then◌else◌, arith, Bool-cases,
}

pub data LayoutError : Type 0 where
  unable_to_resolve_workspace_root : Text → LayoutError

module _ (dirname : Text → Text) (join : Text → Text → Text)
    (package_name : Text → Option Text) where
  abbrev named : Option Text → Bool
  named none = false
  named (some name) = same name (codes "simplehost-source")

  unfoldable pub is_workspace : Text → Bool
  is_workspace dir = named (package_name (join dir (codes "package.json")))

  -- `none` when the fuel ends before the search does.
  unfoldable pub search_workspace_root : ℕ → Text → Text → Option (Result LayoutError Text)
  search_workspace_root zero start current = none
  search_workspace_root (suc fuel) start current =
      let rest = search_workspace_root fuel start (dirname current) in
      if is_workspace current
      then some (ok current)
      else if same (dirname current) current
      then some (err (unable_to_resolve_workspace_root start))
      else rest

  -- A turn shortens the path, or leads to ".", or is the last, so that there are at most as many turns
  -- as the path has characters, and two more.
  unfoldable pub resolve_workspace_root : Text → Option (Result LayoutError Text)
  resolve_workspace_root start = search_workspace_root (suc (suc (length start))) start start

  -- The directory `n` levels up.
  abbrev pub ancestor : ℕ → Text → Text
  ancestor zero dir = dir
  ancestor (suc n) dir = ancestor n (dirname dir)

  -- The outcome of a search from a directory.
  abbrev pub IsNearest : Text → Text → Result LayoutError Text → Type 0
  IsNearest start dir (ok root) =
      (n : ℕ) × (root ≡ ancestor n dir)
      × (is_workspace root ≡ true)
      × ((m : ℕ) → m < n → is_workspace (ancestor m dir) ≡ false)
  IsNearest start dir (err e) =
      (e ≡ unable_to_resolve_workspace_root start)
      × ((m : ℕ) → is_workspace (ancestor m dir) ≡ false)

  at_root : (dir : Text) → dirname dir ≡ dir → (m : ℕ) → ancestor m dir ≡ dir
  at_root dir e zero = refl
  at_root dir e (suc m) = ap (ancestor m) e ∙ at_root dir e m

  -- A step up keeps the nearest workspace, if the directory is none itself.
  step_up :
      (start dir : Text) (outcome : Result LayoutError Text)
      → is_workspace dir ≡ false
      → IsNearest start (dirname dir) outcome
      → IsNearest start dir outcome
  step_up start dir (ok root) h (n, e, found, before) = (suc n, e, found, below)
    where
      below : (m : ℕ) → m < suc n → is_workspace (ancestor m dir) ≡ false
      below zero k = h
      below (suc m) k = before m (omega arith)
  step_up start dir (err x) h (e, never) = (e, below)
    where
      below : (m : ℕ) → is_workspace (ancestor m dir) ≡ false
      below zero = h
      below (suc m) = never m

  -- What node:path has for `dirname`: it is shorter than the path, or the path itself, or ".", the
  -- directory of "" and of a name alone, which is its own directory.
  module _
      (shortens : (path : Text)
        → (dirname path ≡ path)
          ⊎ ((length (dirname path) < length path) ⊎ (dirname path ≡ codes ".")))
      (dot_itself : dirname (codes ".") ≡ codes ".") where
    abbrev HasOutcome : ℕ → Text → Text → Type 0
    HasOutcome fuel start dir =
        (outcome : Result LayoutError Text) × (search_workspace_root fuel start dir ≡ some outcome)
        × IsNearest start dir outcome

    ends_at_root :
        (fuel : ℕ) (start dir : Text) → dirname dir ≡ dir → HasOutcome (suc fuel) start dir
    unfolding search_workspace_root
    ends_at_root fuel start dir top = elim (Bool-cases (is_workspace dir)) [
      | inl found ↦ (ok dir, rw found refl, (0, refl, found, λ m k. absurd (omega (arith, k))))
      | inr other ↦
          let stays : same (dirname dir) dir ≡ true = ap (λ d. same d dir) top ∙ same_refl dir in
          (
            err (unable_to_resolve_workspace_root start),
            rw (other, stays) refl,
            (refl, λ m. ap is_workspace (at_root dir top m) ∙ other),
          )
    ]

    ends_above :
        (fuel : ℕ) (start dir : Text)
        → HasOutcome fuel start (dirname dir)
        → HasOutcome (suc fuel) start dir
    unfolding search_workspace_root
    ends_above fuel start dir (outcome, e, nearest) = elim (Bool-cases (is_workspace dir)) [
      | inl found ↦ (ok dir, rw found refl, (0, refl, found, λ m k. absurd (omega (arith, k))))
      | inr other ↦ elim (Bool-cases (same (dirname dir) dir)) [
        | inl top ↦ (
          err (unable_to_resolve_workspace_root start),
          rw (other, top) refl,
          (refl, λ m. ap is_workspace (at_root dir (same_sound (dirname dir) dir top) m) ∙ other),
        )
        | inr below ↦ (outcome, rw (other, below) e, step_up start dir outcome other nearest)
      ]
    ]

    search_ends :
        (fuel : ℕ) (start dir : Text) → suc (length dir) < fuel → HasOutcome fuel start dir
    search_ends zero start dir enough = absurd (omega arith)
    search_ends (suc zero) start dir enough = absurd (omega arith)
    search_ends (suc (suc fuel)) start dir enough = elim (shortens dir) [
      | inl top ↦ ends_at_root (suc fuel) start dir top
      | inr (inl less) ↦
          ends_above (suc fuel) start dir
            (search_ends (suc fuel) start (dirname dir) (omega (arith, less, enough)))
      | inr (inr dot) ↦
          ends_above (suc fuel) start dir
            (ends_at_root fuel start (dirname dir) (ap dirname dot ∙ dot_itself ∙ sym dot))
    ]

    -- Where `dirname` is as documented, the search ends from any path: with the nearest directory,
    -- from the start upwards, whose package.json has the name of the workspace, or with an error if no
    -- directory above has.
    pub resolve_workspace_root_ends :
        (start : Text)
        → (outcome : Result LayoutError Text) × (resolve_workspace_root start ≡ some outcome)
          × IsNearest start start outcome
    unfolding resolve_workspace_root
    resolve_workspace_root_ends start =
        search_ends (suc (suc (length start))) start start (omega arith)
