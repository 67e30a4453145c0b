-- ===== src/Examples/Workspace.antt =====
-- The search for a workspace, with a `dirname` of POSIX paths.
use mathlib.Core.List.{reverse-cons}
use simple_host_man.Prelude.Result.{ok, Result}
use simple_host_man.Control.{
  search_workspace_root, is_workspace, resolve_workspace_root_ends, IsNearest, LayoutError,
  resolve_workspace_root,
}
use simple_host_man.Prelude.Text.{same, codes, Text, drop_while, starts_with}
use simple_host_man.Prelude.{
  ==_iff, suc, length, length-append, reverse, refl, ap, ◌∙◌, ◌≡◌, ◌⊎◌, inl, inr, ℕ, ◌<◌, ◌≤◌, ◌==◌,
  not, Bool, Option, none, some, [], ◌∷◌, if◌then◌else◌, arith, Bool-cases,
}

abbrev is_slash : ℕ → Bool
is_slash c = c == b'/'

-- The path, from its end, without its last part and the slashes around it.
abbrev above : Text → Text
above s = drop_while is_slash (drop_while (λ c. not (is_slash c)) (drop_while is_slash s))

abbrev directory : Text → Text → Text
directory path [] = if starts_with (codes "/") path then codes "/" else codes "."
directory path (c ∷ s) = reverse (c ∷ s)

abbrev parent : Text → Text
parent path = directory path (above (reverse path))

drop_while-le : (p : ℕ → Bool) (s : Text) → length (drop_while p s) ≤ length s
drop_while-le p [] = omega arith
drop_while-le p (c ∷ s) = ground (arith, drop_while-le p s)

above-le : (s : Text) → length (above s) ≤ length s
above-le s = omega (
  arith,
  drop_while-le is_slash s,
  drop_while-le (λ c. not (is_slash c)) (drop_while is_slash s),
  drop_while-le is_slash (drop_while (λ c. not (is_slash c)) (drop_while is_slash s)),
)

above_shortens : (c : ℕ) (s : Text) → length (above (c ∷ s)) < suc (length s)
above_shortens c s = elim (Bool-cases (is_slash c)) [
  | inl e ↦ rw e (omega (arith, above-le s))
  | inr e ↦ rw e (
      rw e (
        omega (
          arith,
          drop_while-le (λ d. not (is_slash d)) s,
          drop_while-le is_slash (drop_while (λ d. not (is_slash d)) s),
        )))
]

length-reverse : (s : Text) → length (reverse s) ≡ length s
length-reverse [] = refl
length-reverse (c ∷ s) =
    ap length (reverse-cons c s)
    ∙ length-append (reverse s) (c ∷ [])
    ∙ omega (arith, length-reverse s)

abbrev IsShortened : Text → Text → Type 0
IsShortened path dir = (dir ≡ path) ⊎ ((length dir < length path) ⊎ (dir ≡ codes "."))

directory_shortens :
    (path up : Text) → (up ≡ []) ⊎ (length up < length path) → IsShortened path (directory path up)
directory_shortens [] [] h = inr (inr refl)
directory_shortens (c ∷ []) [] h = elim (Bool-cases (b'/' == c)) [
  | inl e ↦ rw e (inl (ap (λ d. d ∷ []) ((==_iff b'/' c).0 e)))
  | inr e ↦ rw e (inr (inr refl))
]
directory_shortens (c ∷ d ∷ s) [] h = elim (Bool-cases (b'/' == c)) [
  | inl e ↦ rw e (inr (inl (omega arith)))
  | inr e ↦ rw e (inr (inr refl))
]
directory_shortens path (c ∷ s) (inl e) = cc
directory_shortens path (c ∷ s) (inr less) = inr (inl (rw (length-reverse (c ∷ s)) less))

above_cases : (s : Text) → (above s ≡ []) ⊎ (length (above s) < length s)
above_cases [] = inl refl
above_cases (c ∷ s) = inr (above_shortens c s)

parent_shortens : (path : Text) → IsShortened path (parent path)
parent_shortens path =
    directory_shortens path (above (reverse path)) (elim (above_cases (reverse path)) [
      | inl e ↦ inl e
      | inr less ↦ inr (rw (← length-reverse path) less)
    ])

abbrev inside : Text → Text → Text
inside dir file = dir

abbrev declared : Text → Option Text
declared dir = if same dir (codes "/srv") then some (codes "simplehost-source") else none

resolve_workspace_root_ends_example :
    (outcome : Result LayoutError Text) × (resolve_workspace_root parent inside declared
        (codes "/srv/app/dist")
      ≡ some outcome)
    × IsNearest parent inside declared (codes "/srv/app/dist") (codes "/srv/app/dist") outcome
resolve_workspace_root_ends_example =
    resolve_workspace_root_ends parent inside declared parent_shortens refl (codes "/srv/app/dist")

finds_root :
    resolve_workspace_root parent inside declared (codes "/srv/app/dist") ≡ some (ok (codes "/srv"))
unfolding resolve_workspace_root search_workspace_root is_workspace
finds_root = refl

name_test : parent (codes "app") ≡ codes "."
name_test = refl
