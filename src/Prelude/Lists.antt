-- ===== src/Prelude/Lists.antt =====
-- Lists over the native numbers: length, selection by a test, predicates on every element.
use Prim.Native.Nat.{ℕ, zero, suc, ◌+◌, ◌≤◌}
use mathlib.Core.Path.{ap, ◌≡◌, refl, sym, subst}
use mathlib.Core.Logic.{◌⊎◌, inl, inr}
use mathlib.Core.Bool.{not, Bool, true, false, ◌&&◌, ◌||◌}
use mathlib.Core.Option.{Option, none, some}
use mathlib.Core.List.{List, [], ◌∷◌, ◌++◌, map, Memᴰ}
use native.Mathlib.Omega.{arith}
use simple_host_man.Prelude.Tests.{if◌then◌else◌, Bool-cases}

module _ {ℓ} {A : Type ℓ} where
  abbrev pub length : List A → ℕ
  length [] = 0
  length (x ∷ xs) = suc (length xs)

  abbrev pub take : ℕ → List A → List A
  take zero xs = []
  take (suc n) [] = []
  take (suc n) (x ∷ xs) = x ∷ take n xs

  abbrev pub drop : ℕ → List A → List A
  drop zero xs = xs
  drop (suc n) [] = []
  drop (suc n) (x ∷ xs) = drop n xs

  -- `rows[0]`
  abbrev pub head? : List A → Option A
  head? [] = none
  head? (x ∷ xs) = some x

  -- `Array.filter`, and the `WHERE` of a query.
  abbrev pub filter : (A → Bool) → List A → List A
  filter p [] = []
  filter p (x ∷ xs) = if p x then x ∷ filter p xs else filter p xs

  -- `Array.find`
  abbrev pub find : (A → Bool) → List A → Option A
  find p [] = none
  find p (x ∷ xs) = if p x then some x else find p xs

  -- `Array.some`
  abbrev pub any : (A → Bool) → List A → Bool
  any p [] = false
  any p (x ∷ xs) = p x || any p xs

  abbrev pub all : (A → Bool) → List A → Bool
  all p [] = true
  all p (x ∷ xs) = p x && all p xs

  pub length-append : (xs ys : List A) → length (xs ++ ys) ≡ length xs + length ys
  length-append [] ys = omega arith
  length-append (x ∷ xs) ys = omega (arith, length-append xs ys)

  pub length-take-le : (n : ℕ) (xs : List A) → length (take n xs) ≤ n
  length-take-le zero xs = omega arith
  length-take-le (suc n) [] = omega arith
  length-take-le (suc n) (x ∷ xs) = omega (arith, length-take-le n xs)

  pub length-filter-le : (p : A → Bool) (xs : List A) → length (filter p xs) ≤ length xs
  length-filter-le p [] = omega arith
  length-filter-le p (x ∷ xs) = ground (arith, length-filter-le p xs)

  pub any-append : (p : A → Bool) (xs ys : List A) → any p (xs ++ ys) ≡ (any p xs || any p ys)
  any-append p [] ys = refl
  any-append p (x ∷ xs) ys = ground (arith, any-append p xs ys)

  pub filter-filter-not : (p : A → Bool) (xs : List A) → filter p (filter (λ x. not (p x)) xs) ≡ []
  filter-filter-not p [] = refl
  filter-filter-not p (x ∷ xs) = elim (Bool-cases (p x)) [
    | inl e ↦ rw e (filter-filter-not p xs)
    | inr e ↦ rw e (rw e (filter-filter-not p xs))
  ]

  pub filter-filter : (p : A → Bool) (xs : List A) → filter p (filter p xs) ≡ filter p xs
  filter-filter p [] = refl
  filter-filter p (x ∷ xs) = elim (Bool-cases (p x)) [
    | inl e ↦ rw e (rw e (ap (λ zs. x ∷ zs) (filter-filter p xs)))
    | inr e ↦ rw e (filter-filter p xs)
  ]

  pub filter-append :
      (p : A → Bool) (xs ys : List A) → filter p (xs ++ ys) ≡ filter p xs ++ filter p ys
  filter-append p [] ys = refl
  filter-append p (x ∷ xs) ys = elim (Bool-cases (p x)) [
    | inl e ↦ rw e (ap (λ zs. x ∷ zs) (filter-append p xs ys))
    | inr e ↦ rw e (filter-append p xs ys)
  ]

module _ {ℓ κ} {A : Type ℓ} (P : A → Type κ) where
  abbrev pub All : List A → Type κ
  All [] = Unit
  All (x ∷ xs) = P x × All xs

module _ {ℓ κ} {A : Type ℓ} (P : A → Type κ) where
  pub All-append : (xs ys : List A) → All P xs → All P ys → All P (xs ++ ys)
  All-append [] ys hx hy = hy
  All-append (x ∷ xs) ys hx hy = (hx.0, All-append xs ys hx.1 hy)

  pub All-take : (n : ℕ) (xs : List A) → All P xs → All P (take n xs)
  All-take zero xs h = tt
  All-take (suc n) [] h = tt
  All-take (suc n) (x ∷ xs) h = (h.0, All-take n xs h.1)

  pub All-drop : (n : ℕ) (xs : List A) → All P xs → All P (drop n xs)
  All-drop zero xs h = h
  All-drop (suc n) [] h = tt
  All-drop (suc n) (x ∷ xs) h = All-drop n xs h.1

  pub All-tabulate : (xs : List A) → ((x : A) → P x) → All P xs
  All-tabulate [] f = tt
  All-tabulate (x ∷ xs) f = (f x, All-tabulate xs f)

  pub All_of_Memᴰ : {x : A} (xs : List A) → All P xs → Memᴰ x xs → P x
  All_of_Memᴰ [] h m = elim m [ ]
  All_of_Memᴰ (y ∷ ys) h (Memᴰ.head e) = subst P (sym e) h.0
  All_of_Memᴰ (y ∷ ys) h (Memᴰ.tail m) = All_of_Memᴰ ys h.1 m

  -- What the test implies holds of all that it selects.
  pub All-filter : (p : A → Bool) (xs : List A) → ((x : A) → p x ≡ true → P x) → All P (filter p xs)
  All-filter p [] f = tt
  All-filter p (x ∷ xs) f = elim (Bool-cases (p x)) [
    | inl e ↦ rw e (f x e, All-filter p xs f)
    | inr e ↦ rw e (All-filter p xs f)
  ]

  pub All-filter_keep : (p : A → Bool) (xs : List A) → All P xs → All P (filter p xs)
  All-filter_keep p [] h = tt
  All-filter_keep p (x ∷ xs) h = elim (Bool-cases (p x)) [
    | inl e ↦ rw e (h.0, All-filter_keep p xs h.1)
    | inr e ↦ rw e (All-filter_keep p xs h.1)
  ]

  pub All-map {μ} :
      {B : Type μ} (Q : B → Type κ) (f : A → B) (xs : List A)
      → All P xs
      → ((x : A) → P x → Q (f x))
      → All Q (map f xs)
  All-map Q f [] h g = tt
  All-map Q f (x ∷ xs) h g = (g x h.0, All-map Q f xs h.1 g)

  pub All-imp {μ} : (Q : A → Type μ) (xs : List A) → All P xs → ((x : A) → P x → Q x) → All Q xs
  All-imp Q [] h g = tt
  All-imp Q (x ∷ xs) h g = (g x h.0, All-imp Q xs h.1 g)

  pub All-zip {μ} : (Q : A → Type μ) (xs : List A) → All P xs → All Q xs → All (λ x. P x × Q x) xs
  All-zip Q [] h k = tt
  All-zip Q (x ∷ xs) h k = ((h.0, k.0), All-zip Q xs h.1 k.1)

module _ {ℓ} {A : Type ℓ} (p : A → Bool) where
  pub any_of_find-none : (xs : List A) → find p xs ≡ none → any p xs ≡ false
  any_of_find-none [] h = refl
  any_of_find-none (x ∷ xs) h = ground (arith, any_of_find-none xs)

  pub find-append_none :
      (xs : List A) (y : A) → find p xs ≡ none → p y ≡ true → find p (xs ++ y ∷ []) ≡ some y
  find-append_none [] y h e = rw e
  find-append_none (x ∷ xs) y h e = ground (arith, find-append_none xs y)

  pub find-append_miss : (xs : List A) (y : A) → p y ≡ false → find p (xs ++ y ∷ []) ≡ find p xs
  find-append_miss [] y e = rw e refl
  find-append_miss (x ∷ xs) y e = ground (arith, find-append_miss xs y e)

  pub find_sound : (xs : List A) (y : A) → find p xs ≡ some y → p y ≡ true
  find_sound [] y h = cc
  find_sound (x ∷ xs) y h = ground (arith, find_sound xs y)

  pub find_of_any-false : (xs : List A) → any p xs ≡ false → find p xs ≡ none
  find_of_any-false [] h = refl
  find_of_any-false (x ∷ xs) h = ground (arith, find_of_any-false xs)

  pub find-append_some : (xs ys : List A) (y : A) → find p xs ≡ some y → find p (xs ++ ys) ≡ some y
  find-append_some [] ys y h = cc
  find-append_some (x ∷ xs) ys y h = ground (arith, find-append_some xs ys y)

  -- A test that holds of fewer elements finds none where the other does.
  pub any-weaken :
      (q : A → Bool) (xs : List A)
      → ((x : A) → q x ≡ true → p x ≡ true)
      → any p xs ≡ false
      → any q xs ≡ false
  any-weaken q [] f h = refl
  any-weaken q (x ∷ xs) f h = ground (arith, any-weaken q xs f, f x)

module _ {ℓ} {A : Type ℓ} (P : A → Type 0) where
  -- An element with the property.
  abbrev pub Any : List A → Type 0
  Any [] = ⊥
  Any (x ∷ xs) = P x ⊎ Any xs

  pub Any-append_last : (xs : List A) (y : A) → P y → Any (xs ++ y ∷ [])
  Any-append_last [] y p = inl p
  Any-append_last (x ∷ xs) y p = inr (Any-append_last xs y p)

  pub Any-filter :
      (q : A → Bool) (xs : List A) → ((x : A) → P x → q x ≡ true) → Any xs → Any (filter q xs)
  Any-filter q [] f h = h
  Any-filter q (x ∷ xs) f (inl p) = rw (f x p) (inl p)
  Any-filter q (x ∷ xs) f (inr k) = elim (Bool-cases (q x)) [
    | inl e ↦ rw e (inr (Any-filter q xs f k))
    | inr e ↦ rw e (Any-filter q xs f k)
  ]

module _ {ℓ} {A : Type ℓ} where
  pub take-all : (n : ℕ) (xs : List A) → length xs ≤ n → take n xs ≡ xs
  take-all zero [] h = refl
  take-all zero (x ∷ xs) h = absurd (omega arith)
  take-all (suc n) [] h = refl
  take-all (suc n) (x ∷ xs) h = ap (λ ys. x ∷ ys) (take-all n xs (omega arith))
