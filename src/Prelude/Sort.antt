-- ===== src/Prelude/Sort.antt =====
-- Stable sorting by a test: `ORDER BY` and `Array.sort` with a comparator.
use Prim.Native.Nat.{ℕ, ◌≤◌, suc}
use mathlib.Core.Path.{◌≡◌, refl, sym, ap, ◌∙◌}
use mathlib.Core.Logic.{◌⊎◌, inl, inr}
use mathlib.Core.Bool.{Bool, true, false}
use mathlib.Core.Option.{some}
use mathlib.Core.List.{List, [], ◌∷◌, ◌++◌, map, Perm}
use mathlib.Core.List.Perm
use native.Mathlib.Omega.{arith}
use simple_host_man.Prelude.Tests.{if◌then◌else◌, Bool-cases}
use simple_host_man.Prelude.Lists.{Any, length, head?, All, All-imp, All-filter_keep, filter}

module _ {ℓ} {A : Type ℓ} (before : A → A → Bool) where
  unfoldable pub insert : A → List A → List A
  insert x [] = x ∷ []
  insert x (y ∷ ys) = if before x y then x ∷ y ∷ ys else y ∷ insert x ys

  -- The order of the comparator, equal elements in the order in which they stood.
  unfoldable pub sort : List A → List A
  unfolding insert
  sort [] = []
  sort (x ∷ xs) = insert x (sort xs)

  -- Each element stands before all the later ones.
  abbrev pub IsSorted : List A → Type ℓ
  IsSorted [] = Unit
  IsSorted (x ∷ xs) = All (λ y. before x y ≡ true) xs × IsSorted xs

  insert-perm : (x : A) (xs : List A) → Perm (insert x xs) (x ∷ xs)
  unfolding insert
  insert-perm x [] = Perm.refl _
  insert-perm x (y ∷ ys) = elim (Bool-cases (before x y)) [
    | inl e ↦ rw e (Perm.refl _)
    | inr e ↦ rw e (Perm.trans (Perm.cons y (insert-perm x ys)) (Perm.swap x y ys))
  ]

  pub sort-perm : (xs : List A) → Perm (sort xs) xs
  unfolding sort
  sort-perm [] = Perm.refl _
  sort-perm (x ∷ xs) = Perm.trans (insert-perm x (sort xs)) (Perm.cons x (sort-perm xs))

  module _ {κ} (P : A → Type κ) where
    pub All-insert : (x : A) (xs : List A) → P x → All P xs → All P (insert x xs)
    unfolding insert
    All-insert x [] p h = (p, tt)
    All-insert x (y ∷ ys) p h = elim (Bool-cases (before x y)) [
      | inl e ↦ rw e (p, h)
      | inr e ↦ rw e (h.0, All-insert x ys p h.1)
    ]

    pub All-sort : (xs : List A) → All P xs → All P (sort xs)
    unfolding sort
    All-sort [] h = tt
    All-sort (x ∷ xs) h = All-insert x (sort xs) h.0 (All-sort xs h.1)

  length-insert : (x : A) (xs : List A) → length (insert x xs) ≡ suc (length xs)
  unfolding insert
  length-insert x [] = refl
  length-insert x (y ∷ ys) = ground (arith, length-insert x ys)

  pub length-sort : (xs : List A) → length (sort xs) ≡ length xs
  unfolding sort
  length-sort [] = refl
  length-sort (x ∷ xs) = omega (arith, length-insert x (sort xs), length-sort xs)

  module _ (total : (x y : A) → before x y ≡ false → before y x ≡ true)
      (trans : (x y z : A) → before x y ≡ true → before y z ≡ true → before x z ≡ true) where
    insert-IsSorted : (x : A) (xs : List A) → IsSorted xs → IsSorted (insert x xs)
    unfolding insert
    insert-IsSorted x [] h = (tt, tt)
    insert-IsSorted x (y ∷ ys) h = elim (Bool-cases (before x y)) [
      | inl e ↦ rw e ((e, All-imp _ _ ys h.0 (λ z q. trans x y z e q)), h)
      | inr e ↦
          rw e
            (All-insert (λ z. before y z ≡ true) x ys (total x y e) h.0, insert-IsSorted x ys h.1)
    ]

    pub sort-IsSorted : (xs : List A) → IsSorted (sort xs)
    unfolding sort
    sort-IsSorted [] = tt
    sort-IsSorted (x ∷ xs) = insert-IsSorted x (sort xs) (sort-IsSorted xs)

module _ {ℓ} {A : Type ℓ} (before : A → A → Bool) where
  -- An element that comes strictly before all those in front of it is the first of the sorted list.
  pub head?-sort_last :
      (xs : List A) (y : A)
      → All (λ x. before x y ≡ false) xs
      → head? (sort before (xs ++ y ∷ [])) ≡ some y
  unfolding sort insert
  head?-sort_last [] y h = refl
  head?-sort_last (x ∷ xs) y h =
      head-insert x (sort before (xs ++ y ∷ [])) y h.0 (head?-sort_last xs y h.1)
    where
      head-insert :
          (x : A) (zs : List A) (y : A)
          → before x y ≡ false
          → head? zs ≡ some y
          → head? (insert before x zs) ≡ some y
      head-insert x [] y b e = cc
      head-insert x (z ∷ zs) y b e = let same : z ≡ y = cc in rw (ap (before x) same ∙ b) e

  -- Sorting commutes with a function that keeps the order.
  module _ (g : A → A) (keeps : (x y : A) → before (g x) (g y) ≡ before x y) where
    map-insert : (x : A) (xs : List A) → map g (insert before x xs) ≡ insert before (g x) (map g xs)
    unfolding insert
    map-insert x [] = refl
    map-insert x (y ∷ ys) = elim (Bool-cases (before x y)) [
      | inl e ↦ rw (keeps x y, e) refl
      | inr e ↦ rw (keeps x y, e) (ap (λ zs. g y ∷ zs) (map-insert x ys))
    ]

    pub map-sort : (xs : List A) → map g (sort before xs) ≡ sort before (map g xs)
    unfolding sort
    map-sort [] = refl
    map-sort (x ∷ xs) = map-insert x (sort before xs) ∙ ap (insert before (g x)) (map-sort xs)

module _ {ℓ} {A : Type ℓ} (before : A → A → Bool) (P : A → Type 0) where
  Any-insert : (x : A) (xs : List A) → P x ⊎ Any P xs → Any P (insert before x xs)
  unfolding insert
  Any-insert x [] h = h
  Any-insert x (y ∷ ys) (inl p) = elim (Bool-cases (before x y)) [
    | inl e ↦ rw e (inl p)
    | inr e ↦ rw e (inr (Any-insert x ys (inl p)))
  ]
  Any-insert x (y ∷ ys) (inr (inl p)) = elim (Bool-cases (before x y)) [
    | inl e ↦ rw e (inr (inl p))
    | inr e ↦ rw e (inl p)
  ]
  Any-insert x (y ∷ ys) (inr (inr k)) = elim (Bool-cases (before x y)) [
    | inl e ↦ rw e (inr (inr k))
    | inr e ↦ rw e (inr (Any-insert x ys (inr k)))
  ]

  -- Sorting keeps an element with the property.
  pub Any-sort : (xs : List A) → Any P xs → Any P (sort before xs)
  unfolding sort
  Any-sort [] h = h
  Any-sort (x ∷ xs) (inl p) = Any-insert x (sort before xs) (inl p)
  Any-sort (x ∷ xs) (inr k) = Any-insert x (sort before xs) (inr (Any-sort xs k))

module _ {ℓ} {A : Type ℓ} (before : A → A → Bool) (measure : A → ℕ) where
  -- Each element measures no more than those in front of it.
  abbrev pub IsDescending : List A → Type 0
  IsDescending [] = Unit
  IsDescending (x ∷ xs) = All (λ y. measure y ≤ measure x) xs × IsDescending xs

  module _ (down : (x y : A) → before x y ≡ true → measure y ≤ measure x)
      (up : (x y : A) → before x y ≡ false → measure x ≤ measure y) where
    insert-IsDescending :
        (x : A) (xs : List A) → IsDescending xs → IsDescending (insert before x xs)
    unfolding insert
    insert-IsDescending x [] h = (tt, tt)
    insert-IsDescending x (y ∷ ys) h = elim (Bool-cases (before x y)) [
      | inl e ↦
          let first = down x y e in
          rw e ((first, All-imp _ _ ys h.0 (λ z p. omega (arith, p, first))), h)
      | inr e ↦ rw e (
        All-insert before (λ z. measure z ≤ measure y) x ys (up x y e) h.0,
        insert-IsDescending x ys h.1,
      )
    ]

    pub sort-IsDescending : (xs : List A) → IsDescending (sort before xs)
    unfolding sort
    sort-IsDescending [] = tt
    sort-IsDescending (x ∷ xs) = insert-IsDescending x (sort before xs) (sort-IsDescending xs)

module _ {ℓ} {A : Type ℓ} (before : A → A → Bool)
    (total : (x y : A) → before x y ≡ false → before y x ≡ true)
    (trans : (x y z : A) → before x y ≡ true → before y z ≡ true → before x z ≡ true)
    (p : A → Bool) where
  insert_first :
      (x : A) (ys : List A) → All (λ y. before x y ≡ true) ys → insert before x ys ≡ x ∷ ys
  unfolding insert
  insert_first x [] h = refl
  insert_first x (y ∷ ys) h = rw (h.0) refl

  filter-insert :
      (x : A) (ys : List A)
      → IsSorted before ys
      → filter p (insert before x ys) ≡ (if p x then insert before x (filter p ys) else filter p ys)
  unfolding insert
  filter-insert x [] h = elim (Bool-cases (p x)) [ inl e ↦ rw e refl | inr e ↦ rw e refl ]
  filter-insert x (y ∷ ys) h = elim (Bool-cases (before x y)) [
    | inl b ↦
        let first : All (λ z. before x z ≡ true) (y ∷ ys) =
          (b, All-imp _ _ ys h.0 (λ z k. trans x y z b k)) in
        rw b (elim (Bool-cases (p x)) [
          | inl e ↦ rw e (
              sym (
                insert_first x (filter p (y ∷ ys))
                  (All-filter_keep (λ z. before x z ≡ true) p (y ∷ ys) first)))
          | inr e ↦ rw e refl
        ])
    | inr b ↦ rw b (elim (Bool-cases (p y)) [
      | inl e ↦
          rw (e, filter-insert x ys h.1)
            (elim (Bool-cases (p x)) [ inl f ↦ rw (f, b) refl | inr f ↦ rw f refl ])
      | inr e ↦ rw e (filter-insert x ys h.1)
    ])
  ]

  -- Sorting commutes with a selection.
  pub filter-sort : (xs : List A) → filter p (sort before xs) ≡ sort before (filter p xs)
  unfolding sort
  filter-sort [] = refl
  filter-sort (x ∷ xs) =
      filter-insert x (sort before xs) (sort-IsSorted before total trans xs)
      ∙ elim (Bool-cases (p x)) [
        | inl e ↦ rw (e, filter-sort xs) refl
        | inr e ↦ rw (e, filter-sort xs) refl
      ]
