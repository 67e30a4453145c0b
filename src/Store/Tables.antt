-- ===== src/Store/Tables.antt =====
-- Statements on a table: `UPDATE … WHERE` and `INSERT … ON CONFLICT DO UPDATE`.
use simple_host_man.Prelude.{
  ◌∙◌, ap, not, filter, sym, some-injective, String, Bool, true, false, Option, none, some, List,
  [], ◌∷◌, ◌++◌, ◌≡◌, refl, inl, inr, arith, str_eq, if◌then◌else◌, Bool-cases, any, find,
  any_of_find-none, find-append_none, Option-cases, find_of_any-false,
}

module _ {ℓ} {A : Type ℓ} where
  abbrev pub update_where : (A → Bool) → (A → A) → List A → List A
  update_where p f [] = []
  update_where p f (row ∷ rows) = (if p row then f row else row) ∷ update_where p f rows

  -- `conflicts` is the test of the unique key.
  abbrev pub upsert : (A → Bool) → (A → A) → A → List A → List A
  upsert conflicts f new rows =
      if any conflicts rows then update_where conflicts f rows else rows ++ new ∷ []

  pub find-update_where :
      (p : A → Bool) (f : A → A) (rows : List A)
      → ((row : A) → p row ≡ true → p (f row) ≡ true)
      → find p (update_where p f rows)
        ≡ elim (find p rows) [ none ↦ none | some row ↦ some (f row) ]
  find-update_where p f [] keeps = refl
  find-update_where p f (row ∷ rows) keeps = elim (Bool-cases (p row)) [
    | inl e ↦ rw e (rw (keeps row e))
    | inr e ↦ rw e (rw e (find-update_where p f rows keeps))
  ]

module _ {ℓ} {A : Type ℓ} (p q : A → Bool) (f : A → A) where
  -- A change of some rows that does not change what the test is about.
  pub find-update_kept :
      (rows : List A) (row : A)
      → ((x : A) → p (f x) ≡ p x)
      → find p rows ≡ some row
      → find p (update_where q f rows) ≡ some (if q row then f row else row)
  find-update_kept [] row keeps found = cc
  find-update_kept (x ∷ rows) row keeps found = elim (Bool-cases (p x)) [
    | inl e ↦
        let here : x ≡ row = some-injective (rw e at found) in
        elim (Bool-cases (q x)) [
          | inl changed ↦ rw (sym here, changed, keeps x, e) refl
          | inr same ↦ rw (sym here, same, e) refl
        ]
    | inr e ↦
        let rest = find-update_kept rows row keeps (rw e at found) in
        elim (Bool-cases (q x)) [
          | inl changed ↦ rw (changed, keeps x, e) rest
          | inr same ↦ rw (same, e) rest
        ]
  ]

module _ {ℓ} {A : Type ℓ} (q : A → Bool) (f : A → A) where
  -- The rows that are not changed stay as they were, in their order.
  pub filter-update_where :
      (rows : List A)
      → ((x : A) → q (f x) ≡ q x)
      → filter (λ row. not (q row)) (update_where q f rows) ≡ filter (λ row. not (q row)) rows
  filter-update_where [] keeps = refl
  filter-update_where (x ∷ rows) keeps = elim (Bool-cases (q x)) [
    | inl changed ↦
        let still : q (f x) ≡ true = keeps x ∙ changed in
        rw changed (rw still (filter-update_where rows keeps))
    | inr same ↦ rw same (rw same (ap (λ zs. x ∷ zs) (filter-update_where rows keeps)))
  ]

-- `= ANY(…)`
abbrev pub any_id : String → List String → Bool
any_id id ids = any (str_eq id) ids

abbrev pub is_none {ℓ} : {A : Type ℓ} → Option A → Bool
is_none none = true
is_none (some _) = false

-- A text that is absent or empty is falsy.
abbrev pub non_empty : Option String → Option String
non_empty none = none
non_empty (some t) = if str_eq t "" then none else some t

module _ {ℓ} {A : Type ℓ} (p : A → Bool) (f : A → A) where
  pub find-upsert_new :
      (new : A) (rows : List A)
      → find p rows ≡ none
      → p new ≡ true
      → find p (upsert p f new rows) ≡ some new
  find-upsert_new new rows h e = rw (any_of_find-none p rows h) (find-append_none p rows new h e)

module _ {ℓ} {A : Type ℓ} (p : A → Bool) (new : A) (matches : p new ≡ true) where
  find-update_new :
      (rows : List A) → any p rows ≡ true → find p (update_where p (λ row. new) rows) ≡ some new
  find-update_new [] h = cc
  find-update_new (row ∷ rows) h = elim (Bool-cases (p row)) [
    | inl e ↦ rw e (rw matches refl)
    | inr e ↦ rw e (rw e (find-update_new rows (ground (arith, e, h))))
  ]

  -- An upsert that replaces the whole row leaves the new one to be found.
  pub find-upsert : (rows : List A) → find p (upsert p (λ row. new) new rows) ≡ some new
  find-upsert rows = elim (Option-cases (find p rows)) [
    | inl e ↦ find-upsert_new p (λ row. new) new rows e matches
    | inr (row, e) ↦ elim (Bool-cases (any p rows)) [
      | inl some_row ↦ rw some_row (find-update_new rows some_row)
      | inr no_row ↦
          rw no_row (find-append_none p rows new (find_of_any-false p rows no_row) matches)
    ]
  ]
