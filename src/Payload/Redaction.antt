-- ===== src/Payload/Redaction.antt =====
-- What the two walks over a payload leave of its secrets, at any depth.
use simple_host_man.Prelude.{
  Bool, true, false, not, ◌&&◌, ◌||◌, ◌≡◌, refl, ap, ap₂, inl, inr, arith, if◌then◌else◌,
  Bool-cases, and-true,
}
use simple_host_man.Prelude.Text.{Text, codes, same}
use simple_host_man.Payload.{
  Json, null, bool, num, str, arr, obj, Items, nil, cons, Fields, end, field, is_sensitive, assign,
  redacted, sanitize_payload, sanitize_items, sanitize_fields, strip_sensitive_payload_fields,
  strip_items, strip_fields,
}

-- Whether a test holds of every property of a value, at any depth.
unfoldable mutual
  pub every_field : (Text → Json → Bool) → Json → Bool
  every_field p (arr xs) = every_field_items p xs
  every_field p (obj fs) = every_field_fields p fs
  every_field p null = true
  every_field p (bool b) = true
  every_field p (num n) = true
  every_field p (str s) = true

  pub every_field_items : (Text → Json → Bool) → Items → Bool
  every_field_items p nil = true
  every_field_items p (cons x xs) = every_field p x && every_field_items p xs

  pub every_field_fields : (Text → Json → Bool) → Fields → Bool
  every_field_fields p end = true
  every_field_fields p (field k v fs) = p k v && every_field p v && every_field_fields p fs

abbrev pub is_redacted : Json → Bool
is_redacted (str s) = same s (codes "[redacted]")
is_redacted _ = false

-- A property whose key is not sensitive, or whose value is the placeholder.
abbrev pub is_hidden : Text → Json → Bool
is_hidden k v = not (is_sensitive k) || is_redacted v

abbrev pub is_public : Text → Json → Bool
is_public k v = not (is_sensitive k)

-- A property that both walks pass over: its key is not sensitive and no special name.
abbrev pub is_plain_key : Text → Bool
is_plain_key k = not (is_sensitive k) && not (same k (codes "__proto__"))

abbrev pub is_plain : Text → Json → Bool
is_plain k v = is_plain_key k

every_field-assign :
    (p : Text → Json → Bool) (k : Text) (v : Json) (fs : Fields)
    → p k v ≡ true
    → every_field p v ≡ true
    → every_field_fields p fs ≡ true
    → every_field_fields p (assign k v fs) ≡ true
unfolding every_field_fields assign
every_field-assign p k v fs h hv hs = elim (Bool-cases (same k (codes "__proto__"))) [
  | inl e ↦ rw e hs
  | inr e ↦ rw e (rw (h, hv) hs)
]

mutual
  unfolding sanitize_payload sanitize_items sanitize_fields every_field every_field_items
      every_field_fields

  hides : (v : Json) → every_field is_hidden (sanitize_payload v) ≡ true
  hides (arr xs) = hides_items xs
  hides (obj fs) = hides_fields fs
  hides null = refl
  hides (bool b) = refl
  hides (num n) = refl
  hides (str s) = refl

  hides_items : (xs : Items) → every_field_items is_hidden (sanitize_items xs) ≡ true
  hides_items nil = refl
  hides_items (cons x xs) = rw (hides x) (hides_items xs)

  hides_fields : (fs : Fields) → every_field_fields is_hidden (sanitize_fields fs) ≡ true
  hides_fields end = refl
  hides_fields (field k v fs) = elim (Bool-cases (is_sensitive k)) [
    | inl e ↦ rw e (every_field-assign is_hidden k redacted _ (rw e) refl (hides_fields fs))
    | inr e ↦ rw e (every_field-assign is_hidden k _ _ (rw e) (hides v) (hides_fields fs))
  ]

mutual
  unfolding strip_sensitive_payload_fields strip_items strip_fields every_field every_field_items
      every_field_fields

  strips : (v : Json) → every_field is_public (strip_sensitive_payload_fields v) ≡ true
  strips (arr xs) = strips_items xs
  strips (obj fs) = strips_fields fs
  strips null = refl
  strips (bool b) = refl
  strips (num n) = refl
  strips (str s) = refl

  strips_items : (xs : Items) → every_field_items is_public (strip_items xs) ≡ true
  strips_items nil = refl
  strips_items (cons x xs) = rw (strips x) (strips_items xs)

  strips_fields : (fs : Fields) → every_field_fields is_public (strip_fields fs) ≡ true
  strips_fields end = refl
  strips_fields (field k v fs) = elim (Bool-cases (is_sensitive k)) [
    | inl e ↦ rw e (strips_fields fs)
    | inr e ↦ rw e (every_field-assign is_public k _ _ (rw e) (strips v) (strips_fields fs))
  ]

pub strip_fields_hides : (fs : Fields) → every_field_fields is_public (strip_fields fs) ≡ true
strip_fields_hides fs = strips_fields fs

-- Every property of a sanitized payload, at any depth, has a key that is not sensitive or holds the
-- placeholder alone; every property of a stripped one, at any depth, has a key that is not sensitive.
pub redaction_hides :
    (v : Json)
    → (every_field is_hidden (sanitize_payload v) ≡ true)
      × (every_field is_public (strip_sensitive_payload_fields v) ≡ true)
redaction_hides v = (hides v, strips v)

strip_fields-assign :
    (k : Text) (v : Json) (fs : Fields)
    → strip_fields (assign k v fs) ≡ (
        if is_sensitive k
        then strip_fields fs
        else assign k (strip_sensitive_payload_fields v) (strip_fields fs))
unfolding strip_fields assign
strip_fields-assign k v fs = ground arith

mutual
  unfolding strip_sensitive_payload_fields strip_items strip_fields sanitize_payload sanitize_items
      sanitize_fields

  strip-sanitize :
      (v : Json)
      → strip_sensitive_payload_fields (sanitize_payload v) ≡ strip_sensitive_payload_fields v
  strip-sanitize (arr xs) = ap arr (strip-sanitize_items xs)
  strip-sanitize (obj fs) = ap obj (strip-sanitize_fields fs)
  strip-sanitize null = refl
  strip-sanitize (bool b) = refl
  strip-sanitize (num n) = refl
  strip-sanitize (str s) = refl

  strip-sanitize_items : (xs : Items) → strip_items (sanitize_items xs) ≡ strip_items xs
  strip-sanitize_items nil = refl
  strip-sanitize_items (cons x xs) = rw (strip-sanitize x, strip-sanitize_items xs)

  strip-sanitize_fields : (fs : Fields) → strip_fields (sanitize_fields fs) ≡ strip_fields fs
  strip-sanitize_fields end = refl
  strip-sanitize_fields (field k v fs) = elim (Bool-cases (is_sensitive k)) [
    | inl s ↦ rw s (rw strip_fields-assign (rw s (strip-sanitize_fields fs)))
    | inr s ↦ rw s (rw strip_fields-assign (rw s (rw (strip-sanitize v, strip-sanitize_fields fs))))
  ]

sanitize_fields-assign :
    (k : Text) (v : Json) (fs : Fields)
    → sanitize_fields (assign k v fs)
      ≡ assign k (if is_sensitive k then redacted else sanitize_payload v) (sanitize_fields fs)
unfolding sanitize_fields assign
sanitize_fields-assign k v fs = ground arith

mutual
  unfolding sanitize_payload sanitize_items sanitize_fields

  sanitize_twice : (v : Json) → sanitize_payload (sanitize_payload v) ≡ sanitize_payload v
  sanitize_twice (arr xs) = ap arr (sanitize_items_twice xs)
  sanitize_twice (obj fs) = ap obj (sanitize_fields_twice fs)
  sanitize_twice null = refl
  sanitize_twice (bool b) = refl
  sanitize_twice (num n) = refl
  sanitize_twice (str s) = refl

  sanitize_items_twice : (xs : Items) → sanitize_items (sanitize_items xs) ≡ sanitize_items xs
  sanitize_items_twice nil = refl
  sanitize_items_twice (cons x xs) = rw (sanitize_twice x, sanitize_items_twice xs)

  sanitize_fields_twice : (fs : Fields) → sanitize_fields (sanitize_fields fs) ≡ sanitize_fields fs
  sanitize_fields_twice end = refl
  sanitize_fields_twice (field k v fs) = elim (Bool-cases (is_sensitive k)) [
    | inl s ↦ rw s (rw sanitize_fields-assign (rw s (rw (sanitize_fields_twice fs))))
    | inr s ↦
        rw s (rw sanitize_fields-assign (rw s (rw (sanitize_twice v, sanitize_fields_twice fs))))
  ]

-- Sanitizing again changes nothing, and stripping a sanitized payload gives what stripping the
-- payload itself gives.
pub sanitize_payload_stable :
    (v : Json)
    → (sanitize_payload (sanitize_payload v) ≡ sanitize_payload v)
      × (strip_sensitive_payload_fields (sanitize_payload v) ≡ strip_sensitive_payload_fields v)
sanitize_payload_stable v = (sanitize_twice v, strip-sanitize v)

-- A conjunction in the test of every property, taken apart.
every_field-cons :
    (p : Text → Json → Bool) (k : Text) (v : Json) (fs : Fields)
    → every_field_fields p (field k v fs) ≡ true
    → (p k v ≡ true) × (every_field p v ≡ true) × (every_field_fields p fs ≡ true)
unfolding every_field_fields
every_field-cons p k v fs h = ground arith

plain-assign :
    (k : Text) (v : Json) (fs : Fields)
    → is_plain_key k ≡ true
    → (is_sensitive k ≡ false) × (assign k v fs ≡ field k v fs)
unfolding assign
plain-assign k v fs h = ground arith

mutual
  unfolding sanitize_payload sanitize_items sanitize_fields every_field every_field_items
      strip_sensitive_payload_fields strip_items strip_fields

  keeps :
      (v : Json)
      → every_field is_plain v ≡ true
      → (sanitize_payload v ≡ v) × (strip_sensitive_payload_fields v ≡ v)
  keeps (arr xs) h = let (a, b) = keeps_items xs h in (ap arr a, ap arr b)
  keeps (obj fs) h = let (a, b) = keeps_fields fs h in (ap obj a, ap obj b)
  keeps null h = (refl, refl)
  keeps (bool b) h = (refl, refl)
  keeps (num n) h = (refl, refl)
  keeps (str s) h = (refl, refl)

  keeps_items :
      (xs : Items)
      → every_field_items is_plain xs ≡ true
      → (sanitize_items xs ≡ xs) × (strip_items xs ≡ xs)
  keeps_items nil h = (refl, refl)
  keeps_items (cons x xs) h =
      let (p, q) = and-true h in
      let (a, b) = keeps x p in let (c, d) = keeps_items xs q in (ap₂ cons a c, ap₂ cons b d)

  keeps_fields :
      (fs : Fields)
      → every_field_fields is_plain fs ≡ true
      → (sanitize_fields fs ≡ fs) × (strip_fields fs ≡ fs)
  keeps_fields end h = (refl, refl)
  keeps_fields (field k v fs) h =
      let (p, q, r) = every_field-cons is_plain k v fs h in
      let (s, _) = plain-assign k v fs p in
      let (a, b) = keeps v q in
      let (c, d) = keeps_fields fs r in
      (
        rw s (rw ((plain-assign k (sanitize_payload v) (sanitize_fields fs) p).1) (rw (a, c))),
        rw s (
            rw ((plain-assign k (strip_sensitive_payload_fields v) (strip_fields fs) p).1)
              (rw (b, d))),
      )

-- A payload with no sensitive key and no property named `__proto__`, at any depth, is left as it is
-- by both walks.
pub redaction_keeps :
    (v : Json)
    → every_field is_plain v ≡ true
    → (sanitize_payload v ≡ v) × (strip_sensitive_payload_fields v ≡ v)
redaction_keeps v h = keeps v h
