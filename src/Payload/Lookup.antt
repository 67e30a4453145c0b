-- ===== src/Payload/Lookup.antt =====
-- What a reader of a sanitized or stripped payload finds under a key.
use simple_host_man.Prelude.{
  true, false, ◌≡◌, refl, inl, inr, if◌then◌else◌, Bool-cases, Option, none, some, sym, ap, ◌∙◌,
}
use simple_host_man.Prelude.Text.{Text, codes, same, same_sound}
use simple_host_man.Payload.{
  Json, Fields, end, field, is_sensitive, assign, redacted, sanitize_payload, sanitize_fields,
  strip_sensitive_payload_fields, strip_fields, lookup,
}

-- What `sanitize_payload` and `strip_sensitive_payload_fields` make of the value under a key.
abbrev pub shown : Text → Option Json → Option Json
shown key none = none
shown key (some v) = some (if is_sensitive key then redacted else sanitize_payload v)

abbrev pub kept : Text → Option Json → Option Json
kept key none = none
kept key (some v) = if is_sensitive key then none else some (strip_sensitive_payload_fields v)

-- No property has the name of the prototype.
abbrev pub IsPlain : Fields → Type 0
IsPlain fs = lookup (codes "__proto__") fs ≡ none

first-IsPlain :
    (k : Text) (v : Json) (fs : Fields)
    → IsPlain (field k v fs)
    → (same k (codes "__proto__") ≡ false) × IsPlain fs
unfolding lookup
first-IsPlain k v fs h = elim (Bool-cases (same k (codes "__proto__"))) [
  | inl e ↦ cc (rw e at h)
  | inr e ↦ (e, rw e at h)
]

lookup-assign :
    (key k : Text) (v : Json) (fs : Fields)
    → same k (codes "__proto__") ≡ false
    → lookup key (assign k v fs) ≡ (if same k key then some v else lookup key fs)
unfolding lookup assign
lookup-assign key k v fs h = rw h refl

lookup-sanitize_fields :
    (key : Text) (fs : Fields)
    → IsPlain fs
    → lookup key (sanitize_fields fs) ≡ shown key (lookup key fs)
unfolding lookup sanitize_fields
lookup-sanitize_fields key end h = refl
lookup-sanitize_fields key (field k v fs) h =
    let (plain, rest) = first-IsPlain k v fs h in
    elim (Bool-cases (same k key)) [
      | inl e ↦
          rw (lookup-assign key k _ (sanitize_fields fs) plain, e) (rw (same_sound k key e) refl)
      | inr e ↦
          rw (lookup-assign key k _ (sanitize_fields fs) plain, e)
            (lookup-sanitize_fields key fs rest)
    ]

kept_sensitive : (key : Text) (v : Option Json) → is_sensitive key ≡ true → kept key v ≡ none
kept_sensitive key none p = refl
kept_sensitive key (some v) p = rw p

lookup-strip_fields :
    (key : Text) (fs : Fields)
    → IsPlain fs
    → lookup key (strip_fields fs) ≡ kept key (lookup key fs)
unfolding lookup strip_fields
lookup-strip_fields key end h = refl
lookup-strip_fields key (field k v fs) h =
    let (plain, rest) = first-IsPlain k v fs h in
    let later = lookup-strip_fields key fs rest in
    elim (Bool-cases (is_sensitive k)) [
      | inl hidden ↦ rw hidden (elim (Bool-cases (same k key)) [
        | inl e ↦
            let sensitive : is_sensitive key ≡ true =
              ap is_sensitive (sym (same_sound k key e)) ∙ hidden in
            later ∙ kept_sensitive key _ sensitive ∙ rw e (rw sensitive refl)
        | inr e ↦ rw e later
      ])
      | inr kept_key ↦ rw kept_key (elim (Bool-cases (same k key)) [
        | inl e ↦
            let visible : is_sensitive key ≡ false =
              ap is_sensitive (sym (same_sound k key e)) ∙ kept_key in
            rw (lookup-assign key k _ (strip_fields fs) plain, e) (rw visible refl)
        | inr e ↦ rw (lookup-assign key k _ (strip_fields fs) plain, e) later
      ])
    ]

-- In a payload without a property `__proto__`, a sanitized payload has under a key the placeholder
-- if the key is sensitive and the sanitized value if it is not, and a stripped payload has nothing or
-- the stripped value, as its own property; neither has a key that the payload does not have.
pub lookup_redacted :
    (key : Text) (fs : Fields)
    → IsPlain fs
    → (lookup key (sanitize_fields fs) ≡ shown key (lookup key fs))
      × (lookup key (strip_fields fs) ≡ kept key (lookup key fs))
lookup_redacted key fs h = (lookup-sanitize_fields key fs h, lookup-strip_fields key fs h)
