-- ===== src/Payload/Stringify.antt =====
-- `stableStringify` and `hashDesiredPayload` of
-- packages/control-database/src/control-plane-store-helpers.ts, with `JSON.stringify` on the values
-- that have no parts. `digest` stands for the hexadecimal SHA-256 digest of a text.
pub mod Order
use simple_host_man.Payload.{null, bool, num, str, arr, obj, nil, cons, end, field}
use simple_host_man.Payload.{Items, codes, Json, Fields}
use simple_host_man.Prelude.Text.{Text}
use simple_host_man.Prelude.{
  sort, ◌%◌, ◌/◌, ◌==◌, leb, ltb, refl, sym, ap, ◌∙◌, ◌≡◌, ◌≢◌, ◌⊎◌, ◌↔◌, inl, inr, ℕ, zero, suc,
  ◌+◌, ◌-◌, ◌*◌, ◌≤◌, ◌<◌, Bool, true, false, not, ◌&&◌, ◌||◌, String, Option, none, some, List, [],
  ◌∷◌, ◌++◌, map, if◌then◌else◌, arith, Bool-cases, Option-cases, str_eq,
}

abbrev hex_digit : ℕ → ℕ
hex_digit n = if ltb n 10 then n + b'0' else n + 87

-- `\uXXXX`
abbrev unicode_escape : ℕ → Text
unicode_escape c =
    b'\\'
    ∷ b'u'
    ∷ hex_digit (c / 4096)
    ∷ hex_digit ((c / 256) % 16)
    ∷ hex_digit ((c / 16) % 16)
    ∷ hex_digit (c % 16)
    ∷ []

abbrev is_high_surrogate : ℕ → Bool
is_high_surrogate c = leb 0xD800 c && leb c 0xDBFF

abbrev is_low_surrogate : ℕ → Bool
is_low_surrogate c = leb 0xDC00 c && leb c 0xDFFF

-- A code unit that is no high surrogate and stands after none.
abbrev escape_unit : ℕ → Text
escape_unit c =
    if c == b'"'
    then b'\\' ∷ b'"' ∷ []
    else if c == b'\\'
    then b'\\' ∷ b'\\' ∷ []
    else if c == 8
    then b'\\' ∷ b'b' ∷ []
    else if c == 9
    then b'\\' ∷ b't' ∷ []
    else if c == 10
    then b'\\' ∷ b'n' ∷ []
    else if c == 12
    then b'\\' ∷ b'f' ∷ []
    else if c == 13
    then b'\\' ∷ b'r' ∷ []
    else if ltb c 0x20
    then unicode_escape c
    else if is_low_surrogate c
    then unicode_escape c
    else c ∷ []

-- A high surrogate waits for the next code unit: the two are written as they are if it is a low one.
abbrev pending : ℕ → Option ℕ
pending c = if is_high_surrogate c then some c else none

abbrev emitted : Option ℕ → ℕ → Text
emitted none c = if is_high_surrogate c then [] else escape_unit c
emitted (some high) c =
    if is_low_surrogate c
    then high ∷ c ∷ []
    else unicode_escape high ++ (if is_high_surrogate c then [] else escape_unit c)

unfoldable pub escape : Option ℕ → Text → Text
escape none [] = []
escape (some high) [] = unicode_escape high
escape high (c ∷ s) = emitted high c ++ escape (pending c) s

abbrev pub quote : Text → Text
quote s = b'"' ∷ escape none s ++ b'"' ∷ []

abbrev pub join : ℕ → List Text → Text
join separator [] = []
join separator (t ∷ []) = t
join separator (t ∷ u ∷ ts) = t ++ separator ∷ join separator (u ∷ ts)

-- The order of `sort()`, by code units.
unfoldable pub text_leb : Text → Text → Bool
text_leb [] t = true
text_leb (c ∷ s) [] = false
text_leb (c ∷ s) (d ∷ t) = ltb c d || (c == d && text_leb s t)

abbrev pub by_key : Text × Text → Text × Text → Bool
by_key left right = text_leb left.0 right.0

abbrev pub entry : Text × Text → Text
entry (key, value) = quote key ++ b':' ∷ value

-- The keys of an object differ, so that a sorted key selects the value it stands with.
unfoldable mutual
  pub stable_stringify : Json → Text
  stable_stringify null = codes "null"
  stable_stringify (bool b) = if b then codes "true" else codes "false"
  stable_stringify (num n) = codes n
  stable_stringify (str s) = quote s
  stable_stringify (arr xs) = b'[' ∷ join b',' (stringify_items xs) ++ b']' ∷ []
  stable_stringify (obj fs) =
      b'{' ∷ join b',' (map entry (sort by_key (stringify_fields fs))) ++ b'}' ∷ []

  pub stringify_items : Items → List Text
  stringify_items nil = []
  stringify_items (cons x xs) = stable_stringify x ∷ stringify_items xs

  pub stringify_fields : Fields → List (Text × Text)
  stringify_fields end = []
  stringify_fields (field key value fs) = (key, stable_stringify value) ∷ stringify_fields fs

unfoldable pub hash_desired_payload : (Text → String) → Fields → String
hash_desired_payload digest payload = digest (stable_stringify (obj payload))
