-- ===== src/Payload.antt =====
-- Job payloads: packages/control-database/src/control-plane-store-helpers.ts, the part that hides
-- secrets in a payload and that encrypts and decrypts a stored one.
-- A `number` stands as its literal. An object is the list of its own properties in the order of
-- `Object.entries`; its prototype is left out. An assignment to the property `__proto__` makes no
-- own property, but may set the prototype of the copy, which only a read of a key that is no own
-- property would show.
pub mod Redaction
pub mod Lookup
pub mod Envelope
pub mod Stringify
use simple_host_man.Prelude.{
  Bool, true, false, not, ◌&&◌, ◌||◌, String, Option, none, some, List, if◌then◌else◌,
}
use simple_host_man.Prelude.Text.{Text, codes, same, to_lower, includes}

mutual
  pub data Json : Type 0 where
    null : Json
    bool : Bool → Json
    num : String → Json
    str : Text → Json
    arr : Items → Json
    obj : Fields → Json

  pub data Items : Type 0 where
    nil : Items
    cons : Json → Items → Items

  pub data Fields : Type 0 where
    end : Fields
    field : Text → Json → Fields → Fields

-- Tests of one word in a key, `key.toLowerCase().includes(…)`.
unfoldable pub is_sensitive : Text → Bool
is_sensitive key =
    includes (codes "password") (to_lower key)
    || includes (codes "secret") (to_lower key)
    || includes (codes "token") (to_lower key)

-- `record[key] = entry`, the properties that follow last.
unfoldable pub assign : Text → Json → Fields → Fields
assign key entry fs = if same key (codes "__proto__") then fs else field key entry fs

abbrev pub redacted : Json
redacted = str (codes "[redacted]")

unfoldable mutual
  pub sanitize_payload : Json → Json
  sanitize_payload (arr xs) = arr (sanitize_items xs)
  sanitize_payload (obj fs) = obj (sanitize_fields fs)
  sanitize_payload null = null
  sanitize_payload (bool b) = bool b
  sanitize_payload (num n) = num n
  sanitize_payload (str s) = str s

  pub sanitize_items : Items → Items
  sanitize_items nil = nil
  sanitize_items (cons x xs) = cons (sanitize_payload x) (sanitize_items xs)

  pub sanitize_fields : Fields → Fields
  sanitize_fields end = end
  sanitize_fields (field key entry fs) =
      assign key (if is_sensitive key then redacted else sanitize_payload entry)
        (sanitize_fields fs)

unfoldable mutual
  pub strip_sensitive_payload_fields : Json → Json
  strip_sensitive_payload_fields (arr xs) = arr (strip_items xs)
  strip_sensitive_payload_fields (obj fs) = obj (strip_fields fs)
  strip_sensitive_payload_fields null = null
  strip_sensitive_payload_fields (bool b) = bool b
  strip_sensitive_payload_fields (num n) = num n
  strip_sensitive_payload_fields (str s) = str s

  pub strip_items : Items → Items
  strip_items nil = nil
  strip_items (cons x xs) = cons (strip_sensitive_payload_fields x) (strip_items xs)

  pub strip_fields : Fields → Fields
  strip_fields end = end
  strip_fields (field key entry fs) =
      if is_sensitive key
      then strip_fields fs
      else assign key (strip_sensitive_payload_fields entry) (strip_fields fs)

-- The own property of a key, `none` where there is none. This is `record[key]` for a record from
-- `JSON.parse` and a key that `Object.prototype` lacks.
unfoldable pub lookup : Text → Fields → Option Json
lookup key end = none
lookup key (field k v fs) = if same k key then some v else lookup key fs
