-- ===== src/Payload/Envelope.antt =====
-- The envelope of an encrypted job payload, and desired passwords:
-- packages/control-database/src/control-plane-store-helpers.ts. The ciphers and digests of
-- node:crypto, the base64url form of a buffer and the JSON text of a value are a parameter.
use simple_host_man.Prelude.{
  Bool, true, false, ◌&&◌, ◌≡◌, refl, if◌then◌else◌, Option, none, some, [],
}
use simple_host_man.Prelude.Text.{Text, codes, same}
use simple_host_man.Prelude.Result.{Result, ok, err, ◌>>=◌}
use simple_host_man.Payload.{Json, bool, str, obj, Fields, end, field, lookup}

pub data PayloadError : Type 0 where
  secret_required authentication_failed malformed_json not_an_object : PayloadError

pub record Crypto (Bytes Plain : Type 0) : Type 0 where
  pub sha256 : Text → Bytes
  -- key, initialisation vector and plain text to ciphertext and tag
  pub encrypt : Bytes → Bytes → Plain → Bytes × Bytes
  -- key, initialisation vector, tag and ciphertext; `none` where the tag does not fit
  pub decrypt : Bytes → Bytes → Bytes → Bytes → Option Plain
  pub to_base64url : Bytes → Text
  pub from_base64url : Text → Bytes
  pub stringify : Json → Plain
  pub parse : Plain → Option Json

-- What the code relies on: decryption and base64url give back what went in, and so does the JSON
-- text of a value that JSON can carry (`IsJson`: no property twice, numbers in their own form).
pub record CryptoLaws {Bytes Plain : Type 0} (c : Crypto Bytes Plain) (IsJson : Json → Type 0)
    : Type 0 where
  pub decrypt-encrypt :
      (key iv : Bytes) (p : Plain)
      → c.decrypt key iv (c.encrypt key iv p).1 (c.encrypt key iv p).0 ≡ some p
  pub from_base64url-to_base64url : (b : Bytes) → c.from_base64url (c.to_base64url b) ≡ b
  pub parse-stringify : (v : Json) → IsJson v → c.parse (c.stringify v) ≡ some v

abbrev is_true : Option Json → Bool
is_true (some (bool b)) = b
is_true _ = false

abbrev is_text : Option Json → Bool
is_text (some (str s)) = true
is_text _ = false

abbrev is_the_text : Text → Option Json → Bool
is_the_text t (some (str s)) = same s t
is_the_text t _ = false

abbrev text_of : Option Json → Text
text_of (some (str s)) = s
text_of _ = []

unfoldable pub is_encrypted_job_payload_envelope : Fields → Bool
unfolding lookup
is_encrypted_job_payload_envelope fs =
    is_true (lookup (codes "__simplehostEncryptedJobPayload") fs)
    && is_the_text (codes "aes-256-gcm") (lookup (codes "alg") fs)
    && is_text (lookup (codes "iv") fs)
    && is_text (lookup (codes "tag") fs)
    && is_text (lookup (codes "ciphertext") fs)

-- `JSON.parse` and the test of its result.
abbrev object_of : Option Json → Result PayloadError Fields
object_of none = err malformed_json
object_of (some (obj fs)) = ok fs
object_of (some _) = err not_an_object

module _ {Bytes Plain : Type 0} (c : Crypto Bytes Plain) where
  -- The empty secret is no secret either.
  unfoldable pub derive_job_payload_key : Option Text → Option Bytes
  derive_job_payload_key none = none
  derive_job_payload_key (some []) = none
  derive_job_payload_key (some secret) = some (c.sha256 secret)

  -- `iv` is what `randomBytes(12)` returned.
  unfoldable pub encode_stored_job_payload : Bytes → Fields → Option Bytes → Fields
  encode_stored_job_payload iv payload none = payload
  encode_stored_job_payload iv payload (some key) =
      let (ciphertext, tag) = c.encrypt key iv (c.stringify (obj payload)) in
      field (codes "__simplehostEncryptedJobPayload") (bool true) (
        field (codes "alg") (str (codes "aes-256-gcm")) (
          field (codes "iv") (str (c.to_base64url iv)) (
            field (codes "tag") (str (c.to_base64url tag))
              (field (codes "ciphertext") (str (c.to_base64url ciphertext)) end))))

  open_envelope : Fields → Bytes → Result PayloadError Fields
  open_envelope payload key =
      elim (c.decrypt key (c.from_base64url (text_of (lookup (codes "iv") payload)))
        (c.from_base64url (text_of (lookup (codes "tag") payload)))
        (c.from_base64url (text_of (lookup (codes "ciphertext") payload)))) [
          | none ↦ err authentication_failed
          | some plaintext ↦ object_of (c.parse plaintext)
        ]

  abbrev open_with : Fields → Option Bytes → Result PayloadError Fields
  open_with payload none = err secret_required
  open_with payload (some key) = open_envelope payload key

  unfoldable pub decode_stored_job_payload : Fields → Option Bytes → Result PayloadError Fields
  unfolding open_envelope is_encrypted_job_payload_envelope
  decode_stored_job_payload payload key =
      if is_encrypted_job_payload_envelope payload then open_with payload key else ok payload

  unfoldable pub encode_desired_password : Bytes → Text → Option Bytes → Fields
  encode_desired_password iv password key =
      encode_stored_job_payload iv (field (codes "password") (str password) end) key

  abbrev password_of : Option Json → Option Text
  password_of (some (str s)) = some s
  password_of _ = none

  unfoldable pub decode_desired_password :
      Option Fields → Option Bytes → Result PayloadError (Option Text)
  decode_desired_password none key = ok none
  decode_desired_password (some payload) key = do
    decoded ← decode_stored_job_payload payload key
    ok (password_of (lookup (codes "password") decoded))

  module _ (IsJson : Json → Type 0) (laws : CryptoLaws c IsJson) where
    pub decode-encode_keyed :
        (iv key : Bytes) (payload : Fields)
        → IsJson (obj payload)
        → decode_stored_job_payload (encode_stored_job_payload iv payload (some key)) (some key)
          ≡ ok payload
    unfolding decode_stored_job_payload encode_stored_job_payload lookup
    decode-encode_keyed iv key payload h = simp (
      open_envelope,
      laws.from_base64url-to_base64url,
      laws.decrypt-encrypt,
      laws.parse-stringify (obj payload) h,
    )

    -- A payload that JSON can carry and that is stored under a key is read back whole with that key,
    -- and not at all with none; a password stored under a key is read back with it.
    pub decode-encode :
        (iv key : Bytes) (payload : Fields) (password : Text)
        → IsJson (obj payload)
        → IsJson (obj (field (codes "password") (str password) end))
        → (decode_stored_job_payload (encode_stored_job_payload iv payload (some key)) (some key)
            ≡ ok payload)
          × (decode_stored_job_payload (encode_stored_job_payload iv payload (some key)) none
              ≡ err secret_required)
          × (decode_desired_password
                (some (encode_desired_password iv password (some key)))
                (some key)
              ≡ ok (some password))
    unfolding decode_stored_job_payload encode_stored_job_payload lookup encode_desired_password
        decode_desired_password
    decode-encode iv key payload password h k = (
      decode-encode_keyed iv key payload h,
      refl,
      simp (
        open_envelope,
        laws.from_base64url-to_base64url,
        laws.decrypt-encrypt,
        laws.parse-stringify (obj (field (codes "password") (str password) end)) k,
      ),
    )
