-- ===== src/Examples/Payloads.antt =====
-- Payloads with secrets.
use simple_host_man.Prelude.Result.{err, ok}
use simple_host_man.Payload.Lookup.{lookup_redacted, kept, shown}
use simple_host_man.Prelude.Text.{codes}
use simple_host_man.Examples.{toy_laws, IsSample, end, str, field, sample, toy}
use simple_host_man.Payload.Envelope.{
  decode-encode, encode_desired_password, decode_desired_password, secret_required,
  encode_stored_job_payload, decode_stored_job_payload,
}
use simple_host_man.Payload.{
  redacted, strip_fields, assign, is_sensitive, obj, strip_sensitive_payload_fields,
  sanitize_fields, sanitize_payload, lookup, Json,
}
use simple_host_man.Prelude.{refl, ◌≡◌, inl, inr, true, none, some}
use simple_host_man.Payload.Redaction.{
  is_plain, is_hidden, is_public, every_field_fields, every_field, redaction_hides,
  sanitize_payload_stable, redaction_keeps,
}

redaction_hides_example :
    (every_field is_hidden (sanitize_payload (obj sample)) ≡ true)
    × (every_field is_public (strip_sensitive_payload_fields (obj sample)) ≡ true)
redaction_hides_example = redaction_hides (obj sample)

sanitize_payload_stable_example :
    (sanitize_payload (sanitize_payload (obj sample)) ≡ sanitize_payload (obj sample))
    × (strip_sensitive_payload_fields (sanitize_payload (obj sample))
        ≡ strip_sensitive_payload_fields (obj sample))
sanitize_payload_stable_example = sanitize_payload_stable (obj sample)

abbrev zone : Json
zone = obj (field (codes "zone") (str (codes "example.org")) end)

zone_plain : every_field is_plain zone ≡ true
unfolding every_field every_field_fields is_sensitive
zone_plain = refl

redaction_keeps_example :
    (sanitize_payload zone ≡ zone) × (strip_sensitive_payload_fields zone ≡ zone)
redaction_keeps_example = redaction_keeps zone zone_plain

lookup_redacted_example :
    (lookup (codes "apiToken") (sanitize_fields sample)
      ≡ shown (codes "apiToken") (lookup (codes "apiToken") sample))
    × (lookup (codes "apiToken") (strip_fields sample)
        ≡ kept (codes "apiToken") (lookup (codes "apiToken") sample))
unfolding lookup
lookup_redacted_example = lookup_redacted (codes "apiToken") sample refl

decode-encode_example :
    (decode_stored_job_payload toy
        (encode_stored_job_payload toy (codes "iv") sample (some (codes "key")))
        (some (codes "key"))
      ≡ ok sample)
    × (decode_stored_job_payload toy
          (encode_stored_job_payload toy (codes "iv") sample (some (codes "key")))
          none
        ≡ err secret_required)
    × (decode_desired_password toy
          (some (encode_desired_password toy (codes "iv") (codes "pw") (some (codes "key"))))
          (some (codes "key"))
        ≡ ok (some (codes "pw")))
decode-encode_example =
    decode-encode toy IsSample toy_laws (codes "iv") (codes "key") sample (codes "pw") (inl refl)
      (inr refl)

-- A sensitive key is found whatever its case.
hides_test :
    sanitize_payload (obj sample)
    ≡ obj (field (codes "apiToken") redacted (field (codes "zone") (str (codes "example.org")) end))
unfolding sanitize_payload sanitize_fields is_sensitive assign
hides_test = refl
