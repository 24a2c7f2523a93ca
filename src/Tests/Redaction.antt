-- ===== src/Tests/Redaction.antt =====
-- The theorems of Redact at concrete payloads, and payloads of the tests of src/redact.rs.
use asterism.Redact.Metadata.{safe_metadata, metadata_from, insert_field, redact-safe_metadata}
use asterism.Redact.Keys.{credential_id, accepts, key, safe_metadata_key}
use asterism.Prelude.{[], ◌∷◌}
use asterism.Prelude.{◌≡◌, refl, true, false, ◌≤◌, ◌+◌}
use asterism.Text.{codes, byte_len, utf8_len, strip_prefix}
use asterism.Json.{Value, number, string, array, object, nil, item, end, field}
use asterism.Redact.{redact, walk, walk_entry, walk_text, max_depth}
use asterism.Redact.Keys.{
  is_secret_key, is_environment_key, is_listing_of_credentials, can_carry_secret, looks_like_secret,
  identifier_accepts,
}
use asterism.Redact.Strings.{bound_string}
use asterism.Redact.Clean.{Clean}
use asterism.Redact.Unmodified.{redact_unmodified}
use asterism.Redact.Depth.{depth, redact-depth}

-- {"token": "abc", "input_tokens": 5, "credentials": [{"access_token": "x", "label": "main"}]}
abbrev payload : Value
payload = object (
    field (codes "token") (string (codes "abc")) (
      field (codes "input_tokens") (number (codes "5")) (
        field (codes "credentials")
          (array (
            item
              (object (
                field (codes "access_token") (string (codes "x"))
                  (field (codes "label") (string (codes "main")) end)))
              nil))
          end)))

payload_redacted : redact payload ≡ record {
  value = object (
      field (codes "token") (string (codes "[redacted]")) (
        field (codes "input_tokens") (number (codes "5")) (
          field
            (codes "credentials")
            (array (
              item
                (object (
                  field
                    (codes "access_token")
                    (string (codes "[redacted]"))
                    (field (codes "label") (string (codes "main")) end)))
                nil))
            end)));
  modified = true;
}
unfolding redact walk walk_entry walk_text is_secret_key is_environment_key
    is_listing_of_credentials can_carry_secret looks_like_secret bound_string byte_len
payload_redacted = refl

abbrev harmless : Value
harmless = object (field (codes "label") (string (codes "main")) end)

redact_unmodified_example : (redact harmless).value ≡ harmless
unfolding redact walk walk_entry walk_text is_secret_key is_environment_key looks_like_secret
    bound_string byte_len
redact_unmodified_example = redact_unmodified harmless refl

redact-depth_example : depth (redact payload).value ≤ max_depth + 1
redact-depth_example = redact-depth payload

-- A credential id is kept under `safe_metadata`, a text of another shape is not.
safe_metadata_kept :
    identifier_accepts (codes "credential_id") (codes "cred-0123456789abcdef") ≡ true
unfolding identifier_accepts
safe_metadata_kept = refl

safe_metadata_destroyed :
    identifier_accepts (codes "credential_id") (codes "cred-0123456789ABCDEF") ≡ false
unfolding identifier_accepts
safe_metadata_destroyed = refl

abbrev credential : Value
credential = object (field (codes "credential_id") (string (codes "cred-0123456789abcdef")) end)

redact-safe_metadata_example :
    redact (object (field safe_metadata_key credential end))
    ≡ record { value = object (field safe_metadata_key credential end); modified = false }
unfolding safe_metadata metadata_from insert_field accepts key strip_prefix byte_len utf8_len
redact-safe_metadata_example =
    redact-safe_metadata ((credential_id, codes "cred-0123456789abcdef") ∷ []) credential refl
