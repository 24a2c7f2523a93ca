-- ===== src/Redact/Keys.antt =====
-- src/redact.rs: which keys and which texts are suspicious.
use asterism.Prelude.{
  ℕ, Bool, true, false, ◌&&◌, ◌||◌, Option, none, some, List, [], ◌∷◌, map, ltb, leb, ◌==◌,
  if◌then◌else◌, any_row, where_rows,
}
use asterism.Text.{
  Text, codes, text_eq, starts_with, strip_prefix, contains, trim, byte_len, is_ascii_alphanumeric,
  to_ascii_lowercase,
}
use asterism.Json.{Value, bool, number, is_array}

abbrev pub redacted : Text
redacted = codes "[redacted]"

abbrev pub redacted_environment : Text
redacted_environment = codes "[redacted-environment]"

abbrev pub safe_metadata_key : Text
safe_metadata_key = codes "safe_metadata"

abbrev pub secret_key_fragments : List Text
secret_key_fragments = map codes (
    "accesstoken" ∷ "refreshtoken" ∷ "idtoken" ∷ "apikey" ∷ "apisecret" ∷ "authorization"
    ∷ "clientsecret" ∷ "cookie" ∷ "credential" ∷ "password" ∷ "passwd" ∷ "privatekey" ∷ "secret"
    ∷ "sessionkey" ∷ "setcookie" ∷ "token" ∷ [])

abbrev pub environment_key_fragments : List Text
environment_key_fragments = map codes ("environ" ∷ "environment" ∷ "envvars" ∷ [])

unfoldable pub normalize_key : Text → Text
unfolding is_ascii_alphanumeric to_ascii_lowercase
normalize_key key = map to_ascii_lowercase (where_rows is_ascii_alphanumeric key)

unfoldable pub is_secret_key : Text → Bool
unfolding normalize_key contains
is_secret_key key = any_row (λ fragment. contains (normalize_key key) fragment) secret_key_fragments

unfoldable pub is_environment_key : Text → Bool
unfolding normalize_key text_eq
is_environment_key key =
    any_row (λ fragment. text_eq (normalize_key key) fragment) environment_key_fragments

unfoldable pub is_listing_of_credentials : Text → Value → Bool
unfolding normalize_key text_eq is_array
is_listing_of_credentials key value =
    text_eq (normalize_key key) (codes "credentials") && is_array value

unfoldable pub can_carry_secret : Value → Bool
can_carry_secret (number n) = false
can_carry_secret (bool b) = false
can_carry_secret _ = true

unfoldable pub looks_like_secret : Text → Bool
unfolding trim starts_with byte_len to_ascii_lowercase
looks_like_secret text =
    let trimmed = trim text in
    (starts_with trimmed (codes "eyJ") && leb 32 (byte_len trimmed))
    || (starts_with trimmed (codes "sk-") && leb 24 (byte_len trimmed))
    || (starts_with (map to_ascii_lowercase trimmed) (codes "bearer ") && ltb 16 (byte_len trimmed))

pub data SafeIdentifier : Type 0 where
  credential_id : SafeIdentifier

unfoldable pub key : SafeIdentifier → Text
key credential_id = codes "credential_id"

unfoldable pub from_key : Text → Option SafeIdentifier
unfolding text_eq
from_key k = if text_eq k (codes "credential_id") then some credential_id else none

abbrev pub is_lower_hex : ℕ → Bool
is_lower_hex byte = (leb b'0' byte && leb byte b'9') || (leb b'a' byte && leb byte b'f')

abbrev pub all_chars : (ℕ → Bool) → Text → Bool
all_chars p [] = true
all_chars p (c ∷ t) = p c && all_chars p t

abbrev pub hex_digits : Option Text → Bool
hex_digits none = false
hex_digits (some hex) = byte_len hex == 16 && all_chars is_lower_hex hex

unfoldable pub accepts : SafeIdentifier → Text → Bool
unfolding strip_prefix byte_len
accepts credential_id value = hex_digits (strip_prefix value (codes "cred-"))

abbrev pub accepted_by : Option SafeIdentifier → Text → Bool
accepted_by none text = false
accepted_by (some identifier) text = accepts identifier text

-- `(from_key(key), child.as_str())` of `walk_safe_metadata`, at a child that is a text.
unfoldable pub identifier_accepts : Text → Text → Bool
unfolding from_key accepts
identifier_accepts k text = accepted_by (from_key k) text
