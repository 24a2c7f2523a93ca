-- ===== src/Registry/Fingerprint.antt =====
-- src/registry.rs, `request_fingerprint` and `fingerprint_value`: FNV-1a over the encoding of the
-- parts of a request that make it the same request.
use Prim.Native.Nat.{bit_xor}
use asterism.Prelude.{
  ℕ, zero, suc, ◌+◌, ◌-◌, ◌*◌, ◌/◌, ◌%◌, ◌^◌, String, Option, none, some, List, [], ◌∷◌, ◌++◌, ltb,
  if◌then◌else◌,
}
use asterism.Text.{Text, codes}
use asterism.Json.{Value, null, string, object, end, field}
use asterism.Redact.{redact}
use asterism.Registry.Requests.{Serde, NewRun}

-- `str::as_bytes`: the UTF-8 encoding of a character.
unfoldable pub utf8_char : ℕ → List ℕ
utf8_char c =
    if ltb c 0x80
    then c ∷ []
    else if ltb c 0x800
    then (0xC0 + c / 0x40) ∷ (0x80 + c % 0x40) ∷ []
    else if ltb c 0x10000
    then (0xE0 + c / 0x1000) ∷ (0x80 + c / 0x40 % 0x40) ∷ (0x80 + c % 0x40) ∷ []
    else (0xF0 + c / 0x40000)
      ∷ (0x80 + c / 0x1000 % 0x40)
      ∷ (0x80 + c / 0x40 % 0x40)
      ∷ (0x80 + c % 0x40)
      ∷ []

unfoldable pub as_bytes : Text → List ℕ
unfolding utf8_char
as_bytes [] = []
as_bytes (c ∷ t) = utf8_char c ++ as_bytes t

abbrev pub u64_mod : ℕ
u64_mod = 2 ^ 64

unfoldable pub fnv_step : ℕ → ℕ → ℕ
fnv_step hash byte = bit_xor hash byte * 0x100000001b3 % u64_mod

unfoldable pub fnv_bytes : ℕ → List ℕ → ℕ
unfolding fnv_step
fnv_bytes hash [] = hash
fnv_bytes hash (byte ∷ bytes) = fnv_bytes (fnv_step hash byte) bytes

unfoldable pub hex_digit : ℕ → ℕ
hex_digit d = if ltb d 10 then b'0' + d else b'a' + (d - 10)

-- `format!("{n:0width$x}")` for a number below `16 ^ width`.
unfoldable pub hex_padded : ℕ → ℕ → Text
unfolding hex_digit
hex_padded zero n = []
hex_padded (suc width) n = hex_padded width (n / 16) ++ hex_digit (n % 16) ∷ []

unfoldable pub fingerprint_value : Serde → Value → Text
unfolding as_bytes fnv_bytes hex_padded
fingerprint_value serde value =
    hex_padded 16 (fnv_bytes 0xcbf29ce484222325 (as_bytes (serde.to_string value)))

abbrev pub text_or_null : Option String → Value
text_or_null none = null
text_or_null (some s) = string (codes s)

-- The map of `json!` keeps its keys in alphabetical order.
unfoldable pub canonical_request : NewRun → Value
canonical_request request = object (
    field (codes "project_id") (string (codes request.project_id)) (
      field (codes "request") (redact request.request_payload).value (
        field (codes "runtime_kind") (string (codes request.runtime_kind))
          (field (codes "session_id") (text_or_null request.session_id) end))))

unfoldable pub request_fingerprint : Serde → NewRun → Text
request_fingerprint serde request = fingerprint_value serde (canonical_request request)
