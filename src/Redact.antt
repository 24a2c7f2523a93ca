-- ===== src/Redact.antt =====
-- src/redact.rs: recursive redaction of a JSON payload before it reaches the durable journal.
-- `redact` walks the value; the flag `modified`, a `&mut bool` in the source, is threaded through.
-- The keys are classified in Redact/Keys and texts are cut in Redact/Strings.
pub mod Keys
pub mod Strings
pub mod Clean
pub mod Unmodified
pub mod Depth
pub mod Metadata
use asterism.Prelude.{
  ℕ, suc, Bool, true, false, not, ◌&&◌, ◌||◌, Option, none, some, leb, if◌then◌else◌,
}
use asterism.Text.{Text, text_eq, byte_len}
use asterism.Json.{
  Value, null, bool, number, string, array, object, Items, nil, item, Fields, end, field,
}
use Keys.{
  redacted, redacted_environment, safe_metadata_key, is_secret_key, is_environment_key,
  is_listing_of_credentials, can_carry_secret, looks_like_secret, identifier_accepts,
}
use Strings.{bound_string}

abbrev pub max_depth : ℕ
max_depth = 32

-- A value and the flag after it was walked.
abbrev pub Walked : Type 0
Walked = Value × Bool

-- One field of `walk_safe_metadata`: kept if it is a listed identifier of the right shape.
unfoldable pub safe_field_value : Text → Value → Bool → Walked
safe_field_value key (string text) modified =
    if identifier_accepts key text then (string text, modified) else (string redacted, true)
safe_field_value key _ modified = (string redacted, true)

unfoldable pub safe_fields : Fields → Bool → Fields × Bool
unfolding safe_field_value
safe_fields end modified = (end, modified)
safe_fields (field key child rest) modified =
    let (v, m) = safe_field_value key child modified in
    let (out, m') = safe_fields rest m in (field key v out, m')

unfoldable pub walk_safe_metadata : Value → Bool → Walked
unfolding safe_fields
walk_safe_metadata (object map) modified =
    let (out, m) = safe_fields map modified in (object out, m)
walk_safe_metadata _ modified = (string redacted, true)

-- The branches on a field's key. `walked` is `walk(child, depth + 1, modified)`.
unfoldable pub walk_entry : Text → Value → Walked → Bool → Walked
walk_entry key child walked modified =
    if text_eq key safe_metadata_key
    then walk_safe_metadata child modified
    else if is_environment_key key
    then (string redacted_environment, true)
    else if is_secret_key key
        && (can_carry_secret child && not (is_listing_of_credentials key child))
    then (string redacted, true)
    else walked

unfoldable pub walk_text : Text → Bool → Walked
walk_text text modified =
    if looks_like_secret text
    then (string redacted, true)
    else let (t, m) = bound_string text modified in (string t, m)

-- The guard at the head of `walk`.
abbrev pub within_depth : ℕ → Walked → Walked
within_depth depth inside = if leb max_depth depth then (string redacted, true) else inside

unfoldable mutual
  pub walk : Value → ℕ → Bool → Walked
  walk (object map) depth m =
      let (out, m') = walk_fields map depth m in within_depth depth (object out, m')
  walk (array items) depth m =
      let (out, m') = walk_items items depth m in within_depth depth (array out, m')
  walk (string text) depth m = within_depth depth (walk_text text m)
  walk null depth m = within_depth depth (null, m)
  walk (bool b) depth m = within_depth depth (bool b, m)
  walk (number n) depth m = within_depth depth (number n, m)

  pub walk_items : Items → ℕ → Bool → Items × Bool
  walk_items nil depth m = (nil, m)
  walk_items (item x rest) depth m =
      let (x', m₁) = walk x (suc depth) m in
      let (rest', m₂) = walk_items rest depth m₁ in (item x' rest', m₂)

  pub walk_fields : Fields → ℕ → Bool → Fields × Bool
  walk_fields end depth m = (end, m)
  walk_fields (field key child rest) depth m =
      let (v, m₁) = walk_entry key child (walk child (suc depth) m) m in
      let (rest', m₂) = walk_fields rest depth m₁ in (field key v rest', m₂)

pub record Redacted : Type 0 where
  pub value : Value
  pub modified : Bool

unfoldable pub redact : Value → Redacted
redact value = let (v, m) = walk value 0 false in record { value = v; modified = m }
