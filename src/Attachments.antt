-- ===== src/Attachments.antt =====
-- src/attachments.rs: the images of a chat turn. An attachment has the one kind `image_url`.
pub mod Parsed
use asterism.Prelude.{
  ℕ, zero, suc, Bool, true, false, not, ◌&&◌, ◌||◌, Option, none, some, List, [], ◌∷◌, ◌++◌, ltb,
  ◌==◌, if◌then◌else◌, any_row,
}
use asterism.Prelude.Results.{Result, ok, err, ◌>>=◌, ◌>>◌, guard, or_err}
use asterism.Prelude.Table.{unwrap_or}
use asterism.Text.{Text, codes, text_eq, byte_len, trim, is_whitespace, split_text, take_until}
use asterism.Json.{
  Value, null, string, array, object, Items, nil, item, Fields, end, field, find_field, get_key,
  as_str,
}
use asterism.Redact.Metadata.{insert_field}
use asterism.DeviceDelivery.{and_then, insert_optional}

abbrev pub max_attachments : ℕ
max_attachments = 4

abbrev pub max_url_bytes : ℕ
max_url_bytes = 2048

abbrev pub max_alt_bytes : ℕ
max_alt_bytes = 200

pub record Attachment : Type 0 where
  pub url : Text
  pub alt : Option Text

pub data AttachmentError : Type 0 where
  not_an_array too_many unsupported_type url_required url_too_long not_absolute wrong_scheme
        no_host :
      AttachmentError
  embeds_credentials contains_whitespace label_too_long : AttachmentError

abbrev pub is_blank_text : Text → Bool
is_blank_text [] = true
is_blank_text (c ∷ t) = false

-- `.map(str::trim).filter(|text| !text.is_empty())`
abbrev pub filled : Option Text → Option Text
filled none = none
filled (some t) = if is_blank_text (trim t) then none else some (trim t)

abbrev pub ends_authority : ℕ → Bool
ends_authority c = c == b'/' || c == b'?' || c == b'#'

abbrev pub ends_path : ℕ → Bool
ends_path c = c == b'?' || c == b'#'

abbrev pub has_character : ℕ → Text → Bool
has_character c t = any_row (λ d. d == c) t

unfoldable pub validate_url : Text → Result AttachmentError (Unit {0})
unfolding byte_len split_text take_until text_eq is_whitespace
validate_url url = do
  _ ← guard (not (ltb max_url_bytes (byte_len url))) url_too_long
  (scheme, rest) ← or_err (split_text (codes "://") url) not_absolute
  _ ← guard (text_eq scheme (codes "http") || text_eq scheme (codes "https")) wrong_scheme
  let authority = take_until ends_authority rest
  _ ← guard (not (is_blank_text authority)) no_host
  _ ← guard (not (has_character b'@' authority)) embeds_credentials
  guard (not (any_row is_whitespace url)) contains_whitespace

abbrev pub label_fits : Option Text → Bool
label_fits none = true
label_fits (some label) = not (ltb max_alt_bytes (byte_len label))

unfoldable pub parse_one : Value → Result AttachmentError Attachment
unfolding validate_url find_field trim
parse_one value = do
  let kind = unwrap_or (and_then (get_key (codes "type") value) as_str) []
  _ ← guard (text_eq kind (codes "image_url")) unsupported_type
  url ← or_err (filled (and_then (get_key (codes "url") value) as_str)) url_required
  _ ← validate_url url
  let alt = filled (and_then (get_key (codes "alt") value) as_str)
  _ ← guard (label_fits alt) label_too_long
  ok (record { url = url; alt = alt })

abbrev pub items_length : Items → ℕ
items_length nil = 0
items_length (item v rest) = suc (items_length rest)

-- `items.iter().map(parse_one).collect()`
unfoldable pub parse_items : Items → Result AttachmentError (List Attachment)
unfolding parse_one
parse_items nil = ok []
parse_items (item v rest) = do a ← parse_one v; more ← parse_items rest; ok (a ∷ more)

unfoldable pub parse : Option Value → Result AttachmentError (List Attachment)
unfolding parse_items
parse none = ok []
parse (some null) = ok []
parse (some (array items)) =
    guard (not (ltb max_attachments (items_length items))) too_many >> parse_items items
parse (some _) = err not_an_array

-- `redact`, of a URL
unfoldable pub redact_url : Text → Text
unfolding split_text take_until byte_len
redact_url url = elim (split_text (codes "://") url) [
  | none ↦ codes "<invalid-url>"
  | some (scheme, rest) ↦
      let path = take_until ends_path rest in
      scheme
      ++ (codes "://"
          ++ (if ltb (byte_len path) (byte_len rest) then path ++ codes "?<redacted>" else path))
]

abbrev pub image_part : Attachment → Value
image_part a = object (
    field (codes "image_url") (object (field (codes "url") (string a.url) end))
      (field (codes "type") (string (codes "image_url")) end))

abbrev pub image_parts : List Attachment → Items
image_parts [] = nil
image_parts (a ∷ rest) = item (image_part a) (image_parts rest)

abbrev pub text_part : Text → Value
text_part text =
    object (field (codes "text") (string text) (field (codes "type") (string (codes "text")) end))

unfoldable pub hermes_input : Text → List Attachment → Value
hermes_input text [] = string text
hermes_input text (a ∷ rest) = array (
    item
      (object (
        field (codes "content") (array (item (text_part text) (image_parts (a ∷ rest))))
          (field (codes "role") (string (codes "user")) end)))
      nil)

abbrev pub reference : Attachment → Text
reference a = elim a.alt [
  | some alt ↦ alt ++ (codes " <" ++ (a.url ++ codes ">"))
  | none ↦ codes "<" ++ (a.url ++ codes ">")
]

abbrev pub references : List Attachment → Text
references [] = []
references (a ∷ []) = reference a
references (a ∷ b ∷ rest) = reference a ++ (codes ", " ++ references (b ∷ rest))

unfoldable pub history_suffix : List Attachment → Text
history_suffix [] = []
history_suffix (a ∷ rest) = codes "\n[attached images: " ++ (references (a ∷ rest) ++ codes "]")

abbrev pub alt_field : Option Text → Option Value
alt_field none = none
alt_field (some t) = some (string t)

-- What serde writes for an `Attachment`: no field for a missing label.
unfoldable pub attachment_value : Attachment → Value
unfolding insert_field
attachment_value a = object (
    insert_optional (codes "alt") (alt_field a.alt) (
      insert_field (codes "url") (string a.url)
        (insert_field (codes "type") (string (codes "image_url")) end)))

abbrev pub attachment_values : List Attachment → Items
attachment_values [] = nil
attachment_values (a ∷ rest) = item (attachment_value a) (attachment_values rest)
