-- ===== src/Attachments/Parsed.antt =====
-- What is known of attachments that were accepted, and that they are accepted again.
use mathlib.Core.Path.{subst}
use asterism.Prelude.{
  ℕ, suc, ◌≤◌, ◌≡◌, refl, ap, ◌∙◌, Bool, true, false, not, ◌||◌, inl, inr, ◌⊎◌, Option, none, some,
  List, [], ◌∷◌, arith, ltb, if◌then◌else◌, All, any_row, Bool-cases, length,
}
use asterism.Prelude.Results.{Result, ok, guard, guard-eq-ok, >>=-eq-ok, or_err, or_err-eq-ok}
use asterism.Text.{Text, codes, text_eq, byte_len, is_whitespace, split_text, take_until, trim}
use asterism.Text.Bounds.{text_eq_iff}
use asterism.Text.Trim.{trim-again}
use asterism.Prelude.Table.{unwrap_or}
use asterism.Redact.Metadata.{insert_field, text_ltb}
use asterism.DeviceDelivery.{and_then}
use asterism.Json.{Value, null, array, Items, nil, item, get_key, as_str, find_field}
use asterism.Attachments.{
  Attachment, AttachmentError, parse, parse_items, parse_one, validate_url, items_length,
  max_attachments, label_fits, url_too_long, not_absolute, wrong_scheme, no_host,
  embeds_credentials, contains_whitespace, unsupported_type, url_required, label_too_long, too_many,
  ends_authority, has_character, is_blank_text, max_url_bytes, attachment_value, attachment_values,
  filled,
}

-- An absolute link over HTTP whose authority is not empty and holds no credentials, and which has
-- no blank in it.
abbrev pub IsSafeUrl : Text → Type 0
IsSafeUrl url =
    (byte_len url ≤ max_url_bytes)
    × (any_row is_whitespace url ≡ false)
    × ((scheme : Text) × (rest : Text) × (split_text (codes "://") url ≡ some (scheme, rest))
        × ((scheme ≡ codes "http") ⊎ (scheme ≡ codes "https"))
        × (is_blank_text (take_until ends_authority rest) ≡ false)
        × (has_character b'@' (take_until ends_authority rest) ≡ false))

guard-true : (b : Bool) (e : AttachmentError) → guard b e ≡ ok tt → b ≡ true
guard-true true e h = refl
guard-true false e h = cc

http-scheme :
    (s : Text)
    → (text_eq s (codes "http") || text_eq s (codes "https")) ≡ true
    → (s ≡ codes "http") ⊎ (s ≡ codes "https")
http-scheme s h = elim (Bool-cases (text_eq s (codes "http"))) [
  | inl plain ↦ inl ((text_eq_iff s (codes "http")).0 plain)
  | inr other ↦ inr ((text_eq_iff s (codes "https")).0 (ground (arith, other, h)))
]

validate_url-IsSafeUrl : (url : Text) → validate_url url ≡ ok tt → IsSafeUrl url
unfolding validate_url
validate_url-IsSafeUrl url h =
    let (short, h₁) = guard-eq-ok (not (ltb max_url_bytes (byte_len url))) url_too_long _ h in
    let ((scheme, rest), split, h₂) =
      >>=-eq-ok (or_err (split_text (codes "://") url) not_absolute) _ h₁ in
    let (named, h₃) =
      guard-eq-ok (text_eq scheme (codes "http") || text_eq scheme (codes "https")) wrong_scheme _
        h₂ in
    let authority = take_until ends_authority rest in
    let (hosted, h₄) = guard-eq-ok (not (is_blank_text authority)) no_host _ h₃ in
    let (bare, h₅) = guard-eq-ok (not (has_character b'@' authority)) embeds_credentials _ h₄ in
    let solid = guard-true (not (any_row is_whitespace url)) contains_whitespace h₅ in
    (
      ground (arith, short),
      ground (arith, solid),
      (
        scheme,
        rest,
        or_err-eq-ok (split_text (codes "://") url) not_absolute (scheme, rest) split,
        http-scheme scheme named,
        ground (arith, hosted),
        ground (arith, bare),
      ),
    )

-- The parts of `parse_one` that succeeded.
abbrev Accepted : Attachment → Type 0
Accepted a =
    (validate_url a.url ≡ ok tt)
    × (filled (some a.url) ≡ some a.url)
    × ((label : Text) → a.alt ≡ some label → filled (some label) ≡ some label)
    × (label_fits a.alt ≡ true)

some-injective : {s t : Text} → Path (Option Text) (some s) (some t) → s ≡ t
some-injective h = cc

filled-again : (o : Option Text) (t : Text) → filled o ≡ some t → filled (some t) ≡ some t
filled-again none t h = cc
filled-again (some s) t h = elim (Bool-cases (is_blank_text (trim s))) [
  | inl blank ↦ ground (arith, h, blank)
  | inr solid ↦
      subst (λ u. filled (some u) ≡ some u) (some-injective (ground (arith, h, solid)))
        (ap (λ u. if is_blank_text u then none else some u) (trim-again s) ∙ ground (arith, solid))
]

unit_ok : (r : Result AttachmentError (Unit {0})) (u : Unit {0}) → r ≡ ok u → r ≡ ok tt
unit_ok r tt h = h

ok-list :
    (xs ys : List Attachment)
    → Path (Result AttachmentError (List Attachment)) (ok xs) (ok ys)
    → xs ≡ ys
ok-list xs ys h = cc

ok-fields :
    (u : Text) (o : Option Text) (a : Attachment)
    → Path (Result AttachmentError Attachment) (ok (record { url = u; alt = o })) (ok a)
    → record { url = u; alt = o } ≡ a
ok-fields u o a h = cc

parse_one-Accepted : (v : Value) (a : Attachment) → parse_one v ≡ ok a → Accepted a
unfolding parse_one
parse_one-Accepted v a h =
    let kind = unwrap_or (and_then (get_key (codes "type") v) as_str) [] in
    let link = filled (and_then (get_key (codes "url") v) as_str) in
    let label = filled (and_then (get_key (codes "alt") v) as_str) in
    let (typed, h₁) = guard-eq-ok (text_eq kind (codes "image_url")) unsupported_type _ h in
    let (url, linked, h₂) = >>=-eq-ok (or_err link url_required) _ h₁ in
    let (u, valid, h₃) = >>=-eq-ok (validate_url url) _ h₂ in
    let (short, h₄) = guard-eq-ok (label_fits label) label_too_long _ h₃ in
    subst Accepted (ok-fields url label a h₄) (
      unit_ok (validate_url url) u valid,
      filled-again (and_then (get_key (codes "url") v) as_str) url
          (or_err-eq-ok link url_required url linked),
      λ t e. filled-again (and_then (get_key (codes "alt") v) as_str) t e,
      short,
    )

-- An accepted attachment is accepted again as it is stored.
parse_one-attachment_value : (a : Attachment) → Accepted a → parse_one (attachment_value a) ≡ ok a
unfolding parse_one attachment_value insert_field text_eq find_field text_ltb
parse_one-attachment_value a h = stored a.url a.alt h
  where
    stored :
        (url : Text) (alt : Option Text)
        → Accepted (record { url = url; alt = alt })
        → parse_one (attachment_value (record { url = url; alt = alt }))
          ≡ ok (record { url = url; alt = alt })
    stored url none (valid, linked, labelled, short) = rw (linked, valid) refl
    stored url (some label) (valid, linked, labelled, short) =
        rw (linked, valid, labelled label refl, short) refl

parse_items-Accepted :
    (items : Items) (images : List Attachment)
    → parse_items items ≡ ok images
    → All Accepted images × (length images ≡ items_length items)
unfolding parse_items
parse_items-Accepted nil images h =
    subst (λ l. All Accepted l × (length l ≡ 0)) (ok-list [] images h) (tt, refl)
parse_items-Accepted (item v rest) images h =
    let (a, first, h₁) = >>=-eq-ok (parse_one v) _ h in
    let (more, others, h₂) = >>=-eq-ok (parse_items rest) _ h₁ in
    let (accepted, same) = parse_items-Accepted rest more others in
    subst (λ l. All Accepted l × (length l ≡ suc (items_length rest)))
      (ok-list (a ∷ more) images h₂) ((parse_one-Accepted v a first, accepted), ap suc same)

parse_items-attachment_values :
    (images : List Attachment)
    → All Accepted images
    → parse_items (attachment_values images) ≡ ok images
unfolding parse_items
parse_items-attachment_values [] h = refl
parse_items-attachment_values (a ∷ images) (h, hs) =
    rw (parse_one-attachment_value a h, parse_items-attachment_values images hs) refl

items_length-attachment_values :
    (images : List Attachment) → items_length (attachment_values images) ≡ length images
items_length-attachment_values [] = refl
items_length-attachment_values (a ∷ images) = ap suc (items_length-attachment_values images)

parse-Accepted :
    (value : Option Value) (images : List Attachment)
    → parse value ≡ ok images
    → All Accepted images × (length images ≤ max_attachments)
unfolding parse
parse-Accepted none images h =
    subst (λ l. All Accepted l × (length l ≤ 4)) (ok-list [] images h) (tt, omega arith)
parse-Accepted (some null) images h =
    subst (λ l. All Accepted l × (length l ≤ 4)) (ok-list [] images h) (tt, omega arith)
parse-Accepted (some (array items)) images h =
    let (few, read) =
      guard-eq-ok (not (ltb max_attachments (items_length items))) too_many (parse_items items) h in
    let (accepted, same) = parse_items-Accepted items images read in
    (accepted, ground (arith, few, same))
parse-Accepted (some _) images h = cc

All-IsSafeUrl : (images : List Attachment) → All Accepted images → All (λ a. IsSafeUrl a.url) images
All-IsSafeUrl [] h = tt
All-IsSafeUrl (a ∷ images) (h, hs) = (validate_url-IsSafeUrl a.url h.0, All-IsSafeUrl images hs)

-- Attachments that are accepted are at most four, and each is an absolute http or https link of at
-- most 2048 bytes, with no blank anywhere, whose authority, the text up to the first slash, question
-- mark or hash, is not empty and holds no at sign.
pub parse-IsSafeUrl :
    (value : Option Value) (images : List Attachment)
    → parse value ≡ ok images
    → (length images ≤ max_attachments) × All (λ a. IsSafeUrl a.url) images
parse-IsSafeUrl value images h =
    let (accepted, few) = parse-Accepted value images h in (few, All-IsSafeUrl images accepted)

-- Accepted attachments that are stored, as serde writes them, are accepted again as they were.
pub parse-attachment_values :
    (value : Option Value) (images : List Attachment)
    → parse value ≡ ok images
    → parse (some (array (attachment_values images))) ≡ ok images
unfolding parse
parse-attachment_values value images h =
    let (accepted, few) = parse-Accepted value images h in
    let same = items_length-attachment_values images in
    rw (test (items_length (attachment_values images)) (omega (arith, few, same)))
      (parse_items-attachment_values images accepted)
  where
    test : (n : ℕ) → n ≤ 4 → ltb max_attachments n ≡ false
    test n few = ground (arith, few)
