-- ===== src/Redact/Metadata.antt =====
-- src/redact.rs: `safe_metadata`, the builder of metadata that redaction keeps, and `text_payload`.
use mathlib.Core.Path.{subst}
use asterism.Prelude.{
  ◌≡◌, refl, ap, ◌∙◌, Bool, true, false, ◌&&◌, ◌||◌, inl, inr, Option, none, some, List, [], ◌∷◌,
  ltb, ◌==◌, if◌then◌else◌, Bool-cases,
}
use asterism.Text.{Text, text_eq}
use asterism.Json.{Value, string, object, Fields, end, field}
use asterism.Redact.Keys.{
  SafeIdentifier, credential_id, key, from_key, accepts, identifier_accepts, safe_metadata_key,
}
use asterism.Redact.Strings.{bound_string}
use asterism.Redact.{
  safe_field_value, safe_fields, walk_safe_metadata, walk_entry, walk, walk_fields, redact,
}

-- The order of a map's keys.
unfoldable pub text_ltb : Text → Text → Bool
text_ltb [] [] = false
text_ltb [] (d ∷ t) = true
text_ltb (c ∷ s) [] = false
text_ltb (c ∷ s) (d ∷ t) = ltb c d || (c == d && text_ltb s t)

-- `Map::insert`
unfoldable pub insert_field : Text → Value → Fields → Fields
insert_field k v end = field k v end
insert_field k v (field k' v' rest) =
    if text_eq k k'
    then field k v rest
    else if text_ltb k k'
    then field k v (field k' v' rest)
    else field k' v' (insert_field k v rest)

-- The loop of `safe_metadata`.
unfoldable pub metadata_from : List (SafeIdentifier × Text) → Fields → Option Value
metadata_from [] map = some (object map)
metadata_from ((identifier, value) ∷ entries) map =
    let rest = metadata_from entries (insert_field (key identifier) (string value) map) in
    if accepts identifier value then rest else none

unfoldable pub safe_metadata : List (SafeIdentifier × Text) → Option Value
safe_metadata entries = metadata_from entries end

unfoldable pub text_payload : Text → Value
text_payload text = string (bound_string text false).0

-- A field that the walk keeps.
abbrev KeptField : Text → Value → Type 0
KeptField k v = (m : Bool) → safe_field_value k v m ≡ (v, m)

abbrev Kept : Fields → Type 0
Kept end = Unit
Kept (field k v fs) = KeptField k v × Kept fs

safe_fields-Kept : (fs : Fields) (m : Bool) → Kept fs → safe_fields fs m ≡ (fs, m)
unfolding safe_fields
safe_fields-Kept end m h = refl
safe_fields-Kept (field k v fs) m (h, hs) =
    ap (λ (x : Value × Bool). (field k x.0 (safe_fields fs x.1).0, (safe_fields fs x.1).1)) (h m)
    ∙ ap (λ (x : Fields × Bool). (field k v x.0, x.1)) (safe_fields-Kept fs m hs)

accepted-KeptField :
    (identifier : SafeIdentifier) (value : Text)
    → accepts identifier value ≡ true
    → KeptField (key identifier) (string value)
unfolding safe_field_value identifier_accepts from_key key text_eq
accepted-KeptField credential_id value h m = rw h refl

Kept-insert_field :
    (k : Text) (v : Value) (fs : Fields) → KeptField k v → Kept fs → Kept (insert_field k v fs)
unfolding insert_field
Kept-insert_field k v end h hs = (h, tt)
Kept-insert_field k v (field k' v' fs) h (h', hs) = elim (Bool-cases (text_eq k k')) [
  | inl same ↦ rw (same, insert_field) (h, hs)
  | inr other ↦ elim (Bool-cases (text_ltb k k')) [
    | inl before ↦ rw (other, before, insert_field) (h, (h', hs))
    | inr after ↦ rw (other, after, insert_field) (h', Kept-insert_field k v fs h hs)
  ]
]

-- An object of kept fields.
abbrev KeptObject : Option Value → Type 0
KeptObject none = Unit
KeptObject (some v) = (m : Bool) → walk_safe_metadata v m ≡ (v, m)

metadata_from-KeptObject :
    (entries : List (SafeIdentifier × Text)) (map : Fields)
    → Kept map
    → KeptObject (metadata_from entries map)
unfolding metadata_from walk_safe_metadata
metadata_from-KeptObject [] map h =
    λ m. ap (λ (x : Fields × Bool). (object x.0, x.1)) (safe_fields-Kept map m h)
metadata_from-KeptObject ((identifier, value) ∷ entries) map h =
    elim (Bool-cases (accepts identifier value)) [
      | inl good ↦
          rw (good, metadata_from)
            (metadata_from-KeptObject entries (insert_field (key identifier) (string value) map) (
              Kept-insert_field (key identifier) (string value) map
                (accepted-KeptField identifier value good) h))
      | inr bad ↦ rw (bad, metadata_from) tt
    ]

walk-under_key :
    (v : Value)
    → walk_safe_metadata v false ≡ (v, false)
    → redact (object (field safe_metadata_key v end))
      ≡ record { value = object (field safe_metadata_key v end); modified = false }
unfolding redact walk walk_fields walk_entry text_eq
walk-under_key v h =
    ap
      (λ (x : Value × Bool). record {
        value = object (field safe_metadata_key x.0 end);
        modified = x.1;
      })
      h

-- Metadata that a producer builds passes redaction: whatever `safe_metadata` returns is kept
-- unchanged under its key, and the payload is not reported as modified.
pub redact-safe_metadata :
    (entries : List (SafeIdentifier × Text)) (v : Value)
    → safe_metadata entries ≡ some v
    → redact (object (field safe_metadata_key v end))
      ≡ record { value = object (field safe_metadata_key v end); modified = false }
unfolding safe_metadata
redact-safe_metadata entries v built =
    walk-under_key v (subst KeptObject built (metadata_from-KeptObject entries end tt) false)
