-- ===== src/Redact/Clean.antt =====
-- What a redacted payload may hold, described without the walk: no text that looks like a secret,
-- and under each suspicious key only the replacement.
use asterism.Prelude.{
  ℕ, suc, ◌≡◌, refl, Bool, true, false, not, ◌&&◌, ◌⊎◌, inl, inr, arith, leb, Bool-cases, ◌∙◌,
  and_left,
}
use asterism.Text.{Text, text_eq}
use asterism.Text.Bounds.{text_eq_iff}
use asterism.Json.{
  Value, null, bool, number, string, array, object, Items, nil, item, Fields, end, field, is_array,
}
use asterism.Redact.Keys.{
  redacted, redacted_environment, safe_metadata_key, is_secret_key, is_environment_key,
  is_listing_of_credentials, can_carry_secret, looks_like_secret, identifier_accepts,
}
use asterism.Redact.Strings.{bound_string}
use asterism.Redact.{
  Walked, safe_field_value, safe_fields, walk_safe_metadata, walk_entry, walk_text, within_depth,
  walk, walk_items, walk_fields, max_depth,
}

-- Under `safe_metadata`: validated identifiers and replacements.
pub data CleanSafeFields : Fields → Type 0 where
  safe_end : CleanSafeFields end
  safe_identifier :
      (k t : Text) {fs : Fields}
      → identifier_accepts k t ≡ true
      → CleanSafeFields fs
      → CleanSafeFields (field k (string t) fs)
  safe_destroyed :
      (k : Text) {fs : Fields} → CleanSafeFields fs → CleanSafeFields (field k (string redacted) fs)

pub data CleanSafe : Value → Type 0 where
  safe_object : {fs : Fields} → CleanSafeFields fs → CleanSafe (object fs)
  safe_replaced : CleanSafe (string redacted)

mutual
  pub data Clean : Value → Type 0 where
    clean_null : Clean null
    clean_bool : (b : Bool) → Clean (bool b)
    clean_number : (n : Text) → Clean (number n)
    clean_replaced : Clean (string redacted)
    -- a text that did not look like a secret, bounded in length
    clean_text :
        (t : Text) (m : Bool) → looks_like_secret t ≡ false → Clean (string (bound_string t m).0)
    clean_array : {xs : Items} → CleanItems xs → Clean (array xs)
    clean_object : {fs : Fields} → CleanFields fs → Clean (object fs)

  pub data CleanItems : Items → Type 0 where
    clean_nil : CleanItems nil
    clean_item : {v : Value} {xs : Items} → Clean v → CleanItems xs → CleanItems (item v xs)

  pub data CleanFields : Fields → Type 0 where
    clean_end : CleanFields end
    clean_field :
        {k : Text} {v : Value} {fs : Fields}
        → CleanEntry k v
        → CleanFields fs
        → CleanFields (field k v fs)

  pub data CleanEntry : Text → Value → Type 0 where
    entry_safe : {k : Text} {v : Value} → k ≡ safe_metadata_key → CleanSafe v → CleanEntry k v
    entry_environment :
        {k : Text} → is_environment_key k ≡ true → CleanEntry k (string redacted_environment)
    entry_secret : {k : Text} → is_secret_key k ≡ true → CleanEntry k (string redacted)
    -- any other value stands under a key that is not secret, or is a number or a Boolean, or is
    -- the listing of credentials, or was replaced for its depth
    entry_plain :
        {k : Text} {v : Value}
        → is_environment_key k ≡ false
        → (is_secret_key k ≡ false)
          ⊎ (can_carry_secret v ≡ false)
          ⊎ (is_listing_of_credentials k v ≡ true)
          ⊎ (v ≡ string redacted)
        → Clean v
        → CleanEntry k v

safe_field_value-CleanSafeFields :
    (k : Text) (v : Value) (m : Bool) {fs : Fields}
    → CleanSafeFields fs
    → CleanSafeFields (field k (safe_field_value k v m).0 fs)
unfolding safe_field_value
safe_field_value-CleanSafeFields k (string t) m h = elim (Bool-cases (identifier_accepts k t)) [
  | inl good ↦ rw good (safe_identifier k t good h)
  | inr bad ↦ rw bad (safe_destroyed k h)
]
safe_field_value-CleanSafeFields k _ m h = safe_destroyed k h

safe_fields-Clean : (fs : Fields) (m : Bool) → CleanSafeFields (safe_fields fs m).0
unfolding safe_fields
safe_fields-Clean end m = safe_end
safe_fields-Clean (field k v fs) m =
    safe_field_value-CleanSafeFields k v m (safe_fields-Clean fs (safe_field_value k v m).1)

walk_safe_metadata-Clean : (v : Value) (m : Bool) → CleanSafe (walk_safe_metadata v m).0
unfolding walk_safe_metadata
walk_safe_metadata-Clean (object fs) m = safe_object (safe_fields-Clean fs m)
walk_safe_metadata-Clean _ m = safe_replaced

walk_text-Clean : (t : Text) (m : Bool) → Clean (walk_text t m).0
unfolding walk_text
walk_text-Clean t m = elim (Bool-cases (looks_like_secret t)) [
  | inl secret ↦ rw secret clean_replaced
  | inr plain ↦ rw plain (clean_text t m plain)
]

within_depth-Clean : (d : ℕ) (r : Walked) → Clean r.0 → Clean (within_depth d r).0
within_depth-Clean d r h = elim (Bool-cases (leb max_depth d)) [
  | inl deep ↦ rw deep clean_replaced
  | inr fine ↦ rw fine h
]

-- The walk keeps the kind of a value, or replaces it.
abbrev SameKind : Value → Value → Type 0
SameKind v w = (can_carry_secret w ≡ can_carry_secret v) × (is_array w ≡ is_array v)

within_depth-kind :
    (d : ℕ) (v : Value) (r : Walked)
    → SameKind v r.0
    → SameKind v (within_depth d r).0 ⊎ ((within_depth d r).0 ≡ string redacted)
within_depth-kind d v r h = elim (Bool-cases (leb max_depth d)) [
  | inl deep ↦ inr (rw deep)
  | inr fine ↦ inl (rw fine h)
]

walk_text-kind : (t : Text) (m : Bool) → SameKind (string t) (walk_text t m).0
unfolding walk_text can_carry_secret is_array
walk_text-kind t m = elim (Bool-cases (looks_like_secret t)) [
  | inl secret ↦ rw secret (refl, refl)
  | inr plain ↦ rw plain (refl, refl)
]

walk-kind :
    (v : Value) (d : ℕ) (m : Bool) → SameKind v (walk v d m).0 ⊎ ((walk v d m).0 ≡ string redacted)
unfolding walk can_carry_secret is_array
walk-kind (object fs) d m =
    within_depth-kind d (object fs) (object (walk_fields fs d m).0, (walk_fields fs d m).1)
      (refl, refl)
walk-kind (array xs) d m =
    within_depth-kind d (array xs) (array (walk_items xs d m).0, (walk_items xs d m).1) (refl, refl)
walk-kind (string t) d m = within_depth-kind d (string t) (walk_text t m) (walk_text-kind t m)
walk-kind null d m = within_depth-kind d null (null, m) (refl, refl)
walk-kind (bool b) d m = within_depth-kind d (bool b) (bool b, m) (refl, refl)
walk-kind (number n) d m = within_depth-kind d (number n) (number n, m) (refl, refl)

-- Why a field was walked and not replaced, said of the value that stands there afterwards.
abbrev Harmless : Text → Value → Type 0
Harmless k v =
    (is_secret_key k ≡ false)
    ⊎ (can_carry_secret v ≡ false)
    ⊎ (is_listing_of_credentials k v ≡ true)
    ⊎ (v ≡ string redacted)

Harmless-walk :
    (k : Text) (v w : Value)
    → (SameKind v w ⊎ (w ≡ string redacted))
    → (is_secret_key k && (can_carry_secret v && not (is_listing_of_credentials k v))) ≡ false
    → Harmless k w
unfolding is_listing_of_credentials
Harmless-walk k v w (inr e) h = inr (inr (inr e))
Harmless-walk k v w (inl s) h = elim (Bool-cases (is_secret_key k)) [
  | inr open_key ↦ inl open_key
  | inl secret ↦ elim (Bool-cases (can_carry_secret v)) [
    | inr inert ↦ inr (inl (s.0 ∙ inert))
    | inl carries ↦ inr (inr (inl (ground arith)))
  ]
]

walk_entry-Clean :
    (k : Text) (v : Value) (d : ℕ) (m : Bool)
    → Clean (walk v d m).0
    → CleanEntry k (walk_entry k v (walk v d m) m).0
unfolding walk_entry
walk_entry-Clean k v d m h = elim (Bool-cases (text_eq k safe_metadata_key)) [
  | inl safe ↦ rw safe (entry_safe ((text_eq_iff k _).0 safe) (walk_safe_metadata-Clean v m))
  | inr s ↦ elim (Bool-cases (is_environment_key k)) [
    | inl environment ↦ rw (s, environment) (entry_environment environment)
    | inr e ↦
        elim (Bool-cases
          (is_secret_key k && (can_carry_secret v && not (is_listing_of_credentials k v)))) [
            | inl secret ↦ rw (s, e, secret) (entry_secret (and_left _ _ secret))
            | inr plain ↦
                rw (s, e, plain) (entry_plain e (Harmless-walk k v _ (walk-kind v d m) plain) h)
          ]
  ]
]

mutual
  unfolding walk walk_items walk_fields

  walk-Clean : (v : Value) (d : ℕ) (m : Bool) → Clean (walk v d m).0
  walk-Clean (object fs) d m =
      within_depth-Clean d (object (walk_fields fs d m).0, (walk_fields fs d m).1)
        (clean_object (walk_fields-Clean fs d m))
  walk-Clean (array xs) d m =
      within_depth-Clean d (array (walk_items xs d m).0, (walk_items xs d m).1)
        (clean_array (walk_items-Clean xs d m))
  walk-Clean (string t) d m = within_depth-Clean d (walk_text t m) (walk_text-Clean t m)
  walk-Clean null d m = within_depth-Clean d (null, m) clean_null
  walk-Clean (bool b) d m = within_depth-Clean d (bool b, m) (clean_bool b)
  walk-Clean (number n) d m = within_depth-Clean d (number n, m) (clean_number n)

  walk_items-Clean : (xs : Items) (d : ℕ) (m : Bool) → CleanItems (walk_items xs d m).0
  walk_items-Clean nil d m = clean_nil
  walk_items-Clean (item x xs) d m =
      clean_item (walk-Clean x (suc d) m) (walk_items-Clean xs d (walk x (suc d) m).1)

  walk_fields-Clean : (fs : Fields) (d : ℕ) (m : Bool) → CleanFields (walk_fields fs d m).0
  walk_fields-Clean end d m = clean_end
  walk_fields-Clean (field k v fs) d m =
      clean_field (walk_entry-Clean k v (suc d) m (walk-Clean v (suc d) m))
        (walk_fields-Clean fs d (walk_entry k v (walk v (suc d) m) m).1)
