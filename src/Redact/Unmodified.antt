-- ===== src/Redact/Unmodified.antt =====
-- The flag `modified`: where it stays unset, the payload is returned as it came.
use asterism.Prelude.{ℕ, suc, ◌≡◌, refl, ap, Bool, false, not, ◌&&◌, inl, inr, leb, Bool-cases}
use asterism.Text.{Text, text_eq}
use asterism.Json.{
  Value, null, bool, number, string, array, object, Items, nil, item, Fields, end, field,
}
use asterism.Redact.Keys.{
  safe_metadata_key, is_secret_key, is_environment_key, is_listing_of_credentials, can_carry_secret,
  looks_like_secret, identifier_accepts,
}
use asterism.Redact.Strings.{bound_string-unmodified}
use asterism.Redact.{
  Walked, safe_field_value, safe_fields, walk_safe_metadata, walk_entry, walk_text, within_depth,
  walk, walk_items, walk_fields, redact, max_depth,
}

-- A walked value whose flag is unset is the value that was walked, and the flag was unset before.
abbrev Faithful {ℓ} : {A : Type ℓ} → A → Bool → A × Bool → Type ℓ
Faithful a m r = r.1 ≡ false → (r.0 ≡ a) × (m ≡ false)

safe_field_value-Faithful :
    (k : Text) (v : Value) (m : Bool) → Faithful v m (safe_field_value k v m)
unfolding safe_field_value
safe_field_value-Faithful k (string t) m = elim (Bool-cases (identifier_accepts k t)) [
  | inl good ↦ rw good (λ h. (refl, h))
  | inr bad ↦ rw bad (λ h. cc)
]
safe_field_value-Faithful k _ m = λ h. cc

safe_fields-Faithful : (fs : Fields) (m : Bool) → Faithful fs m (safe_fields fs m)
unfolding safe_fields
safe_fields-Faithful end m h = (refl, h)
safe_fields-Faithful (field k v fs) m h =
    let r = safe_field_value k v m in
    let (rest, set) = safe_fields-Faithful fs r.1 h in
    let (first, start) = safe_field_value-Faithful k v m set in (cc, start)

walk_safe_metadata-Faithful : (v : Value) (m : Bool) → Faithful v m (walk_safe_metadata v m)
unfolding walk_safe_metadata
walk_safe_metadata-Faithful (object fs) m h =
    let (same, start) = safe_fields-Faithful fs m h in (ap object same, start)
walk_safe_metadata-Faithful _ m h = cc

walk_text-Faithful : (t : Text) (m : Bool) → Faithful (string t) m (walk_text t m)
unfolding walk_text
walk_text-Faithful t m = elim (Bool-cases (looks_like_secret t)) [
  | inl secret ↦ rw secret (λ h. cc)
  | inr plain ↦
      rw plain (λ h. let (same, start) = bound_string-unmodified t m h in (ap string same, start))
]

within_depth-Faithful :
    (d : ℕ) (v : Value) (m : Bool) (r : Walked) → Faithful v m r → Faithful v m (within_depth d r)
within_depth-Faithful d v m r f = elim (Bool-cases (leb max_depth d)) [
  | inl deep ↦ rw deep (λ h. cc)
  | inr fine ↦ rw fine f
]

walk_entry-Faithful :
    (k : Text) (v : Value) (w : Walked) (m : Bool)
    → Faithful v m w
    → Faithful v m (walk_entry k v w m)
unfolding walk_entry
walk_entry-Faithful k v w m f = elim (Bool-cases (text_eq k safe_metadata_key)) [
  | inl safe ↦ rw safe (walk_safe_metadata-Faithful v m)
  | inr s ↦ elim (Bool-cases (is_environment_key k)) [
    | inl environment ↦ rw (s, environment) (λ h. cc)
    | inr e ↦
        elim (Bool-cases
          (is_secret_key k && (can_carry_secret v && not (is_listing_of_credentials k v)))) [
            | inl secret ↦ rw (s, e, secret) (λ h. cc)
            | inr plain ↦ rw (s, e, plain) f
          ]
  ]
]

mutual
  unfolding walk walk_items walk_fields

  walk-Faithful : (v : Value) (d : ℕ) (m : Bool) → Faithful v m (walk v d m)
  walk-Faithful (object fs) d m =
      within_depth-Faithful d (object fs) m (object (walk_fields fs d m).0, (walk_fields fs d m).1)
        (λ h. let (same, start) = walk_fields-Faithful fs d m h in (ap object same, start))
  walk-Faithful (array xs) d m =
      within_depth-Faithful d (array xs) m (array (walk_items xs d m).0, (walk_items xs d m).1)
        (λ h. let (same, start) = walk_items-Faithful xs d m h in (ap array same, start))
  walk-Faithful (string t) d m =
      within_depth-Faithful d (string t) m (walk_text t m) (walk_text-Faithful t m)
  walk-Faithful null d m = within_depth-Faithful d null m (null, m) (λ h. (refl, h))
  walk-Faithful (bool b) d m = within_depth-Faithful d (bool b) m (bool b, m) (λ h. (refl, h))
  walk-Faithful (number n) d m = within_depth-Faithful d (number n) m (number n, m) (λ h. (refl, h))

  walk_items-Faithful : (xs : Items) (d : ℕ) (m : Bool) → Faithful xs m (walk_items xs d m)
  walk_items-Faithful nil d m h = (refl, h)
  walk_items-Faithful (item x xs) d m h =
      let r = walk x (suc d) m in
      let (rest, set) = walk_items-Faithful xs d r.1 h in
      let (first, start) = walk-Faithful x (suc d) m set in (cc, start)

  walk_fields-Faithful : (fs : Fields) (d : ℕ) (m : Bool) → Faithful fs m (walk_fields fs d m)
  walk_fields-Faithful end d m h = (refl, h)
  walk_fields-Faithful (field k v fs) d m h =
      let r = walk_entry k v (walk v (suc d) m) m in
      let (rest, set) = walk_fields-Faithful fs d r.1 h in
      let (first, start) =
        walk_entry-Faithful k v (walk v (suc d) m) m (walk-Faithful v (suc d) m) set in
      (cc, start)

-- A payload that `redact` does not report as modified is stored exactly as it was given.
pub redact_unmodified : (v : Value) → (redact v).modified ≡ false → (redact v).value ≡ v
unfolding redact
redact_unmodified v h = (walk-Faithful v 0 false h).0
