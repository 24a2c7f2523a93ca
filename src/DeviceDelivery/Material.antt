-- ===== src/DeviceDelivery/Material.antt =====
-- What is kept of a device authorization carries no code.
use asterism.Prelude.{
  ◌≡◌, refl, ap, ◌∙◌, false, ◌||◌, Option, none, some, [], ◌∷◌, arith, if◌then◌else◌,
}
use asterism.Text.{Text, codes, text_eq}
use asterism.Text.Bounds.{text_eq_iff}
use asterism.Json.{Value, string, get_key, Fields, end, field, find_field, has_field}
use asterism.Redact.Keys.{safe_metadata_key, credential_id}
use asterism.Redact.Metadata.{insert_field, safe_metadata}
use asterism.DeviceDelivery.{
  insert_optional, number_value, durable_fields, carries_material, scrubbed, result_credential,
  redacted_marker, and_then, as_u64,
}

pub has_field-insert_field :
    (k j : Text) (v : Value) (fs : Fields)
    → has_field k (insert_field j v fs) ≡ (text_eq j k || has_field k fs)
unfolding has_field insert_field
has_field-insert_field k j v end = refl
has_field-insert_field k j v (field i u fs) =
    ground
      (arith, text_eq_iff j i, text_eq_iff j k, text_eq_iff i k, has_field-insert_field k j v fs)

pub find_field-insert_field :
    (k j : Text) (v : Value) (fs : Fields)
    → find_field k (insert_field j v fs) ≡ (if text_eq j k then some v else find_field k fs)
unfolding find_field insert_field
find_field-insert_field k j v end = refl
find_field-insert_field k j v (field i u fs) =
    ground
      (arith, text_eq_iff j i, text_eq_iff j k, text_eq_iff i k, find_field-insert_field k j v fs)

has_field-insert_optional :
    (k j : Text) (o : Option Value) (fs : Fields)
    → text_eq j k ≡ false
    → has_field k (insert_optional j o fs) ≡ has_field k fs
has_field-insert_optional k j none fs h = refl
has_field-insert_optional k j (some v) fs h =
    has_field-insert_field k j v fs ∙ ap (λ b. b || has_field k fs) h

has_field-skipped :
    (k j : Text) (v : Value) (fs : Fields)
    → text_eq j k ≡ false
    → has_field k fs ≡ false
    → has_field k (insert_field j v fs) ≡ false
has_field-skipped k j v fs h missing = ground (arith, has_field-insert_field k j v fs, h, missing)

-- A field that `durable_fields` does not write.
has_field-durable_fields :
    (k id : Text) (expires : Option Text)
    → text_eq safe_metadata_key k ≡ false
    → text_eq (codes "expires_in_seconds") k ≡ false
    → text_eq (codes "redacted") k ≡ false
    → text_eq (codes "delivery") k ≡ false
    → has_field k (durable_fields id expires) ≡ false
unfolding durable_fields has_field
has_field-durable_fields k id expires h₁ h₂ h₃ h₄ =
    let delivery = insert_field (codes "delivery") (string (codes "transient")) end in
    let result = insert_field (codes "redacted") (string redacted_marker) delivery in
    has_field-insert_optional k safe_metadata_key (safe_metadata ((credential_id, id) ∷ []))
      (insert_optional (codes "expires_in_seconds") (number_value expires) result) h₁
    ∙ (has_field-insert_optional k (codes "expires_in_seconds") (number_value expires) result h₂
        ∙ has_field-skipped k (codes "redacted") (string redacted_marker) delivery h₃
            (has_field-skipped k (codes "delivery") (string (codes "transient")) end h₄ refl))

has_field-scrubbed :
    (k id : Text) (expires : Option Text)
    → text_eq safe_metadata_key k ≡ false
    → text_eq (codes "expires_in_seconds") k ≡ false
    → text_eq (codes "redacted") k ≡ false
    → text_eq (codes "delivery") k ≡ false
    → has_field k
        (insert_field (codes "delivery") (string (codes "scrubbed")) (durable_fields id expires))
      ≡ false
has_field-scrubbed k id expires h₁ h₂ h₃ h₄ =
    has_field-skipped k (codes "delivery") (string (codes "scrubbed")) (durable_fields id expires)
      h₄ (has_field-durable_fields k id expires h₁ h₂ h₃ h₄)

pub carries_material-scrubbed : (result : Value) → carries_material (scrubbed result) ≡ false
unfolding carries_material scrubbed text_eq
carries_material-scrubbed result =
    let id = result_credential result in
    let expires = and_then (get_key (codes "expires_in_seconds") result) as_u64 in
    ground (
      arith,
      has_field-scrubbed (codes "user_code") id expires refl refl refl refl,
      has_field-scrubbed (codes "verification_uri") id expires refl refl refl refl,
    )
