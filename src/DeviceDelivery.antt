-- ===== src/DeviceDelivery.antt =====
-- src/device_delivery.rs: a device code goes to the browser in one frame, and command history keeps
-- the shape of the answer only.
pub mod Material
use asterism.Prelude.{
  Bool, true, false, not, ◌&&◌, ◌||◌, Option, none, some, List, [], ◌∷◌, leb, if◌then◌else◌,
}
use asterism.Prelude.Table.{unwrap_or}
use asterism.Text.{Text, codes}
use asterism.Json.{
  Value, string, number, object, Fields, end, field, find_field, has_field, get_key, as_str,
}
use asterism.Redact.Keys.{credential_id, key, accepts, safe_metadata_key}
use asterism.Redact.Metadata.{insert_field, safe_metadata}

abbrev pub redacted_marker : Text
redacted_marker = codes "device_authorization"

abbrev pub material_fields : List Text
material_fields = codes "user_code" ∷ codes "verification_uri" ∷ []

-- `DeviceCode` of src/provider.rs. A `u64` that is only printed is kept as its decimal text.
pub record DeviceCode : Type 0 where
  pub verification_uri : Text
  pub user_code : Text
  pub expires_in_seconds : Text

pub record DeviceDelivery : Type 0 where
  pub command_id : Text
  pub delivered_credential : Text
  pub verification_uri : Text
  pub user_code : Text
  pub expires_in_seconds : Text

-- `DeviceDelivery::new`
abbrev pub new_delivery : Text → Text → DeviceCode → DeviceDelivery
new_delivery command_id id code = record {
  command_id = command_id;
  delivered_credential = id;
  verification_uri = code.verification_uri;
  user_code = code.user_code;
  expires_in_seconds = code.expires_in_seconds;
}

abbrev pub insert_optional : Text → Option Value → Fields → Fields
insert_optional k none fs = fs
insert_optional k (some v) fs = insert_field k v fs

abbrev pub number_value : Option Text → Option Value
number_value none = none
number_value (some decimal) = some (number decimal)

-- The fields of `durable_result`.
unfoldable pub durable_fields : Text → Option Text → Fields
unfolding insert_field safe_metadata
durable_fields id expires_in_seconds =
    let result =
      insert_field (codes "redacted") (string redacted_marker)
        (insert_field (codes "delivery") (string (codes "transient")) end) in
    insert_optional safe_metadata_key (safe_metadata ((credential_id, id) ∷ []))
      (insert_optional (codes "expires_in_seconds") (number_value expires_in_seconds) result)

-- `durable_result`, the function
unfoldable pub durable_result : Text → Option Text → Value
unfolding durable_fields
durable_result id expires_in_seconds = object (durable_fields id expires_in_seconds)

-- `DeviceDelivery::durable_result`
unfoldable pub delivery_result : DeviceDelivery → Value
unfolding durable_result
delivery_result d = durable_result d.delivered_credential (some d.expires_in_seconds)

-- `DeviceDelivery::frame_payload`
unfoldable pub frame_payload : DeviceDelivery → Value
unfolding insert_field safe_metadata
frame_payload d =
    let payload = insert_field (codes "command_id") (string d.command_id) (
      insert_field (codes "verification_uri") (string d.verification_uri) (
        insert_field (codes "user_code") (string d.user_code)
          (insert_field (codes "expires_in_seconds") (number d.expires_in_seconds) end))) in
    object (
      insert_optional safe_metadata_key
        (safe_metadata ((credential_id, d.delivered_credential) ∷ [])) payload)

abbrev pub any_field : List Text → Fields → Bool
any_field [] fs = false
any_field (k ∷ ks) fs = has_field k fs || any_field ks fs

unfoldable pub carries_material : Value → Bool
unfolding has_field
carries_material (object fs) = any_field material_fields fs
carries_material _ = false

abbrev pub all_digits : Text → Bool
all_digits [] = true
all_digits (c ∷ t) = leb b'0' c && leb c b'9' && all_digits t

-- `Value::as_u64`: serde_json prints exactly the integers of this type as digits alone.
abbrev pub as_u64 : Value → Option Text
as_u64 (number decimal) = if all_digits decimal then some decimal else none
as_u64 _ = none

abbrev pub and_then : Option Value → (Value → Option Text) → Option Text
and_then none f = none
and_then (some v) f = f v

abbrev pub accepted_id : Option Text → Option Text
accepted_id none = none
accepted_id (some id) = if accepts credential_id id then some id else none

-- The credential of a result: `get(SAFE_METADATA_KEY)` to `unwrap_or_default`.
unfoldable pub result_credential : Value → Text
unfolding find_field accepts key
result_credential result =
    unwrap_or
      (accepted_id (
        and_then (get_key safe_metadata_key result)
          (λ metadata. and_then (get_key (key credential_id) metadata) as_str)))
      []

unfoldable pub scrubbed : Value → Value
unfolding result_credential durable_fields insert_field find_field
scrubbed result =
    let expires = and_then (get_key (codes "expires_in_seconds") result) as_u64 in
    object (
      insert_field (codes "delivery") (string (codes "scrubbed"))
        (durable_fields (result_credential result) expires))
