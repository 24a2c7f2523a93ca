-- ===== src/Json.antt =====
-- The `Value` of serde_json: what the code matches on. A number is kept as its decimal text, since
-- the code never computes with one; an object is the list of its fields in the order of its map.
use asterism.Prelude.{Bool, true, false, ◌||◌, Option, none, some, if◌then◌else◌}
use asterism.Text.{Text, text_eq}

mutual
  pub data Value : Type 0 where
    null : Value
    bool : Bool → Value
    number : Text → Value
    string : Text → Value
    array : Items → Value
    object : Fields → Value

  pub data Items : Type 0 where
    nil : Items
    item : Value → Items → Items

  pub data Fields : Type 0 where
    end : Fields
    field : Text → Value → Fields → Fields

-- `Value::is_array`
unfoldable pub is_array : Value → Bool
is_array (array xs) = true
is_array _ = false

-- `Map::get` and `Map::contains_key`
unfoldable pub find_field : Text → Fields → Option Value
unfolding text_eq
find_field k end = none
find_field k (field j v rest) = if text_eq j k then some v else find_field k rest

unfoldable pub has_field : Text → Fields → Bool
unfolding text_eq
has_field k end = false
has_field k (field j v rest) = text_eq j k || has_field k rest

-- `Value::get` at a key, and `Value::as_str`
abbrev pub get_key : Text → Value → Option Value
get_key k (object fs) = find_field k fs
get_key k _ = none

abbrev pub as_str : Value → Option Text
as_str (string t) = some t
as_str _ = none
