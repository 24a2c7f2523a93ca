-- ===== src/Tests/Serializer.antt =====
-- A compact serializer, which stands for serde_json in the tests.
use asterism.Prelude.{some, true, false, ◌++◌, []}
use asterism.Text.{Text, codes}
use asterism.Json.{
  Value, null, bool, number, string, array, object, Items, nil, item, Fields, end, field,
}
use asterism.Registry.Requests.{Serde}

unfoldable mutual
  pub encode : Value → Text
  encode null = codes "null"
  encode (bool true) = codes "true"
  encode (bool false) = codes "false"
  encode (number n) = n
  encode (string t) = codes "\"" ++ (t ++ codes "\"")
  encode (array xs) = codes "[" ++ (encode_items xs ++ codes "]")
  encode (object fs) = codes "{" ++ (encode_fields fs ++ codes "}")

  pub encode_items : Items → Text
  encode_items nil = []
  encode_items (item x rest) = encode x ++ (codes "," ++ encode_items rest)

  pub encode_fields : Fields → Text
  encode_fields end = []
  encode_fields (field k v rest) =
      codes "\"" ++ (k ++ (codes "\":" ++ (encode v ++ (codes "," ++ encode_fields rest))))

abbrev pub compact : Serde
compact = record { to_string = encode; from_str = λ t. some (string t) }
