-- ===== src/Tests/ValueCodec.antt =====
-- A concrete writer and reader of JSON values that reads back what it writes.
use asterism.Prelude.{
  ℕ, zero, suc, ◌+◌, ◌≤◌, ◌≡◌, refl, sym, ap, ◌∙◌, true, false, Option, none, some, [], ◌∷◌, ◌++◌,
  arith, rows_assoc, rows_then_nil,
}
use asterism.Text.{Text}
use asterism.Json.{
  Value, null, bool, number, string, array, object, Items, nil, item, Fields, end, field,
}
use asterism.Registry.Requests.{Serde}
use asterism.Remote.Scrub.History.{LawfulSerde}
use asterism.Tests.Codecs.{text}

abbrev mutual
  rank : Value → ℕ
  rank (array xs) = suc (items_rank xs)
  rank (object fs) = suc (fields_rank fs)
  rank _ = 1

  items_rank : Items → ℕ
  items_rank nil = 1
  items_rank (item v xs) = suc (rank v + items_rank xs)

  fields_rank : Fields → ℕ
  fields_rank end = 1
  fields_rank (field k v fs) = suc (rank v + fields_rank fs)

rank-positive : (v : Value) → 1 ≤ rank v
rank-positive null = omega arith
rank-positive (bool b) = omega arith
rank-positive (number n) = omega arith
rank-positive (string s) = omega arith
rank-positive (array xs) = omega arith
rank-positive (object fs) = omega arith

items_rank-positive : (xs : Items) → 1 ≤ items_rank xs
items_rank-positive nil = omega arith
items_rank-positive (item v xs) = omega arith

fields_rank-positive : (fs : Fields) → 1 ≤ fields_rank fs
fields_rank-positive end = omega arith
fields_rank-positive (field k v fs) = omega arith

abbrev mutual
  body : Value → Text
  body null = 0 ∷ []
  body (bool false) = 1 ∷ []
  body (bool true) = 2 ∷ []
  body (number n) = 3 ∷ text.write n
  body (string s) = 4 ∷ text.write s
  body (array xs) = 5 ∷ items_body xs
  body (object fs) = 6 ∷ fields_body fs

  items_body : Items → Text
  items_body nil = 0 ∷ []
  items_body (item v xs) = 1 ∷ (body v ++ items_body xs)

  fields_body : Fields → Text
  fields_body end = 0 ∷ []
  fields_body (field k v fs) = 1 ∷ (text.write k ++ (body v ++ fields_body fs))

abbrev with_text : (Text → Value) → Option (Text × Text) → Option (Value × Text)
with_text f none = none
with_text f (some (s, t)) = some (f s, t)

abbrev with_items : Option (Items × Text) → Option (Value × Text)
with_items none = none
with_items (some (xs, t)) = some (array xs, t)

abbrev with_fields : Option (Fields × Text) → Option (Value × Text)
with_fields none = none
with_fields (some (fs, t)) = some (object fs, t)

abbrev with_item : Value → Option (Items × Text) → Option (Items × Text)
with_item v none = none
with_item v (some (xs, t)) = some (item v xs, t)

abbrev with_field : Text → Value → Option (Fields × Text) → Option (Fields × Text)
with_field k v none = none
with_field k v (some (fs, t)) = some (field k v fs, t)

abbrev then_items : Option (Value × Text) → (Text → Option (Items × Text)) → Option (Items × Text)
then_items none next = none
then_items (some (v, t)) next = with_item v (next t)

abbrev then_fields :
    Text → Option (Value × Text) → (Text → Option (Fields × Text)) → Option (Fields × Text)
then_fields k none next = none
then_fields k (some (v, t)) next = with_field k v (next t)

abbrev after_key :
    Option (Text × Text)
    → (Text → Option (Value × Text))
    → (Text → Option (Fields × Text))
    → Option (Fields × Text)
after_key none value next = none
after_key (some (k, t)) value next = then_fields k (value t) next

abbrev mutual
  read_value : ℕ → Text → Option (Value × Text)
  read_value zero t = none
  read_value (suc n) [] = none
  read_value (suc n) (zero ∷ t) = some (null, t)
  read_value (suc n) (suc zero ∷ t) = some (bool false, t)
  read_value (suc n) (suc (suc zero) ∷ t) = some (bool true, t)
  read_value (suc n) (suc (suc (suc zero)) ∷ t) = with_text number (text.read t)
  read_value (suc n) (suc (suc (suc (suc zero))) ∷ t) = with_text string (text.read t)
  read_value (suc n) (suc (suc (suc (suc (suc zero)))) ∷ t) = with_items (read_items n t)
  read_value (suc n) (suc (suc (suc (suc (suc (suc c))))) ∷ t) = with_fields (read_fields n t)

  read_items : ℕ → Text → Option (Items × Text)
  read_items zero t = none
  read_items (suc n) [] = none
  read_items (suc n) (zero ∷ t) = some (nil, t)
  read_items (suc n) (suc c ∷ t) = then_items (read_value n t) (read_items n)

  read_fields : ℕ → Text → Option (Fields × Text)
  read_fields zero t = none
  read_fields (suc n) [] = none
  read_fields (suc n) (zero ∷ t) = some (end, t)
  read_fields (suc n) (suc c ∷ t) = after_key (text.read t) (read_value n) (read_fields n)

mutual
  read_value-body :
      (v : Value) (n : ℕ) (t : Text) → rank v ≤ n → read_value n (body v ++ t) ≡ some (v, t)
  read_value-body v zero t h = absurd (omega (arith, h, rank-positive v))
  read_value-body null (suc n) t h = refl
  read_value-body (bool false) (suc n) t h = refl
  read_value-body (bool true) (suc n) t h = refl
  read_value-body (number s) (suc n) t h = ap (with_text number) (text.back s t)
  read_value-body (string s) (suc n) t h = ap (with_text string) (text.back s t)
  read_value-body (array xs) (suc n) t h = ap with_items (read_items-body xs n t (omega (arith, h)))
  read_value-body (object fs) (suc n) t h =
      ap with_fields (read_fields-body fs n t (omega (arith, h)))

  read_items-body :
      (xs : Items) (n : ℕ) (t : Text)
      → items_rank xs ≤ n
      → read_items n (items_body xs ++ t) ≡ some (xs, t)
  read_items-body xs zero t h = absurd (omega (arith, h, items_rank-positive xs))
  read_items-body nil (suc n) t h = refl
  read_items-body (item v xs) (suc n) t h =
      ap (λ s. then_items (read_value n s) (read_items n)) (rows_assoc (body v) (items_body xs) t)
      ∙ (ap (λ r. then_items r (read_items n))
            (read_value-body v n (items_body xs ++ t) (omega (arith, h)))
          ∙ ap (with_item v) (read_items-body xs n t (omega (arith, h))))

  read_fields-body :
      (fs : Fields) (n : ℕ) (t : Text)
      → fields_rank fs ≤ n
      → read_fields n (fields_body fs ++ t) ≡ some (fs, t)
  read_fields-body fs zero t h = absurd (omega (arith, h, fields_rank-positive fs))
  read_fields-body end (suc n) t h = refl
  read_fields-body (field k v fs) (suc n) t h =
      ap (λ s. after_key (text.read s) (read_value n) (read_fields n))
        (rows_assoc (text.write k) (body v ++ fields_body fs) t)
      ∙ (ap (λ r. after_key r (read_value n) (read_fields n))
            (text.back k ((body v ++ fields_body fs) ++ t))
          ∙ (ap (λ s. then_fields k (read_value n s) (read_fields n))
                (rows_assoc (body v) (fields_body fs) t)
              ∙ (ap (λ r. then_fields k r (read_fields n))
                    (read_value-body v n (fields_body fs ++ t) (omega (arith, h)))
                  ∙ ap (with_field k v) (read_fields-body fs n t (omega (arith, h))))))

abbrev value_of : Option (Value × Text) → Option Value
value_of none = none
value_of (some (v, t)) = some v

abbrev read_ranked : Text → Option Value
read_ranked [] = none
read_ranked (c ∷ t) = value_of (read_value c t)

abbrev pub value_serde : Serde
value_serde = record { to_string = λ v. rank v ∷ body v; from_str = read_ranked }

pub value_serde-Lawful : LawfulSerde value_serde
value_serde-Lawful v =
    ap (λ t. value_of (read_value (rank v) t)) (sym (rows_then_nil (body v)))
    ∙ ap value_of (read_value-body v (rank v) [] (omega arith))
