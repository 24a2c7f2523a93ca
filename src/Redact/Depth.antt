-- ===== src/Redact/Depth.antt =====
-- The walk is bounded: what it returns nests at most `max_depth` deep.
use Prim.Native.Nat.{max}
use asterism.Prelude.{
  ℕ, suc, ◌+◌, ◌-◌, ◌≤◌, ◌<◌, ◌≡◌, refl, Bool, false, inl, inr, arith, Bool-cases,
}
use asterism.Text.{Text}
use asterism.Json.{
  Value, null, bool, number, string, array, object, Items, nil, item, Fields, end, field,
}
use asterism.Redact.Keys.{identifier_accepts}
use asterism.Redact.{
  Walked, safe_field_value, safe_fields, walk_safe_metadata, walk_entry, walk_text, within_depth,
  walk, walk_items, walk_fields, redact, max_depth,
}

-- How many containers stand around the innermost value.
unfoldable mutual
  pub deepest_field : Fields → ℕ
  deepest_field end = 0
  deepest_field (field key child others) = max (depth child) (deepest_field others)

  pub deepest_item : Items → ℕ
  deepest_item nil = 0
  deepest_item (item child others) = max (depth child) (deepest_item others)

  pub depth : Value → ℕ
  depth (object map) = suc (deepest_field map)
  depth (array items) = suc (deepest_item items)
  depth (string text) = 0
  depth (number text) = 0
  depth (bool b) = 0
  depth null = 0

safe_field_value-depth : (k : Text) (v : Value) (m : Bool) → depth (safe_field_value k v m).0 ≡ 0
unfolding depth safe_field_value
safe_field_value-depth k (string t) m = elim (Bool-cases (identifier_accepts k t)) [
  | inl good ↦ rw good
  | inr bad ↦ rw bad
]
safe_field_value-depth k _ m = refl

safe_fields-depth : (fs : Fields) (m : Bool) → deepest_field (safe_fields fs m).0 ≡ 0
unfolding deepest_field safe_fields
safe_fields-depth end m = refl
safe_fields-depth (field k v fs) m =
    omega (arith, safe_field_value-depth k v m, safe_fields-depth fs (safe_field_value k v m).1)

walk_safe_metadata-depth : (v : Value) (m : Bool) → depth (walk_safe_metadata v m).0 ≤ 1
unfolding depth walk_safe_metadata
walk_safe_metadata-depth (object fs) m = omega (arith, safe_fields-depth fs m)
walk_safe_metadata-depth _ m = omega arith

walk_text-depth : (t : Text) (m : Bool) → depth (walk_text t m).0 ≡ 0
unfolding depth walk_text
walk_text-depth t m = ground arith

-- `d` levels down, a walked value has the rest of the bound left, and one level for identifiers.
within_depth-depth :
    (d : ℕ) (r : Walked)
    → (d < max_depth → depth r.0 ≤ max_depth + 1 - d)
    → depth (within_depth d r).0 ≤ max_depth + 1 - d
unfolding depth
within_depth-depth d r h = ground arith

walk_entry-depth :
    (k : Text) (v : Value) (w : Walked) (m : Bool) (n : ℕ)
    → 1 ≤ n
    → depth w.0 ≤ n
    → depth (walk_entry k v w m).0 ≤ n
unfolding walk_entry depth
walk_entry-depth k v w m n one h = ground (arith, walk_safe_metadata-depth v m)

mutual
  unfolding walk walk_items walk_fields depth deepest_item deepest_field

  walk-depth : (v : Value) (d : ℕ) (m : Bool) → depth (walk v d m).0 ≤ max_depth + 1 - d
  walk-depth (object fs) d m =
      within_depth-depth d (object (walk_fields fs d m).0, (walk_fields fs d m).1)
        (λ h. omega (arith, walk_fields-depth fs d m h))
  walk-depth (array xs) d m =
      within_depth-depth d (array (walk_items xs d m).0, (walk_items xs d m).1)
        (λ h. omega (arith, walk_items-depth xs d m h))
  walk-depth (string t) d m =
      within_depth-depth d (walk_text t m) (λ h. omega (arith, walk_text-depth t m))
  walk-depth null d m = within_depth-depth d (null, m) (λ h. omega arith)
  walk-depth (bool b) d m = within_depth-depth d (bool b, m) (λ h. omega arith)
  walk-depth (number n) d m = within_depth-depth d (number n, m) (λ h. omega arith)

  walk_items-depth :
      (xs : Items) (d : ℕ) (m : Bool)
      → d < max_depth
      → deepest_item (walk_items xs d m).0 ≤ max_depth - d
  walk_items-depth nil d m h = omega arith
  walk_items-depth (item x xs) d m h =
      omega (arith, walk-depth x (suc d) m, walk_items-depth xs d (walk x (suc d) m).1 h)

  walk_fields-depth :
      (fs : Fields) (d : ℕ) (m : Bool)
      → d < max_depth
      → deepest_field (walk_fields fs d m).0 ≤ max_depth - d
  walk_fields-depth end d m h = omega arith
  walk_fields-depth (field k v fs) d m h =
      let w = walk v (suc d) m in
      omega (
        arith,
        walk_entry-depth k v w m (max_depth - d) (omega arith)
            (omega (arith, walk-depth v (suc d) m)),
        walk_fields-depth fs d (walk_entry k v w m).1 h,
      )

-- However deep the payload, what `redact` returns nests at most `max_depth + 1` deep: the walked
-- levels, and an object of validated identifiers on the last of them.
pub redact-depth : (v : Value) → depth (redact v).value ≤ max_depth + 1
unfolding redact
redact-depth v = walk-depth v 0 false
