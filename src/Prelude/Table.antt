-- ===== src/Prelude/Table.antt =====
-- Tables with a text key, as lists of rows in the order of insertion: what a lookup by key finds
-- after an insertion and after an update.
use asterism.Prelude.Tests.{if◌then◌else◌}
use Prim.Native.String.{String}
use mathlib.Core.Path.{◌≡◌, refl}
use mathlib.Core.Bool.{Bool, true, false}
use mathlib.Core.Option.{Option, none, some}
use mathlib.Core.List.{List, [], ◌∷◌, ◌++◌}
use native.Mathlib.Omega.{arith}
use text.Mathlib.Text.{◌==◌ as str_eq}
use text.Mathlib.TextEquality.{eq_iff}

abbrev pub map_option {ℓ κ} : {A : Type ℓ} {B : Type κ} → (A → B) → Option A → Option B
map_option f none = none
map_option f (some a) = some (f a)

abbrev pub or_else {ℓ} : {A : Type ℓ} → Option A → Option A → Option A
or_else none d = d
or_else (some a) d = some a

-- `Option::unwrap_or`, and SQL's `COALESCE(new, old)` at a new value that is not NULL
abbrev pub unwrap_or {ℓ} : {A : Type ℓ} → Option A → A → A
unwrap_or none d = d
unwrap_or (some a) d = a

abbrev pub is_some {ℓ} : {A : Type ℓ} → Option A → Bool
is_some none = false
is_some (some a) = true

module _ {ℓ} {A : Type ℓ} (key : A → String) where
  -- `SELECT ... WHERE key = ?`
  unfoldable pub find_row : String → List A → Option A
  find_row k [] = none
  find_row k (x ∷ xs) = if str_eq (key x) k then some x else find_row k xs

  -- `UPDATE ... WHERE key = ?`
  unfoldable pub modify_rows : String → (A → A) → List A → List A
  modify_rows k f [] = []
  modify_rows k f (x ∷ xs) = (if str_eq (key x) k then f x else x) ∷ modify_rows k f xs

  -- `DELETE ... WHERE key = ?`
  unfoldable pub delete_rows : String → List A → List A
  delete_rows k [] = []
  delete_rows k (x ∷ xs) = if str_eq (key x) k then delete_rows k xs else x ∷ delete_rows k xs

  pub find_row-modify_rows :
      (j k : String) (f : A → A) (xs : List A)
      → ((x : A) → key (f x) ≡ key x)
      → find_row j (modify_rows k f xs)
        ≡ (if str_eq k j then map_option f (find_row j xs) else find_row j xs)
  unfolding find_row modify_rows
  find_row-modify_rows j k f [] h = ground arith
  find_row-modify_rows j k f (x ∷ xs) h = ground (
    arith,
    h x,
    eq_iff k j,
    eq_iff (key x) k,
    eq_iff (key x) j,
    eq_iff (key (f x)) j,
    find_row-modify_rows j k f xs h,
  )

  pub find_row-snoc :
      (j : String) (xs : List A) (x : A)
      → find_row j (xs ++ x ∷ [])
        ≡ or_else (find_row j xs) (if str_eq (key x) j then some x else none)
  unfolding find_row
  find_row-snoc j [] x = refl
  find_row-snoc j (y ∷ ys) x = ground (arith, eq_iff (key y) j, find_row-snoc j ys x)

  pub find_row-delete_rows :
      (j k : String) (xs : List A)
      → find_row j (delete_rows k xs) ≡ (if str_eq k j then none else find_row j xs)
  unfolding find_row delete_rows
  find_row-delete_rows j k [] = ground arith
  find_row-delete_rows j k (x ∷ xs) =
      ground (arith, eq_iff k j, eq_iff (key x) k, eq_iff (key x) j, find_row-delete_rows j k xs)

  pub find_row-key : (j : String) (xs : List A) (x : A) → find_row j xs ≡ some x → key x ≡ j
  unfolding find_row
  find_row-key j [] x h = cc
  find_row-key j (y ∷ ys) x h = ground (arith, eq_iff (key y) j, find_row-key j ys x)
