-- ===== src/Prelude/Lists.antt =====
-- Lists measured by native numbers, and tables: lists of rows that are searched and updated by a
-- Boolean test.
use Prim.Native.Nat.{ℕ, zero, suc, ◌+◌}
use mathlib.Core.Path.{◌≡◌, refl, ap}
use mathlib.Core.Bool.{Bool, true, false, ◌||◌}
use mathlib.Core.List.{List, [], ◌∷◌, ◌++◌}
use mathlib.Core.Option.{Option, none, some}
use native.Mathlib.Omega.{arith}
use asterism.Prelude.Tests.{if◌then◌else◌}

module _ {ℓ} {A : Type ℓ} where
  abbrev pub length : List A → ℕ
  length [] = 0
  length (x ∷ xs) = suc (length xs)

  pub length-append : (xs ys : List A) → length (xs ++ ys) ≡ length xs + length ys
  length-append [] ys = omega arith
  length-append (x ∷ xs) ys = omega (arith, length-append xs ys)

  pub rows_then_nil : (xs : List A) → xs ++ [] ≡ xs
  rows_then_nil [] = refl
  rows_then_nil (x ∷ xs) = ap (λ l. x ∷ l) (rows_then_nil xs)

  pub rows_assoc : (xs ys zs : List A) → (xs ++ ys) ++ zs ≡ xs ++ (ys ++ zs)
  rows_assoc [] ys zs = refl
  rows_assoc (x ∷ xs) ys zs = ap (λ l. x ∷ l) (rows_assoc xs ys zs)

  abbrev pub take : ℕ → List A → List A
  take zero xs = []
  take (suc n) [] = []
  take (suc n) (x ∷ xs) = x ∷ take n xs

  -- The rows that pass a test, in order: `WHERE` of a query.
  abbrev pub where_rows : (A → Bool) → List A → List A
  where_rows p [] = []
  where_rows p (x ∷ xs) = if p x then x ∷ where_rows p xs else where_rows p xs

  -- The first row that passes a test, as `query_row` returns it.
  abbrev pub first_row : (A → Bool) → List A → Option A
  first_row p [] = none
  first_row p (x ∷ xs) = if p x then some x else first_row p xs

  -- `UPDATE ... WHERE`: the rows that pass the test are rewritten in place.
  abbrev pub update_rows : (A → Bool) → (A → A) → List A → List A
  update_rows p f [] = []
  update_rows p f (x ∷ xs) = (if p x then f x else x) ∷ update_rows p f xs

  abbrev pub any_row : (A → Bool) → List A → Bool
  any_row p [] = false
  any_row p (x ∷ xs) = p x || any_row p xs

  -- How many rows pass a test: `COUNT(*) ... WHERE`.
  abbrev pub count_rows : (A → Bool) → List A → ℕ
  count_rows p [] = 0
  count_rows p (x ∷ xs) = (if p x then 1 else 0) + count_rows p xs

  abbrev pub All {κ} : (A → Type κ) → List A → Type κ
  All P [] = Unit
  All P (x ∷ xs) = P x × All P xs

  -- What a search finds after an insertion at the end.
  pub first_row-snoc :
      (p : A → Bool) (xs : List A) (x : A)
      → first_row p xs ≡ none
      → p x ≡ true
      → first_row p (xs ++ x ∷ []) ≡ some x
  first_row-snoc p [] x h t = rw t
  first_row-snoc p (y ∷ ys) x h t = ground (arith, first_row-snoc p ys x)

  pub first_row-append :
      (p : A → Bool) (xs ys : List A) (x : A)
      → first_row p xs ≡ some x
      → first_row p (xs ++ ys) ≡ some x
  first_row-append p [] ys x h = cc
  first_row-append p (z ∷ zs) ys x h = ground (arith, first_row-append p zs ys x)
