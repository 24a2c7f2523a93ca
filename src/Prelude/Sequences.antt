-- ===== src/Prelude/Sequences.antt =====
-- Lists of numbers in increasing order, as sequence numbers and row identifiers come.
use Prim.Native.Nat.{ℕ, ◌≤◌, ◌<◌}
use mathlib.Core.Bool.{Bool}
use mathlib.Core.Logic.{inl, inr}
use mathlib.Core.List.{List, [], ◌∷◌, ◌++◌}
use native.Mathlib.Omega.{arith}
use asterism.Prelude.Tests.{Bool-cases}
use asterism.Prelude.Lists.{where_rows}

-- Every number of a list is below a bound.
abbrev pub AllBelow : ℕ → List ℕ → Type 0
AllBelow n [] = Unit
AllBelow n (x ∷ xs) = (x < n) × AllBelow n xs

pub AllBelow-append :
    (n : ℕ) (xs ys : List ℕ) → AllBelow n xs → AllBelow n ys → AllBelow n (xs ++ ys)
AllBelow-append n [] ys p q = q
AllBelow-append n (x ∷ xs) ys p q = (p.0, AllBelow-append n xs ys p.1 q)

-- Strictly increasing, and above a bound.
abbrev pub Increasing : ℕ → List ℕ → Type 0
Increasing n [] = Unit
Increasing n (x ∷ xs) = (n < x) × Increasing x xs

pub Increasing-weaken : (m n : ℕ) (xs : List ℕ) → m ≤ n → Increasing n xs → Increasing m xs
Increasing-weaken m n [] h p = tt
Increasing-weaken m n (x ∷ xs) h p = (omega arith, p.1)

pub Increasing-where :
    (p : ℕ → Bool) (n : ℕ) (xs : List ℕ) → Increasing n xs → Increasing n (where_rows p xs)
Increasing-where p n [] h = tt
Increasing-where p n (x ∷ xs) h = elim (Bool-cases (p x)) [
  | inl kept ↦ rw kept (h.0, Increasing-where p x xs h.1)
  | inr dropped ↦ rw dropped (Increasing-where p n xs (Increasing-weaken n x xs (omega arith) h.1))
]

pub Increasing-snoc :
    (n : ℕ) (xs : List ℕ) (y : ℕ)
    → Increasing n xs
    → n < y
    → AllBelow y xs
    → Increasing n (xs ++ y ∷ [])
Increasing-snoc n [] y p h b = (h, tt)
Increasing-snoc n (x ∷ xs) y p h b = (p.0, Increasing-snoc x xs y p.1 b.0 b.1)

pub Increasing-append_left : (n : ℕ) (xs ys : List ℕ) → Increasing n (xs ++ ys) → Increasing n xs
Increasing-append_left n [] ys h = tt
Increasing-append_left n (x ∷ xs) ys h = (h.0, Increasing-append_left x xs ys h.1)
