-- ===== src/Prelude/Int.antt =====
-- The signed arguments of queries: `negsuc n` is -(n + 1).
use Prim.Native.Nat.{ℕ}
use mathlib.Core.Bool.{Bool, true}
use mathlib.Core.List.{List}
use asterism.Prelude.Tests.{ltb}
use asterism.Prelude.Lists.{take}

pub data ℤ : Type 0 where
  pos : ℕ → ℤ
  negsuc : ℕ → ℤ

-- `n.max(0)`
abbrev pub max_zero : ℤ → ℕ
max_zero (pos n) = n
max_zero (negsuc n) = 0

-- `seq > ?` for a column that is never negative
abbrev pub above : ℤ → ℕ → Bool
above (pos n) s = ltb n s
above (negsuc n) s = true

-- `LIMIT ?`: SQLite takes a negative limit for none
abbrev pub limit_rows {ℓ} : {A : Type ℓ} → ℤ → List A → List A
limit_rows (pos n) xs = take n xs
limit_rows (negsuc n) xs = xs
