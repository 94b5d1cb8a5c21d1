-- ===== src/Prelude/Int.antt =====
-- Go's `int`, as far as the program looks at it: `negsuc n` is -(n + 1).
use Prim.Native.Nat.{ℕ}
use mathlib.Core.Bool.{Bool, true, false}
use interactsh_lite.Prelude.Tests.{◌==◌, ltb}

pub data ℤ : Type 0 where
  pos : ℕ → ℤ
  negsuc : ℕ → ℤ

-- `z == n`.
abbrev pub is_nat : ℤ → ℕ → Bool
is_nat (pos m) n = m == n
is_nat (negsuc m) n = false

-- `z > 0`.
abbrev pub is_positive : ℤ → Bool
is_positive (pos m) = ltb 0 m
is_positive (negsuc m) = false

-- `z < n`.
abbrev pub lt_nat : ℤ → ℕ → Bool
lt_nat (pos m) n = ltb m n
lt_nat (negsuc m) n = true

-- A number that is not negative.
abbrev pub to_nat : ℤ → ℕ
to_nat (pos m) = m
to_nat (negsuc m) = 0
