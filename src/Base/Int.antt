-- ===== src/Base/Int.antt =====
-- Go's signed integers, by their values.
use mcm.Base.Tests.{◌==◌}
use Prim.Native.Nat.{ℕ}
use mathlib.Core.Path.{◌≡◌}
use mathlib.Core.Logic.{◌↔◌}
use mathlib.Core.Bool.{Bool, true, false}
use native.Mathlib.Omega.{arith}

-- `negsuc n` is -(n + 1).
pub data ℤ : Type 0 where
  pos negsuc : ℕ → ℤ

-- `a == b` on integers.
abbrev pub int_eq : ℤ → ℤ → Bool
int_eq (ℤ.pos a) (ℤ.pos b) = a == b
int_eq (ℤ.negsuc a) (ℤ.negsuc b) = a == b
int_eq _ _ = false

pub int_eq_iff : (a b : ℤ) → (int_eq a b ≡ true) ↔ (a ≡ b)
int_eq_iff (ℤ.pos a) (ℤ.pos b) = ground arith
int_eq_iff (ℤ.negsuc a) (ℤ.negsuc b) = ground arith
int_eq_iff (ℤ.pos a) (ℤ.negsuc b) = ground arith
int_eq_iff (ℤ.negsuc a) (ℤ.pos b) = ground arith
