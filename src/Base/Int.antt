-- ===== src/Base/Int.antt =====
-- Signed integers over the native numbers, for `pid_t` and `int`.
use Prim.Native.Nat.{ℕ}
use mathlib.Core.Bool.{Bool, true, false}
use mathlib.Core.Path.{◌≡◌}
use mathlib.Core.Logic.{◌↔◌}
use native.Mathlib.Omega.{arith}
use csc.Base.Tests.{◌==◌}

-- `negsuc n` is -(n + 1).
pub data ℤ : Type 0 where
  pos : ℕ → ℤ
  negsuc : ℕ → ℤ

abbrev pub ==_ℤ : ℤ → ℤ → Bool
==_ℤ (pos a) (pos b) = a == b
==_ℤ (negsuc a) (negsuc b) = a == b
==_ℤ _ _ = false

pub ==_ℤ_iff : (a b : ℤ) → (==_ℤ a b ≡ true) ↔ (a ≡ b)
==_ℤ_iff (pos a) (pos b) = ground arith
==_ℤ_iff (pos a) (negsuc b) = ground arith
==_ℤ_iff (negsuc a) (pos b) = ground arith
==_ℤ_iff (negsuc a) (negsuc b) = ground arith
