-- ===== src/Base/Int.antt =====
-- Signed numbers: the `long` values of literals.
use Prim.Native.Nat.{ℕ, zero, suc, ◌-◌, ◌%◌}
use bitcode.Base.Words.{u32_mod}

-- `negsuc n` is -(n + 1).
pub data ℤ : Type 0 where
  pos : ℕ → ℤ
  negsuc : ℕ → ℤ

-- The negation of a natural number.
abbrev pub neg : ℕ → ℤ
neg zero = pos zero
neg (suc n) = negsuc n

-- The conversion to uint32_t.
abbrev pub to_u32 : ℤ → ℕ
to_u32 (pos n) = n % u32_mod
to_u32 (negsuc n) = u32_mod - 1 - n % u32_mod
