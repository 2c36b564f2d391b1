-- ===== src/Base/Below.antt =====
-- What holds of every number below a bound, as a product.
use Prim.Native.Nat.{ℕ, zero, suc, ◌<◌}
use mathlib.Core.Path.{sym, subst}
use native.Mathlib.Decide.{ℕ_discrete}
use native.Mathlib.Omega.{arith}

abbrev pub AllBelow : (ℕ → Type 0) → ℕ → Type 0
AllBelow P zero = Unit
AllBelow P (suc n) = P n × AllBelow P n

pub AllBelow-lt : (P : ℕ → Type 0) (n i : ℕ) → i < n → AllBelow P n → P i
AllBelow-lt P zero i h all = absurd (omega arith)
AllBelow-lt P (suc n) i h all = elim (ℕ_discrete i n) [
  | yes e ↦ subst P (sym e) all.0
  | no ne ↦ AllBelow-lt P n i (omega arith) all.1
]
