-- ===== src/Base/Words.antt =====
-- Machine words as native numbers: bytes, uint32_t and size_t.
use Prim.Native.Nat.{ℕ, ◌+◌, ◌*◌, ◌/◌, ◌%◌, ◌<◌}
use mathlib.Core.Path.{◌≡◌}
use mathlib.Core.List.{List, [], ◌∷◌}
use native.Mathlib.Omega.{arith}

abbrev pub Bytes : Type 0
Bytes = List ℕ

abbrev pub u8_mod : ℕ
u8_mod = 256

abbrev pub u16_mod : ℕ
u16_mod = 65536

abbrev pub u32_mod : ℕ
u32_mod = 4294967296

-- size_t is 64 bits wide.
abbrev pub size_mod : ℕ
size_mod = 18446744073709551616

-- The conversion to uint32_t.
abbrev pub u32 : ℕ → ℕ
u32 n = n % u32_mod

-- The conversion to size_t.
abbrev pub to_size : ℕ → ℕ
to_size n = n % size_mod

-- The number that two or four bytes stand for, the lowest first.
abbrev pub le16 : ℕ → ℕ → ℕ
le16 a b = a + b * 256

abbrev pub le32 : ℕ → ℕ → ℕ → ℕ → ℕ
le32 a b c d = a + b * 256 + c * 65536 + d * 16777216

-- The bytes of a number, the lowest first.
abbrev pub bytes16 : ℕ → Bytes
bytes16 n = n % 256 ∷ n / 256 % 256 ∷ []

abbrev pub bytes32 : ℕ → Bytes
bytes32 n = n % 256 ∷ n / 256 % 256 ∷ n / 65536 % 256 ∷ n / 16777216 % 256 ∷ []

pub le32-bytes32 :
    (n : ℕ)
    → n < u32_mod
    → le32 (n % 256) (n / 256 % 256) (n / 65536 % 256) (n / 16777216 % 256) ≡ n
le32-bytes32 n h = omega arith

pub le16-bytes16 : (n : ℕ) → n < u16_mod → le16 (n % 256) (n / 256 % 256) ≡ n
le16-bytes16 n h = omega arith

pub le32-lt : (a b c d : ℕ) → a < 256 → b < 256 → c < 256 → d < 256 → le32 a b c d < u32_mod
le32-lt a b c d ha hb hc hd = omega arith
