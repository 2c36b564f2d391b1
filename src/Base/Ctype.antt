-- ===== src/Base/Ctype.antt =====
-- The functions of <ctype.h> and <string.h> that the program calls, in the C locale. A character
-- is its byte, and a C string is the list of its bytes before the terminator.
use Prim.Native.Nat.{ℕ, ◌+◌, ◌<◌}
use bitcode.Base.Lists.{All}
use Prim.Native.Char.{code}
use Prim.Native.String.{String}
use mathlib.Core.Path.{◌≡◌, refl}
use mathlib.Core.Bool.{Bool, true, false, ◌&&◌, ◌||◌}
use mathlib.Core.List.{[], ◌∷◌}
use native.Mathlib.Omega.{arith}
use bitcode.Base.Tests.{leb, ◌==◌, if◌then◌else◌}
use bitcode.Base.Words.{Bytes}

-- The code points of a text: its bytes, if it is ASCII.
abbrev pub codes : String → Bytes
codes String.[] = []
codes (String.◌∷◌ c s) = code c ∷ codes s

abbrev pub within : ℕ → ℕ → ℕ → Bool
within lo hi c = leb lo c && leb c hi

unfoldable pub is_space : ℕ → Bool
is_space c = c == 32 || within 9 13 c

unfoldable pub is_digit : ℕ → Bool
is_digit c = within b'0' b'9' c

unfoldable pub is_upper : ℕ → Bool
is_upper c = within b'A' b'Z' c

unfoldable pub is_lower : ℕ → Bool
is_lower c = within b'a' b'z' c

unfoldable pub is_alpha : ℕ → Bool
unfolding is_upper is_lower
is_alpha c = is_upper c || is_lower c

unfoldable pub to_lower : ℕ → ℕ
unfolding is_upper
to_lower c = if is_upper c then c + 32 else c

abbrev pub IsAscii : Bytes → Type 0
IsAscii = All (λ c. c < 128)

-- `strcmp(a, b) == 0`.
unfoldable pub str_eq : Bytes → Bytes → Bool
str_eq [] [] = true
str_eq [] (y ∷ ys) = false
str_eq (x ∷ xs) [] = false
str_eq (x ∷ xs) (y ∷ ys) = x == y && str_eq xs ys

pub str_eq→eq : (xs ys : Bytes) → str_eq xs ys ≡ true → xs ≡ ys
unfolding str_eq
str_eq→eq [] [] h = refl
str_eq→eq [] (y ∷ ys) h = cc
str_eq→eq (x ∷ xs) [] h = cc
str_eq→eq (x ∷ xs) (y ∷ ys) h = ground (arith, str_eq→eq xs ys)

pub str_eq_self : (xs : Bytes) → str_eq xs xs ≡ true
unfolding str_eq
str_eq_self [] = refl
str_eq_self (x ∷ xs) = ground (arith, str_eq_self xs)

pub to_lower_idem : (c : ℕ) → to_lower (to_lower c) ≡ to_lower c
unfolding to_lower
to_lower_idem c = ground arith
