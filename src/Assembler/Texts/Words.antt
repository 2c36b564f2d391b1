-- ===== src/Assembler/Texts/Words.antt =====
-- The token of each word (src/assembler/lexer/lexer.c).
use bitcode.Assembler.Lexer.Layouts.{copy_size}
use bitcode.Assembler.Parser.{immediate_int, register, Operand}
use bitcode.Base.{
  ◌∙◌, map, ℕ, zero, suc, ◌+◌, ◌-◌, ◌*◌, ◌≤◌, ◌<◌, ◌≡◌, refl, true, false, [], ◌∷◌, Option, some,
  Bytes, All, ok, arith, length, is_digit, is_alpha, ltb, ◌==◌, str_eq, is_upper, is_lower, leb,
  ◌&&◌, inl, to_lower,
}
use bitcode.Base.Int.{neg, negsuc}
use bitcode.Base.Stateful.{◌>>=◌}
use bitcode.Arena.Disjoint.{IsArena}
use bitcode.Arena.Fits.{spend, alloc_fits, Uses, Uses-refl, Uses-spend}
use bitcode.Arena.{MemoryArena, header_size, arena_strdup}
use bitcode.Assembler.Lexer.{
  other_token, is_negative_int_literal, is_second_undefined, normalize_input, get_directive_type,
  make_token, starts_identifier, read_digits, digit_value, is_hex_literal, is_register,
  is_ident_start, index_from, registers, clip_literal, strtoll_10, get_register_type, strtoll_16,
}
use bitcode.Assembler.Parser.{register, immediate_int}
use bitcode.Assembler.Parser.RoundTrip.{token_of, word}
use bitcode.Assembler.Parser.Sources.{directive_token}
use bitcode.Assembler.Texts.{
  lower_case, directive_name, IsName, IsDigit, value, Writes, IsHexDigit, hex_value, hex_digit,
}

-- A name is an identifier for the lexer, whose test is defined on it.
starts_identifier-IsName :
    (w s : Bytes) → IsName w s → (starts_identifier w ≡ true) × (is_second_undefined w ≡ false)
unfolding starts_identifier is_second_undefined is_ident_start is_alpha is_upper is_lower is_digit
starts_identifier-IsName [] s h = absurd h
starts_identifier-IsName (c ∷ []) s (start, second, normal) = (ground arith, ground arith)
starts_identifier-IsName (c ∷ d ∷ ds) s (start, second, normal) = (ground arith, ground arith)

normalize_input-lower_case : (w : Bytes) → normalize_input w ≡ map lower_case w
unfolding to_lower is_upper
normalize_input-lower_case w = refl

pub make_token-name :
    (w s : Bytes) (a : MemoryArena)
    → IsName w s
    → IsArena a
    → a.offset + copy_size w ≤ a.size
    → make_token w a ≡ ok (word (a.buffer + a.offset + header_size) s, spend (copy_size w) a)
unfolding make_token arena_strdup starts_identifier is_second_undefined
make_token-name [] s a name ar room = absurd name
make_token-name (c ∷ cs) s a name ar room =
    let (starts, defined) = starts_identifier-IsName (c ∷ cs) s name in
    let normal = normalize_input-lower_case (c ∷ cs) ∙ name.2 in
    rw (defined, starts, ◌>>=◌, alloc_fits (length (c ∷ cs) + 1) a ar room, normal, make_token) refl

read_digits-value : (cs : Bytes) (acc : ℕ) → All IsDigit cs → read_digits 10 acc cs ≡ value acc cs
unfolding read_digits digit_value is_digit
read_digits-value [] acc h = refl
read_digits-value (c ∷ cs) acc h =
    let low : (is_digit c) ≡ true = ground (arith, h.0) in
    let small : ltb (c - 48) 10 ≡ true = ground (arith, h.0) in
    rw (low, small, read_digits, digit_value) (read_digits-value cs (acc * 10 + (c - 48)) h.1)

-- A digit starts neither an identifier nor a register.
module _ (c : ℕ) (cs : Bytes) (digit : IsDigit c) where
  no_identifier : starts_identifier (c ∷ cs) ≡ false
  unfolding starts_identifier is_ident_start is_alpha is_upper is_lower is_digit
  no_identifier =
      let no_start : is_ident_start c ≡ false = ground (arith, digit) in rw no_start refl

  no_second : is_second_undefined (c ∷ cs) ≡ false
  unfolding is_second_undefined is_ident_start is_alpha is_upper is_lower
  no_second = let no_start : is_ident_start c ≡ false = ground (arith, digit) in rw no_start refl

  no_register : is_register (c ∷ cs) ≡ false
  unfolding is_register index_from registers str_eq
  no_register =
      let no_r : (c == b'r') ≡ false = ground (arith, digit) in
      let no_s : (c == b's') ≡ false = ground (arith, digit) in
      let no_b : (c == b'b') ≡ false = ground (arith, digit) in
      let no_h : (c == b'h') ≡ false = ground (arith, digit) in
      rw (is_register, no_r, no_s, no_b, no_h) refl

no_hex : (c : ℕ) (cs : Bytes) → All IsDigit cs → is_hex_literal (c ∷ cs) ≡ false
unfolding is_hex_literal is_digit
no_hex c [] h = ground arith
no_hex c (d ∷ ds) h = let no_x : (d == b'x') ≡ false = ground (arith, h.0) in ground arith

make_token-integer :
    (c : ℕ) (cs : Bytes) (a : MemoryArena)
    → All IsDigit (c ∷ cs)
    → value 0 (c ∷ cs) < 4294967296
    → make_token (c ∷ cs) a ≡ ok (token_of 0 (some (c ∷ cs)) (immediate_int (value 0 (c ∷ cs))), a)
unfolding make_token clip_literal strtoll_10
make_token-integer c cs a h small =
    let digit : is_digit c ≡ true = unfold is_digit in ground (arith, h.0) in
    let no_sign : (c == b'-') ≡ false = ground (arith, h.0) in
    let fits : ltb 9223372036854775807 (value 0 (c ∷ cs)) ≡ false = ground arith in
    let fits' : ltb 4294967295 (value 0 (c ∷ cs)) ≡ false = ground arith in
    rw
      (
        no_second c cs h.0,
        no_identifier c cs h.0,
        no_register c cs h.0,
        digit,
        no_hex c cs h.1,
        no_sign,
        read_digits-value (c ∷ cs) 0 h,
        fits,
        fits',
        make_token,
      )
      refl

neg-suc : (n : ℕ) → 0 < n → neg n ≡ negsuc (n - 1)
neg-suc zero h = absurd (omega arith)
neg-suc (suc n) h = let same : suc n - 1 ≡ n = omega arith in rw same refl

make_token-negative :
    (c : ℕ) (cs : Bytes) (a : MemoryArena)
    → All IsDigit (c ∷ cs)
    → 0 < value 0 (c ∷ cs)
    → value 0 (c ∷ cs) ≤ 2147483648
    → make_token (b'-' ∷ c ∷ cs) a
      ≡ ok (token_of 1 (some (b'-' ∷ c ∷ cs)) (immediate_int (4294967296 - value 0 (c ∷ cs))), a)
unfolding make_token clip_literal strtoll_10 is_second_undefined starts_identifier is_ident_start
    is_alpha is_upper is_lower is_register index_from registers is_negative_int_literal
    is_hex_literal str_eq
make_token-negative c cs a h positive small =
    let digit : is_digit c ≡ true = unfold is_digit in ground (arith, h.0) in
    let fits : ltb 9223372036854775808 (value 0 (c ∷ cs)) ≡ false = ground arith in
    let high : leb 2147483648 (4294967296 - value 0 (c ∷ cs)) ≡ true = ground arith in
    let same : 4294967295 - (4294967296 - value 0 (c ∷ cs)) ≡ value 0 (c ∷ cs) - 1 = omega arith in
    rw
      (
        digit,
        read_digits-value (c ∷ cs) 0 h,
        fits,
        neg-suc (value 0 (c ∷ cs)) positive,
        high,
        same,
        make_token,
      )
      refl

pub make_token-register :
    (r : ℕ) (a : MemoryArena)
    → r < 8
    → make_token (b'r' ∷ (b'0' + r) ∷ []) a
      ≡ ok (token_of 0 (some (b'r' ∷ (b'0' + r) ∷ [])) (register r), a)
unfolding make_token is_second_undefined starts_identifier is_register get_register_type str_eq
    is_digit
make_token-register zero a h = refl
make_token-register (suc zero) a h = refl
make_token-register (suc (suc zero)) a h = refl
make_token-register (suc (suc (suc zero))) a h = refl
make_token-register (suc (suc (suc (suc zero)))) a h = refl
make_token-register (suc (suc (suc (suc (suc zero))))) a h = refl
make_token-register (suc (suc (suc (suc (suc (suc zero)))))) a h = refl
make_token-register (suc (suc (suc (suc (suc (suc (suc zero))))))) a h = refl
make_token-register (suc (suc (suc (suc (suc (suc (suc (suc r)))))))) a h = absurd (omega arith)

pub make_token-directive :
    (d : ℕ) (a : MemoryArena)
    → d < 4
    → IsArena a
    → a.offset + copy_size (directive_name d) ≤ a.size
    → make_token (directive_name d) a
      ≡ ok (directive_token d (some (directive_name d)), spend (copy_size (directive_name d)) a)
unfolding make_token other_token is_second_undefined starts_identifier is_register
    get_directive_type str_eq is_digit is_negative_int_literal is_hex_literal arena_strdup to_lower
make_token-directive zero a h ar room = rw (◌>>=◌, alloc_fits 7 a ar room) refl
make_token-directive (suc zero) a h ar room = rw (◌>>=◌, alloc_fits 6 a ar room) refl
make_token-directive (suc (suc zero)) a h ar room = rw (◌>>=◌, alloc_fits 8 a ar room) refl
make_token-directive (suc (suc (suc zero))) a h ar room = rw (◌>>=◌, alloc_fits 8 a ar room) refl
make_token-directive (suc (suc (suc (suc d)))) a h ar room = absurd (omega arith)

read_digits-hex_value :
    (cs : Bytes) (acc : ℕ) → All IsHexDigit cs → read_digits 16 acc cs ≡ hex_value acc cs
unfolding read_digits
read_digits-hex_value [] acc h = refl
read_digits-hex_value (c ∷ cs) acc h =
    let digit : digit_value 16 c ≡ some (hex_digit c) =
      unfold digit_value is_digit in ground (arith, h.0) in
    rw (digit, read_digits) (read_digits-hex_value cs (acc * 16 + hex_digit c) h.1)

make_token-hexadecimal :
    (c : ℕ) (cs : Bytes) (a : MemoryArena)
    → IsDigit c
    → All IsHexDigit cs
    → hex_value 0 (c ∷ cs) < 4294967296
    → make_token (b'0' ∷ b'x' ∷ c ∷ cs) a
      ≡ ok (token_of 0 (some (b'0' ∷ b'x' ∷ c ∷ cs)) (immediate_int (hex_value 0 (c ∷ cs))), a)
unfolding make_token clip_literal strtoll_16 is_second_undefined starts_identifier is_register
    is_hex_literal is_digit str_eq
make_token-hexadecimal c cs a digit h small =
    let digit' : (leb 48 c && leb c 57) ≡ true = ground (arith, digit) in
    let fits : ltb 9223372036854775807 (hex_value 0 (c ∷ cs)) ≡ false = ground arith in
    let fits' : ltb 4294967295 (hex_value 0 (c ∷ cs)) ≡ false = ground arith in
    rw (digit', read_digits-hex_value (c ∷ cs) 0 (inl digit, h), fits, fits', make_token) refl

-- The token of an operand's word, which takes at most a copy of it from the arena.
pub make_token-Writes :
    (o : Operand) (w : Bytes) (a : MemoryArena)
    → Writes o w
    → IsArena a
    → a.offset + copy_size w ≤ a.size
    → (p : ℕ) × (x : Option Bytes) × (b : MemoryArena) × Uses (copy_size w) a b
      × (make_token w a ≡ ok (token_of p x o, b))
make_token-Writes o w a (Writes.a_register r h) ar room =
    (0, some (b'r' ∷ (b'0' + r) ∷ []), a, Uses-refl _ a ar, make_token-register r a h)
make_token-Writes o w a (Writes.a_symbol w' s name) ar room = (
  a.buffer + a.offset + header_size,
  some s,
  spend (copy_size w') a,
  Uses-spend (copy_size w') (copy_size w') a ar room (omega arith),
  make_token-name w' s a name ar room,
)
make_token-Writes o w a (Writes.an_integer c cs digits small) ar room =
    (0, some (c ∷ cs), a, Uses-refl _ a ar, make_token-integer c cs a digits small)
make_token-Writes o w a (Writes.a_negative c cs digits positive small) ar room =
    (1, some (b'-' ∷ c ∷ cs), a, Uses-refl _ a ar, make_token-negative c cs a digits positive small)
make_token-Writes o w a (Writes.a_hexadecimal c cs digit digits small) ar room = (
  0,
  some (b'0' ∷ b'x' ∷ c ∷ cs),
  a,
  Uses-refl _ a ar,
  make_token-hexadecimal c cs a digit digits small,
)
