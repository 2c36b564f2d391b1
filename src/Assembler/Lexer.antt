-- ===== src/Assembler/Lexer.antt =====
-- src/assembler/lexer/lexer.c: the tables and the classification of one lexeme. The cutting of a
-- line into lexemes is in Lexer/Lines, the run over a file in Lexer/Files.
pub mod Lines
pub mod Files
pub mod Literals
pub mod Aborts
pub mod Cutting
pub mod Termination
pub mod Capacity
pub mod Layouts
pub mod Typed
pub mod Safety
use bitcode.Base.{
  ℕ, zero, suc, ◌+◌, ◌-◌, ◌*◌, Bool, true, false, not, ◌&&◌, ◌||◌, List, [], ◌∷◌, Option, none,
  some, Bytes, ltb, leb, ◌==◌, if◌then◌else◌, codes, fault, char_out_of_range, str_eq, is_alpha,
  is_digit, to_lower, within, length, get_or, map, take, drop,
}
use bitcode.Base.Int.{ℤ, pos, negsuc, neg}
use bitcode.Base.Stateful.{Stateful, pure, ◌>>=◌}
use bitcode.Arena.{MemoryArena, arena_alloc, arena_strdup}
use bitcode.Assembler.Tokens.{
  TokenKind, tok_register, tok_identifier, tok_separator, tok_directive, tok_unknown, tok_literal,
  Token, TokenValue, zeroed, identifier, long_literal, char_literal, string_literal, directive,
  separator, register, zero_token, sep_comma, sep_eol, unknown,
}

unfoldable pub opcodes : List Bytes
opcodes =
    codes "print_chr"
    ∷ codes "print_str"
    ∷ codes "mov"
    ∷ codes "load_addr"
    ∷ codes "add"
    ∷ codes "sub"
    ∷ codes "mul"
    ∷ codes "div"
    ∷ codes "mod"
    ∷ codes "and"
    ∷ codes "or"
    ∷ codes "not"
    ∷ codes "cmp"
    ∷ codes "jz"
    ∷ codes "jnz"
    ∷ codes "jeq"
    ∷ codes "jgt"
    ∷ codes "jge"
    ∷ codes "jlt"
    ∷ codes "jle"
    ∷ codes "jmp"
    ∷ codes "call"
    ∷ codes "ret"
    ∷ codes "push"
    ∷ codes "pop"
    ∷ codes "halt"
    ∷ []

unfoldable pub registers : List Bytes
registers =
    codes "r0"
    ∷ codes "r1"
    ∷ codes "r2"
    ∷ codes "r3"
    ∷ codes "r4"
    ∷ codes "r5"
    ∷ codes "r6"
    ∷ codes "r7"
    ∷ codes "sp"
    ∷ codes "bp"
    ∷ codes "hp"
    ∷ []

unfoldable pub directives : List Bytes
directives = codes ".start" ∷ codes ".data" ∷ codes ".rodata" ∷ codes ".global" ∷ []

-- The loop of the functions below: the index of the entry that is `s`, from `i` on.
unfoldable pub index_from : ℕ → List Bytes → Bytes → Option ℕ
index_from i [] s = none
index_from i (name ∷ names) s = if str_eq s name then some i else index_from (i + 1) names s

-- `isOpcode`.
unfoldable pub is_opcode : Bytes → Bool
unfolding index_from opcodes
is_opcode s = elim (index_from 0 opcodes s) [ some i ↦ true | none ↦ false ]

unfoldable pub is_register : Bytes → Bool
unfolding index_from registers
is_register s = elim (index_from 0 registers s) [ some i ↦ true | none ↦ false ]

unfoldable pub get_register_type : Bytes → ℕ
unfolding index_from registers
get_register_type s = elim (index_from 0 registers s) [ some i ↦ i | none ↦ unknown ]

unfoldable pub get_directive_type : Bytes → ℕ
unfolding index_from directives
get_directive_type s = elim (index_from 0 directives s) [ some i ↦ i | none ↦ unknown ]

unfoldable pub is_ident_start : ℕ → Bool
is_ident_start c = is_alpha c || c == b'_'

-- `normalize_input`, which works in place on a fresh copy.
abbrev pub normalize_input : Bytes → Bytes
normalize_input = map to_lower

-- The digit that a character is in a base up to 16.
unfoldable pub digit_value : ℕ → ℕ → Option ℕ
unfolding is_digit
digit_value base c =
    if is_digit c
    then (if ltb (c - b'0') base then some (c - b'0') else none)
    else if within b'a' b'f' c
    then (if ltb (c - b'a' + 10) base then some (c - b'a' + 10) else none)
    else if within b'A' b'F' c
    then (if ltb (c - b'A' + 10) base then some (c - b'A' + 10) else none)
    else none

-- The number that the digits at the start of a text stand for, behind those read so far.
unfoldable pub read_digits : ℕ → ℕ → Bytes → ℕ
read_digits base acc [] = acc
read_digits base acc (c ∷ cs) = elim (digit_value base c) [
  | none ↦ acc
  | some d ↦ read_digits base (acc * base + d) cs
]

-- The largest and the smallest `long long`; the second is a magnitude.
abbrev pub llong_max : ℕ
llong_max = 9223372036854775807

abbrev pub llong_min : ℕ
llong_min = 9223372036854775808

abbrev pub at_most : ℕ → ℕ → ℕ
at_most limit n = if ltb limit n then limit else n

-- `strtoll(s, NULL, 10)` on a text that starts with a digit or with a minus sign and a digit.
unfoldable pub strtoll_10 : Bytes → ℤ
strtoll_10 [] = pos 0
strtoll_10 (c ∷ cs) =
    if c == b'-'
    then neg (at_most llong_min (read_digits 10 0 cs))
    else pos (at_most llong_max (read_digits 10 0 (c ∷ cs)))

-- `strtoll(s, NULL, 16)` on a text that starts with 0x and a digit.
unfoldable pub strtoll_16 : Bytes → ℤ
strtoll_16 s = pos (at_most llong_max (read_digits 16 0 (drop 2 s)))

-- A value over 32 bits becomes UINT32_MAX.
unfoldable pub clip_literal : ℤ → ℤ
clip_literal (pos n) = pos (at_most 4294967295 n)
clip_literal (negsuc n) = negsuc n

-- Whether `isdigit(*(lexeme + 1))` in the first test of `lexer` is undefined: the char is not
-- converted and so is negative from 128 on; of these only 255, which is EOF, is in its domain. It is
-- asked only where the tests in front of it hold.
unfoldable pub is_second_undefined : Bytes → Bool
unfolding is_ident_start is_alpha
is_second_undefined lexeme =
    is_ident_start (get_or lexeme 0 0)
    && not (get_or lexeme 0 0 == b'R')
    && ltb 127 (get_or lexeme 1 0)
    && not (get_or lexeme 1 0 == 255)

-- The first test of `lexer`, where it is defined: the second character is the terminator where there
-- is none.
unfoldable pub starts_identifier : Bytes → Bool
unfolding is_ident_start is_alpha is_digit
starts_identifier lexeme =
    is_ident_start (get_or lexeme 0 0)
    && not (get_or lexeme 0 0 == b'R')
    && not (is_digit (get_or lexeme 1 0))
    && not (get_or lexeme 0 0 == b'.')

unfoldable pub is_negative_int_literal : Bytes → Bool
unfolding is_digit
is_negative_int_literal lexeme = get_or lexeme 0 0 == b'-' && is_digit (get_or lexeme 1 0)

unfoldable pub is_hex_literal : Bytes → Bool
unfolding is_digit
is_hex_literal lexeme =
    get_or lexeme 0 0 == b'0' && get_or lexeme 1 0 == b'x' && is_digit (get_or lexeme 2 0)

abbrev pub some_token : TokenKind → TokenValue → Bytes → Token
some_token kind value lexeme = record { kind = kind; value = value; lexeme = some lexeme }

-- The part of the `else` branch below the numbers: characters, strings, separators, directives.
-- The bytes of a character literal are looked at whatever the length is, and the length decides.
unfoldable pub other_token : Bytes → Stateful MemoryArena Token
other_token lexeme =
    if get_or lexeme 0 0 == b'\'' && get_or lexeme 2 0 == b'\'' && length lexeme == 3
    then pure (some_token tok_literal (char_literal (get_or lexeme 1 0)) lexeme)
    else if get_or lexeme 0 0 == b'"'
        && get_or lexeme (length lexeme - 1) 0 == b'"'
        && leb 2 (length lexeme)
    then (do
      p ← arena_alloc (length lexeme - 2 + 1)
      pure (
          some_token tok_literal (string_literal p (take (length lexeme - 2) (drop 1 lexeme)))
            lexeme))
    else if str_eq lexeme (codes ",")
    then pure (some_token tok_separator (separator sep_comma) lexeme)
    else if str_eq lexeme (codes "\n")
    then pure (some_token tok_separator (separator sep_eol) lexeme)
    else if get_or lexeme 0 0 == b'.' && not (get_or lexeme 1 0 == 0) && ltb 3 (length lexeme)
    then (do
      p ← arena_strdup lexeme
      pure (
          some_token tok_directive (directive (get_directive_type lexeme))
            (normalize_input lexeme)))
    else pure zero_token

-- One round of the loop of `lexer`.
unfoldable pub make_token : Bytes → Stateful MemoryArena Token
unfolding is_second_undefined starts_identifier is_negative_int_literal is_hex_literal is_digit
make_token [] = pure zero_token
make_token (c ∷ cs) =
    let lexeme = c ∷ cs in
    if is_second_undefined lexeme
    then (λ arena. fault char_out_of_range)
    else if starts_identifier lexeme
    then (do
      p ← arena_strdup lexeme
      pure (
          some_token tok_identifier (identifier p (normalize_input lexeme))
            (normalize_input lexeme)))
    else if is_register lexeme
    then pure (some_token tok_register (register (get_register_type lexeme)) lexeme)
    else if is_digit c || is_negative_int_literal lexeme || is_hex_literal lexeme
    then pure (
        some_token tok_literal
          (long_literal
            (clip_literal (if is_hex_literal lexeme then strtoll_16 lexeme else strtoll_10 lexeme)))
          lexeme)
    else other_token lexeme
