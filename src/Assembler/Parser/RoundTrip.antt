-- ===== src/Assembler/Parser/RoundTrip.antt =====
-- Operands and instructions that are written as tokens are parsed back.
use mathlib.Core.Path.{subst}
use bitcode.Base.{
  Bool-cases, inl, inr, leb, if◌then◌else◌, Option, zero, suc, ◌-◌, ◌%◌, sym, ℕ, ◌<◌, ◌≡◌, ◌≢◌,
  refl, true, false, List, ◌∷◌, some, Bytes, ok, arith, codes, ◌==◌, ◌%◌, ltb, ◌-◌,
}
use bitcode.Base.Int.{ℤ, pos, negsuc}
use bitcode.Base.Stateful.{◌>>=◌}
use bitcode.Arena.{MemoryArena, arena_strdup}
use bitcode.Assembler.Opcodes.{opcode_lookup}
use bitcode.Assembler.Parser.{
  ParserState, Operand, register, symbol, immediate_int, immediate_chr, immediate_str,
  parse_operand, parse_operand_at, parse_literal, parse_integer, parse_register, skip_separator,
  parse_opcode, is_out_of_range, suc, ℤ, negsuc,
}
use bitcode.Assembler.Parser.Programs.{
  with_two, operand_count, operands_of, second_operand, parse_instruction,
}
use bitcode.Assembler.TokenStream.{peek, consume, first_token, rest_tokens}
use bitcode.Assembler.Tokens.{
  Token, identifier, long_literal, separator, register as register_value, tok_register,
  tok_identifier, tok_literal, tok_separator, sep_comma, first_word, long_value, identifier_value,
}

-- The value of an integer's token: the integer itself, or, from 2 ^ 31 on, the negative number that it
-- is modulo 2 ^ 32.
abbrev pub signed : ℕ → ℕ → ℤ
signed zero v = pos v
signed (suc p) v = if leb 2147483648 v then negsuc (4294967295 - v) else pos v

-- The token of an operand, as the lexer makes it; `p` is where the text of a symbol stands and
-- whether an integer has a sign, and `x` the lexeme. A character or a string has none: the lexer's tokens for these are parsed as integers.
abbrev pub token_of : ℕ → Option Bytes → Operand → Token
token_of p x (register r) = record { kind = tok_register; value = register_value r; lexeme = x }
token_of p x (symbol s) = record { kind = tok_identifier; value = identifier p s; lexeme = x }
token_of p x (immediate_int v) = record {
  kind = tok_literal;
  value = long_literal (signed p v);
  lexeme = x;
}
token_of p x (immediate_chr c) = record {
  kind = tok_literal;
  value = long_literal (pos c);
  lexeme = x;
}
token_of p x (immediate_str s) = record {
  kind = tok_literal;
  value = long_literal (pos p);
  lexeme = x;
}

-- The operands that are parsed back: a register other than 0xFF, a symbol, an integer of 32 bits.
abbrev pub Readable : Operand → Type 0
Readable (register r) = r < 255
Readable (symbol s) = Unit
Readable (immediate_int v) = v < 4294967296
Readable (immediate_chr c) = ⊥
Readable (immediate_str s) = ⊥

-- A parser that stands at the tokens `ts` of a stream that starts with `head`.
abbrev pub at : List Token → List Token → MemoryArena → ParserState
at head ts arena = record { stream = record { head = head; current = ts }; arena = arena }

abbrev pub comma : Token
comma = record { kind = tok_separator; value = separator sep_comma; lexeme = some (codes ",") }

abbrev pub word : ℕ → Bytes → Token
word p s = record { kind = tok_identifier; value = identifier p s; lexeme = some s }

parse_integer-token_of :
    (v : ℕ) (p : ℕ) (x : Option Bytes) (head ts : List Token) (arena : MemoryArena)
    → v < 4294967296
    → parse_integer (at head (token_of p x (immediate_int v) ∷ ts) arena)
      ≡ ok (some v, at head ts arena)
unfolding parse_integer is_out_of_range peek consume first_token rest_tokens long_value
parse_integer-token_of v (suc p) x head ts arena h = elim (Bool-cases (leb 2147483648 v)) [
  | inl high ↦
      let same : 4294967295 - (4294967295 - v) % 4294967296 ≡ v = omega arith in
      let fits : leb 2147483648 (4294967295 - v) ≡ false = ground arith in
      rw (high, fits, same, parse_integer) refl
  | inr low ↦
      let fits : ltb 4294967295 v ≡ false = ground arith in
      let same : v % 4294967296 ≡ v = omega arith in rw (low, fits, same, parse_integer) refl
]
parse_integer-token_of v zero x head ts arena h =
    let fits : ltb 4294967295 v ≡ false = ground arith in
    let same : v % 4294967296 ≡ v = omega arith in rw (fits, same, parse_integer) refl

pub parse_operand-token_of :
    (o : Operand) (p : ℕ) (x : Option Bytes) (head ts : List Token) (arena : MemoryArena)
    → Readable o
    → parse_operand (at head (token_of p x o ∷ ts) arena) ≡ ok (some o, at head ts arena)
unfolding parse_operand parse_operand_at parse_literal parse_register skip_separator peek consume
    first_token rest_tokens first_word identifier_value
parse_operand-token_of (register r) p x head ts arena h =
    let small : r % 256 ≡ r = omega arith in
    let known : (r == 0xFF) ≡ false = ground arith in rw (small, known) refl
parse_operand-token_of (symbol s) p x head ts arena h = refl
parse_operand-token_of (immediate_int v) p x head ts arena h =
    rw (◌>>=◌, parse_integer-token_of v p x head ts arena h, parse_operand) refl
parse_operand-token_of (immediate_chr c) p x head ts arena h = absurd h
parse_operand-token_of (immediate_str s) p x head ts arena h = absurd h

pub skip_separator-token_of :
    (o : Operand) (p : ℕ) (x : Option Bytes) (head ts : List Token) (arena : MemoryArena)
    → Readable o
    → skip_separator (at head (token_of p x o ∷ ts) arena)
      ≡ ok (tt, at head (token_of p x o ∷ ts) arena)
unfolding skip_separator peek first_token
skip_separator-token_of (register r) p x head ts arena h = refl
skip_separator-token_of (symbol s) p x head ts arena h = refl
skip_separator-token_of (immediate_int v) p x head ts arena h = refl
skip_separator-token_of (immediate_chr c) p x head ts arena h = absurd h
skip_separator-token_of (immediate_str s) p x head ts arena h = absurd h

skip_separator-comma :
    (head ts : List Token) (arena : MemoryArena)
    → skip_separator (at head (comma ∷ ts) arena) ≡ ok (tt, at head ts arena)
unfolding skip_separator peek consume first_token rest_tokens
skip_separator-comma head ts arena = refl

second_operand-tokens :
    (opcode : ℕ) (a b : Operand) (r : ℕ) (y : Option Bytes) (head ts : List Token)
    (arena : MemoryArena)
    → Readable b
    → (skip_separator >>= λ _. second_operand true opcode a)
        (at head (comma ∷ token_of r y b ∷ ts) arena)
      ≡ ok (some (with_two opcode a b), at head ts arena)
unfolding second_operand
second_operand-tokens opcode a b r y head ts arena rb =
    rw
      (
        ◌>>=◌,
        skip_separator-comma head (token_of r y b ∷ ts) arena,
        parse_operand-token_of b r y head ts arena rb,
      )
      refl

-- An instruction with two operands, written as its name, the first operand, a comma and the
-- second, is parsed back where the opcode of the name takes two operands, the operands are
-- registers, symbols or 32-bit integers, and the arena has room for a copy of the name; the stream
-- then stands behind the instruction.
pub parse_instruction-tokens :
    (name : Bytes) (a b : Operand) (p q r copy : ℕ) (x y : Option Bytes) (head ts : List Token)
    (arena arena' : MemoryArena)
    → opcode_lookup name ≢ 0xFF
    → operand_count (opcode_lookup name) ≡ 2
    → Readable a
    → Readable b
    → arena_strdup name arena ≡ ok (copy, arena')
    → parse_instruction (at head (word p name ∷ token_of q x a ∷ comma ∷ token_of r y b ∷ ts) arena)
      ≡ ok (some (with_two (opcode_lookup name) a b), at head ts arena')
unfolding parse_instruction parse_opcode operands_of second_operand peek consume first_token
    rest_tokens identifier_value
parse_instruction-tokens name a b p q r copy x y head ts arena arena' known two ra rb room =
    let fine : (opcode_lookup name == 0xFF) ≡ false = ground arith in
    let skipped = skip_separator-token_of a q x head (comma ∷ token_of r y b ∷ ts) arena' ra in
    let first = parse_operand-token_of a q x head (comma ∷ token_of r y b ∷ ts) arena' ra in
    let more : ltb 1 (operand_count (opcode_lookup name)) ≡ true = ground arith in
    rw (◌>>=◌, room, fine, skipped, two, first, parse_instruction, parse_opcode)
      (subst
        (λ more.
          (skip_separator >>= λ _. second_operand more (opcode_lookup name) a)
            (at head (comma ∷ token_of r y b ∷ ts) arena')
          ≡ ok (some (with_two (opcode_lookup name) a b), at head ts arena'))
        (sym more) (second_operand-tokens (opcode_lookup name) a b r y head ts arena' rb))
