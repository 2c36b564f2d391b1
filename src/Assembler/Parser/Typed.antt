-- ===== src/Assembler/Parser/Typed.antt =====
-- The operands that the parser makes of the tokens of the lexer (src/assembler/parser/parser.c).
use bitcode.Base.{
  ℕ, zero, suc, ◌≤◌, ◌<◌, ◌≡◌, ◌⊎◌, inl, inr, refl, sym, ap, Bool, true, false, not, List, [], ◌∷◌,
  Option, none, some, Bytes, All, Outcome, ok, arith, Bool-cases, ◌==◌, ◌%◌,
}
use bitcode.Base.Int.{ℤ, pos, negsuc, to_u32}
use bitcode.Base.Safely.{Yields, Safely, bind, pure-Safely, either}
use bitcode.Base.Stateful.{Stateful, ◌>>=◌}
use mathlib.Core.Path.{subst}
use bitcode.Arena.Disjoint.{IsArena}
use bitcode.Arena.{MemoryArena}
use bitcode.Assembler.Lexer.Typed.{IsTyped}
use bitcode.Assembler.Parser.{
  Operand, register, symbol, immediate_int, immediate_chr, immediate_str, ParserState, Parser,
  peek_token, consume_token, in_arena, is_out_of_range, parse_integer, parse_char, parse_string,
  parse_register, parse_literal, parse_operand_at, parse_operand, skip_separator, is_separator,
}
use bitcode.Assembler.Parser.RoundTrip.{at}
use bitcode.Assembler.TokenStream.{peek, consume, first_token, rest_tokens}
use bitcode.Assembler.Tokens
use bitcode.Arena.Safety.{Anything}
use bitcode.Assembler.Lexer.{some_token}
use bitcode.Assembler.Tokens.{
  directive, unknown, Token, TokenKind, tok_register, tok_identifier, tok_separator, tok_directive,
  tok_unknown, tok_literal, tok_eof, first_word, long_value, char_value, string_value,
  identifier_value, zero_token,
}

-- Any token but the directive `.rodata`.
unfoldable pub is_not_rodata : Token → Bool
is_not_rodata t = elim t.kind [ tok_directive ↦ not (first_word t.value == 2) | _ ↦ true ]

-- A token of the lexer that is not `.rodata`.
abbrev pub IsPlain : Token → Type 0
IsPlain t = IsTyped t × (is_not_rodata t ≡ true)

-- The state: an arena within its bounds, and such tokens.
abbrev pub Ready : ParserState → Type 0
Ready s = IsArena s.arena × All IsPlain s.stream.current

-- The operands that there are: a register from r0 to hp, a symbol, or an integer of 32 bits.
abbrev pub OperandTyped : Operand → Type 0
OperandTyped (register r) = r ≤ 10
OperandTyped (symbol s) = Unit
OperandTyped (immediate_int v) = v < 4294967296
OperandTyped (immediate_chr c) = ⊥
OperandTyped (immediate_str s) = ⊥

abbrev pub Maybe {ℓ} : {A : Type 0} → (A → Type ℓ) → Option A → Type ℓ
Maybe Q none = Unit
Maybe Q (some x) = Q x

to_u32-lt : (v : ℤ) → to_u32 v < 4294967296
to_u32-lt (pos n) = omega arith
to_u32-lt (negsuc n) = omega arith

-- The token in front, as an operand.
module _ (head ts : List Token) (arena : MemoryArena) (ar : IsArena arena)
    (rest : All IsPlain ts) where
  integer-Yields :
      (t : Token)
      → IsPlain t
      → Yields (Maybe OperandTyped) Ready (parse_literal 0 (at head (t ∷ ts) arena))
  unfolding parse_literal parse_integer peek consume first_token rest_tokens
  integer-Yields t plain = elim (Bool-cases (is_out_of_range (long_value t.value))) [
    | inl e ↦
        rw (e, parse_literal, parse_integer, ◌>>=◌) (Yields.yields none _ tt (ar, (plain, rest)))
    | inr e ↦
        rw (e, parse_literal, parse_integer, ◌>>=◌)
          (Yields.yields _ _ (to_u32-lt (long_value t.value)) (ar, rest))
  ]

  -- A directive that is not `.rodata` is an integer or no operand.
  directive-Yields :
      (d : ℕ) (s : Bytes)
      → (d ≤ 3) ⊎ (d ≡ unknown)
      → IsPlain (some_token tok_directive (directive d) s)
      → Yields
          (Maybe OperandTyped)
          Ready
          (parse_literal d (at head (some_token tok_directive (directive d) s ∷ ts) arena))
  unfolding parse_literal parse_char peek first_token char_value is_not_rodata first_word
  directive-Yields zero s h plain = integer-Yields _ plain
  directive-Yields (suc zero) s h plain = Yields.yields none _ tt (ar, (plain, rest))
  directive-Yields (suc (suc zero)) s h plain = cc plain.1
  directive-Yields (suc (suc (suc zero))) s h plain = Yields.yields none _ tt (ar, (plain, rest))
  directive-Yields (suc (suc (suc (suc d)))) s (inl h) plain = absurd (omega arith)
  directive-Yields (suc (suc (suc (suc d)))) s (inr e) plain =
      rw (e, parse_literal)
        (Yields.yields none _ tt
          (ar, (subst (λ k. IsPlain (some_token tok_directive (directive k) s)) e plain, rest)))

  register-Yields :
      (r : ℕ) (s : Bytes)
      → r ≤ 10
      → Yields (Maybe OperandTyped) Ready (
          parse_operand_at
            (some_token tok_register (Tokens.register r) s)
            (at head (some_token tok_register (Tokens.register r) s ∷ ts) arena))
  unfolding parse_operand_at parse_register peek consume first_token rest_tokens first_word
  register-Yields r s h =
      let known : (r % 256 == 255) ≡ false = ground arith in
      let same : r % 256 ≡ r = omega arith in
      rw (known, same, parse_operand_at, parse_register, ◌>>=◌) (Yields.yields _ _ h (ar, rest))

  pub operand-Yields :
      (t : Token)
      → IsPlain t
      → Yields (Maybe OperandTyped) Ready (parse_operand_at t (at head (t ∷ ts) arena))
  unfolding parse_operand_at parse_literal parse_integer parse_char parse_string parse_register peek
      consume first_token rest_tokens first_word long_value char_value string_value identifier_value
      is_not_rodata
  operand-Yields t (IsTyped.a_zero, plain) = Yields.yields _ _ (omega arith) (ar, rest)
  operand-Yields t (IsTyped.an_end, plain) = integer-Yields t (IsTyped.an_end, plain)
  operand-Yields t (IsTyped.a_word p s short, plain) = Yields.yields _ _ tt (ar, rest)
  operand-Yields t (IsTyped.a_register r s h, plain) = register-Yields r s h
  operand-Yields t (IsTyped.a_number v s, plain) = integer-Yields t (IsTyped.a_number v s, plain)
  operand-Yields t (IsTyped.a_character c s, plain) =
      integer-Yields t (IsTyped.a_character c s, plain)
  operand-Yields t (IsTyped.a_string p u s, plain) =
      integer-Yields t (IsTyped.a_string p u s, plain)
  operand-Yields t (IsTyped.a_separator zero s h, plain) =
      integer-Yields t (IsTyped.a_separator zero s h, plain)
  operand-Yields t (IsTyped.a_separator (suc zero) s h, plain) =
      Yields.yields none _ tt (ar, ((IsTyped.a_separator 1 s h, plain), rest))
  operand-Yields t (IsTyped.a_separator (suc (suc n)) s h, plain) = absurd (omega arith)
  operand-Yields t (IsTyped.a_directive d s h, plain) =
      directive-Yields d s h (IsTyped.a_directive d s h, plain)

-- Behind the last token there is a token of zero bytes, and no operand.
no_operand :
    (head : List Token) (arena : MemoryArena)
    → IsArena arena
    → Yields (Maybe OperandTyped) Ready (parse_operand_at zero_token (at head [] arena))
unfolding parse_operand_at parse_register
no_operand head arena ar = Yields.yields none _ tt (ar, tt)

at_current :
    (s : ParserState) (ts : List Token)
    → s.stream.current ≡ ts
    → Ready s
    → Yields (Maybe OperandTyped) Ready (parse_operand_at (peek s.stream) s)
unfolding peek first_token
at_current s [] e (ar, plain) =
    subst (λ u. Yields (Maybe OperandTyped) Ready (parse_operand_at (peek u.stream) u))
      (ap (λ c. at s.stream.head c s.arena) (sym e)) (no_operand s.stream.head s.arena ar)
at_current s (t ∷ ts) e (ar, plain) =
    let (first, rest) = subst (All IsPlain) e plain in
    subst (λ u. Yields (Maybe OperandTyped) Ready (parse_operand_at (peek u.stream) u))
      (ap (λ c. at s.stream.head c s.arena) (sym e))
      (operand-Yields s.stream.head ts s.arena ar rest t first)

at_operand : Safely Ready (Maybe OperandTyped) (peek_token >>= parse_operand_at)
at_operand = record { run = λ s ready. at_current s s.stream.current refl ready }

first-IsPlain : (ts : List Token) → All IsPlain ts → IsPlain (first_token ts)
unfolding first_token is_not_rodata
first-IsPlain [] h = (IsTyped.a_zero, refl)
first-IsPlain (t ∷ ts) h = h.0

pub peek_token-Safely : Safely Ready IsPlain peek_token
unfolding peek
peek_token-Safely = record {
  run = λ s ready. Yields.yields _ s (first-IsPlain s.stream.current ready.1) ready;
}

rest-All : (ts : List Token) → All IsPlain ts → All IsPlain (rest_tokens ts)
unfolding rest_tokens
rest-All [] h = tt
rest-All (t ∷ ts) h = h.1

pub consume_token-Safely : Safely Ready Anything consume_token
unfolding consume
consume_token-Safely = record {
  run = λ s ready. Yields.yields tt _ tt (ready.0, rest-All s.stream.current ready.1);
}

Yields-arena :
    {A : Type 0} {Q : A → Type 0} (s : ParserState) {r : Outcome (A × MemoryArena)}
    → All IsPlain s.stream.current
    → Yields Q IsArena r
    → Yields Q Ready (in_arena (λ a. r) s)
Yields-arena s plain (Yields.yields x arena q ar) = Yields.yields x _ q (ar, plain)
Yields-arena s plain Yields.quits = Yields.quits

pub in_arena-Safely :
    {A : Type 0} {Q : A → Type 0} {m : Stateful MemoryArena A}
    → Safely IsArena Q m
    → Safely Ready Q (in_arena m)
in_arena-Safely h = record { run = λ s ready. Yields-arena s ready.1 (h.run s.arena ready.0) }

-- Behind the last token nothing is parsed.
at_end :
    {A : Type 0} {Q : A → Type 0} (m : Parser (Option A)) (ts : List Token) (s : ParserState)
    → Ready s
    → Safely Ready (Maybe Q) m
    → Yields (Maybe Q) Ready (elim ts [ [] ↦ ok (none, s) | t ∷ rest ↦ m s ])
at_end m [] s ready h = Yields.yields none s tt ready
at_end m (t ∷ ts) s ready h = h.run s ready

pub skip_separator-Safely : Safely Ready Anything skip_separator
unfolding skip_separator
skip_separator-Safely =
    bind peek_token-Safely
      λ token _. either (is_separator token.kind) (λ _. consume_token-Safely) λ _. pure-Safely tt tt

pub parse_operand-Safely : Safely Ready (Maybe OperandTyped) parse_operand
unfolding parse_operand
parse_operand-Safely = record {
  run = λ s ready. at_end _ s.stream.current s ready (bind skip_separator-Safely λ _ _. at_operand);
}
