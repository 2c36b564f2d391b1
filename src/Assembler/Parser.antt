-- ===== src/Assembler/Parser.antt =====
-- src/assembler/parser/parser.c: operands, opcodes and directives. Lines and programs are in
-- Parser/Programs. A status is 0 or -1: `none` is the status -1.
pub mod Programs
pub mod Progress
pub mod Termination
pub mod Unknown
pub mod RoundTrip
pub mod Addresses
pub mod Sources
pub mod Typed
pub mod Safety
use bitcode.Base.{
  ◌%◌, ℕ, zero, suc, ◌+◌, ◌-◌, Bool, true, false, not, ◌&&◌, ◌||◌, List, [], ◌∷◌, Option, none,
  some, Bytes, ltb, leb, ◌==◌, if◌then◌else◌, length, Outcome, ok, exited, fault, null_pointer,
}
use bitcode.Base.Int.{ℤ, pos, negsuc, to_u32}
use bitcode.Base.Stateful.{Stateful, pure, ◌>>=◌, ◌>>◌}
use bitcode.Arena.{MemoryArena, arena_strdup}
use bitcode.Assembler.Opcodes.{opcode_lookup}
use bitcode.Assembler.TokenStream.{TokenStream, peek, consume, first_token}
use bitcode.Assembler.Tokens.{
  TokenKind, tok_register, tok_identifier, tok_separator, tok_directive, tok_unknown, tok_literal,
  tok_eof, Token, TokenValue, first_word, long_value, char_value, string_value, identifier_value,
  lit_integer, lit_char, lit_string,
}
use bitcode.InstructionFormat.{
  OpcodeInfo, OperandType, ot_register, ot_immediate_int, ot_immediate_chr, ot_immediate_str,
  ot_symbol, ot_none, opcode_info,
}

-- What the functions change: the stream's position and the arena.
pub record ParserState : Type 0 where
  pub stream : TokenStream
  pub arena : MemoryArena

abbrev pub Parser : Type 0 → Type 0
Parser = Stateful ParserState

abbrev pub peek_token : Parser Token
peek_token s = ok (peek s.stream, s)

abbrev pub consume_token : Parser (Unit {0})
consume_token s = ok (tt, record s { stream = consume s.stream })

abbrev pub in_arena : {A : Type 0} → Stateful MemoryArena A → Parser A
in_arena m s = elim (m s.arena) [
  | ok (a, arena) ↦ ok (a, record s { arena = arena })
  | exited code out ↦ exited code out
  | fault e ↦ fault e
]

-- `Operand`, by its type.
pub data Operand : Type 0 where
  register : ℕ → Operand
  symbol : Bytes → Operand
  immediate_int : ℕ → Operand
  immediate_chr : ℕ → Operand
  immediate_str : Bytes → Operand

unfoldable pub operand_type : Operand → OperandType
operand_type (register r) = ot_register
operand_type (symbol s) = ot_symbol
operand_type (immediate_int v) = ot_immediate_int
operand_type (immediate_chr c) = ot_immediate_chr
operand_type (immediate_str s) = ot_immediate_str

abbrev pub is_separator : TokenKind → Bool
is_separator tok_separator = true
is_separator tok_register = false
is_separator tok_identifier = false
is_separator tok_directive = false
is_separator tok_unknown = false
is_separator tok_literal = false
is_separator tok_eof = false

-- `token = peek(stream); if (token.kind == TOK_SEPARATOR) consume(stream);`
unfoldable pub skip_separator : Parser (Unit {0})
skip_separator = do token ← peek_token; if is_separator token.kind then consume_token else pure tt

-- `val < INT32_MIN || val > UINT32_MAX`.
unfoldable pub is_out_of_range : ℤ → Bool
is_out_of_range (pos n) = ltb 4294967295 n
is_out_of_range (negsuc n) = leb 2147483648 n

-- The first lines of the functions below: nothing is parsed behind the last token.
abbrev pub unless_at_end : {A : Type 0} → Parser (Option A) → Parser (Option A)
unless_at_end m s = elim s.stream.current [ [] ↦ ok (none, s) | t ∷ ts ↦ m s ]

unfoldable pub parse_integer : Parser (Option ℕ)
parse_integer = unless_at_end (do
  token ← peek_token
  if is_out_of_range (long_value token.value)
      then pure none
      else (do consume_token; pure (some (to_u32 (long_value token.value)))))

-- The value is cut to 32 bits before it is compared; `none` is false.
unfoldable pub parse_address : Parser (Option ℕ)
parse_address = unless_at_end (do
  token ← peek_token
  if ltb 4294967295 (to_u32 (long_value token.value))
      then pure none
      else (do consume_token; pure (some (to_u32 (long_value token.value)))))

-- The token is not consumed.
unfoldable pub parse_char : Parser (Option ℕ)
parse_char = unless_at_end (do token ← peek_token; pure (some (char_value token.value)))

-- A pointer that is not to a text is read through by `strlen`.
unfoldable pub parse_string : Parser (Option Bytes)
parse_string = unless_at_end (do
  token ← peek_token
  elim (string_value token.value) [
    | none ↦ λ s. fault null_pointer
    | some text ↦ do p ← in_arena (arena_strdup text); consume_token; pure (some text)
  ])

-- `none` is 0xFF.
unfoldable pub parse_register : Parser (Option ℕ)
parse_register = unless_at_end (do
  token ← peek_token
  elim token.kind [
    | tok_register ↦ do
      consume_token
      pure (
          if first_word token.value % 256 == 0xFF
          then none
          else some (first_word token.value % 256))
    | _ ↦ pure none
  ])

-- An outcome of a function, made into an operand.
abbrev pub made {ℓ} : {A : Type ℓ} → (A → Operand) → Option A → Option Operand
made f none = none
made f (some a) = some (f a)

-- The character 0 is refused.
abbrev pub char_operand : Option ℕ → Option Operand
char_operand none = none
char_operand (some c) = if c == 0 then none else some (immediate_chr c)

-- The `switch` on `token.value.literal.type`.
unfoldable pub parse_literal : ℕ → Parser (Option Operand)
unfolding parse_integer parse_char parse_string
parse_literal type =
    if type == lit_integer
    then (do v ← parse_integer; pure (made immediate_int v))
    else if type == lit_char
    then (do c ← parse_char; pure (char_operand c))
    else if type == lit_string
    then (do s ← parse_string; pure (made immediate_str s))
    else pure none

-- What an identifier's text is: the union of such a token holds one.
abbrev pub text_of : TokenValue → Bytes
text_of value = elim (identifier_value value) [ none ↦ [] | some s ↦ s ]

-- `parse_operand` behind the separator, on the kind of the token there.
unfoldable pub parse_operand_at : Token → Parser (Option Operand)
parse_operand_at token = elim token.kind [
  | tok_register ↦ do reg_id ← parse_register; pure (made register reg_id)
  | tok_identifier ↦ do consume_token; pure (some (symbol (text_of token.value)))
  | _ ↦ parse_literal (first_word token.value)
]

unfoldable pub parse_operand : Parser (Option Operand)
unfolding skip_separator parse_operand_at
parse_operand = unless_at_end (do skip_separator; token ← peek_token; parse_operand_at token)

-- `none` is the status -1.
unfoldable pub parse_opcode : Parser (Option ℕ)
parse_opcode = do
  token ← peek_token
  elim token.kind [
    | tok_identifier ↦ do
      p ← in_arena (arena_strdup (text_of token.value))
      if opcode_lookup (text_of token.value) == 0xFF
          then pure none
          else (do consume_token; pure (some (opcode_lookup (text_of token.value))))
    | _ ↦ pure none
  ]

abbrev pub is_operand_kind : TokenKind → Bool
is_operand_kind tok_identifier = true
is_operand_kind tok_literal = true
is_operand_kind tok_register = true
is_operand_kind tok_separator = false
is_operand_kind tok_directive = false
is_operand_kind tok_unknown = false
is_operand_kind tok_eof = false

-- `operands[i]` is `none` where its type is `OT_NONE` or was not set.
pub record ParsedDirective : Type 0 where
  pub type : ℕ
  pub operand_0 : Option Operand
  pub operand_1 : Option Operand

-- The operands of a directive, if they are to be parsed: `none` is the status -1.
unfoldable pub directive_operands : Bool → ℕ → Parser (Option ParsedDirective)
directive_operands false type =
    pure (some (record { type = type; operand_0 = none; operand_1 = none }))
directive_operands true type = do
  first ← parse_operand
  elim first [
    | none ↦ pure none
    | some operand_1 ↦ do
      second ← parse_operand
      pure (elim second [
        | none ↦ none
        | some operand_2 ↦
            some (record { type = type; operand_0 = some operand_1; operand_1 = some operand_2 })
      ])
  ]

-- Whether there are operands is asked of the token of the directive itself.
unfoldable pub parse_directive : Parser (Option ParsedDirective)
unfolding directive_operands
parse_directive = do
  token ← peek_token
  elim token.kind [
    | tok_directive ↦ do
      consume_token
      directive_operands (is_operand_kind token.kind) (first_word token.value)
    | _ ↦ pure none
  ]
