-- ===== src/Assembler/Parser/Programs.antt =====
-- Instructions, lines and programs of src/assembler/parser/parser.c. `none` is the status -1.
use bitcode.Base.{
  ℕ, zero, suc, ◌+◌, ◌-◌, Bool, true, false, ◌&&◌, List, [], ◌∷◌, ◌++◌, Option, none, some, Bytes,
  ltb, ◌==◌, if◌then◌else◌, length, take, get_or, ok, exited,
}
use bitcode.Base.Stateful.{pure, ◌>>=◌, ◌>>◌}
use bitcode.Arena.{arena_alloc, arena_calloc}
use bitcode.Assembler.Opcodes.{is_opcode}
use bitcode.Assembler.Parser.{
  ParserState, Parser, peek_token, consume_token, in_arena, Operand, operand_type, skip_separator,
  text_of, parse_operand, parse_opcode, ParsedDirective, parse_directive, is_operand_kind,
}
use bitcode.Assembler.Tokens.{
  TokenKind, tok_register, tok_identifier, tok_separator, tok_directive, tok_unknown, tok_literal,
  tok_eof, Token, first_word, sep_eol,
}
use bitcode.InstructionFormat.{OperandType, ot_none, opcode_info}

-- `none` is a member that is not set.
pub record Instruction : Type 0 where
  pub opcode : ℕ
  pub operand_type_0 : Option OperandType
  pub operand_type_1 : Option OperandType
  pub operand_0 : Option Operand
  pub operand_1 : Option Operand

-- A line of zero bytes, as `arena_calloc` leaves it, reads as a label definition with a null label.
pub data Line : Type 0 where
  zeroed : Line
  label_def : Bytes → Line
  instruction : Instruction → Line
  directive : ParsedDirective → Line

abbrev pub operand_count : ℕ → ℕ
operand_count opcode = elim (opcode_info opcode) [ none ↦ 0 | some info ↦ info.operand_count ]

abbrev pub with_none : ℕ → Instruction
with_none opcode = record {
  opcode = opcode;
  operand_type_0 = some ot_none;
  operand_type_1 = none;
  operand_0 = none;
  operand_1 = none;
}

abbrev pub with_one : ℕ → Operand → Instruction
with_one opcode a = record {
  opcode = opcode;
  operand_type_0 = some (operand_type a);
  operand_type_1 = some ot_none;
  operand_0 = some a;
  operand_1 = none;
}

abbrev pub with_two : ℕ → Operand → Operand → Instruction
with_two opcode a b = record {
  opcode = opcode;
  operand_type_0 = some (operand_type a);
  operand_type_1 = some (operand_type b);
  operand_0 = some a;
  operand_1 = some b;
}

-- The second operand, if the opcode takes two.
unfoldable pub second_operand : Bool → ℕ → Operand → Parser (Option Instruction)
second_operand false opcode a = pure (some (with_one opcode a))
second_operand true opcode a = do
  second ← parse_operand
  pure (elim second [ none ↦ none | some b ↦ some (with_two opcode a b) ])

-- The operands, by the count in the format table.
unfoldable pub operands_of : Bool → ℕ → Parser (Option Instruction)
unfolding second_operand
operands_of false opcode = pure (some (with_none opcode))
operands_of true opcode = do
  first ← parse_operand
  elim first [
    | none ↦ pure none
    | some a ↦ do skip_separator; second_operand (ltb 1 (operand_count opcode)) opcode a
  ]

-- `is_valid_operand` is asked of the token of the opcode.
unfoldable pub parse_instruction : Parser (Option Instruction)
unfolding operands_of
parse_instruction = do
  token ← peek_token
  elim token.kind [
    | tok_identifier ↦ do
      parsed ← parse_opcode
      elim parsed [
        | none ↦ pure none
        | some opcode ↦ do
          skip_separator
          operands_of (ltb 0 (operand_count opcode) && is_operand_kind token.kind) opcode
      ]
    | _ ↦ pure none
  ]

-- The label without its colon.
unfoldable pub parse_label_def : Parser (Option Line)
parse_label_def = do
  token ← peek_token
  p ← in_arena (arena_alloc (length (text_of token.value) - 1 + 1))
  consume_token
  pure (some (label_def (take (length (text_of token.value) - 1) (text_of token.value))))

unfoldable pub ends_with_colon : Bytes → Bool
ends_with_colon s = get_or s (length s - 1) 0 == b':'

-- The case of an identifier. One that is neither a label nor an opcode is left where it is, and
-- the line stays as it was.
unfoldable pub parse_identifier_line : Bytes → Line → Parser (Option Line)
parse_identifier_line s out =
    if ends_with_colon s
    then parse_label_def
    else if is_opcode s
    then (do
      parsed ← parse_instruction
      pure (elim parsed [ none ↦ none | some i ↦ some (instruction i) ]))
    else pure (some out)

unfoldable pub parse_line : Line → Parser (Option Line)
unfolding parse_identifier_line parse_label_def ends_with_colon
parse_line out = do
  token ← peek_token
  elim token.kind [
    | tok_register ↦ pure (some out)
    | tok_separator ↦ pure (some out)
    | tok_directive ↦ do
      parsed ← parse_directive
      pure (elim parsed [ none ↦ none | some d ↦ some (directive d) ])
    | tok_identifier ↦ parse_identifier_line (text_of token.value) out
    | tok_eof ↦ do consume_token; pure (some out)
    | tok_unknown ↦ pure (some out)
    | tok_literal ↦ pure none
  ]

abbrev pub line_size : ℕ
line_size = 72

-- `INITITAL_LINE_CAPACITY`.
abbrev pub initial_line_capacity : ℕ
initial_line_capacity = 100

abbrev pub is_eol : Token → Bool
is_eol token = elim token.kind [ tok_separator ↦ first_word token.value == sep_eol | _ ↦ false ]

abbrev pub is_eof : TokenKind → Bool
is_eof tok_eof = true
is_eof tok_register = false
is_eof tok_identifier = false
is_eof tok_separator = false
is_eof tok_directive = false
is_eof tok_unknown = false
is_eof tok_literal = false

-- How the loop of `parse_program` is left: with the lines so far, with a status of -1, or with its
-- fuel used up.
pub data Parsed : Type 0 where
  lines : List Line → Parsed
  failed : Parsed
  out_of_fuel : Parsed

-- The loop. A line that is parsed without an error is counted, whether or not it was filled.
unfoldable pub parse_lines : ℕ → ℕ → List Line → Parser Parsed
parse_lines zero capacity done s = ok (out_of_fuel, s)
parse_lines (suc fuel) capacity done s = elim s.stream.current [
  | [] ↦ ok (lines done, s)
  | token ∷ rest ↦
      let skip = (do consume_token; parse_lines fuel capacity done) s in
      let line =
        (do
          parsed ← parse_line zeroed
          elim parsed [ none ↦ pure failed | some l ↦ parse_lines fuel capacity (done ++ l ∷ []) ])
          s in
      if is_eol token
      then skip
      else if is_eof token.kind
      then ok (lines done, s)
      else if length done == capacity
      then exited 1 []
      else line
]

-- One round for each token, and one for each line that consumes none.
abbrev pub enough_rounds : ℕ → ParserState → ℕ
enough_rounds capacity s = suc (length s.stream.current + capacity)

-- The lines of the program, of which there are `count`.
unfoldable pub parse_program : ℕ → Parser Parsed
parse_program capacity s =
    (do
      block ← in_arena (arena_calloc capacity line_size)
      elim block [
        | none ↦ pure failed
        | some p ↦ parse_lines (enough_rounds capacity s) capacity []
      ])
      s

-- It passes the status on.
abbrev pub run_parser : ℕ → Parser Parsed
run_parser = parse_program
