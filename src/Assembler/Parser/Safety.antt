-- ===== src/Assembler/Parser/Safety.antt =====
-- The instructions that the parser makes of the tokens of the lexer
-- (src/assembler/parser/parser.c).
pub mod Lines
use bitcode.Base.{
  ℕ, zero, suc, ◌+◌, ◌-◌, ◌*◌, ◌≤◌, ◌<◌, ◌≡◌, ◌≢◌, ◌⊎◌, inl, inr, refl, sym, ap, Bool, true, false,
  not, ◌&&◌, List, [], ◌∷◌, ◌++◌, Option, none, some, Bytes, All, All-append, Outcome, ok, exited,
  arith, length, Bool-cases, ◌==◌, ltb, str_eq, take,
}
use bitcode.Base.Safely.{Yields, Safely, bind, pure-Safely, either, by_option, weaken}
use bitcode.Base.Stateful.{pure, ◌>>=◌}
use mathlib.Core.Path.{subst}
use bitcode.Arena.Safety.{
  Anything, NullAt, arena_alloc-Safely, arena_strdup-Safely, arena_calloc-Safely,
}
use bitcode.Assembler.Lexer.Typed.{IsTyped}
use bitcode.Assembler.Opcodes.{OpcodeEntry, lookup_in, opcode_table, opcode_lookup, is_opcode}
use bitcode.Assembler.Parser.{
  ParserState, Parser, Operand, ParsedDirective, text_of, parse_opcode, parse_operand,
  directive_operands, parse_directive, is_operand_kind,
}
use bitcode.Assembler.Parser.Programs.{
  Line, zeroed, label_def, instruction, directive, Instruction, with_none, with_one, with_two,
  operand_count, second_operand, operands_of, parse_instruction, parse_label_def,
  parse_identifier_line, ends_with_colon, parse_line, Parsed, lines, failed, out_of_fuel,
  parse_lines, parse_program, line_size, is_eol, is_eof,
}
use bitcode.Assembler.Parser.Typed.{
  IsPlain, Ready, OperandTyped, Maybe, peek_token-Safely, consume_token-Safely, in_arena-Safely,
  skip_separator-Safely, parse_operand-Safely,
}
use bitcode.Assembler.Tokens.{
  Token, TokenKind, tok_register, tok_identifier, tok_separator, tok_directive, tok_unknown,
  tok_literal, tok_eof, first_word, identifier_value,
}

lookup_in-cases :
    (es : List OpcodeEntry) (s : Bytes)
    → All (λ e. e.opcode_id ≤ 25) es
    → (lookup_in es s ≡ 0xFF) ⊎ (lookup_in es s ≤ 25)
unfolding lookup_in
lookup_in-cases [] s h = inl refl
lookup_in-cases (e ∷ es) s h = elim (Bool-cases (str_eq e.opcode_name s)) [
  | inl found ↦ rw (found, lookup_in) (inr h.0)
  | inr other ↦ rw (other, lookup_in) (lookup_in-cases es s h.1)
]

opcode_lookup-le : (s : Bytes) → (opcode_lookup s == 0xFF) ≡ false → opcode_lookup s ≤ 25
unfolding opcode_lookup opcode_table
opcode_lookup-le s h = elim (lookup_in-cases opcode_table s (omega arith)) [
  | inl e ↦ absurd (ground (arith, e, h))
  | inr known ↦ known
]

-- The texts of tokens fit the buffer.
pub text_of-short : (t : Token) → IsTyped t → length (text_of t.value) ≤ 1023
unfolding identifier_value
text_of-short t IsTyped.a_zero = omega arith
text_of-short t IsTyped.an_end = omega arith
text_of-short t (IsTyped.a_word p s short) = short
text_of-short t (IsTyped.a_register r s h) = omega arith
text_of-short t (IsTyped.a_number v s) = omega arith
text_of-short t (IsTyped.a_character c s) = omega arith
text_of-short t (IsTyped.a_string p u s) = omega arith
text_of-short t (IsTyped.a_separator n s h) = omega arith
text_of-short t (IsTyped.a_directive d s h) = omega arith

-- An instruction has as many operands as its opcode takes, and their types beside them.
pub data InstructionTyped : Instruction → Type 0 where
  without : (op : ℕ) → op ≤ 25 → operand_count op ≡ 0 → InstructionTyped (with_none op)
  with_an_operand :
      (op : ℕ) (a : Operand)
      → op ≤ 25
      → operand_count op ≡ 1
      → OperandTyped a
      → InstructionTyped (with_one op a)
  with_operands :
      (op : ℕ) (a b : Operand)
      → op ≤ 25
      → 2 ≤ operand_count op
      → OperandTyped a
      → OperandTyped b
      → InstructionTyped (with_two op a b)

pub by_kind :
    {A : Type 0} {Q : A → Type 0} (k : TokenKind) {x y z u v w t : Parser A}
    → Safely Ready Q x
    → (k ≡ tok_identifier → Safely Ready Q y)
    → Safely Ready Q z
    → (k ≡ tok_directive → Safely Ready Q u)
    → Safely Ready Q v
    → Safely Ready Q w
    → Safely Ready Q t
    → Safely Ready Q (elim k [
      | tok_register ↦ x
      | tok_identifier ↦ y
      | tok_separator ↦ z
      | tok_directive ↦ u
      | tok_unknown ↦ v
      | tok_literal ↦ w
      | tok_eof ↦ t
    ])
by_kind tok_register a b c d e f g = a
by_kind tok_identifier a b c d e f g = b refl
by_kind tok_separator a b c d e f g = c
by_kind tok_directive a b c d e f g = d refl
by_kind tok_unknown a b c d e f g = e
by_kind tok_literal a b c d e f g = f
by_kind tok_eof a b c d e f g = g

pub fail : {A : Type 0} {Q : A → Type 0} → Safely Ready (Maybe Q) (pure {A = Option A} none)
fail = pure-Safely none tt

parse_opcode-Safely : Safely Ready (Maybe (λ op. op ≤ 25)) parse_opcode
unfolding parse_opcode
parse_opcode-Safely = bind peek_token-Safely λ token plain.
    let short = text_of-short token plain.0 in
    by_kind token.kind fail
      (λ _. bind (in_arena-Safely (arena_strdup-Safely (text_of token.value) (omega arith))) λ p _.
        either (opcode_lookup (text_of token.value) == 0xFF) (λ _. fail)
          λ e. bind consume_token-Safely λ _ _.
            pure-Safely (some (opcode_lookup (text_of token.value)))
              (opcode_lookup-le (text_of token.value) e))
      fail (λ _. fail) fail fail fail

second_operand-Safely :
    (b : Bool) (op : ℕ) (a : Operand)
    → ltb 1 (operand_count op) ≡ b
    → op ≤ 25
    → 0 < operand_count op
    → OperandTyped a
    → Safely Ready (Maybe InstructionTyped) (second_operand b op a)
unfolding second_operand
second_operand-Safely false op a e known some_count h =
    pure-Safely _ (InstructionTyped.with_an_operand op a known (ground (arith, e)) h)
second_operand-Safely true op a e known some_count h =
    bind parse_operand-Safely λ second q. pure-Safely _ (both second q)
  where
    both :
        (second : Option Operand)
        → Maybe OperandTyped second
        → Maybe InstructionTyped (elim second [ none ↦ none | some b ↦ some (with_two op a b) ])
    both none q = tt
    both (some b) q = InstructionTyped.with_operands op a b known (ground (arith, e)) h q

operands_of-Safely :
    (b : Bool) (op : ℕ)
    → ltb 0 (operand_count op) ≡ b
    → op ≤ 25
    → Safely Ready (Maybe InstructionTyped) (operands_of b op)
unfolding operands_of
operands_of-Safely false op e known =
    pure-Safely _ (InstructionTyped.without op known (ground (arith, e)))
operands_of-Safely true op e known = bind parse_operand-Safely λ first q.
    by_option first (λ _. fail)
      λ a found. bind skip_separator-Safely λ _ _.
        second_operand-Safely (ltb 1 (operand_count op)) op a refl known (ground (arith, e))
          (subst (Maybe OperandTyped) found q)

pub parse_instruction-Safely : Safely Ready (Maybe InstructionTyped) parse_instruction
unfolding parse_instruction
parse_instruction-Safely = bind peek_token-Safely λ token plain.
    by_kind token.kind fail
      (λ e. bind parse_opcode-Safely λ parsed q.
        by_option parsed (λ _. fail)
          λ op found. bind skip_separator-Safely λ _ _.
            operands_of-Safely (ltb 0 (operand_count op) && is_operand_kind token.kind) op
              (rw e (ground arith)) (subst (Maybe (λ (n : ℕ). n ≤ 25)) found q))
      fail (λ _. fail) fail fail fail
