-- ===== src/Assembler/Parser/Termination.antt =====
-- The loop of `parse_program` ends.
use bitcode.Base.{
  ℕ, zero, suc, ◌+◌, ◌-◌, ◌<◌, ◌≤◌, ◌≡◌, ◌&&◌, ap, refl, sym, Bool, true, false, Bool-cases, inl,
  inr, List, [], ◌∷◌, ◌++◌, Option, none, some, Bytes, Outcome, ok, exited, fault, Fault, arith,
  length, length-append, ltb, ◌==◌, take,
}
use mathlib.Core.Path.{subst}
use bitcode.Base.Stateful.{pure, ◌>>=◌}
use bitcode.Arena.Aborts.{Allocates, gives, aborts, arena_alloc-Aborting, arena_calloc-Aborting}
use bitcode.Arena.{MemoryArena}
use bitcode.Assembler.Opcodes.{is_opcode}
use bitcode.Assembler.Parser.{
  in_arena, ParserState, Parser, Operand, is_operand_kind, directive_operands, parse_directive,
  text_of,
}
use bitcode.Assembler.Parser.Programs.{
  parse_program, enough_rounds, line_size, Line, zeroed, directive, instruction, label_def,
  with_two, operand_count, second_operand, operands_of, parse_instruction, parse_label_def,
  ends_with_colon, parse_identifier_line, parse_line, Parsed, lines, failed, parse_lines, is_eol,
  is_eof,
}
use bitcode.Assembler.Parser.Progress.{
  left, Within, returns, exits, faults, Shrinking, bind, pure-Shrinking, fail, either, by_option,
  by_kind, peek_token-Shrinking, consume_token-Shrinking, in_arena-Shrinking,
  skip_separator-Shrinking, parse_operand-Shrinking, parse_opcode-Shrinking,
}
use bitcode.Assembler.TokenStream.{consume, rest_tokens}
use bitcode.Assembler.Tokens.{Token, TokenKind, tok_eof, first_word}

directive_operands-Shrinking : (b : Bool) (type : ℕ) → Shrinking (directive_operands b type)
unfolding directive_operands
directive_operands-Shrinking false type = pure-Shrinking _
directive_operands-Shrinking true type = bind parse_operand-Shrinking λ first.
    by_option first fail λ operand_1. bind parse_operand-Shrinking λ second.
      pure-Shrinking (elim second [
        | none ↦ none
        | some operand_2 ↦
            some (record { type = type; operand_0 = some operand_1; operand_1 = some operand_2 })
      ])

parse_directive-Shrinking : Shrinking parse_directive
unfolding parse_directive
parse_directive-Shrinking = bind peek_token-Shrinking λ token.
    by_kind token.kind fail fail fail
      (bind consume_token-Shrinking
        λ _. directive_operands-Shrinking (is_operand_kind token.kind) (first_word token.value))
      fail fail fail

second_operand-Shrinking :
    (b : Bool) (opcode : ℕ) (a : Operand) → Shrinking (second_operand b opcode a)
unfolding second_operand
second_operand-Shrinking false opcode a = pure-Shrinking _
second_operand-Shrinking true opcode a =
    bind parse_operand-Shrinking
      λ second. pure-Shrinking (elim second [ none ↦ none | some b ↦ some (with_two opcode a b) ])

operands_of-Shrinking : (b : Bool) (opcode : ℕ) → Shrinking (operands_of b opcode)
unfolding operands_of
operands_of-Shrinking false opcode = pure-Shrinking _
operands_of-Shrinking true opcode = bind parse_operand-Shrinking λ first. by_option first fail λ a.
    bind skip_separator-Shrinking
      λ _. second_operand-Shrinking (ltb 1 (operand_count opcode)) opcode a

parse_instruction-Shrinking : Shrinking parse_instruction
unfolding parse_instruction
parse_instruction-Shrinking = bind peek_token-Shrinking λ token.
    by_kind token.kind fail
      (bind parse_opcode-Shrinking λ parsed. by_option parsed fail λ opcode.
        bind skip_separator-Shrinking λ _.
          operands_of-Shrinking (ltb 0 (operand_count opcode) && is_operand_kind token.kind) opcode)
      fail fail fail fail fail

parse_label_def-Shrinking : Shrinking parse_label_def
unfolding parse_label_def
parse_label_def-Shrinking = bind peek_token-Shrinking λ token.
    bind (in_arena-Shrinking (arena_alloc-Aborting (length (text_of token.value) - 1 + 1))) λ p.
      bind consume_token-Shrinking λ _.
        pure-Shrinking
          (some (label_def (take (length (text_of token.value) - 1) (text_of token.value))))

parse_identifier_line-Shrinking : (s : Bytes) (out : Line) → Shrinking (parse_identifier_line s out)
unfolding parse_identifier_line
parse_identifier_line-Shrinking s out = either (ends_with_colon s) parse_label_def-Shrinking (
    either (is_opcode s)
      (bind parse_instruction-Shrinking
        λ parsed. pure-Shrinking (elim parsed [ none ↦ none | some i ↦ some (instruction i) ]))
      (pure-Shrinking (some out)))

parse_line-Shrinking : (out : Line) → Shrinking (parse_line out)
unfolding parse_line
parse_line-Shrinking out =
    let as_it_was = pure-Shrinking (some out) in
    bind peek_token-Shrinking λ token.
      by_kind token.kind as_it_was (parse_identifier_line-Shrinking (text_of token.value) out)
        as_it_was
        (bind parse_directive-Shrinking
          λ parsed. pure-Shrinking (elim parsed [ none ↦ none | some d ↦ some (directive d) ]))
        as_it_was fail (bind consume_token-Shrinking λ _. as_it_was)

-- The stream is at its end, or at the token that closes it.
abbrev pub AtEnd : List Token → Type 0
AtEnd [] = Unit
AtEnd (t ∷ ts) = t.kind ≡ tok_eof

-- How the loop is left: at the end of the stream with lines within the capacity, with a status of
-- -1, by the end of the process with code 1, or by undefined behaviour; and never because fuel was
-- missing.
pub data Ends (capacity : ℕ) : Outcome (Parsed × ParserState) → Type 0 where
  parses :
      (done : List Line) (s : ParserState)
      → length done ≤ capacity
      → AtEnd s.stream.current
      → Ends capacity (ok (lines done, s))
  fails : (s : ParserState) → Ends capacity (ok (failed, s))
  quits : Ends capacity (exited 1 [])
  breaks : (e : Fault) → Ends capacity (fault e)

-- What follows `parse_line` in a round.
continue_with : ℕ → ℕ → List Line → Option Line → Parser Parsed
continue_with fuel capacity done parsed = elim parsed [
  | none ↦ pure failed
  | some l ↦ parse_lines fuel capacity (done ++ l ∷ [])
]

line-Ends :
    (fuel capacity n : ℕ) (done : List Line) (s : ParserState)
    {r : Outcome (Option Line × ParserState)}
    → Within n r
    → ((l : Line) (t : ParserState)
        → left t ≤ n
        → Ends capacity (parse_lines fuel capacity (done ++ l ∷ []) t))
    → Ends capacity (((λ t. r) >>= continue_with fuel capacity done) s)
unfolding continue_with
line-Ends fuel capacity n done s (returns none t h) k = fails t
line-Ends fuel capacity n done s (returns (some l) t h) k = k l t h
line-Ends fuel capacity n done s exits k = quits
line-Ends fuel capacity n done s (faults e) k = breaks e

is_eof-kind : (k : TokenKind) → is_eof k ≡ true → k ≡ tok_eof
is_eof-kind tok_eof h = refl
is_eof-kind _ h = cc

pub parse_lines-Ends :
    (fuel capacity : ℕ) (done : List Line) (s : ParserState) (ts : List Token)
    → s.stream.current ≡ ts
    → length done ≤ capacity
    → left s + (capacity - length done) < fuel
    → Ends capacity (parse_lines fuel capacity done s)
unfolding parse_lines consume rest_tokens continue_with
parse_lines-Ends zero capacity done s ts e c h = absurd (omega arith)
parse_lines-Ends (suc fuel) capacity done s [] e c h =
    rw (e, parse_lines) (parses done s c (subst AtEnd (sym e) tt))
parse_lines-Ends (suc fuel) capacity done s (t ∷ ts) e c h =
    let len : left s ≡ suc (length ts) = ap length e in
    elim (Bool-cases (is_eol t)) [
      | inl eol ↦
          rw (e, eol, parse_lines)
            (parse_lines-Ends fuel capacity done _ ts (rest_current e) c (consumed-lt e h))
      | inr no_eol ↦ elim (Bool-cases (is_eof t.kind)) [
        | inl eof ↦
            rw (e, no_eol, eof, parse_lines)
              (parses done s c (subst AtEnd (sym e) (is_eof-kind t.kind eof)))
        | inr no_eof ↦ elim (Bool-cases (length done == capacity)) [
          | inl full ↦ rw (e, no_eol, no_eof, full, parse_lines) quits
          | inr room ↦
              rw (e, no_eol, no_eof, room, parse_lines)
                (line-Ends fuel capacity (left s) done s ((parse_line-Shrinking zeroed).within s)
                  λ l t' k.
                    parse_lines-Ends fuel capacity (done ++ l ∷ []) t' _ refl (grown l c room)
                      (grown-lt l t' room k h))
        ]
      ]
    ]
  where
    rest_current : s.stream.current ≡ t ∷ ts → (consume s.stream).current ≡ ts
    rest_current e = ap rest_tokens e

    consumed-lt :
        s.stream.current ≡ t ∷ ts
        → left s + (capacity - length done) < suc fuel
        → left (record s { stream = consume s.stream }) + (capacity - length done) < fuel
    consumed-lt e h = omega (arith, ap length (rest_current e), ap length e)

    grown :
        (l : Line)
        → length done ≤ capacity
        → (length done == capacity) ≡ false
        → length (done ++ l ∷ []) ≤ capacity
    grown l c room = ground (arith, length-append done (l ∷ []))

    grown-lt :
        (l : Line) (t' : ParserState)
        → (length done == capacity) ≡ false
        → left t' ≤ left s
        → left s + (capacity - length done) < suc fuel
        → left t' + (capacity - length (done ++ l ∷ [])) < fuel
    grown-lt l t' room k h = ground (arith, length-append done (l ∷ []), c)

from_block :
    (capacity : ℕ) (s : ParserState) {r : Outcome (Option ℕ × MemoryArena)}
    → Allocates r
    → Ends capacity (
        (in_arena (λ a. r) >>= λ block. elim block [
          | none ↦ pure failed
          | some p ↦ parse_lines (enough_rounds capacity s) capacity []
        ])
          s)
from_block capacity s (gives none arena) = fails _
from_block capacity s (gives (some p) arena) =
    parse_lines-Ends (enough_rounds capacity s) capacity [] _ _ refl (omega arith) (omega arith)
from_block capacity s aborts = quits
from_block capacity s (Allocates.breaks e) = breaks e

-- `parse_program` ends on every stream, with every arena and for every capacity, within
-- `enough_rounds`: it returns lines, at most as many as the capacity, and leaves the stream at its
-- end or at `TOK_EOF`; or it returns -1, ends the process with code 1, or reaches undefined
-- behaviour.
pub parse_program-Ends : (capacity : ℕ) (s : ParserState) → Ends capacity (parse_program capacity s)
unfolding parse_program
parse_program-Ends capacity s =
    from_block capacity s ((arena_calloc-Aborting capacity line_size).ends s.arena)
