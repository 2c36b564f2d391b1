-- ===== src/Assembler/Parser/Safety/Lines.antt =====
-- The lines that the parser makes of the tokens of the lexer (src/assembler/parser/parser.c).
use bitcode.Base.{
  ℕ, zero, suc, ◌+◌, ◌-◌, ◌≤◌, ◌≡◌, refl, Bool, true, false, List, [], ◌∷◌, ◌++◌, Option, none,
  some, Bytes, All, All-append, Outcome, ok, exited, arith, length, ◌==◌, if◌then◌else◌, take,
}
use bitcode.Base.Safely.{Yields, Safely, bind, pure-Safely, either, by_option}
use bitcode.Base.Stateful.{pure, ◌>>=◌}
use mathlib.Core.Path.{subst}
use bitcode.Arena.Safety.{arena_alloc-Safely, arena_calloc-Safely}
use bitcode.Assembler.Opcodes.{is_opcode}
use bitcode.Assembler.Parser.{
  ParserState, Parser, ParsedDirective, text_of, directive_operands, parse_directive,
  is_operand_kind, consume_token,
}
use bitcode.Assembler.Parser.Programs.{
  Line, zeroed, label_def, instruction, directive, Instruction, parse_label_def,
  parse_identifier_line, ends_with_colon, parse_line, Parsed, lines, failed, out_of_fuel,
  parse_lines, parse_program, line_size, is_eol, is_eof, enough_rounds,
}
use bitcode.Assembler.Parser.Safety.{
  InstructionTyped, by_kind, fail, parse_instruction-Safely, text_of-short,
}
use bitcode.Assembler.Parser.Typed.{
  Ready, Maybe, peek_token-Safely, consume_token-Safely, in_arena-Safely,
}
use bitcode.Assembler.Tokens.{Token, first_word}

-- Lines: not filled, a label, a directive without operands, or such an instruction.
pub data LineTyped : Line → Type 0 where
  unfilled : LineTyped zeroed
  a_label : (s : Bytes) → LineTyped (label_def s)
  a_directive :
      (d : ParsedDirective) → d.operand_0 ≡ none → d.operand_1 ≡ none → LineTyped (directive d)
  an_instruction : (i : Instruction) → InstructionTyped i → LineTyped (instruction i)

-- A directive has no operands.
abbrev Alone : ParsedDirective → Type 0
Alone d = (d.operand_0 ≡ none) × (d.operand_1 ≡ none)

alone : (b : Bool) (type : ℕ) → b ≡ false → Safely Ready (Maybe Alone) (directive_operands b type)
unfolding directive_operands
alone false type e = pure-Safely _ (refl, refl)
alone true type e = cc

parse_directive-Safely : Safely Ready (Maybe Alone) parse_directive
unfolding parse_directive
parse_directive-Safely = bind peek_token-Safely λ token plain.
    by_kind token.kind fail (λ _. fail) fail
      (λ e.
        bind consume_token-Safely
          λ _ _. alone (is_operand_kind token.kind) (first_word token.value) (rw e refl))
      fail fail fail

parse_label_def-Safely : Safely Ready (Maybe LineTyped) parse_label_def
unfolding parse_label_def
parse_label_def-Safely = bind peek_token-Safely λ token plain.
    let short = text_of-short token plain.0 in
    bind (in_arena-Safely (arena_alloc-Safely (length (text_of token.value) - 1 + 1) (omega arith)))
      λ p _. bind consume_token-Safely λ _ _.
        pure-Safely
          (some (label_def (take (length (text_of token.value) - 1) (text_of token.value))))
          (LineTyped.a_label _)

parse_identifier_line-Safely :
    (s : Bytes) (out : Line)
    → LineTyped out
    → Safely Ready (Maybe LineTyped) (parse_identifier_line s out)
unfolding parse_identifier_line
parse_identifier_line-Safely s out h =
    either (ends_with_colon s) (λ _. parse_label_def-Safely)
      λ _.
        either (is_opcode s)
          (λ _. bind parse_instruction-Safely λ parsed q. pure-Safely _ (made parsed q))
          λ _. pure-Safely (some out) h
  where
    made :
        (parsed : Option Instruction)
        → Maybe InstructionTyped parsed
        → Maybe LineTyped (elim parsed [ none ↦ none | some i ↦ some (instruction i) ])
    made none q = tt
    made (some i) q = LineTyped.an_instruction i q

parse_line-Safely : (out : Line) → LineTyped out → Safely Ready (Maybe LineTyped) (parse_line out)
unfolding parse_line
parse_line-Safely out h =
    let as_it_was = pure-Safely (some out) h in
    bind peek_token-Safely λ token plain.
      by_kind token.kind as_it_was (λ _. parse_identifier_line-Safely (text_of token.value) out h)
        as_it_was (λ _. bind parse_directive-Safely λ parsed q. pure-Safely _ (made parsed q))
        as_it_was fail (bind consume_token-Safely λ _ _. as_it_was)
  where
    made :
        (parsed : Option ParsedDirective)
        → Maybe Alone parsed
        → Maybe LineTyped (elim parsed [ none ↦ none | some d ↦ some (directive d) ])
    made none q = tt
    made (some d) q = LineTyped.a_directive d q.0 q.1

-- What `parse_program` gives: such lines, or a status of -1.
abbrev pub ParsedTyped : Parsed → Type 0
ParsedTyped (lines ls) = All LineTyped ls
ParsedTyped failed = Unit
ParsedTyped out_of_fuel = Unit

-- A round, by the token in front.
round-Yields :
    (capacity : ℕ) (done : List Line) (s : ParserState) (ts : List Token)
    (skip line : Parser Parsed)
    → All LineTyped done
    → Ready s
    → Safely Ready ParsedTyped skip
    → Safely Ready ParsedTyped line
    → Yields ParsedTyped Ready (elim ts [
      | [] ↦ ok (lines done, s)
      | token ∷ rest ↦
          if is_eol token
          then skip s
          else if is_eof token.kind
          then ok (lines done, s)
          else if length done == capacity
          then exited 1 []
          else line s
    ])
round-Yields capacity done s [] skip line h ready k l = Yields.yields _ s h ready
round-Yields capacity done s (t ∷ ts) skip line h ready k l = choose (is_eol t) (k.run s ready) (
    choose (is_eof t.kind) (Yields.yields _ s h ready)
      (choose (length done == capacity) Yields.quits (l.run s ready)))
  where
    choose :
        (b : Bool) {x y : Outcome (Parsed × ParserState)}
        → Yields ParsedTyped Ready x
        → Yields ParsedTyped Ready y
        → Yields ParsedTyped Ready (if b then x else y)
    choose true p q = p
    choose false p q = q

parse_lines-Safely :
    (fuel capacity : ℕ) (done : List Line)
    → All LineTyped done
    → Safely Ready ParsedTyped (parse_lines fuel capacity done)
unfolding parse_lines
parse_lines-Safely zero capacity done h = record { run = λ s ready. Yields.yields _ s tt ready }
parse_lines-Safely (suc fuel) capacity done h = record {
  run = λ s ready.
      round-Yields capacity done s s.stream.current
        (consume_token >>= λ _. parse_lines fuel capacity done)
        (parse_line zeroed >>= λ parsed. elim parsed [
          | none ↦ pure failed
          | some l ↦ parse_lines fuel capacity (done ++ l ∷ [])
        ])
        h ready (bind consume_token-Safely λ _ _. parse_lines-Safely fuel capacity done h)
        (bind (parse_line-Safely zeroed LineTyped.unfilled) λ parsed q.
          by_option parsed (λ _. pure-Safely failed tt)
            λ l found.
              parse_lines-Safely fuel capacity (done ++ l ∷ [])
                (All-append LineTyped done (l ∷ []) h (subst (Maybe LineTyped) found q, tt)));
}

pub parse_program-IsTyped :
    (capacity : ℕ) (s : ParserState)
    → capacity ≤ 10000
    → Ready s
    → Yields ParsedTyped Ready (parse_program capacity s)
unfolding parse_program
parse_program-IsTyped capacity s few ready =
    (bind (in_arena-Safely (arena_calloc-Safely capacity line_size (omega arith) (omega arith)))
        λ block q.
          by_option block (λ _. pure-Safely failed tt)
            λ p _. parse_lines-Safely (enough_rounds capacity s) capacity [] tt).run
      s ready
