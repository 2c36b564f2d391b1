-- ===== src/Assembler/Parser/Unknown.antt =====
-- Identifiers that the parser does not know, and the operands of directives.
use bitcode.Base.{
  ℕ, zero, suc, ◌-◌, ◌<◌, ◌≤◌, ◌≡◌, refl, false, Bool-cases, inl, inr, List, [], ◌∷◌, ◌++◌, none,
  some, ok, exited, arith, length, length-append, ◌==◌,
}
use bitcode.Base.Stateful.{◌>>=◌}
use bitcode.Arena.{MemoryArena, arena_calloc}
use bitcode.Assembler.Opcodes.{is_opcode}
use bitcode.Assembler.Parser.{ParserState, text_of, parse_directive, directive_operands}
use bitcode.Assembler.Parser.Programs.{
  Line, zeroed, ends_with_colon, parse_identifier_line, parse_line, parse_lines, parse_program,
  enough_rounds, line_size,
}
use bitcode.Assembler.TokenStream.{peek, consume, first_token}
use bitcode.Assembler.Tokens.{Token, tok_identifier, tok_directive, first_word}

-- An identifier that is neither a label nor the name of an opcode.
pub record IsUnknown (t : Token) : Type 0 where
  pub kind : t.kind ≡ tok_identifier
  pub no_label : ends_with_colon (text_of t.value) ≡ false
  pub no_opcode : is_opcode (text_of t.value) ≡ false

module _ (s : ParserState) (t : Token) (ts : List Token) (at : s.stream.current ≡ t ∷ ts)
    (unknown : IsUnknown t) where
  -- The line stays as it was, and the token where it was.
  parse_line_unknown : (out : Line) → parse_line out s ≡ ok (some out, s)
  unfolding parse_line parse_identifier_line peek first_token
  parse_line_unknown out =
      rw (at, unknown.kind, unknown.no_label, unknown.no_opcode, parse_line, parse_identifier_line)
        refl

  parse_lines_unknown :
      (fuel capacity : ℕ) (done : List Line)
      → length done ≤ capacity
      → capacity - length done < fuel
      → parse_lines fuel capacity done s ≡ exited 1 []
  unfolding parse_lines
  parse_lines_unknown zero capacity done c h = absurd (omega arith)
  parse_lines_unknown (suc fuel) capacity done c h = elim (Bool-cases (length done == capacity)) [
    | inl full ↦ rw (at, unknown.kind, full, parse_lines) refl
    | inr room ↦
        rw (at, unknown.kind, room, ◌>>=◌, parse_line_unknown zeroed, parse_lines)
          (parse_lines_unknown fuel capacity (done ++ zeroed ∷ [])
            (ground (arith, length-append done (zeroed ∷ [])))
            (ground (arith, length-append done (zeroed ∷ []))))
  ]

-- Where the stream stands at an identifier that is neither a label nor the name of an opcode, and
-- the arena has room for the lines, `parse_program` ends the process with code 1: the identifier is
-- never consumed, and fills line after line up to the capacity.
pub parse_program_unknown :
    (s : ParserState) (t : Token) (ts : List Token) (capacity p : ℕ) (arena : MemoryArena)
    → s.stream.current ≡ t ∷ ts
    → IsUnknown t
    → arena_calloc capacity line_size s.arena ≡ ok (some p, arena)
    → parse_program capacity s ≡ exited 1 []
unfolding parse_program
parse_program_unknown s t ts capacity p arena at unknown e =
    rw (◌>>=◌, e, parse_program)
      (parse_lines_unknown (record s { arena = arena }) t ts at unknown (enough_rounds capacity s)
        capacity [] (omega arith) (omega arith))

-- A directive is parsed without operands, whatever follows it: only the directive itself is taken
-- off the stream.
parse_directive_alone :
    (s : ParserState) (t : Token) (ts : List Token)
    → s.stream.current ≡ t ∷ ts
    → t.kind ≡ tok_directive
    → parse_directive s
      ≡ ok (
        some (record { type = first_word t.value; operand_0 = none; operand_1 = none }),
        record s { stream = consume s.stream },
      )
unfolding parse_directive directive_operands peek first_token
parse_directive_alone s t ts at kind = rw (at, kind, parse_directive, directive_operands) refl
