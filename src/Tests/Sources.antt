-- ===== src/Tests/Sources.antt =====
-- A program written line by line, as tokens and parsed.
use bitcode.Assembler.Parser.Addresses.{parse_address_out_of_range}
use bitcode.Assembler.Tokens.{Token, long_value, tok_literal, long_literal}
use bitcode.InstructionFormat.{opcode_info}
use bitcode.Tests.Symbols.{arena, arena-IsArena}
use bitcode.Base.Int.{pos}
use bitcode.Base.{some, none, ◌≡◌, refl, List, [], ◌∷◌, map, ok, All, arith, codes}
use bitcode.Assembler.Parser.{
  register, immediate_int, is_out_of_range, parse_integer, parse_address,
}
use bitcode.Assembler.Parser.Programs.{parse_program, initial_line_capacity}
use bitcode.Assembler.Parser.RoundTrip.{at}
use bitcode.Assembler.Parser.Sources.{
  SourceLine, label, plain, unary, binary, IsSource, line_of, IsProgram, Spells, program_cost,
}
use bitcode.Assembler.Parser.Sources.Programs.{ParsesInto, parse_program-IsProgram}

-- `start:`, `mov r3, 65`, `print_chr r3` and `halt`.
abbrev pub letter : List SourceLine
letter =
    label (codes "start")
    ∷ binary 2 (register 3) (immediate_int 65)
    ∷ unary 0 (register 3)
    ∷ plain 25
    ∷ []

letter-IsSource : All IsSource letter
unfolding opcode_info
letter-IsSource = (
  tt,
  (
    ((omega arith, refl), omega arith, omega arith),
    (((omega arith, refl), omega arith), ((omega arith, refl), tt)),
  ),
)

letter_tokens : (ts : List Token) × IsProgram letter ts
letter_tokens = (
  _,
  IsProgram.gap _ _ (
      IsProgram.line _ _ _ _ (Spells.label_words 0x2000 (codes "start")) (
        IsProgram.line _ _ _ _
          (Spells.binary_words 0x2010 0 0 2 (some (codes "r3")) (some (codes "65")) (register 3)
            (immediate_int 65))
          (IsProgram.gap _ _ (
            IsProgram.line _ _ _ _ (Spells.unary_words 0x2020 0 0 (some (codes "r3")) (register 3))
              (IsProgram.gap _ _
                (IsProgram.line _ _ _ _ (Spells.plain_words 0x2030 25) IsProgram.done)))))),
)

parse_program-IsProgram_example :
    ParsesInto initial_line_capacity
      (map line_of letter)
      arena
      []
      (program_cost letter)
      (parse_program initial_line_capacity (at [] letter_tokens.0 arena))
unfolding opcode_info
parse_program-IsProgram_example =
    parse_program-IsProgram [] letter letter_tokens.0 arena letter_tokens.1 arena-IsArena
      letter-IsSource (omega arith)

-- 2 ^ 32 + 7 becomes the address 7.
abbrev large : Token
large = record { kind = tok_literal; value = long_literal (pos 4294967303); lexeme = none }

parse_address_out_of_range_example :
    (parse_integer (at [] (large ∷ []) arena) ≡ ok (none, at [] (large ∷ []) arena))
    × (parse_address (at [] (large ∷ []) arena) ≡ ok (some 7, at [] [] arena))
unfolding is_out_of_range long_value
parse_address_out_of_range_example = parse_address_out_of_range large [] [] arena refl
