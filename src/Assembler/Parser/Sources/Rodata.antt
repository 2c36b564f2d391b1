-- ===== src/Assembler/Parser/Sources/Rodata.antt =====
-- The directive `.rodata` as an operand (src/assembler/parser/parser.c).
use bitcode.Base.{
  ℕ, ◌+◌, ◌≤◌, ◌<◌, ◌≡◌, refl, false, true, List, ◌∷◌, Option, Bytes, fault, null_pointer, arith,
  length, ltb, ◌==◌,
}
use bitcode.Base.Stateful.{◌>>=◌}
use bitcode.Arena.Disjoint.{IsArena}
use bitcode.Arena.Fits.{alloc_fits}
use bitcode.Arena.{MemoryArena, header_size, arena_strdup}
use bitcode.Assembler.Opcodes.{is_opcode}
use bitcode.Assembler.Parser.Programs.{
  operand_count, parse_instruction, operands_of, parse_identifier_line, parse_line, zeroed,
}
use bitcode.Assembler.Parser.RoundTrip.{at, word}
use bitcode.Assembler.Parser.Sources.Lines.{name_of-Spelled}
use bitcode.Assembler.Parser.Sources.{name_of}
use bitcode.Assembler.Parser.{
  parse_opcode, parse_operand, parse_operand_at, parse_literal, parse_string, skip_separator,
}
use bitcode.Assembler.TokenStream.{peek, consume, first_token, rest_tokens}
use bitcode.Assembler.Tokens.{
  Token, tok_directive, directive, first_word, string_value, identifier_value,
}

-- The token of `.rodata`, whose number is that of a string literal.
abbrev pub rodata : Option Bytes → Token
rodata x = record { kind = tok_directive; value = directive 2; lexeme = x }

-- Where the name of an opcode that takes operands is followed by `.rodata`, and the arena has room
-- for a copy of the name, `parse_line` reads through a null pointer: the number of the directive is
-- taken for the type of a string literal, of which there is no text.
pub parse_line-rodata :
    (p op : ℕ) (x : Option Bytes) (head ts : List Token) (a : MemoryArena)
    → IsArena a
    → op ≤ 25
    → 0 < operand_count op
    → a.offset + (length (name_of op) + 1 + header_size) ≤ a.size
    → parse_line zeroed (at head (word p (name_of op) ∷ rodata x ∷ ts) a) ≡ fault null_pointer
unfolding parse_line parse_identifier_line parse_instruction parse_opcode operands_of parse_operand
    parse_operand_at parse_literal parse_string skip_separator peek consume first_token rest_tokens
    first_word string_value identifier_value arena_strdup is_opcode
parse_line-rodata p op x head ts a ar known count room =
    let (same, no_label) = name_of-Spelled op known in
    let fine : (op == 0xFF) ≡ false = ground arith in
    let takes : ltb 0 (operand_count op) ≡ true = ground arith in
    rw
      (
        ◌>>=◌,
        no_label,
        same,
        fine,
        alloc_fits (length (name_of op) + 1) a ar room,
        same,
        fine,
        takes,
        parse_line,
        parse_instruction,
        parse_opcode,
      )
      refl
