-- ===== src/Tests/Assembling.antt =====
-- Lexemes, tokens and lines.
use bitcode.Assembler.Parser.Sources.{directive_token}
use bitcode.Assembler.Parser.RoundTrip.{at}
use bitcode.Arena.Disjoint.{IsArena}
use bitcode.Assembler.Texts.Registers.{operand_of, operand_of_register}
use bitcode.Assembler.Parser
use bitcode.Assembler.Lexer
use bitcode.Assembler.Opcodes
use bitcode.Assembler.TokenStream.Built.{build_token_stream-Tokens}
use bitcode.Assembler.TokenStream.{build_token_stream, peek, consume, first_token, rest_tokens}
use bitcode.Base.{
  ◌≡◌, refl, [], ◌∷◌, some, ok, exited, arith, codes, Bytes, is_space, str_eq, ◌+◌, ◌*◌, length,
  ◌≤◌, ◌⊎◌, ◌<◌, true, false, ℕ, ◌≢◌, to_lower, is_alpha, is_upper, is_lower, is_digit, fault,
  char_out_of_range,
}
use bitcode.Arena.{arena_alloc, MemoryArena, arena_calloc, arena_strdup}
use bitcode.Assembler.Lexer.{
  make_token, starts_identifier, is_ident_start, is_register, is_negative_int_literal,
  is_hex_literal, strtoll_10, other_token, clip_literal, get_directive_type, normalize_input,
  read_digits, is_second_undefined,
}
use bitcode.Assembler.Lexer.Lines.{
  get_lexemes_in_line, lexemes_from, skip_space, lexeme_of, after_lexeme,
}
use bitcode.Assembler.Opcodes.{opcode_lookup, ident_lookup, is_opcode}
use bitcode.Assembler.Opcodes.Names.{opcode_lookup_cases}
use bitcode.Assembler.Parser.{
  ParserState, parse_operand, parse_operand_at, parse_integer, skip_separator, is_out_of_range,
}
use bitcode.Assembler.Parser.Programs.{ends_with_colon, parse_program, line_size}
use bitcode.Assembler.Parser.Termination.{Ends, parse_program-Ends}
use bitcode.Assembler.Parser.Unknown.{IsUnknown, parse_program_unknown}
use bitcode.Assembler.Tokens.{
  Token, identifier, zeroed, tok_identifier, tok_eof, identifier_value, first_word, long_value,
  zero_token,
}
use bitcode.InstructionFormat.{OpcodeInfo, opcode_info}

abbrev arena : MemoryArena
arena = record { buffer = 0x1000; size = 1048576; offset = 0 }

abbrev end : Token
end = record { kind = tok_eof; value = zeroed; lexeme = some (codes "EOF") }

abbrev word : Bytes → Token
word s = record { kind = tok_identifier; value = identifier 0x2000 s; lexeme = some s }

abbrev parsing : Token → ParserState
parsing t = record {
  stream = record { head = t ∷ end ∷ []; current = t ∷ end ∷ [] };
  arena = arena;
}

-- `mov r1,10` is four lexemes, and the comment ends the line.
cut_line :
    get_lexemes_in_line (codes "mov r1,10 ; ten\n") arena
    ≡ ok (
      some (codes "mov" ∷ codes "r1" ∷ codes "," ∷ codes "10" ∷ []),
      record arena { offset = 852 },
    )
unfolding get_lexemes_in_line arena_alloc lexemes_from skip_space is_space lexeme_of after_lexeme
cut_line = refl

parse_program-Ends_example : Ends 100 (parse_program 100 (parsing (word (codes "loop:"))))
parse_program-Ends_example = parse_program-Ends 100 (parsing (word (codes "loop:")))

lines_block : arena_calloc 100 line_size arena ≡ ok (some 0x1008, record arena { offset = 7208 })
unfolding arena_calloc arena_alloc
lines_block = refl

jump-IsUnknown : IsUnknown (word (codes "jump"))
unfolding is_opcode ends_with_colon identifier_value opcode_lookup str_eq
jump-IsUnknown = record { kind = refl; no_label = refl; no_opcode = refl }

parse_program_unknown_example : parse_program 100 (parsing (word (codes "jump"))) ≡ exited 1 []
parse_program_unknown_example =
    parse_program_unknown (parsing (word (codes "jump"))) (word (codes "jump")) (end ∷ []) 100
      0x1008 (record arena { offset = 7208 }) refl jump-IsUnknown lines_block

arena-Small : IsArena arena
arena-Small = record { exists = omega arith; within = omega arith; small = omega arith }

build_token_stream-Tokens_example :
    ((arena.offset + 24 + 48 * length (end ∷ []) ≤ arena.size)
      × (build_token_stream (end ∷ []) arena
          ≡ ok (
            some (record { head = end ∷ []; current = end ∷ [] }),
            record arena { offset = arena.offset + 24 + 48 * length (end ∷ []) },
          )))
    ⊎ ((arena.size < arena.offset + 24 + 48 * length (end ∷ []))
        × (build_token_stream (end ∷ []) arena ≡ exited 1 []))
build_token_stream-Tokens_example = build_token_stream-Tokens end [] arena arena-Small

mov_opcode : opcode_lookup (codes "mov") ≡ 2
unfolding opcode_lookup str_eq
mov_opcode = refl

opcode_lookup_cases_example :
    ((opcode_lookup (codes "halt") ≤ 25)
      × (Opcodes.is_opcode (codes "halt") ≡ true)
      × (Lexer.is_opcode (codes "halt") ≡ true)
      × (info : OpcodeInfo) × (opcode_info (opcode_lookup (codes "halt")) ≡ some info)
      × (info.name ≡ codes "halt"))
    ⊎ ((opcode_lookup (codes "halt") ≡ 0xFF)
        × (Opcodes.is_opcode (codes "halt") ≡ false)
        × (Lexer.is_opcode (codes "halt") ≡ false)
        × ((op : ℕ) (info : OpcodeInfo)
            → op ≤ 25
            → opcode_info op ≡ some info
            → info.name ≢ codes "halt"))
opcode_lookup_cases_example = opcode_lookup_cases (codes "halt")

operand_of_register_example :
    (operand_of (codes "r1") [] [] arena ≡ ok (some (Parser.register 1), at [] [] arena))
    × (operand_of (codes "R1") [] [] arena ≡ ok (some (Parser.register 0), at [] [] arena))
operand_of_register_example = operand_of_register 1 [] [] arena (omega arith)

-- A negative integer is read modulo 2 ^ 32.
minus_five :
    operand_of (codes "-5") [] [] arena
    ≡ ok (some (Parser.immediate_int 4294967291), at [] [] arena)
unfolding make_token starts_identifier is_ident_start is_register str_eq is_negative_int_literal
    is_hex_literal strtoll_10 clip_literal read_digits parse_operand parse_operand_at parse_integer
    skip_separator peek consume first_token rest_tokens first_word long_value is_out_of_range
    Parser.parse_literal Lexer.digit_value
minus_five = refl

-- `.data` is a directive, of the number 1.
data_directive :
    make_token (codes ".data") arena
    ≡ ok (directive_token 1 (some (codes ".data")), record arena { offset = arena.offset + 14 })
unfolding make_token starts_identifier is_ident_start is_register str_eq is_negative_int_literal
    is_hex_literal other_token get_directive_type normalize_input arena_strdup arena_alloc to_lower
data_directive = refl

-- A second character that is not ASCII is handed to `isdigit` as a negative number.
not_ascii : make_token (b'a' ∷ 200 ∷ []) arena ≡ fault char_out_of_range
unfolding make_token is_second_undefined is_ident_start is_alpha is_upper is_lower
not_ascii = refl

-- A digit in the second place: `L1:` is no label.
digit_second : make_token (codes "L1:") arena ≡ ok (zero_token, arena)
unfolding make_token is_second_undefined starts_identifier is_ident_start is_alpha is_upper is_lower
    is_register str_eq is_digit is_negative_int_literal is_hex_literal other_token
digit_second = refl
