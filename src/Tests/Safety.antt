-- ===== src/Tests/Safety.antt =====
-- Source files of any ASCII content.
use bitcode.Assembler.Parser.Sources.Rodata.{rodata, parse_line-rodata}
use bitcode.InstructionFormat.{opcode_info}
use bitcode.Arena.Disjoint.{IsArena}
use bitcode.Assembler.Lexer.Files.{run_lexer}
use bitcode.Assembler.Lexer.Safety.{Lexed, run_lexer-IsTyped}
use bitcode.Assembler.Lexer.{some_token}
use bitcode.Assembler.Parser.Programs.{parse_line, zeroed}
use bitcode.Assembler.Parser.RoundTrip.{at, word}
use bitcode.Assembler.Tokens.{
  Token, tok_identifier, tok_register, tok_separator, tok_literal, identifier, register, separator,
  char_literal,
}
use bitcode.Base.Safely.{Yields}
use bitcode.Base.{refl, List, [], ◌∷◌, Bytes, some, codes, arith, ◌⊎◌, ◌≡◌, fault, null_pointer}
use bitcode.Main.Safety.{Completes, HasRodata, main-Completes}
use bitcode.Main.Sources.{made}
use bitcode.Main.{Environment, main}
use bitcode.Tests.Commands.{environment}
use bitcode.Tests.Symbols.{arena, arena-IsArena}

abbrev file : Bytes
file = codes "mov r1, 'x' .rodata $$\n"

run_lexer-IsTyped_example : Yields Lexed IsArena (run_lexer (some file) arena)
run_lexer-IsTyped_example = run_lexer-IsTyped file arena arena-IsArena (search arith)

-- `mov r3 , 'A'`.
abbrev tokens : List Token
tokens =
    some_token tok_identifier (identifier 0x2000 (codes "mov")) (codes "mov")
    ∷ some_token tok_register (register 3) (codes "r3")
    ∷ some_token tok_separator (separator 0) (codes ",")
    ∷ some_token tok_literal (char_literal b'A') (codes "'A'")
    ∷ []

abbrev any_file : Environment
any_file = record environment { files = λ path. some file }

abbrev arguments : List Bytes
arguments = codes "bitcode" ∷ codes "asm" ∷ codes "run" ∷ codes "x.bl" ∷ []

main-Completes_example : Completes (main any_file arguments) ⊎ HasRodata file (made any_file)
main-Completes_example =
    main-Completes any_file arguments file (omega arith) (refl, refl) (omega arith) refl
      (search arith)

-- `print_str .rodata`.
parse_line-rodata_example :
    parse_line zeroed
      (at [] (word 0x2000 (codes "print_str") ∷ rodata (some (codes ".rodata")) ∷ []) arena)
    ≡ fault null_pointer
unfolding opcode_info
parse_line-rodata_example =
    parse_line-rodata 0x2000 1 (some (codes ".rodata")) [] [] arena arena-IsArena (omega arith)
      (omega arith) (omega arith)
