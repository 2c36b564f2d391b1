-- ===== src/Tests/Texts.antt =====
-- The text of a program, assembled.
use bitcode.Main.Sources.{main-IsText}
use bitcode.Main.{Environment, main}
use bitcode.Tests.Commands.{environment}
use bitcode.Assembler.Lexer.Files.{run_lexer}
use bitcode.Tests.Sources.{letter}
use bitcode.Tests.Symbols.{arena, arena-IsArena}
use bitcode.Base.{
  ◌+◌, inl, inr, ◌⊎◌, ◌≤◌, ◌<◌, ◌++◌, length, All, ◌≡◌, refl, List, [], ◌∷◌, Bytes, some, map,
  arith, codes, to_lower, exited,
}
use bitcode.Assembler.Lexer.{starts_identifier}
use bitcode.Assembler.Parser.{register, immediate_int}
use bitcode.Assembler.Parser.Sources.{line_of, label, binary, unary, plain}
use bitcode.Assembler.Texts.{
  WritesLine, Writes, Holds, Breaks, Buffer, IsInner, IsText, text, lexemes,
}
use bitcode.Assembler.Texts.Programs.{AssemblesInto, assemble-IsText}
use bitcode.Assembler.Lexer.Layouts.{Layout, copies}
use bitcode.Assembler.Lexer.Layouts.Cut.{Gives, get_lexemes_in_line-Layout}
use bitcode.Assembler.Lexer.Lines.{get_lexemes_in_line}
use bitcode.InstructionFormat.{opcode_info}

abbrev letter_rows : List (Bytes × List Bytes)
letter_rows =
    (codes "; a letter\n", [])
    ∷ (codes "start:\n", codes "start:" ∷ codes "\n" ∷ [])
    ∷ (codes " MOV r3,0x41 # A\n", codes "MOV" ∷ codes "r3" ∷ codes "," ∷ codes "0x41" ∷ [])
    ∷ (codes "\n", codes "\n" ∷ [])
    ∷ (codes "print_chr r3\n", codes "print_chr" ∷ codes "r3" ∷ codes "\n" ∷ [])
    ∷ (codes "halt", codes "halt" ∷ [])
    ∷ []

comment_Layout : Layout (codes "; a letter\n") []
comment_Layout = Layout.comment _ _ (inl refl)

blank_Layout : Layout (codes "\n") (codes "\n" ∷ [])
blank_Layout = Layout.separator _ _ _ (inr refl) Layout.finish

start_Layout : Layout (codes "start:\n") (codes "start:" ∷ codes "\n" ∷ [])
start_Layout = Layout.text (codes "start:") _ _ (search arith) (search arith) blank_Layout

abbrev mov_words : List Bytes
mov_words = codes "MOV" ∷ codes "r3" ∷ codes "," ∷ codes "0x41" ∷ []

mov_Layout :
    Layout (codes " MOV r3,0x41 # A\n") (codes "MOV" ∷ codes "r3" ∷ codes "," ∷ codes "0x41" ∷ [])
mov_Layout = Layout.blank _ _ _ (inl refl) (
    Layout.text (codes "MOV") _ _ (search arith) (inl refl) (
      Layout.blank _ _ _ (inl refl) (
        Layout.text (codes "r3") _ _ (search arith) (inr (inr refl)) (
          Layout.separator _ _ _ (inl refl) (
            Layout.text (codes "0x41") _ _ (search arith) (inl refl)
              (Layout.blank _ _ _ (inl refl) (Layout.comment _ _ (inr refl))))))))

get_lexemes_in_line-Layout_example :
    Gives
      (808 + copies mov_words)
      mov_words
      arena
      (get_lexemes_in_line (codes " MOV r3,0x41 # A\n") arena)
get_lexemes_in_line-Layout_example =
    get_lexemes_in_line-Layout (codes " MOV r3,0x41 # A\n") mov_words arena mov_Layout arena-IsArena
      (omega arith)

print_Layout : Layout (codes "print_chr r3\n") (codes "print_chr" ∷ codes "r3" ∷ codes "\n" ∷ [])
print_Layout = Layout.text (codes "print_chr") _ _ (search arith) (inl refl) (
    Layout.blank _ _ _ (inl refl)
      (Layout.text (codes "r3") _ _ (search arith) (search arith) blank_Layout))

halt_Layout : Layout (codes "halt") (codes "halt" ∷ [])
halt_Layout = Layout.text (codes "halt") [] _ (search arith) tt Layout.finish

-- Without its line break.
whole :
    (body rest : Bytes) → All IsInner body → length body ≤ 1022 → Buffer (body ++ b'\n' ∷ []) rest
whole body rest inner short = Buffer.a_line body rest inner short

letter-IsText : IsText letter letter_rows
unfolding opcode_info starts_identifier to_lower
letter-IsText =
    IsText.row [] _ _ [] [] _ Holds.nothing Breaks.hidden comment_Layout
      (whole (codes "; a letter") _ (search arith) (omega arith))
      (IsText.row (label (codes "start") ∷ []) _ _ (codes "start:" ∷ []) _ _
        (Holds.one _ _ (WritesLine.label_text _ (codes "start") (search arith, search arith, refl))
          tt)
        Breaks.shown start_Layout (whole (codes "start:") _ (search arith) (omega arith))
        (IsText.row (binary 2 (register 3) (immediate_int 65) ∷ []) _ _
          (codes "MOV" ∷ codes "r3" ∷ codes "," ∷ codes "0x41" ∷ []) [] _
          (Holds.one _ _
            (WritesLine.binary_text 2 _ _ _ _ _ (search arith, search arith, refl)
              (Writes.a_register 3 (omega arith))
              (Writes.a_hexadecimal b'4' (b'1' ∷ []) (omega arith)
                (inl (omega arith, omega arith), tt) (omega arith)))
            ((omega arith, refl), omega arith, omega arith))
          Breaks.hidden mov_Layout (whole (codes " MOV r3,0x41 # A") _ (search arith) (omega arith))
          (IsText.row [] _ _ [] _ _ Holds.nothing Breaks.shown blank_Layout
            (whole [] _ tt (omega arith))
            (IsText.row (unary 0 (register 3) ∷ []) _ _ (codes "print_chr" ∷ codes "r3" ∷ []) _ _
              (Holds.one _ _
                (WritesLine.unary_text 0 _ _ _ (search arith, search arith, refl)
                  (Writes.a_register 3 (omega arith)))
                ((omega arith, refl), omega arith))
              Breaks.shown print_Layout
              (whole (codes "print_chr r3") _ (search arith) (omega arith))
              (IsText.row (plain 25 ∷ []) [] _ (codes "halt" ∷ []) [] _
                (Holds.one _ _ (WritesLine.plain_text 25 _ (search arith, search arith, refl))
                  (omega arith, refl))
                Breaks.hidden halt_Layout
                (Buffer.last_line (codes "halt") _ (search arith) (omega arith) (omega arith) refl)
                IsText.empty)))))

assemble-IsText_example :
    ((lexemes letter_rows ≤ 255) × AssemblesInto (map line_of letter) (text letter_rows) arena)
    ⊎ ((255 < lexemes letter_rows) × (run_lexer (some (text letter_rows)) arena ≡ exited 1 []))
assemble-IsText_example =
    assemble-IsText letter letter_rows arena letter-IsText arena-IsArena (omega arith)

abbrev assembling : Environment
assembling = record environment { files = λ path. some (text letter_rows) }

abbrev assemble_letter : List Bytes
assemble_letter = codes "bitcode" ∷ codes "asm" ∷ codes "run" ∷ codes "l.bl" ∷ []

main-IsText_example : main assembling assemble_letter ≡ some (exited 0 [])
unfolding opcode_info
main-IsText_example =
    main-IsText assembling assemble_letter letter letter_rows (omega arith) (refl, refl)
      (omega arith) refl letter-IsText (omega arith)
