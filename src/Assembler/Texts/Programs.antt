-- ===== src/Assembler/Texts/Programs.antt =====
-- The text of a program through the lexer, the token stream and the parser.
use bitcode.Assembler.Texts.Files.{row-IsSmall}
use bitcode.Assembler.Texts.Buffers.{Buffer-IsRead}
use bitcode.Base.{
  refl, sym, ap, ◌∙◌, suc, ℕ, ◌+◌, ◌*◌, ◌≤◌, ◌<◌, ◌≡◌, ◌⊎◌, inl, inr, List, [], ◌∷◌, ◌++◌, some,
  Bytes, ok, exited, arith, length, length-append, map, All, ap, suc, sym, ◌∙◌,
}
use bitcode.Arena.Disjoint.{IsArena}
use bitcode.Arena.Fits.{Uses, Uses-offset}
use bitcode.Arena.{MemoryArena}
use bitcode.Assembler.Lexer.Capacity.{closing}
use bitcode.Assembler.Lexer.Files.{run_lexer}
use bitcode.Assembler.Lexer.Layouts.{copies}
use bitcode.Assembler.Parser.Programs.{run_parser, initial_line_capacity, Line}
use bitcode.Assembler.Parser.Sources.{SourceLine, IsSource, line_of, program_cost, costs_of}
use bitcode.Assembler.Parser.Sources.Programs.{ParsesInto, parse_program-IsProgram}
use bitcode.Assembler.Texts.{lower_case, Holds, IsName, IsText, WritesLine, lexemes, text}
use bitcode.Assembler.Texts.Runs.{lexer_cost, run_lexer-IsText}
use bitcode.Assembler.TokenStream.{TokenStream, build_token_stream}
use bitcode.Assembler.TokenStream.Built.{build_token_stream-Tokens}
use bitcode.Assembler.Tokens.{Token}

-- The sources of a text are well formed.
IsText-IsSource :
    (ls : List SourceLine) (rows : List (Bytes × List Bytes)) → IsText ls rows → All IsSource ls
IsText-IsSource ls rows IsText.empty = tt
IsText-IsSource ls rows (IsText.row ks ls' t ws bs rows' Holds.nothing br l buffer rest) =
    IsText-IsSource ls' rows' rest
IsText-IsSource ls rows
      (IsText.row ks ls' t ws bs rows' (Holds.one k ws' w good) br l buffer rest) =
    (good, IsText-IsSource ls' rows' rest)

length-lower_case : (w : Bytes) → length (map lower_case w) ≡ length w
length-lower_case [] = refl
length-lower_case (c ∷ cs) = ap suc (length-lower_case cs)

-- A word is as long as its text in lower case.
length-IsName : (w s : Bytes) → IsName w s → length s ≡ length w
length-IsName [] s name = absurd name
length-IsName (c ∷ cs) s name = ap length (sym name.2) ∙ length-lower_case (c ∷ cs)

-- What the parser takes for the line of a buffer is no more than its lexemes took.
costs-Holds : (ks : List SourceLine) (ws : List Bytes) → Holds ks ws → costs_of ks ≤ copies ws
costs-Holds ks ws Holds.nothing = omega arith
costs-Holds ks ws (Holds.one l ws' (WritesLine.label_text w s name) good) =
    omega (arith, length-IsName w _ name, length-append s (b':' ∷ []))
costs-Holds ks ws (Holds.one l ws' (WritesLine.directive_text d h) good) = omega arith
costs-Holds ks ws (Holds.one l ws' (WritesLine.plain_text op w name) good) =
    omega (arith, length-IsName w _ name)
costs-Holds ks ws (Holds.one l ws' (WritesLine.unary_text op o w v name written) good) =
    omega (arith, length-IsName w _ name)
costs-Holds ks ws
      (Holds.one l ws' (WritesLine.binary_text op o o' w v v' name written written') good) =
    omega (arith, length-IsName w _ name)

costs_of-append : (ks ls : List SourceLine) → costs_of (ks ++ ls) ≡ costs_of ks + costs_of ls
costs_of-append [] ls = omega arith
costs_of-append (k ∷ ks) ls = omega (arith, costs_of-append ks ls)

costs-IsText :
    (ls : List SourceLine) (rows : List (Bytes × List Bytes))
    → IsText ls rows
    → costs_of ls ≤ 1068 * length rows
costs-IsText ls rows IsText.empty = omega arith
costs-IsText ls rows (IsText.row ks ls' t ws bs rows' h br l buffer rest) =
    let r = Buffer-IsRead t (text rows') buffer in
    let small = row-IsSmall ks t ws bs h br l r.short in
    omega
      (arith, costs_of-append ks ls', costs-Holds ks ws h, small.own, costs-IsText ls' rows' rest)

-- What the three stages take from the arena at most, with a stream of 256 tokens.
abbrev pub text_cost : List (Bytes × List Bytes) → ℕ
text_cost rows = lexer_cost rows + (24 + 48 * 256) + (7208 + 1068 * length rows)

-- The stream of the tokens, which are at least the closing one.
linked :
    (ts : List Token) (a : MemoryArena)
    → IsArena a
    → length ts ≤ 255
    → a.offset + (24 + 48 * 256) ≤ a.size
    → (b : MemoryArena) × Uses (24 + 48 * 256) a b
      × (build_token_stream (ts ++ (closing ∷ [])) a
          ≡ ok (some (record { head = ts ++ (closing ∷ []); current = ts ++ (closing ∷ []) }), b))
linked [] a ar few room = elim (build_token_stream-Tokens closing [] a ar) [
  | inr (full, e) ↦ absurd (omega arith)
  | inl (fits, e) ↦ (_, Uses-offset (24 + 48 * 256) _ a ar fits (omega arith), e)
]
linked (t ∷ ts) a ar few room = elim (build_token_stream-Tokens t (ts ++ (closing ∷ [])) a ar) [
  | inr (full, e) ↦ absurd (omega (arith, length-append ts (closing ∷ [])))
  | inl (fits, e) ↦ (
    _,
    Uses-offset (24 + 48 * 256) _ a ar fits (omega (arith, length-append ts (closing ∷ []))),
    e,
  )
]

-- The lexer, the token stream and the parser, one after the other.
abbrev pub AssemblesInto : List Line → Bytes → MemoryArena → Type 0
AssemblesInto ls file a =
    (ts : List Token) × (b : MemoryArena) × (stream : TokenStream) × (c : MemoryArena) × (n : ℕ)
    × (run_lexer (some file) a ≡ ok (some ts, b))
    × (build_token_stream ts b ≡ ok (some stream, c))
    × ParsesInto initial_line_capacity ls c ts n
        (run_parser initial_line_capacity (record { stream = stream; arena = c }))

-- The text of a program, laid out in any way, is assembled into its lines, from an arena with room
-- for it. Each line of the text fits the buffer of 1024 bytes and is empty, a label, a directive, or
-- the name of an opcode with the operands that it takes and a comma between two. Operands are
-- registers, as `r` and a number up to 7, symbols, integers below 2 ^ 32 in decimal digits or in
-- hexadecimal ones from `0x` and a decimal digit on, and integers from -2 ^ 31 to -1, which stand for
-- what they are modulo 2 ^ 32. Labels, symbols and names of opcodes start with a letter or an
-- underscore, and may be in either case but for the first letter, which is no capital R; their second
-- character is ASCII and no digit (so `RET` and `L1:` are not covered). Blanks may stand anywhere, a
-- comment may end a line, and the last line break may be missing. With at most 255 lexemes,
-- `run_lexer` gives tokens, `build_token_stream` a stream of them, and `run_parser` exactly the lines
-- of the program in their order, if there are at most 100, and ends the process with code 1 if there
-- are more; with more than 255 lexemes `run_lexer` ends the process with code 1.
pub assemble-IsText :
    (ls : List SourceLine) (rows : List (Bytes × List Bytes)) (a : MemoryArena)
    → IsText ls rows
    → IsArena a
    → a.offset + text_cost rows ≤ a.size
    → ((lexemes rows ≤ 255) × AssemblesInto (map line_of ls) (text rows) a)
      ⊎ ((255 < lexemes rows) × (run_lexer (some (text rows)) a ≡ exited 1 []))
assemble-IsText ls rows a t ar room = elim (run_lexer-IsText ls rows a t ar (omega arith)) [
  | inr (many, e) ↦ inr (many, e)
  | inl (few, (ts, b, prog, first, counted, lexed)) ↦
      let (c, second, built) =
        linked ts b first.in_bounds (omega (arith, counted))
          (omega (arith, first.offset, first.size)) in
      inl (
        few,
        (
          ts ++ (closing ∷ []),
          b,
          record { head = ts ++ (closing ∷ []); current = ts ++ (closing ∷ []) },
          c,
          program_cost ls,
          lexed,
          built,
          parse_program-IsProgram (ts ++ (closing ∷ [])) ls (ts ++ (closing ∷ [])) c prog
              second.in_bounds (IsText-IsSource ls rows t)
              (omega (
                arith,
                first.offset,
                first.size,
                second.offset,
                second.size,
                costs-IsText ls rows t,
              )),
        ),
      )
]
