-- ===== src/Assembler/Texts/Runs.antt =====
-- `run_lexer` on the text of a program (src/assembler/lexer/lexer.c).
use bitcode.Assembler.Lexer.Capacity.{closing}
use bitcode.Assembler.Tokens.{Token}
use bitcode.Base.{
  ℕ, suc, ◌+◌, ◌*◌, ◌≤◌, ◌<◌, ◌≡◌, ◌⊎◌, inl, inr, refl, true, false, List, [], ◌∷◌, ◌++◌, Option,
  none, some, Bytes, ok, exited, arith, length, leb, ◌∙◌, dec_lt,
}
use bitcode.Base.Stateful.{Stateful, pure, ◌>>=◌}
use bitcode.Arena.Disjoint.{IsArena}
use bitcode.Arena.Fits.{spend, alloc_fits, Uses, Uses-spend, Uses-trans}
use bitcode.Arena.{MemoryArena, arena_calloc, arena_strdup, arena_realloc}
use bitcode.Assembler.Lexer.Files.{lex_lines, push_eof, run_lexer}
use bitcode.Assembler.Parser.Sources.{SourceLine, IsProgram}
use bitcode.Assembler.Texts.{IsText, text, lexemes}
use bitcode.Assembler.Texts.Files.{row_cost, lex_lines-IsText}

-- What `run_lexer` takes from the arena at most: the vector and its block, the lines, and a text
-- for the closing token.
abbrev pub lexer_cost : List (Bytes × List Bytes) → ℕ
lexer_cost rows = 8224 + row_cost * length rows + 12

-- The arena behind the vector and its block.
abbrev behind : MemoryArena → MemoryArena
behind a = spend 8200 (spend 24 a)

module _ (file : Bytes) (a : MemoryArena) (ar : IsArena a) (room : a.offset + 8224 ≤ a.size) where
  behind-Uses : Uses 8224 a (behind a)
  behind-Uses =
      let first = Uses-spend 24 24 a ar (omega arith) (omega arith) in
      Uses-trans 24 8200 8224 (omega arith) first
        (Uses-spend 8200 8200 (spend 24 a) first.in_bounds (omega arith) (omega arith))

  -- What follows the loop over the lines.
  abbrev close : Option (List Token) → Stateful MemoryArena (Option (List Token))
  close lexed = elim lexed [
    | none ↦ pure none
    | some items ↦ push_eof items >>= λ all. pure (some all)
  ]

  run_lexer-behind :
      run_lexer (some file) a ≡ (lex_lines (suc (length file)) [] file >>= close) (behind a)
  unfolding run_lexer arena_calloc
  run_lexer-behind =
      let first = Uses-spend 24 24 a ar (omega arith) (omega arith) in
      rw
        (
          alloc_fits 16 a ar (omega arith),
          ◌>>=◌,
          alloc_fits 8192 (spend 24 a) first.in_bounds (omega arith),
          run_lexer,
        )
        refl

  run_lexer-exited :
      lex_lines (suc (length file)) [] file (behind a) ≡ exited 1 []
      → run_lexer (some file) a ≡ exited 1 []
  run_lexer-exited e = run_lexer-behind ∙ rw (e, ◌>>=◌) refl

  run_lexer-closed :
      (items all : List Token) (b c : MemoryArena)
      → lex_lines (suc (length file)) [] file (behind a) ≡ ok (some items, b)
      → push_eof items b ≡ ok (all, c)
      → run_lexer (some file) a ≡ ok (some all, c)
  run_lexer-closed items all b c e e' = run_lexer-behind ∙ rw (e, ◌>>=◌) (rw (e', ◌>>=◌) refl)

  run_lexer-full :
      (items : List Token) (b : MemoryArena)
      → lex_lines (suc (length file)) [] file (behind a) ≡ ok (some items, b)
      → push_eof items b ≡ exited 1 []
      → run_lexer (some file) a ≡ exited 1 []
  run_lexer-full items b e e' = run_lexer-behind ∙ rw (e, ◌>>=◌) (rw (e', ◌>>=◌) refl)

closed :
    (items : List Token) (a : MemoryArena)
    → IsArena a
    → a.offset + 12 ≤ a.size
    → length items < 256
    → push_eof items a ≡ ok (items ++ (closing ∷ []), spend 12 a)
unfolding push_eof arena_strdup
closed items a ar room few =
    let open_ : leb 256 (length items) ≡ false = ground arith in
    rw (open_, push_eof, ◌>>=◌, alloc_fits 4 a ar room) refl

over : (items : List Token) (a : MemoryArena) → 256 ≤ length items → push_eof items a ≡ exited 1 []
unfolding push_eof arena_realloc
over items a many =
    let full : leb 256 (length items) ≡ true = ground arith in rw (full, push_eof) refl

-- The text of a program is cut into the tokens of its lines, at most 255 and the closing one, or
-- the process is ended with code 1.
pub run_lexer-IsText :
    (ls : List SourceLine) (rows : List (Bytes × List Bytes)) (a : MemoryArena)
    → IsText ls rows
    → IsArena a
    → a.offset + lexer_cost rows ≤ a.size
    → ((lexemes rows ≤ 255)
        × ((ts : List Token) × (b : MemoryArena) × IsProgram ls (ts ++ (closing ∷ []))
            × Uses (lexer_cost rows) a b
            × (length ts ≡ lexemes rows)
            × (run_lexer (some (text rows)) a ≡ ok (some (ts ++ (closing ∷ [])), b))))
      ⊎ ((255 < lexemes rows) × (run_lexer (some (text rows)) a ≡ exited 1 []))
run_lexer-IsText ls rows a t ar room =
    let space : a.offset + 8224 ≤ a.size = omega arith in
    let first = behind-Uses (text rows) a ar space in
    elim (lex_lines-IsText ls rows [] (suc (length (text rows))) (behind a) t first.in_bounds
      (omega arith) (omega arith) (omega arith)) [
        | inr (many, e) ↦ inr (omega arith, run_lexer-exited (text rows) a ar space e)
        | inl (fits, (ts, b, prog, second, counted, e)) ↦ elim (dec_lt (lexemes rows) 256) [
          | no many ↦ inr (
            omega arith,
            run_lexer-full (text rows) a ar space ts b e (over ts b (omega (arith, counted))),
          )
          | yes few ↦
              let room' : b.offset + 12 ≤ b.size = omega (arith, second.offset, second.size) in
              inl (
                omega arith,
                (
                  ts,
                  spend 12 b,
                  prog,
                  Uses-trans 8224 (row_cost * length rows + 12) (lexer_cost rows) (omega arith)
                      first
                      (Uses-trans (row_cost * length rows) 12 _ (omega arith) second
                        (Uses-spend 12 12 b second.in_bounds room' (omega arith))),
                  counted,
                  run_lexer-closed (text rows) a ar space ts _ b _ e
                      (closed ts b second.in_bounds room' (omega (arith, counted))),
                ),
              )
        ]
      ]
