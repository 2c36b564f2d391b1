-- ===== src/Assembler/Lexer/Layouts.antt =====
-- How a line may be laid out, for `getLexemesInLine` (src/assembler/lexer/lexer.c).
pub mod Rounds
pub mod Total
pub mod Cut
use bitcode.Arena.Fits.{spend, alloc_fits, spend-IsArena}
use bitcode.Base.{
  ℕ, zero, suc, ◌+◌, ◌≤◌, ◌<◌, ◌≡◌, ◌≢◌, ◌⊎◌, inl, inr, refl, ap, ◌∙◌, Bool, true, false, not, ◌&&◌,
  ◌||◌, Bool-cases, List, [], ◌∷◌, ◌++◌, Option, Outcome, some, Bytes, All, ok, arith, length,
  length-append, is_space, ltb, leb, ◌==◌, if◌then◌else◌, get_or,
}
use bitcode.Base.Stateful.{Stateful, pure, ◌>>=◌}
use bitcode.Arena.{MemoryArena, header_size}
use bitcode.Arena.Disjoint.{IsArena}
use bitcode.Assembler.Lexer.Lines.{
  skip_space, ends_lexeme, lexeme_of, after_lexeme, keep, lexemes_from, get_lexemes_in_line,
}

-- A space, a tab, a vertical tab, a form feed or a carriage return.
abbrev pub IsBlank : ℕ → Type 0
IsBlank c = (c ≡ 32) ⊎ ((9 ≤ c) × (c ≤ 13) × (c ≢ b'\n'))

-- Neither white space nor a comma.
abbrev pub IsSolid : ℕ → Type 0
IsSolid c = (c ≢ 32) × ((c < 9) ⊎ (13 < c)) × (c ≢ b',')

-- A text starts no comment.
abbrev pub IsWord : Bytes → Type 0
IsWord [] = ⊥
IsWord (c ∷ cs) = (c ≢ b';') × (c ≢ b'#') × All IsSolid (c ∷ cs)

-- What stands behind a text: nothing, white space or a comma.
abbrev pub Stops : Bytes → Type 0
Stops [] = Unit
Stops (c ∷ cs) = (c ≡ 32) ⊎ ((9 ≤ c) × (c ≤ 13)) ⊎ (c ≡ b',')

-- The lexemes of a line: texts, commas and line breaks, with blanks anywhere between them and a
-- comment, from `;` or `#`, behind them.
pub data Layout : Bytes → List Bytes → Type 0 where
  finish : Layout [] []
  comment : (c : ℕ) (cs : Bytes) → (c ≡ b';') ⊎ (c ≡ b'#') → Layout (c ∷ cs) []
  blank : (c : ℕ) (cs : Bytes) (ws : List Bytes) → IsBlank c → Layout cs ws → Layout (c ∷ cs) ws
  separator :
      (c : ℕ) (cs : Bytes) (ws : List Bytes)
      → (c ≡ b',') ⊎ (c ≡ b'\n')
      → Layout cs ws
      → Layout (c ∷ cs) ((c ∷ []) ∷ ws)
  text :
      (w cs : Bytes) (ws : List Bytes)
      → IsWord w
      → Stops cs
      → Layout cs ws
      → Layout (w ++ cs) (w ∷ ws)

-- A separator is kept as one of the first eleven lexemes, a text as one of the first hundred.
abbrev pub is_kept : ℕ → Bytes → Bool
is_kept n w = if get_or w 0 0 == b',' || get_or w 0 0 == b'\n' then leb n 10 else ltb n 100

-- The lexemes up to the first that is not kept, from the number `n` on.
abbrev pub kept : ℕ → List Bytes → List Bytes
kept n [] = []
kept n (w ∷ ws) = if is_kept n w then w ∷ kept (n + 1) ws else []

-- What a copy takes from the arena, and the copies of all lexemes.
abbrev pub copy_size : Bytes → ℕ
copy_size w = length w + 1 + header_size

abbrev pub copies : List Bytes → ℕ
copies [] = 0
copies (w ∷ ws) = copy_size w + copies ws
