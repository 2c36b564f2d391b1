-- ===== src/Assembler/Lexer/Lines.antt =====
-- `getLexemesInLine` of src/assembler/lexer/lexer.c: a line is cut into lexemes.
use bitcode.Base.{
  ℕ, zero, suc, ◌+◌, Bool, not, ◌&&◌, ◌||◌, List, [], ◌∷◌, Option, none, some, Bytes, ltb, leb,
  ◌==◌, if◌then◌else◌, is_space, length,
}
use bitcode.Base.Stateful.{Stateful, pure, ◌>>=◌}
use bitcode.Arena.{MemoryArena, arena_alloc}

-- `while (*current != '\n' && isspace(*current))`.
unfoldable pub skip_space : Bytes → Bytes
skip_space [] = []
skip_space (c ∷ cs) = if not (c == b'\n') && is_space c then skip_space cs else c ∷ cs

-- The characters at which a lexeme ends.
unfoldable pub ends_lexeme : ℕ → Bool
unfolding is_space
ends_lexeme c = is_space c || c == b',' || c == b'\n' || c == b'\r'

-- The lexeme at the start of a text, and what follows it.
unfoldable pub lexeme_of : Bytes → Bytes
unfolding ends_lexeme
lexeme_of [] = []
lexeme_of (c ∷ cs) = if ends_lexeme c then [] else c ∷ lexeme_of cs

unfoldable pub after_lexeme : Bytes → Bytes
unfolding ends_lexeme
after_lexeme [] = []
after_lexeme (c ∷ cs) = if ends_lexeme c then c ∷ cs else after_lexeme cs

-- The lexeme goes into a block of its own, and stands before those that follow.
abbrev pub keep :
    Bytes → Stateful MemoryArena (Option (List Bytes)) → Stateful MemoryArena (Option (List Bytes))
keep lexeme rest = do
  p ← arena_alloc (length lexeme + 1)
  found ← rest
  pure (elim found [ none ↦ none | some more ↦ some (lexeme ∷ more) ])

-- The loop, with the number of lexemes so far; `none` is a loop that has used up its fuel. A
-- lexeme that is over the limit ends the line.
unfoldable pub lexemes_from : ℕ → Bytes → ℕ → Stateful MemoryArena (Option (List Bytes))
lexemes_from zero current count = pure none
lexemes_from (suc fuel) current count = elim (skip_space current) [
  | [] ↦ pure (some [])
  | c ∷ cs ↦
      let next_separator = keep (c ∷ []) (lexemes_from fuel cs (count + 1)) in
      let next_lexeme =
        keep (lexeme_of (c ∷ cs)) (lexemes_from fuel (after_lexeme (c ∷ cs)) (count + 1)) in
      let skip_empty = lexemes_from fuel (after_lexeme (c ∷ cs)) count in
      if c == b'\r'
      then pure (some [])
      else if c == b';' || c == b'#'
      then pure (some [])
      else if c == b',' || c == b'\n'
      then (if leb count 10 then next_separator else pure (some []))
      else if ltb 0 (length (lexeme_of (c ∷ cs)))
      then (if ltb count 100 then next_lexeme else pure (some []))
      else skip_empty
]

-- `line` is the text before the terminator.
unfoldable pub get_lexemes_in_line : Bytes → Stateful MemoryArena (Option (List Bytes))
get_lexemes_in_line line = do lexemes ← arena_alloc 800; lexemes_from (suc (length line)) line 0
