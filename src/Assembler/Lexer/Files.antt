-- ===== src/Assembler/Lexer/Files.antt =====
-- `lexer` over the lexemes of a line and `run_lexer` over a file (src/assembler/lexer/lexer.c).
use bitcode.Base.{
  ℕ, zero, suc, ◌+◌, ◌*◌, List, [], ◌∷◌, ◌++◌, Option, none, some, Bytes, leb, ◌==◌, if◌then◌else◌,
  length, codes, fault, null_pointer, ◌-◌,
}
use bitcode.Base.Stateful.{Stateful, pure, ◌>>=◌}
use bitcode.Arena.{MemoryArena, arena_alloc, arena_calloc, arena_realloc, arena_strdup}
use bitcode.Assembler.Lexer.{make_token}
use bitcode.Assembler.Lexer.Lines.{get_lexemes_in_line}
use bitcode.Assembler.Tokens.{Token, zeroed, tok_eof, token_size}

unfoldable pub make_tokens : List Bytes → Stateful MemoryArena (List Token)
make_tokens [] = pure []
make_tokens (lexeme ∷ lexemes) = do
  token ← make_token lexeme
  tokens ← make_tokens lexemes
  pure (token ∷ tokens)

-- `none` is NULL, which `arena_calloc` gives for no lexemes at all.
unfoldable pub lexer : List Bytes → Stateful MemoryArena (Option (List Token))
lexer line = do
  block ← arena_calloc (length line) token_size
  elim block [ none ↦ pure none | some p ↦ do tokens ← make_tokens line; pure (some tokens) ]

abbrev pub initial_token_capacity : ℕ
initial_token_capacity = 256

abbrev pub buffer_size : ℕ
buffer_size = 1024

-- `fgets` into a buffer of `n + 1` bytes: up to `n` bytes, and none behind a line break.
unfoldable pub fgets : ℕ → Bytes → Bytes
fgets zero file = []
fgets (suc n) [] = []
fgets (suc n) (c ∷ cs) = if c == b'\n' then c ∷ [] else c ∷ fgets n cs

-- The rest of the file behind that.
unfoldable pub after_fgets : ℕ → Bytes → Bytes
after_fgets zero file = file
after_fgets (suc n) [] = []
after_fgets (suc n) (c ∷ cs) = if c == b'\n' then cs else after_fgets n cs

-- The C string in a buffer: it ends at the first null byte.
unfoldable pub c_string : Bytes → Bytes
c_string [] = []
c_string (c ∷ cs) = if c == 0 then [] else c ∷ c_string cs

-- `token_vector->items[*total_count] = token`. A full vector calls `arena_realloc`, which does not
-- return, so the capacity never changes.
unfoldable pub push_tokens : List Token → List Token → Stateful MemoryArena (List Token)
push_tokens items [] = pure items
push_tokens items (token ∷ tokens) =
    let rest = push_tokens (items ++ token ∷ []) tokens in
    if leb initial_token_capacity (length items)
    then arena_realloc 0 (initial_token_capacity * 2)
    else rest

-- The tokens of one line, as `run_lexer` copies them: a null array is read only if there are
-- lexemes.
unfoldable pub copy_line : List Token → List Bytes → Stateful MemoryArena (List Token)
copy_line items line = do
  tokens ← lexer line
  elim tokens [
    | some found ↦ push_tokens items found
    | none ↦ elim line [ [] ↦ pure items | lexeme ∷ lexemes ↦ λ arena. fault null_pointer ]
  ]

-- The loop over the lines; `none` is a loop, here or within a line, that has used up its fuel.
unfoldable pub lex_lines : ℕ → List Token → Bytes → Stateful MemoryArena (Option (List Token))
lex_lines zero items file = pure none
lex_lines (suc fuel) items [] = pure (some items)
lex_lines (suc fuel) items (c ∷ cs) = do
  line ← get_lexemes_in_line (c_string (fgets (buffer_size - 1) (c ∷ cs)))
  elim line [
    | none ↦ pure none
    | some lexemes ↦ do
      items' ← copy_line items lexemes
      lex_lines fuel items' (after_fgets (buffer_size - 1) (c ∷ cs))
  ]

-- `TOK_EOF` closes the vector; for a full one `arena_realloc` is called first.
unfoldable pub push_eof : List Token → Stateful MemoryArena (List Token)
push_eof items =
    if leb initial_token_capacity (length items)
    then arena_realloc 0 (initial_token_capacity + 1)
    else (do
      p ← arena_strdup (codes "EOF")
      pure (items ++ record { kind = tok_eof; value = zeroed; lexeme = some (codes "EOF") } ∷ []))

-- The items of the vector that `run_lexer` returns, on a file given by its bytes; a null file is
-- handed to `fgets`.
unfoldable pub run_lexer : Option Bytes → Stateful MemoryArena (Option (List Token))
run_lexer none = do
  vector ← arena_alloc 16
  block ← arena_calloc initial_token_capacity token_size
  λ arena. fault null_pointer
run_lexer (some file) = do
  vector ← arena_alloc 16
  block ← arena_calloc initial_token_capacity token_size
  lexed ← lex_lines (suc (length file)) [] file
  elim lexed [ none ↦ pure none | some items ↦ do closed ← push_eof items; pure (some closed) ]
