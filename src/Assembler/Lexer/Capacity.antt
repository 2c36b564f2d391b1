-- ===== src/Assembler/Lexer/Capacity.antt =====
-- `run_lexer` ends, and how many tokens it gives.
use bitcode.Base.{
  ℕ, suc, ◌<◌, inl, inr, Bool-cases, List, [], ◌∷◌, ◌++◌, Option, none, some, Bytes, Outcome, ok,
  exited, fault, Fault, arith, length, leb, codes,
}
use bitcode.Base.Stateful.{Stateful, pure, ◌>>=◌}
use bitcode.Arena.Aborts.{
  Allocates, gives, aborts, arena_alloc-Aborting, arena_strdup-Aborting, arena_calloc-Aborting,
}
use bitcode.Arena.{MemoryArena, arena_calloc, arena_realloc}
use bitcode.Assembler.Lexer.Files.{lex_lines, push_eof, run_lexer, initial_token_capacity}
use bitcode.Assembler.Lexer.Termination.{Reads, lex_lines-Reads}
use bitcode.Assembler.Tokens.{Token, zeroed, tok_eof, token_size}

-- The token that closes the vector.
abbrev pub closing : Token
closing = record { kind = tok_eof; value = zeroed; lexeme = some (codes "EOF") }

-- Tokens and the closing one, at most 256 together, or the end of the process with code 1, or
-- undefined behaviour; fuel is never missing.
pub data Lexes : Outcome (Option (List Token) × MemoryArena) → Type 0 where
  lexes :
      (items : List Token) (a : MemoryArena)
      → length items < 256
      → Lexes (ok (some (items ++ closing ∷ []), a))
  quits : Lexes (exited 1 [])
  breaks : (e : Fault) → Lexes (fault e)

closed :
    (items : List Token) (a : MemoryArena) {r : Outcome (ℕ × MemoryArena)}
    → Allocates r
    → length items < 256
    → Lexes ((((λ b. r) >>= λ p. pure (items ++ closing ∷ [])) >>= λ all. pure (some all)) a)
closed items a (gives p b) h = lexes items b h
closed items a aborts h = quits
closed items a (Allocates.breaks e) h = breaks e

push_eof-Lexes :
    (items : List Token) (a : MemoryArena) → Lexes ((push_eof items >>= λ all. pure (some all)) a)
unfolding push_eof arena_realloc
push_eof-Lexes items a = elim (Bool-cases (leb 256 (length items))) [
  | inl full ↦ rw (full, push_eof, ◌>>=◌) quits
  | inr room ↦
      rw (room, push_eof, ◌>>=◌)
        (closed items a ((arena_strdup-Aborting (codes "EOF")).ends a) (ground arith))
]

-- What follows the loop.
close : Option (List Token) → Stateful MemoryArena (Option (List Token))
close lexed = elim lexed [
  | none ↦ pure none
  | some items ↦ push_eof items >>= λ all. pure (some all)
]

after_lines :
    (a : MemoryArena) {r : Outcome (Option (List Token) × MemoryArena)}
    → Reads r
    → Lexes (((λ b. r) >>= close) a)
unfolding close
after_lines a (Reads.reads items b h) = push_eof-Lexes items b
after_lines a Reads.quits = quits
after_lines a (Reads.breaks e) = breaks e

after_blocks :
    (file : Bytes) (a : MemoryArena) {r : Outcome (ℕ × MemoryArena)}
    → Allocates r
    → Lexes (
        ((λ b. r) >>= λ vector. arena_calloc initial_token_capacity token_size >>= λ block.
        lex_lines (suc (length file)) [] file >>= close)
          a)
after_blocks file a aborts = quits
after_blocks file a (Allocates.breaks e) = breaks e
after_blocks file a (gives p b) =
    go ((arena_calloc-Aborting initial_token_capacity token_size).ends b)
  where
    go :
        {r : Outcome (Option ℕ × MemoryArena)}
        → Allocates r
        → Lexes (((λ c. r) >>= λ block. lex_lines (suc (length file)) [] file >>= close) b)
    go (gives block c) =
        after_lines c (lex_lines-Reads (suc (length file)) [] file c (omega arith) (omega arith))
    go aborts = quits
    go (Allocates.breaks e) = breaks e

-- `run_lexer` ends on every file and with every arena. Where it returns, its last token is
-- `TOK_EOF`, and there are at most 256, the capacity that the vector starts with; otherwise it
-- ends the process with code 1 or reaches undefined behaviour.
pub run_lexer-Lexes : (file : Bytes) (a : MemoryArena) → Lexes (run_lexer (some file) a)
unfolding run_lexer close
run_lexer-Lexes file a = after_blocks file a ((arena_alloc-Aborting 16).ends a)
