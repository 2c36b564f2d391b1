-- ===== src/Assembler/Lexer/Termination.antt =====
-- The loop of `run_lexer` over the lines ends, within the capacity of the vector.
use bitcode.Base.{
  ℕ, zero, suc, ◌<◌, ◌≤◌, inl, inr, Bool-cases, List, [], ◌∷◌, ◌++◌, Option, none, some, Bytes,
  Outcome, ok, exited, fault, Fault, null_pointer, arith, length, length-append, leb, ◌==◌, ◌-◌,
}
use bitcode.Base.Stateful.{Stateful, pure, ◌>>=◌}
use bitcode.Arena.{MemoryArena, arena_realloc}
use bitcode.Arena.Aborts.{Allocates, gives, aborts}
use bitcode.Assembler.Lexer.Aborts.{lexer-Aborting}
use bitcode.Assembler.Lexer.Cutting.{Cuts, get_lexemes_in_line-Cuts}
use bitcode.Assembler.Lexer.Files.{
  fgets, after_fgets, c_string, push_tokens, copy_line, lex_lines, buffer_size,
}
use bitcode.Assembler.Tokens.{Token}

-- A vector within its capacity, or an outcome that is no value.
data Fills : Outcome (List Token × MemoryArena) → Type 0 where
  fills : (items : List Token) (a : MemoryArena) → length items ≤ 256 → Fills (ok (items, a))
  quits : Fills (exited 1 [])
  breaks : (e : Fault) → Fills (fault e)

push_tokens-Fills :
    (items tokens : List Token) (a : MemoryArena)
    → length items ≤ 256
    → Fills (push_tokens items tokens a)
unfolding push_tokens arena_realloc
push_tokens-Fills items [] a h = fills items a h
push_tokens-Fills items (t ∷ tokens) a h = elim (Bool-cases (leb 256 (length items))) [
  | inl full ↦ rw (full, push_tokens) quits
  | inr room ↦
      rw (room, push_tokens)
        (push_tokens-Fills (items ++ t ∷ []) tokens a
          (ground (arith, length-append items (t ∷ []))))
]

copied :
    (items : List Token) (line : List Bytes) (a : MemoryArena)
    {r : Outcome (Option (List Token) × MemoryArena)}
    → Allocates r
    → length items ≤ 256
    → Fills (
        ((λ b. r) >>= λ tokens. elim tokens [
          | some found ↦ push_tokens items found
          | none ↦ elim line [ [] ↦ pure items | lexeme ∷ lexemes ↦ λ arena. fault null_pointer ]
        ])
          a)
copied items line a (gives (some found) b) h = push_tokens-Fills items found b h
copied items [] a (gives none b) h = fills items b h
copied items (lexeme ∷ lexemes) a (gives none b) h = breaks null_pointer
copied items line a aborts h = quits
copied items line a (Allocates.breaks e) h = breaks e

copy_line-Fills :
    (items : List Token) (line : List Bytes) (a : MemoryArena)
    → length items ≤ 256
    → Fills (copy_line items line a)
unfolding copy_line
copy_line-Fills items line a h = copied items line a ((lexer-Aborting line).ends a) h

length-after_fgets : (n : ℕ) (file : Bytes) → length (after_fgets n file) ≤ length file
unfolding after_fgets
length-after_fgets zero file = omega arith
length-after_fgets (suc n) [] = omega arith
length-after_fgets (suc n) (c ∷ cs) = elim (Bool-cases (c == b'\n')) [
  | inl e ↦ rw (e, after_fgets) (omega arith)
  | inr e ↦ let rest = length-after_fgets n cs in rw (e, after_fgets) (omega arith)
]

pub after_fgets-lt :
    (n c : ℕ) (cs : Bytes) → length (after_fgets (suc n) (c ∷ cs)) < length (c ∷ cs)
unfolding after_fgets
after_fgets-lt n c cs = elim (Bool-cases (c == b'\n')) [
  | inl e ↦ rw (e, after_fgets) (omega arith)
  | inr e ↦ let rest = length-after_fgets n cs in rw (e, after_fgets) (omega arith)
]

-- The loop over the lines gives a vector within its capacity; its fuel is never missing.
pub data Reads : Outcome (Option (List Token) × MemoryArena) → Type 0 where
  reads : (items : List Token) (a : MemoryArena) → length items ≤ 256 → Reads (ok (some items, a))
  quits : Reads (exited 1 [])
  breaks : (e : Fault) → Reads (fault e)

after_copy :
    (a : MemoryArena) (rest : List Token → Stateful MemoryArena (Option (List Token)))
    {r : Outcome (List Token × MemoryArena)}
    → Fills r
    → ((items : List Token) (b : MemoryArena) → length items ≤ 256 → Reads (rest items b))
    → Reads (((λ b. r) >>= rest) a)
after_copy a rest (Fills.fills items b h) k = k items b h
after_copy a rest Fills.quits k = quits
after_copy a rest (Fills.breaks e) k = breaks e

after_cut :
    (items : List Token) (a : MemoryArena)
    (rest : List Token → Stateful MemoryArena (Option (List Token)))
    {r : Outcome (Option (List Bytes) × MemoryArena)}
    → length items ≤ 256
    → Cuts r
    → ((items' : List Token) (b : MemoryArena) → length items' ≤ 256 → Reads (rest items' b))
    → Reads (
        ((λ b. r) >>= λ line. elim line [
          | none ↦ pure none
          | some lexemes ↦ copy_line items lexemes >>= rest
        ])
          a)
after_cut items a rest h (Cuts.cuts lexemes b all) k =
    after_copy b rest (copy_line-Fills items lexemes b h) k
after_cut items a rest h Cuts.quits k = quits
after_cut items a rest h (Cuts.breaks e) k = breaks e

pub lex_lines-Reads :
    (fuel : ℕ) (items : List Token) (file : Bytes) (a : MemoryArena)
    → length items ≤ 256
    → length file < fuel
    → Reads (lex_lines fuel items file a)
unfolding lex_lines
lex_lines-Reads zero items file a h k = absurd (omega arith)
lex_lines-Reads (suc fuel) items [] a h k = reads items a h
lex_lines-Reads (suc fuel) items (c ∷ cs) a h k =
    after_cut items a (λ items'. lex_lines fuel items' (after_fgets (buffer_size - 1) (c ∷ cs))) h
      (get_lexemes_in_line-Cuts (c_string (fgets (buffer_size - 1) (c ∷ cs))) a)
      λ items' b h'. lex_lines-Reads fuel items' _ b h' (omega (arith, after_fgets-lt 1022 c cs))
