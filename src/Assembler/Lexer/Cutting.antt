-- ===== src/Assembler/Lexer/Cutting.antt =====
-- `getLexemesInLine` ends, and what it cuts a line into.
use bitcode.Base.{
  ℕ, zero, suc, ◌+◌, ◌<◌, ◌≤◌, ◌≡◌, ◌⊎◌, ap, refl, inl, inr, Bool, true, false, not, ◌&&◌, ◌||◌,
  Bool-cases, List, [], ◌∷◌, Option, none, some, Bytes, All, Outcome, ok, exited, fault, Fault,
  arith, length, ltb, leb, ◌==◌, if◌then◌else◌, is_space,
}
use bitcode.Base.Stateful.{Stateful, pure, ◌>>=◌}
use bitcode.Arena.Aborts.{Allocates, gives, aborts, arena_alloc-Aborting}
use bitcode.Arena.{MemoryArena}
use bitcode.Assembler.Lexer.Lines.{
  skip_space, ends_lexeme, lexeme_of, after_lexeme, keep, lexemes_from, get_lexemes_in_line,
}

-- A comma, a line break, or a text that is not empty and holds no white space and no comma.
abbrev pub IsLexeme : Bytes → Type 0
IsLexeme l =
    (l ≡ b',' ∷ []) ⊎ (l ≡ b'\n' ∷ []) ⊎ ((0 < length l) × All (λ c. ends_lexeme c ≡ false) l)

-- The line is cut into lexemes, or the process is ended with code 1, or undefined behaviour is
-- reached; fuel is never missing.
pub data Cuts : Outcome (Option (List Bytes) × MemoryArena) → Type 0 where
  cuts : (ls : List Bytes) (arena : MemoryArena) → All IsLexeme ls → Cuts (ok (some ls, arena))
  quits : Cuts (exited 1 [])
  breaks : (e : Fault) → Cuts (fault e)

skip_space-cases :
    (l : Bytes)
    → (skip_space l ≡ [])
      ⊎ ((c : ℕ) × (cs : Bytes) × (skip_space l ≡ c ∷ cs)
          × (length cs < length l)
          × ((not (c == b'\n') && is_space c) ≡ false))
unfolding skip_space
skip_space-cases [] = inl refl
skip_space-cases (c ∷ cs) = elim (Bool-cases (not (c == b'\n') && is_space c)) [
  | inl e ↦ elim (skip_space-cases cs) [
    | inl none_left ↦ inl (rw (e, skip_space) none_left)
    | inr (d, ds, found, shorter, h) ↦ inr (d, ds, rw (e, skip_space) found, omega arith, h)
  ]
  | inr e ↦ inr (c, cs, rw (e, skip_space) refl, omega arith, e)
]

lexeme_of-All : (l : Bytes) → All (λ c. ends_lexeme c ≡ false) (lexeme_of l)
unfolding lexeme_of
lexeme_of-All [] = tt
lexeme_of-All (c ∷ cs) = elim (Bool-cases (ends_lexeme c)) [
  | inl e ↦ rw (e, lexeme_of) tt
  | inr e ↦ rw (e, lexeme_of) (e, lexeme_of-All cs)
]

length-after_lexeme : (l : Bytes) → length (after_lexeme l) ≤ length l
unfolding after_lexeme
length-after_lexeme [] = omega arith
length-after_lexeme (c ∷ cs) = elim (Bool-cases (ends_lexeme c)) [
  | inl e ↦ rw (e, after_lexeme) (omega arith)
  | inr e ↦ let rest = length-after_lexeme cs in rw (e, after_lexeme) (omega arith)
]

kept :
    (lexeme : Bytes) (arena : MemoryArena) {r : Outcome (Option (List Bytes) × MemoryArena)}
    → IsLexeme lexeme
    → Cuts r
    → Cuts (
        ((λ a. r) >>= λ found. pure (elim found [ none ↦ none | some more ↦ some (lexeme ∷ more) ]))
          arena)
kept lexeme arena l (cuts ls a all) = cuts (lexeme ∷ ls) a (l, all)
kept lexeme arena l quits = quits
kept lexeme arena l (breaks e) = breaks e

kept_in :
    (lexeme : Bytes) (rest : Stateful MemoryArena (Option (List Bytes))) (arena : MemoryArena)
    {r : Outcome (ℕ × MemoryArena)}
    → Allocates r
    → IsLexeme lexeme
    → ((a : MemoryArena) → Cuts (rest a))
    → Cuts (
        ((λ a. r) >>= λ p.
        rest >>= λ found. pure (elim found [ none ↦ none | some more ↦ some (lexeme ∷ more) ]))
          arena)
kept_in lexeme rest arena (gives p a) l h = kept lexeme a l (h a)
kept_in lexeme rest arena aborts l h = quits
kept_in lexeme rest arena (Allocates.breaks e) l h = breaks e

keep-Cuts :
    (lexeme : Bytes) (rest : Stateful MemoryArena (Option (List Bytes))) (arena : MemoryArena)
    → IsLexeme lexeme
    → ((a : MemoryArena) → Cuts (rest a))
    → Cuts (keep lexeme rest arena)
keep-Cuts lexeme rest arena l h =
    kept_in lexeme rest arena ((arena_alloc-Aborting (length lexeme + 1)).ends arena) l h

-- A lexeme that starts with `c`.
starts_with :
    (c : ℕ) (cs : Bytes)
    → ends_lexeme c ≡ false
    → (lexeme_of (c ∷ cs) ≡ c ∷ lexeme_of cs) × (after_lexeme (c ∷ cs) ≡ after_lexeme cs)
unfolding lexeme_of after_lexeme
starts_with c cs e = (rw (e, lexeme_of) refl, rw (e, after_lexeme) refl)

at_most :
    (b : Bool) (m : Stateful MemoryArena (Option (List Bytes))) (arena : MemoryArena)
    → Cuts (m arena)
    → Cuts ((if b then m else pure (some [])) arena)
at_most true m arena h = h
at_most false m arena h = cuts [] arena tt

does_not_end :
    (c : ℕ)
    → (not (c == b'\n') && is_space c) ≡ false
    → (c == b'\r') ≡ false
    → (c == b',' || c == b'\n') ≡ false
    → ends_lexeme c ≡ false
unfolding ends_lexeme
does_not_end c e r s = ground arith

separator-IsLexeme : (c : ℕ) → (c == b',' || c == b'\n') ≡ true → IsLexeme (c ∷ [])
separator-IsLexeme c e = ground arith

pub lexemes_from-Cuts :
    (fuel : ℕ) (current : Bytes) (count : ℕ) (arena : MemoryArena)
    → length current < fuel
    → Cuts (lexemes_from fuel current count arena)
unfolding lexemes_from
lexemes_from-Cuts zero current count arena h = absurd (omega arith)
lexemes_from-Cuts (suc fuel) current count arena h = elim (skip_space-cases current) [
  | inl e ↦ rw (e, lexemes_from) (cuts [] arena tt)
  | inr (c, cs, e, shorter, no_space) ↦ elim (Bool-cases (c == b'\r')) [
    | inl cr ↦ rw (e, cr, lexemes_from) (cuts [] arena tt)
    | inr no_cr ↦ elim (Bool-cases (c == b';' || c == b'#')) [
      | inl comment ↦ rw (e, no_cr, comment, lexemes_from) (cuts [] arena tt)
      | inr no_comment ↦ elim (Bool-cases (c == b',' || c == b'\n')) [
        | inl sep ↦
            rw (e, no_cr, no_comment, sep, lexemes_from)
              (at_most (leb count 10) _ arena (
                keep-Cuts (c ∷ []) _ arena (separator-IsLexeme c sep)
                  λ a. lexemes_from-Cuts fuel cs (count + 1) a (omega arith)))
        | inr no_sep ↦
            let (lexeme, after) = starts_with c cs (does_not_end c no_space no_cr no_sep) in
            let size = ap length lexeme in
            let positive : ltb 0 (length (lexeme_of (c ∷ cs))) ≡ true = ground arith in
            rw (e, no_cr, no_comment, no_sep, positive, lexemes_from)
              (at_most (ltb count 100) _ arena (
                keep-Cuts (lexeme_of (c ∷ cs)) _ arena
                  (inr (inr (omega arith, lexeme_of-All (c ∷ cs))))
                  λ a.
                    lexemes_from-Cuts fuel (after_lexeme (c ∷ cs)) (count + 1) a
                      (omega (arith, ap length after, length-after_lexeme cs))))
      ]
    ]
  ]
]

from_block :
    (line : Bytes) (arena : MemoryArena) {r : Outcome (ℕ × MemoryArena)}
    → Allocates r
    → Cuts (((λ a. r) >>= λ p. lexemes_from (suc (length line)) line 0) arena)
from_block line arena (gives p a) = lexemes_from-Cuts (suc (length line)) line 0 a (omega arith)
from_block line arena aborts = quits
from_block line arena (Allocates.breaks e) = breaks e

-- `getLexemesInLine` ends on every line and with every arena. Where it returns, every lexeme is a
-- comma, a line break, or a text that is not empty and holds no white space and no comma;
-- otherwise it ends the process with code 1 or reaches
-- undefined behaviour.
pub get_lexemes_in_line-Cuts :
    (line : Bytes) (arena : MemoryArena) → Cuts (get_lexemes_in_line line arena)
unfolding get_lexemes_in_line
get_lexemes_in_line-Cuts line arena = from_block line arena ((arena_alloc-Aborting 800).ends arena)
