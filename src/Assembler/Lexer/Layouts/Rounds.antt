-- ===== src/Assembler/Lexer/Layouts/Rounds.antt =====
-- The rounds of `getLexemesInLine` (src/assembler/lexer/lexer.c) on what stands at the start.
use bitcode.Base.{
  ℕ, zero, suc, ◌+◌, ◌≡◌, ◌⊎◌, inl, inr, refl, ap, ◌∙◌, true, false, not, ◌&&◌, ◌||◌, List, [], ◌∷◌,
  ◌++◌, Option, Outcome, some, Bytes, All, ok, arith, length, is_space, ltb, ◌==◌, if◌then◌else◌,
}
use bitcode.Base.Stateful.{pure}
use bitcode.Arena.{MemoryArena}
use bitcode.Assembler.Lexer.Lines.{
  skip_space, ends_lexeme, lexeme_of, after_lexeme, keep, lexemes_from,
}
use bitcode.Assembler.Lexer.Layouts.{IsBlank, IsSolid, IsWord, Stops, is_kept}

pub stops : (cs : Bytes) → Stops cs → (lexeme_of cs ≡ []) × (after_lexeme cs ≡ cs)
unfolding lexeme_of after_lexeme ends_lexeme is_space
stops [] h = (refl, refl)
stops (c ∷ cs) h =
    let e : ends_lexeme c ≡ true = ground (arith, h) in
    (rw (e, lexeme_of) refl, rw (e, after_lexeme) refl)

pub solid : (c : ℕ) → IsSolid c → ends_lexeme c ≡ false
unfolding ends_lexeme is_space
solid c h = ground (arith, h)

lexeme_of-append :
    (w cs : Bytes)
    → All IsSolid w
    → Stops cs
    → (lexeme_of (w ++ cs) ≡ w) × (after_lexeme (w ++ cs) ≡ cs)
unfolding lexeme_of after_lexeme
lexeme_of-append [] cs h k = stops cs k
lexeme_of-append (c ∷ w) cs h k =
    let (lexeme, after) = lexeme_of-append w cs h.1 k in
    let inside = solid c h.0 in
    (rw (inside, lexeme_of, lexeme) refl, rw (inside, after_lexeme, after) refl)

-- One round at a blank, at a comment, at a separator and at a text.
pub round-blank :
    (fuel count c : ℕ) (cs : Bytes) (a : MemoryArena)
    → IsBlank c
    → lexemes_from fuel (c ∷ cs) count a ≡ lexemes_from fuel cs count a
unfolding lexemes_from skip_space is_space
round-blank zero count c cs a h = refl
round-blank (suc fuel) count c cs a h =
    let e : (not (c == b'\n') && is_space c) ≡ true = ground (arith, h) in
    rw (e, lexemes_from, skip_space) refl

pub round-comment :
    (fuel count c : ℕ) (cs : Bytes) (a : MemoryArena)
    → (c ≡ b';') ⊎ (c ≡ b'#')
    → lexemes_from (suc fuel) (c ∷ cs) count a ≡ ok (some [], a)
unfolding lexemes_from skip_space is_space
round-comment fuel count c cs a (inl e) = rw (e, lexemes_from) refl
round-comment fuel count c cs a (inr e) = rw (e, lexemes_from) refl

pub round-separator :
    (fuel count c : ℕ) (cs : Bytes) (a : MemoryArena)
    → (c ≡ b',') ⊎ (c ≡ b'\n')
    → lexemes_from (suc fuel) (c ∷ cs) count a
      ≡ (if is_kept count (c ∷ [])
            then keep (c ∷ []) (lexemes_from fuel cs (count + 1))
            else pure (some []))
          a
unfolding lexemes_from skip_space is_space
round-separator fuel count c cs a h =
    let no_blank : (not (c == b'\n') && is_space c) ≡ false = ground (arith, h) in
    let no_cr : (c == b'\r') ≡ false = ground (arith, h) in
    let no_comment : (c == b';' || c == b'#') ≡ false = ground (arith, h) in
    let separates : (c == b',' || c == b'\n') ≡ true = ground (arith, h) in
    rw (no_blank, no_cr, no_comment, separates, lexemes_from) refl

-- What a round does with the text at the start, and what follows it.
abbrev with_text : ℕ → ℕ → MemoryArena → Bytes → Bytes → Outcome (Option (List Bytes) × MemoryArena)
with_text fuel count a w cs =
    (if ltb 0 (length w)
        then (if ltb count 100 then keep w (lexemes_from fuel cs (count + 1)) else pure (some []))
        else lexemes_from fuel cs count)
      a

pub round-text :
    (fuel count : ℕ) (w cs : Bytes) (a : MemoryArena)
    → IsWord w
    → Stops cs
    → lexemes_from (suc fuel) (w ++ cs) count a
      ≡ (if is_kept count w then keep w (lexemes_from fuel cs (count + 1)) else pure (some [])) a
unfolding lexemes_from skip_space is_space
round-text fuel count [] cs a h k = absurd h
round-text fuel count (c ∷ w) cs a (no_semicolon, no_hash, h) k =
    let (lexeme, after) = lexeme_of-append (c ∷ w) cs h k in
    let no_blank : (not (c == b'\n') && is_space c) ≡ false = ground (arith, h.0) in
    let no_cr : (c == b'\r') ≡ false = ground (arith, h.0) in
    let no_comment : (c == b';' || c == b'#') ≡ false = ground arith in
    let no_separator : (c == b',' || c == b'\n') ≡ false = ground (arith, h.0) in
    let positive : ltb 0 (length (c ∷ w)) ≡ true = ground arith in
    let start : lexemes_from (suc fuel) ((c ∷ w) ++ cs) count a
        ≡ with_text fuel count a (lexeme_of ((c ∷ w) ++ cs)) (after_lexeme ((c ∷ w) ++ cs)) =
      rw (no_blank, no_cr, no_comment, no_separator, lexemes_from) refl in
    start
    ∙ ap (λ (u : Bytes). with_text fuel count a u (after_lexeme ((c ∷ w) ++ cs))) lexeme
    ∙ ap (with_text fuel count a (c ∷ w)) after
    ∙ rw (positive, no_separator) refl
