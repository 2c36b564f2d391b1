-- ===== src/Assembler/Lexer/Layouts/Total.antt =====
-- Every line is laid out in some way (src/assembler/lexer/lexer.c).
use mathlib.Core.Path.{subst}
use bitcode.Base.{
  ℕ, zero, suc, ◌≤◌, ◌<◌, ◌≡◌, ◌≢◌, ◌⊎◌, inl, inr, refl, ap, Bool-cases, List, [], ◌∷◌, ◌++◌, Bytes,
  All, arith, length, is_space,
}
use bitcode.Assembler.Lexer.Lines.{ends_lexeme, lexeme_of, after_lexeme}
use bitcode.Assembler.Lexer.Layouts.{IsBlank, IsSolid, Stops, Layout}

-- Every line is laid out in some way.
Stops-lexeme : (l : Bytes) → Stops (after_lexeme l)
unfolding after_lexeme ends_lexeme is_space
Stops-lexeme [] = tt
Stops-lexeme (c ∷ cs) = elim (Bool-cases (ends_lexeme c)) [
  | inl e ↦ rw (e, after_lexeme) (ground (arith, e))
  | inr e ↦ rw (e, after_lexeme) (Stops-lexeme cs)
]

IsSolid-lexeme : (l : Bytes) → All IsSolid (lexeme_of l)
unfolding lexeme_of ends_lexeme is_space
IsSolid-lexeme [] = tt
IsSolid-lexeme (c ∷ cs) = elim (Bool-cases (ends_lexeme c)) [
  | inl e ↦ rw (e, lexeme_of) tt
  | inr e ↦
      rw (e, lexeme_of)
        ((ground (arith, e), ground (arith, e), ground (arith, e)), IsSolid-lexeme cs)
]

lexeme_of-after :
    (l : Bytes) → (lexeme_of l ++ after_lexeme l ≡ l) × (length (after_lexeme l) ≤ length l)
unfolding lexeme_of after_lexeme
lexeme_of-after [] = (refl, omega arith)
lexeme_of-after (c ∷ cs) = elim (Bool-cases (ends_lexeme c)) [
  | inl e ↦ (rw (e, lexeme_of, after_lexeme) refl, rw (e, after_lexeme) (omega arith))
  | inr e ↦
      let (whole, shorter) = lexeme_of-after cs in
      (
        rw (e, lexeme_of, after_lexeme) (ap (λ (u : Bytes). c ∷ u) whole),
        rw (e, after_lexeme) (omega arith),
      )
]

-- What a character may start.
kinds :
    (c : ℕ)
    → ((c ≡ b',') ⊎ (c ≡ b'\n'))
      ⊎ IsBlank c
      ⊎ ((c ≡ b';') ⊎ (c ≡ b'#'))
      ⊎ ((c ≢ b';') × (c ≢ b'#') × IsSolid c)
kinds c = ground arith

layout_below : (n : ℕ) (line : Bytes) → length line < n → (ws : List Bytes) × Layout line ws
layout_below zero line h = absurd (omega arith)
layout_below (suc n) [] h = ([], Layout.finish)
layout_below (suc n) (c ∷ cs) h = elim (kinds c) [
  | inl separates ↦
      let (ws, l) = layout_below n cs (omega arith) in
      ((c ∷ []) ∷ ws, Layout.separator c cs ws separates l)
  | inr (inl space) ↦
      let (ws, l) = layout_below n cs (omega arith) in (ws, Layout.blank c cs ws space l)
  | inr (inr (inl comments)) ↦ ([], Layout.comment c cs comments)
  | inr (inr (inr (no_semicolon, no_hash, h'))) ↦
      let (whole, shorter) = lexeme_of-after cs in
      let (ws, l) = layout_below n (after_lexeme cs) (omega arith) in
      let w = c ∷ lexeme_of cs in
      (
        w ∷ ws,
        subst (λ (u : Bytes). Layout u (w ∷ ws)) (ap (λ (u : Bytes). c ∷ u) whole)
            (Layout.text w (after_lexeme cs) ws (no_semicolon, no_hash, (h', IsSolid-lexeme cs))
              (Stops-lexeme cs) l),
      )
]

pub layout : (line : Bytes) → (ws : List Bytes) × Layout line ws
layout line = layout_below (suc (length line)) line (omega arith)
