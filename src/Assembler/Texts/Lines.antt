-- ===== src/Assembler/Texts/Lines.antt =====
-- The tokens of each line, as `run_lexer` copies them (src/assembler/lexer/lexer.c).
use mathlib.Core.Path.{subst}
use bitcode.Assembler.Parser.RoundTrip.{comma, word, token_of}
use bitcode.Assembler.Tokens.{Token}
use bitcode.Base.{
  some, ◌+◌, ◌≤◌, ◌≡◌, refl, List, [], ◌∷◌, ◌++◌, Bytes, ok, arith, length, is_digit, str_eq, sym,
  length-append,
}
use mathlib.Core.List.{append_assoc}
use bitcode.Base.Stateful.{◌>>=◌}
use bitcode.Arena.Disjoint.{IsArena}
use bitcode.Arena.Fits.{spend, Uses, Uses-spend, Uses-trans, Uses-refl}
use bitcode.Arena.{MemoryArena, header_size}
use bitcode.Assembler.Lexer.Files.{make_tokens}
use bitcode.Assembler.Lexer.Layouts.{copies, copy_size}
use bitcode.Assembler.Parser.Sources.{SourceLine, directive_token, Spells, eol, name_of, IsProgram}
use bitcode.Assembler.Texts.{WritesLine, Breaks, Holds, directive_name}
use bitcode.Assembler.Texts.Words.{make_token-name, make_token-directive, make_token-Writes}
use bitcode.Assembler.Lexer.{
  make_token, is_second_undefined, starts_identifier, is_register, other_token,
  is_negative_int_literal, is_hex_literal,
}

make_tokens-cons :
    (w : Bytes) (ws : List Bytes) (t : Token) (ts : List Token) (a b c : MemoryArena)
    → make_token w a ≡ ok (t, b)
    → make_tokens ws b ≡ ok (ts, c)
    → make_tokens (w ∷ ws) a ≡ ok (t ∷ ts, c)
unfolding make_tokens
make_tokens-cons w ws t ts a b c e e' = rw (e, make_tokens, ◌>>=◌) (rw (e', ◌>>=◌) refl)

abbrev pub line_break : List Bytes
line_break = (b'\n' ∷ []) ∷ []

make_tokens-line_break : (a : MemoryArena) → make_tokens line_break a ≡ ok (eol ∷ [], a)
unfolding make_tokens make_token is_second_undefined starts_identifier is_register is_digit
    other_token str_eq is_negative_int_literal is_hex_literal
make_tokens-line_break a = refl

make_token-comma : (a : MemoryArena) → make_token (b',' ∷ []) a ≡ ok (comma, a)
unfolding make_token is_second_undefined starts_identifier is_register is_digit other_token str_eq
    is_negative_int_literal is_hex_literal
make_token-comma a = refl

-- The tokens of the words of a line, in front of those that follow it.
abbrev Makes : SourceLine → List Bytes → List Bytes → List Token → MemoryArena → Type 0
Makes l ws vs us a =
    (ts : List Token) × (b : MemoryArena) × Spells l ts
    × Uses (copies ws) a b
    × (length ts ≡ length ws)
    × (make_tokens (ws ++ vs) a ≡ ok (ts ++ us, b))

make_tokens-nil : (a : MemoryArena) → make_tokens [] a ≡ ok ([], a)
unfolding make_tokens
make_tokens-nil a = refl

make_tokens-WritesLine :
    (l : SourceLine) (ws vs : List Bytes) (us : List Token) (a : MemoryArena)
    → ((b : MemoryArena) → make_tokens vs b ≡ ok (us, b))
    → WritesLine l ws
    → IsArena a
    → a.offset + copies ws ≤ a.size
    → Makes l ws vs us a
make_tokens-WritesLine l ws vs us a last (WritesLine.label_text w s name) ar room =
    let b = spend (copy_size w) a in
    (
      word (a.buffer + a.offset + header_size) (s ++ b':' ∷ []) ∷ [],
      b,
      Spells.label_words _ s,
      Uses-spend (copies ws) (copy_size w) a ar room (omega arith),
      refl,
      make_tokens-cons w vs _ us a b b (make_token-name w _ a name ar (omega arith)) (last b),
    )
make_tokens-WritesLine l ws vs us a last (WritesLine.directive_text d h) ar room =
    let w = directive_name d in
    let b = spend (copy_size w) a in
    (
      directive_token d (some w) ∷ [],
      b,
      Spells.directive_words d (some w),
      Uses-spend (copies ws) (copy_size w) a ar room (omega arith),
      refl,
      make_tokens-cons w vs _ us a b b (make_token-directive d a h ar (omega arith)) (last b),
    )
make_tokens-WritesLine l ws vs us a last (WritesLine.plain_text op w name) ar room =
    let b = spend (copy_size w) a in
    (
      word (a.buffer + a.offset + header_size) (name_of op) ∷ [],
      b,
      Spells.plain_words _ op,
      Uses-spend (copies ws) (copy_size w) a ar room (omega arith),
      refl,
      make_tokens-cons w vs _ us a b b (make_token-name w _ a name ar (omega arith)) (last b),
    )
make_tokens-WritesLine l ws vs us a last (WritesLine.unary_text op o w v name written) ar room =
    let b = spend (copy_size w) a in
    let first = Uses-spend (copy_size w) (copy_size w) a ar (omega arith) (omega arith) in
    let (q, x, c, second, e) = make_token-Writes o v b written first.in_bounds (omega arith) in
    (
      word (a.buffer + a.offset + header_size) (name_of op) ∷ token_of q x o ∷ [],
      c,
      Spells.unary_words _ q op x o,
      Uses-trans (copy_size w) (copy_size v) (copies ws) (omega arith) first second,
      refl,
      make_tokens-cons w (v ∷ vs) _ (token_of q x o ∷ us) a b c
          (make_token-name w _ a name ar (omega arith))
          (make_tokens-cons v vs _ us b c c e (last c)),
    )
make_tokens-WritesLine l ws vs us a last
      (WritesLine.binary_text op o o' w v v' name written written') ar room =
    let b = spend (copy_size w) a in
    let first = Uses-spend (copy_size w) (copy_size w) a ar (omega arith) (omega arith) in
    let (q, x, c, second, e) = make_token-Writes o v b written first.in_bounds (omega arith) in
    let (r, y, d, third, e') =
      make_token-Writes o' v' c written' second.in_bounds
        (omega (arith, second.offset, second.size)) in
    (
      word (a.buffer + a.offset + header_size) (name_of op)
          ∷ token_of q x o
          ∷ comma
          ∷ token_of r y o'
          ∷ [],
      d,
      Spells.binary_words _ q r op x y o o',
      Uses-trans (copy_size w) (copy_size v + copy_size v') (copies ws) (omega arith) first
          (Uses-trans (copy_size v) (copy_size v') _ (omega arith) second third),
      refl,
      make_tokens-cons w (v ∷ (b',' ∷ []) ∷ v' ∷ vs) _ _ a b d
          (make_token-name w _ a name ar (omega arith))
          (make_tokens-cons v ((b',' ∷ []) ∷ v' ∷ vs) _ _ b c d e (
            make_tokens-cons (b',' ∷ []) (v' ∷ vs) _ _ c c d (make_token-comma c)
              (make_tokens-cons v' vs _ us c d d e' (last d)))),
    )

-- The tokens of a buffer, in front of those of the program that follows.
abbrev pub MakesRow : List SourceLine → List Bytes → List Bytes → MemoryArena → Type 0
MakesRow ks ws bs a =
    (ts : List Token) × (b : MemoryArena) × ((ls : List SourceLine) (us : List Token)
      → IsProgram ls us
      → IsProgram (ks ++ ls) (ts ++ us))
    × Uses (copies ws) a b
    × (length ts ≡ length (ws ++ bs))
    × (make_tokens (ws ++ bs) a ≡ ok (ts, b))

make_tokens-Breaks :
    (bs : List Bytes)
    → Breaks bs
    → (ts : List Token) × ((ls : List SourceLine) (us : List Token)
        → IsProgram ls us
        → IsProgram ls (ts ++ us))
      × (length ts ≡ length bs)
      × ((a : MemoryArena) → make_tokens bs a ≡ ok (ts, a))
make_tokens-Breaks bs Breaks.hidden = ([], λ ls us prog. prog, refl, make_tokens-nil)
make_tokens-Breaks bs Breaks.shown =
    (eol ∷ [], λ ls us prog. IsProgram.gap ls us prog, refl, make_tokens-line_break)

pub make_tokens-Holds :
    (ks : List SourceLine) (ws bs : List Bytes) (a : MemoryArena)
    → Holds ks ws
    → Breaks bs
    → IsArena a
    → a.offset + copies ws ≤ a.size
    → MakesRow ks ws bs a
make_tokens-Holds ks ws bs a Holds.nothing br ar room =
    let (ts, goes_on, size, e) = make_tokens-Breaks bs br in
    (ts, a, goes_on, Uses-refl 0 a ar, size, e a)
make_tokens-Holds ks ws bs a (Holds.one l ws' w good) br ar room =
    let (gs, goes_on, size, e) = make_tokens-Breaks bs br in
    let (ts, b, spelled, uses, size', e') = make_tokens-WritesLine l ws bs gs a e w ar room in
    (
      ts ++ gs,
      b,
      λ ls us prog.
          subst (IsProgram (l ∷ ls)) (sym (append_assoc ts gs us))
            (IsProgram.line l ls ts (gs ++ us) spelled (goes_on ls us prog)),
      uses,
      omega (arith, length-append ts gs, length-append ws bs),
      e',
    )
