-- ===== src/Assembler/Texts/Files.antt =====
-- The tokens of a file (src/assembler/lexer/lexer.c).
use bitcode.Assembler.Lexer.Capacity.{closing}
use bitcode.Assembler.Tokens.{Token}
use bitcode.Base.{
  ℕ, zero, suc, ◌+◌, ◌*◌, ◌≤◌, ◌<◌, ◌≡◌, refl, List, [], ◌∷◌, ◌++◌, some, Bytes, ok, arith, length,
  length-append, ◌∙◌, ap, sym, inl, ◌⊎◌, exited, inr,
}
use bitcode.Base.Stateful.{◌>>=◌}
use mathlib.Core.List.{append_assoc, append-nil}
use mathlib.Core.Path.{subst}
use bitcode.Arena.Disjoint.{IsArena}
use bitcode.Arena.Fits.{spend, Uses, Uses-spend, Uses-refl, Uses-trans}
use bitcode.Arena.{MemoryArena}
use bitcode.Assembler.Lexer.Files.{fgets, after_fgets, c_string, lex_lines, copy_line}
use bitcode.Assembler.Lexer.Lines.{get_lexemes_in_line}
use bitcode.Assembler.Lexer.Layouts.{Layout, copies}
use bitcode.Assembler.Lexer.Layouts.Cut.{get_lexemes_in_line_few, copies-Layout}
use bitcode.Assembler.Parser.Sources.{SourceLine, IsProgram}
use bitcode.Assembler.Texts.{Holds, Breaks, IsText, text, lexemes}
use bitcode.Assembler.Texts.Buffers.{Buffer-IsRead}
use bitcode.Assembler.Texts.Copies.{copy_line-Holds, length-Holds, length-Breaks, tokens_cost}

-- One round of the loop over the lines.
lex_lines-round :
    (fuel : ℕ) (items items' : List Token) (file line rest : Bytes) (lexemes : List Bytes)
    (a b c : MemoryArena)
    → 0 < length file
    → fgets 1023 file ≡ line
    → after_fgets 1023 file ≡ rest
    → c_string line ≡ line
    → get_lexemes_in_line line a ≡ ok (some lexemes, b)
    → copy_line items lexemes b ≡ ok (items', c)
    → lex_lines (suc fuel) items file a ≡ lex_lines fuel items' rest c
unfolding lex_lines
lex_lines-round fuel items items' [] line rest lexemes a b c some_left e e' e'' cut copied =
    absurd (omega arith)
lex_lines-round fuel items items' (d ∷ ds) line rest lexemes a b c some_left e e' e'' cut copied =
    rw (e, e'', cut, lex_lines, ◌>>=◌) (rw (◌>>=◌, copied, e') refl)

-- The round ends the process where the tokens are over the capacity.
lex_lines-over :
    (fuel : ℕ) (items : List Token) (file line : Bytes) (found : List Bytes) (a b : MemoryArena)
    → 0 < length file
    → fgets 1023 file ≡ line
    → c_string line ≡ line
    → get_lexemes_in_line line a ≡ ok (some found, b)
    → copy_line items found b ≡ exited 1 []
    → lex_lines (suc fuel) items file a ≡ exited 1 []
unfolding lex_lines
lex_lines-over fuel items [] line found a b some_left e e' cut copied = absurd (omega arith)
lex_lines-over fuel items (d ∷ ds) line found a b some_left e e' cut copied =
    rw (e, e', cut, lex_lines, ◌>>=◌) (rw (◌>>=◌, copied) refl)

-- What a buffer takes from the arena at most: the array of its lexemes, at most five, which take
-- 1068 bytes with their headers, their array of tokens, and a copy of each again.
abbrev pub row_cost : ℕ
row_cost = 808 + 1068 + (168 + 1068)

copies-append : (ws vs : List Bytes) → copies (ws ++ vs) ≡ copies ws + copies vs
copies-append [] vs = omega arith
copies-append (w ∷ ws) vs = omega (arith, copies-append ws vs)

-- The size of a buffer's lexemes.
pub record IsSmall (ws bs : List Bytes) : Type 0 where
  pub words : length (ws ++ bs) ≤ 5
  pub all : copies (ws ++ bs) ≤ 1068
  pub own : copies ws ≤ 1068

pub row-IsSmall :
    (ks : List SourceLine) (t : Bytes) (ws bs : List Bytes)
    → Holds ks ws
    → Breaks bs
    → Layout t (ws ++ bs)
    → length t ≤ 1023
    → IsSmall ws bs
row-IsSmall ks t ws bs h br l short =
    let counted = length-append ws bs in
    let size = copies-Layout t (ws ++ bs) l in
    let four = (length-Holds ks ws h).0 in
    let one = length-Breaks bs br in
    record {
      words = omega (arith, counted, four, one);
      all = omega (arith, counted, four, one, size);
      own = omega (arith, counted, four, one, size, copies-append ws bs);
    }

-- The tokens that the buffers of a program give, before the closing one, or the end of the process
-- with code 1 where they are over the capacity.
abbrev pub LexesInto :
    ℕ → List Token → List SourceLine → List (Bytes × List Bytes) → MemoryArena → Type 0
LexesInto fuel items ls rows a =
    ((length items + lexemes rows ≤ 256)
      × ((ts : List Token) × (b : MemoryArena) × IsProgram ls (ts ++ (closing ∷ []))
          × Uses (row_cost * length rows) a b
          × (length ts ≡ lexemes rows)
          × (lex_lines fuel items (text rows) a ≡ ok (some (items ++ ts), b))))
    ⊎ ((256 < length items + lexemes rows) × (lex_lines fuel items (text rows) a ≡ exited 1 []))

pub lex_lines-IsText :
    (ls : List SourceLine) (rows : List (Bytes × List Bytes)) (items : List Token) (fuel : ℕ)
    (a : MemoryArena)
    → IsText ls rows
    → IsArena a
    → a.offset + row_cost * length rows ≤ a.size
    → length items ≤ 256
    → length (text rows) < fuel
    → LexesInto fuel items ls rows a
unfolding lex_lines
lex_lines-IsText ls rows items zero a t ar room few enough = absurd (omega arith)
lex_lines-IsText ls rows items (suc fuel) a IsText.empty ar room few enough =
    inl (omega arith, ([], a, IsProgram.done, Uses-refl _ a ar, refl, rw (append-nil items) refl))
lex_lines-IsText ls rows items (suc fuel) a (IsText.row ks ls' t ws bs rows' h br l buffer rest) ar
      room few enough =
    let r = Buffer-IsRead t (text rows') buffer in
    let small = row-IsSmall ks t ws bs h br l r.short in
    let size = length-append t (text rows') in
    let b = spend (808 + copies (ws ++ bs)) a in
    let cut =
      get_lexemes_in_line_few t (ws ++ bs) a l ar (omega (arith, r.short))
        (omega (arith, small.words)) (omega (arith, small.all)) in
    let first =
      Uses-spend (808 + 1068) (808 + copies (ws ++ bs)) a ar (omega arith)
        (omega (arith, small.all)) in
    let (ts, c, goes_on, second, counted, pushed) =
      copy_line-Holds ks ws bs items b h br first.in_bounds (omega (arith, small.all, small.own))
        few in
    let some_left : 0 < length (t ++ text rows') = omega (arith, size, r.positive) in
    elim pushed [
      | inr (many, over) ↦ inr (
        omega (arith, counted),
        lex_lines-over fuel items (t ++ text rows') t (ws ++ bs) a b some_left r.reads.0 r.string
            cut over,
      )
      | inl (fits, copied) ↦
          let goes =
            lex_lines-round fuel items (items ++ ts) (t ++ text rows') t (text rows') (ws ++ bs) a b
              c some_left r.reads.0 r.reads.1 r.string cut copied in
          let now = length-append items ts in
          elim (lex_lines-IsText ls' rows' (items ++ ts) fuel c rest second.in_bounds
            (omega (arith, second.offset, second.size, small.all, small.own)) (omega (arith, now))
            (omega (arith, size, r.positive))) [
              | inr (many, over) ↦ inr (omega (arith, now, counted), goes ∙ over)
              | inl (fits', (us, d, prog, third, counted', e)) ↦ inl (
                omega (arith, now, counted),
                (
                  ts ++ us,
                  d,
                  subst (IsProgram (ks ++ ls')) (sym (append_assoc ts us (closing ∷ [])))
                      (goes_on ls' (us ++ (closing ∷ [])) prog),
                  Uses-trans (808 + 1068) (168 + 1068 + row_cost * length rows') _ (omega arith)
                      first
                      (Uses-trans (168 + 1068) (row_cost * length rows') _ (omega arith)
                        (Uses-trans (tokens_cost ws) 0 _ (omega (arith, small.own)) second
                          (Uses-refl 0 c second.in_bounds))
                        third),
                  omega (arith, length-append ts us, counted, counted'),
                  goes ∙ e ∙ ap (λ (xs : List Token). ok (some xs, d)) (append_assoc items ts us),
                ),
              )
            ]
    ]
