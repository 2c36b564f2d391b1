-- ===== src/Assembler/Texts/Copies.antt =====
-- What `run_lexer` does with the lexemes of a buffer (src/assembler/lexer/lexer.c).
use mathlib.Core.Path.{subst}
use bitcode.Assembler.Parser.Sources.{SourceLine, IsProgram}
use bitcode.Assembler.Tokens.{Token}
use bitcode.Base.{
  ℕ, zero, suc, ◌+◌, ◌*◌, ◌≤◌, ◌<◌, ◌≡◌, refl, false, List, [], ◌∷◌, ◌++◌, some, Bytes, ok, arith,
  length, length-append, leb, ◌∙◌, sym, inl, Outcome, dec_lt, ◌⊎◌, exited, true, inr,
}
use bitcode.Base.Stateful.{◌>>=◌}
use mathlib.Core.List.{append_assoc, append-nil}
use bitcode.Arena.Disjoint.{IsArena}
use bitcode.Arena.Fits.{spend, alloc_fits, Uses, Uses-spend, Uses-trans, Uses-refl}
use bitcode.Arena.{MemoryArena, header_size, arena_calloc, arena_realloc}
use bitcode.Assembler.Lexer.Files.{lexer, push_tokens, copy_line, make_tokens}
use bitcode.Assembler.Lexer.Layouts.{copies}
use bitcode.Assembler.Texts.Lines.{make_tokens-Holds}
use bitcode.Assembler.Texts.{Holds, Breaks, WritesLine, true}

-- Tokens behind those that there are, or the end of the process with code 1 where they are over
-- the capacity of the vector.
abbrev pub Pushed :
    List Token → List Token → MemoryArena → Outcome (List Token × MemoryArena) → Type 0
Pushed items ts b r =
    ((length items + length ts ≤ 256) × (r ≡ ok (items ++ ts, b)))
    ⊎ ((256 < length items + length ts) × (r ≡ exited 1 []))

push_tokens-Pushed :
    (items found : List Token) (a : MemoryArena)
    → length items ≤ 256
    → Pushed items found a (push_tokens items found a)
unfolding push_tokens arena_realloc
push_tokens-Pushed items [] a h = inl (omega arith, rw (append-nil items) refl)
push_tokens-Pushed items (t ∷ ts) a h = elim (dec_lt (length items) 256) [
  | no full ↦
      let over : leb 256 (length items) ≡ true = ground arith in
      inr (omega arith, rw (over, push_tokens, arena_realloc) refl)
  | yes open_ ↦
      let room : leb 256 (length items) ≡ false = ground arith in
      let size = length-append items (t ∷ []) in
      elim (push_tokens-Pushed (items ++ t ∷ []) ts a (omega (arith, size))) [
        | inl (few, e) ↦ inl (
          omega (arith, size),
          rw (room, push_tokens) (e ∙ rw (append_assoc items (t ∷ []) ts) refl),
        )
        | inr (many, e) ↦ inr (omega (arith, size), rw (room, push_tokens) e)
      ]
]

-- The array of tokens of a line, which has at most five.
calloc_fits :
    (n : ℕ) (a : MemoryArena)
    → 0 < n
    → n ≤ 5
    → IsArena a
    → a.offset + (n * 32 + header_size) ≤ a.size
    → (p : ℕ) × (arena_calloc n 32 a ≡ ok (some p, spend (n * 32 + header_size) a))
unfolding arena_calloc
calloc_fits zero a positive h ar room = absurd (omega arith)
calloc_fits (suc zero) a positive h ar room =
    (a.buffer + a.offset + header_size, rw (alloc_fits 32 a ar (omega arith), ◌>>=◌) refl)
calloc_fits (suc (suc zero)) a positive h ar room =
    (a.buffer + a.offset + header_size, rw (alloc_fits 64 a ar (omega arith), ◌>>=◌) refl)
calloc_fits (suc (suc (suc zero))) a positive h ar room =
    (a.buffer + a.offset + header_size, rw (alloc_fits 96 a ar (omega arith), ◌>>=◌) refl)
calloc_fits (suc (suc (suc (suc zero)))) a positive h ar room =
    (a.buffer + a.offset + header_size, rw (alloc_fits 128 a ar (omega arith), ◌>>=◌) refl)
calloc_fits (suc (suc (suc (suc (suc zero))))) a positive h ar room =
    (a.buffer + a.offset + header_size, rw (alloc_fits 160 a ar (omega arith), ◌>>=◌) refl)
calloc_fits (suc (suc (suc (suc (suc (suc n)))))) a positive h ar room = absurd (omega arith)

copy_line-calloc :
    (line : List Bytes) (items ts : List Token) (p : ℕ) (a b c : MemoryArena)
    → arena_calloc (length line) 32 a ≡ ok (some p, b)
    → make_tokens line b ≡ ok (ts, c)
    → copy_line items line a ≡ push_tokens items ts c
unfolding copy_line lexer
copy_line-calloc line items ts p a b c block e =
    rw (block, copy_line, lexer, ◌>>=◌) (rw (e, ◌>>=◌) refl)

pub length-Holds :
    (ks : List SourceLine) (ws : List Bytes) → Holds ks ws → (length ws ≤ 4) × (length ks ≤ 1)
length-Holds ks ws Holds.nothing = (omega arith, omega arith)
length-Holds ks ws (Holds.one l ws' (WritesLine.label_text w s name) good) =
    (omega arith, omega arith)
length-Holds ks ws (Holds.one l ws' (WritesLine.directive_text d h) good) =
    (omega arith, omega arith)
length-Holds ks ws (Holds.one l ws' (WritesLine.plain_text op w name) good) =
    (omega arith, omega arith)
length-Holds ks ws (Holds.one l ws' (WritesLine.unary_text op o w v name written) good) =
    (omega arith, omega arith)
length-Holds ks ws
      (Holds.one l ws' (WritesLine.binary_text op o o' w v v' name written written') good) =
    (omega arith, omega arith)

pub length-Breaks : (bs : List Bytes) → Breaks bs → length bs ≤ 1
length-Breaks bs Breaks.hidden = omega arith
length-Breaks bs Breaks.shown = omega arith

positive-WritesLine : (l : SourceLine) (ws : List Bytes) → WritesLine l ws → 0 < length ws
positive-WritesLine l ws (WritesLine.label_text w s name) = omega arith
positive-WritesLine l ws (WritesLine.directive_text d h) = omega arith
positive-WritesLine l ws (WritesLine.plain_text op w name) = omega arith
positive-WritesLine l ws (WritesLine.unary_text op o w v name written) = omega arith
positive-WritesLine l ws (WritesLine.binary_text op o o' w v v' name written written') = omega arith

-- What the tokens of a buffer take: at most five of them, and the copies of its words.
abbrev pub tokens_cost : List Bytes → ℕ
tokens_cost ws = 168 + copies ws

-- The tokens of a buffer, in front of those of the program that follows, are pushed.
abbrev pub CopiesRow : List SourceLine → List Bytes → List Bytes → List Token → MemoryArena → Type 0
CopiesRow ks ws bs items a =
    (ts : List Token) × (b : MemoryArena) × ((ls : List SourceLine) (us : List Token)
      → IsProgram ls us
      → IsProgram (ks ++ ls) (ts ++ us))
    × Uses (tokens_cost ws) a b
    × (length ts ≡ length (ws ++ bs))
    × Pushed items ts b (copy_line items (ws ++ bs) a)

copy_line-some :
    (ks : List SourceLine) (ws bs : List Bytes) (items : List Token) (a : MemoryArena)
    → 0 < length (ws ++ bs)
    → Holds ks ws
    → Breaks bs
    → IsArena a
    → a.offset + tokens_cost ws ≤ a.size
    → length items ≤ 256
    → CopiesRow ks ws bs items a
copy_line-some ks ws bs items a positive h br ar room few =
    let n = length (ws ++ bs) in
    let counted = length-append ws bs in
    let four = (length-Holds ks ws h).0 in
    let one = length-Breaks bs br in
    let (p, block) =
      calloc_fits n a positive (omega (arith, counted, four, one)) ar
        (omega (arith, counted, four, one)) in
    let first =
      Uses-spend 168 (n * 32 + header_size) a ar (omega arith)
        (omega (arith, counted, four, one)) in
    let (ts, b, goes_on, second, size, e) =
      make_tokens-Holds ks ws bs (spend (n * 32 + header_size) a) h br first.in_bounds
        (omega (arith, first.offset)) in
    (
      ts,
      b,
      goes_on,
      Uses-trans 168 (copies ws) (tokens_cost ws) (omega arith) first second,
      size,
      subst (Pushed items ts b) (sym (copy_line-calloc (ws ++ bs) items ts p a _ b block e))
          (push_tokens-Pushed items ts b few),
    )

pub copy_line-Holds :
    (ks : List SourceLine) (ws bs : List Bytes) (items : List Token) (a : MemoryArena)
    → Holds ks ws
    → Breaks bs
    → IsArena a
    → a.offset + tokens_cost ws ≤ a.size
    → length items ≤ 256
    → CopiesRow ks ws bs items a
unfolding copy_line lexer arena_calloc
copy_line-Holds ks ws bs items a Holds.nothing Breaks.hidden ar room few = (
  [],
  a,
  λ ls us prog. prog,
  Uses-refl _ a ar,
  refl,
  inl (omega arith, rw (append-nil items) refl),
)
copy_line-Holds ks ws bs items a Holds.nothing Breaks.shown ar room few =
    copy_line-some ks ws bs items a (omega arith) Holds.nothing Breaks.shown ar room few
copy_line-Holds ks ws bs items a (Holds.one l ws' w good) br ar room few =
    copy_line-some ks ws bs items a (omega (arith, length-append ws bs, positive-WritesLine l ws w))
      (Holds.one l ws' w good) br ar room few
