-- ===== src/Assembler/Lexer/Safety.antt =====
-- `run_lexer` on an ASCII file reaches no fault (src/assembler/lexer/lexer.c).
use bitcode.Base.{
  IsAscii, ℕ, zero, suc, ◌+◌, ◌≤◌, ◌<◌, ◌≡◌, inl, inr, refl, sym, List, [], ◌∷◌, ◌++◌, Option, none,
  some, Bytes, All, All-append, arith, length, length-append, leb, ◌==◌, codes, Bool-cases, fault,
  null_pointer,
}
use bitcode.Base.Stateful.{Stateful, pure, ◌>>=◌}
use bitcode.Base.Safely.{Yields, Safely, bind, pure-Safely, either, by_option}
use mathlib.Core.Path.{subst}
use bitcode.Arena.Safety.{NullAt, arena_alloc-Safely, arena_strdup-Safely, arena_calloc-Safely}
use bitcode.Arena.Disjoint.{IsArena}
use bitcode.Arena.{MemoryArena, arena_realloc}
use bitcode.Assembler.Lexer.Capacity.{closing}
use bitcode.Assembler.Lexer.Files.{
  lexer, push_tokens, copy_line, lex_lines, push_eof, run_lexer, fgets, after_fgets, c_string,
}
use bitcode.Assembler.Lexer.Layouts.{Layout, is_kept, kept}
use bitcode.Assembler.Lexer.Layouts.Cut.{get_lexemes_in_line_total}
use bitcode.Assembler.Lexer.Lines.{get_lexemes_in_line}
use bitcode.Assembler.Lexer.Typed.{IsTyped, Fits, make_tokens-Safely}
use bitcode.Assembler.Lexer.Termination.{after_fgets-lt}
use bitcode.Assembler.Tokens.{Token, token_size}

-- The lexemes of a line of the buffer.
abbrev pub AreLexemes : List Bytes → Type 0
AreLexemes ws = (length ws ≤ 1023) × All Fits ws

All-unappend : (xs ys : Bytes) → IsAscii (xs ++ ys) → IsAscii xs × IsAscii ys
All-unappend [] ys h = (tt, h)
All-unappend (x ∷ xs) ys (h, hs) = let (k, k') = All-unappend xs ys hs in ((h, k), k')

AreLexemes-Layout :
    (line : Bytes) (ws : List Bytes)
    → Layout line ws
    → length line ≤ 1023
    → IsAscii line
    → (length ws ≤ length line) × All Fits ws
AreLexemes-Layout line ws Layout.finish h k = (omega arith, tt)
AreLexemes-Layout line ws (Layout.comment c cs k) h asc = (omega arith, tt)
AreLexemes-Layout line ws (Layout.blank c cs ws' k l) h asc =
    let (few, fit) = AreLexemes-Layout cs ws' l (omega arith) asc.1 in (omega arith, fit)
AreLexemes-Layout line ws (Layout.separator c cs ws' k l) h asc =
    let (few, fit) = AreLexemes-Layout cs ws' l (omega arith) asc.1 in
    (omega arith, ((omega arith, (asc.0, tt)), fit))
AreLexemes-Layout line ws (Layout.text [] cs ws' k k' l) h asc = absurd k
AreLexemes-Layout line ws (Layout.text (c ∷ w) cs ws' k k' l) h asc =
    let size = length-append w cs in
    let (solid, behind) = All-unappend (c ∷ w) cs asc in
    let (few, fit) = AreLexemes-Layout cs ws' l (omega (arith, size)) behind in
    (omega (arith, size), ((omega (arith, size), solid), fit))

kept-All :
    (n : ℕ) (ws : List Bytes)
    → All Fits ws
    → (length (kept n ws) ≤ length ws) × All Fits (kept n ws)
kept-All n [] h = (omega arith, tt)
kept-All n (w ∷ ws) h =
    let (few, fit) = kept-All (n + 1) ws h.1 in
    elim (Bool-cases (is_kept n w)) [
      | inl e ↦ rw e (omega arith, (h.0, fit))
      | inr e ↦ rw e (omega arith, tt)
    ]

-- What `getLexemesInLine` gives is never `none`.
abbrev Cut : Option (List Bytes) → Type 0
Cut none = ⊥
Cut (some ws) = AreLexemes ws

get_lexemes_in_line-Safely :
    (line : Bytes)
    → length line ≤ 1023
    → IsAscii line
    → Safely IsArena Cut (get_lexemes_in_line line)
get_lexemes_in_line-Safely line h asc = record {
  run = λ a ar.
      let (ws, l, gives) = get_lexemes_in_line_total line a ar (omega arith) in
      let (few, fit) = AreLexemes-Layout line ws l h asc in
      let (fewer, fit') = kept-All 0 ws fit in
      elim gives [
        | inr (full, e) ↦ subst (Yields Cut IsArena) (sym e) Yields.quits
        | inl (room, e) ↦ subst (Yields Cut IsArena) (sym e) (
            Yields.yields _ _ (omega arith, fit')
              (record { exists = ar.exists; within = room; small = ar.small }))
      ];
}

-- The tokens of a line; NULL only where it has no lexemes.
abbrev Made : List Bytes → Option (List Token) → Type 0
Made line none = length line ≡ 0
Made line (some ts) = All IsTyped ts

lexer-Safely : (line : List Bytes) → AreLexemes line → Safely IsArena (Made line) (lexer line)
unfolding lexer
lexer-Safely line h =
    bind (arena_calloc-Safely (length line) token_size (omega arith) (omega arith)) λ block q.
      by_option block (λ e. pure-Safely none (subst (NullAt (length line)) e q))
        λ p e. bind (make_tokens-Safely line h.1) λ ts qs. pure-Safely (some ts) qs

-- The vector: typed tokens within its capacity.
abbrev pub IsVector : List Token → Type 0
IsVector items = All IsTyped items × (length items ≤ 256)

push_tokens-Safely :
    (items found : List Token)
    → IsVector items
    → All IsTyped found
    → Safely IsArena IsVector (push_tokens items found)
unfolding push_tokens arena_realloc
push_tokens-Safely items [] h k = pure-Safely items h
push_tokens-Safely items (t ∷ ts) h k =
    either (leb 256 (length items)) (λ _. record { run = λ s i. Yields.quits })
      λ room.
        push_tokens-Safely (items ++ t ∷ []) ts
          (
            All-append IsTyped items (t ∷ []) h.0 (k.0, tt),
            ground (arith, room, length-append items (t ∷ [])),
          )
          k.1

at_tokens :
    (items : List Token) (line : List Bytes) (tokens : Option (List Token))
    → IsVector items
    → Made line tokens
    → Safely IsArena IsVector (elim tokens [
      | some found ↦ push_tokens items found
      | none ↦ elim line [ [] ↦ pure items | lexeme ∷ lexemes ↦ λ arena. fault null_pointer ]
    ])
at_tokens items line (some found) h q = push_tokens-Safely items found h q
at_tokens items [] none h q = pure-Safely items h
at_tokens items (l ∷ ls) none h q = absurd (omega (arith, q))

copy_line-Safely :
    (items : List Token) (line : List Bytes)
    → IsVector items
    → AreLexemes line
    → Safely IsArena IsVector (copy_line items line)
unfolding copy_line
copy_line-Safely items line h k =
    bind (lexer-Safely line k) λ tokens q. at_tokens items line tokens h q

length-c_string : (t : Bytes) → length (c_string t) ≤ length t
unfolding c_string
length-c_string [] = omega arith
length-c_string (c ∷ cs) = elim (Bool-cases (c == 0)) [
  | inl e ↦ rw (e, c_string) (omega arith)
  | inr e ↦ let rest = length-c_string cs in rw (e, c_string) (omega arith)
]

c_string-IsAscii : (t : Bytes) → IsAscii t → IsAscii (c_string t)
unfolding c_string
c_string-IsAscii [] h = tt
c_string-IsAscii (c ∷ cs) h = elim (Bool-cases (c == 0)) [
  | inl e ↦ rw (e, c_string) tt
  | inr e ↦ rw (e, c_string) (h.0, c_string-IsAscii cs h.1)
]

-- What `fgets` takes, and what it leaves.
fgets-IsAscii :
    (n : ℕ) (file : Bytes) → IsAscii file → IsAscii (fgets n file) × IsAscii (after_fgets n file)
unfolding fgets after_fgets
fgets-IsAscii zero file h = (tt, h)
fgets-IsAscii (suc n) [] h = (tt, tt)
fgets-IsAscii (suc n) (c ∷ cs) h = elim (Bool-cases (c == b'\n')) [
  | inl e ↦ rw (e, fgets, after_fgets) ((h.0, tt), h.1)
  | inr e ↦
      let (taken, left) = fgets-IsAscii n cs h.1 in rw (e, fgets, after_fgets) ((h.0, taken), left)
]

length-fgets : (n : ℕ) (file : Bytes) → length (fgets n file) ≤ n
unfolding fgets
length-fgets zero file = omega arith
length-fgets (suc n) [] = omega arith
length-fgets (suc n) (c ∷ cs) = elim (Bool-cases (c == b'\n')) [
  | inl e ↦ rw (e, fgets) (omega arith)
  | inr e ↦ let rest = length-fgets n cs in rw (e, fgets) (omega arith)
]

-- The loop never lacks fuel.
abbrev Lines : Option (List Token) → Type 0
Lines none = ⊥
Lines (some items) = IsVector items

at_line :
    (items : List Token) (line : Option (List Bytes))
    (rest : List Token → Stateful MemoryArena (Option (List Token)))
    → IsVector items
    → Cut line
    → ((items' : List Token) → IsVector items' → Safely IsArena Lines (rest items'))
    → Safely IsArena Lines
        (elim line [ none ↦ pure none | some lexemes ↦ copy_line items lexemes >>= rest ])
at_line items none rest h q k = absurd q
at_line items (some lexemes) rest h q k =
    bind (copy_line-Safely items lexemes h q) λ items' h'. k items' h'

lex_lines-Safely :
    (fuel : ℕ) (items : List Token) (file : Bytes)
    → IsVector items
    → length file < fuel
    → IsAscii file
    → Safely IsArena Lines (lex_lines fuel items file)
unfolding lex_lines
lex_lines-Safely zero items file h k asc = absurd (omega arith)
lex_lines-Safely (suc fuel) items [] h k asc = pure-Safely (some items) h
lex_lines-Safely (suc fuel) items (c ∷ cs) h k asc =
    let line = fgets 1023 (c ∷ cs) in
    let (taken, left) = fgets-IsAscii 1023 (c ∷ cs) asc in
    bind
      (get_lexemes_in_line-Safely (c_string line)
        (omega (arith, length-c_string line, length-fgets 1023 (c ∷ cs)))
        (c_string-IsAscii line taken))
      λ cut q.
        at_line items cut (λ items'. lex_lines fuel items' (after_fgets 1023 (c ∷ cs))) h q
          λ items' h'.
            lex_lines-Safely fuel items' (after_fgets 1023 (c ∷ cs)) h'
              (omega (arith, after_fgets-lt 1022 c cs)) left

-- The tokens of a file, with `TOK_EOF` as the last one.
abbrev pub Lexed : Option (List Token) → Type 0
Lexed none = ⊥
Lexed (some ts) =
    (items : List Token) × (ts ≡ items ++ closing ∷ []) × All IsTyped items × (length items < 256)

push_eof-Safely :
    (items : List Token) → IsVector items → Safely IsArena (λ ts. Lexed (some ts)) (push_eof items)
unfolding push_eof arena_realloc
push_eof-Safely items h =
    either (leb 256 (length items)) (λ _. record { run = λ s i. Yields.quits })
      λ room.
        bind (arena_strdup-Safely (codes "EOF") (omega arith))
          λ p _. pure-Safely _ (items, refl, h.0, ground (arith, room))

at-Lexed :
    (lexed : Option (List Token))
    → Lines lexed
    → Safely IsArena Lexed (elim lexed [
      | none ↦ pure none
      | some items ↦ push_eof items >>= λ closed. pure (some closed)
    ])
at-Lexed none q = absurd q
at-Lexed (some items) q = bind (push_eof-Safely items q) λ closed h. pure-Safely (some closed) h

pub run_lexer-Safely : (file : Bytes) → IsAscii file → Safely IsArena Lexed (run_lexer (some file))
unfolding run_lexer
run_lexer-Safely file asc = bind (arena_alloc-Safely 16 (omega arith)) λ vector _.
    bind (arena_calloc-Safely 256 token_size (omega arith) (omega arith)) λ block _.
      bind (lex_lines-Safely (suc (length file)) [] file (tt, omega arith) (omega arith) asc)
        λ lexed q. at-Lexed lexed q

-- From an arena within its bounds, `run_lexer` reaches none of the faults of the model on a file of
-- ASCII characters, and leaves such an arena. (Misaligned blocks, and a format whose argument has
-- another type than it names, are not among these faults.) It gives at most 256 tokens, of which the last is `TOK_EOF`, unless it ends
-- the process with code 1. In every token the member of the union goes with the kind: registers are
-- 0 to 10, separators 0 or 1, directives 0 to 3 or unknown, identifiers have at most 1023
-- characters; a lexeme that is none of these is a token of zero bytes.
pub run_lexer-IsTyped :
    (file : Bytes) (a : MemoryArena)
    → IsArena a
    → IsAscii file
    → Yields Lexed IsArena (run_lexer (some file) a)
run_lexer-IsTyped file a ar asc = (run_lexer-Safely file asc).run a ar
