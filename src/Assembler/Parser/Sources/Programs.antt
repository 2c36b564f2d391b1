-- ===== src/Assembler/Parser/Sources/Programs.antt =====
-- Whole programs for `parse_program` (src/assembler/parser/parser.c).
use mathlib.Core.Path.{subst}
use bitcode.Arena.Fits.{spend, alloc_fits, spend-IsArena}
use bitcode.Assembler.Lexer.Capacity.{closing}
use bitcode.Arena.Disjoint.{IsArena}
use bitcode.Assembler.Parser.Sources.Lines.{left_of, parse_line-Spells}
use bitcode.Assembler.Parser.RoundTrip.{at}
use bitcode.Assembler.Parser.{ParserState, skip_separator, exited, Outcome, true}
use bitcode.Arena.{MemoryArena, header_size, arena_calloc}
use bitcode.Assembler.TokenStream.{consume, rest_tokens, peek, first_token}
use bitcode.Assembler.Tokens.{Token, first_word}
use bitcode.Base.{
  All, List, Outcome, [], ap, arith, dec_lt, exited, false, inl, inr, length, length-append, map,
  ok, refl, some, suc, sym, true, zero, ℕ, ◌*◌, ◌++◌, ◌+◌, ◌<◌, ◌==◌, ◌∙◌, ◌∷◌, ◌≡◌, ◌≤◌, ◌⊎◌,
}
use bitcode.Base.Stateful.{◌>>=◌}
use mathlib.Core.List.{append-nil, append_assoc}
use bitcode.Assembler.Parser.Programs.{
  Line, zeroed, lines, parse_line, parse_lines, parse_program, line_size, initial_line_capacity,
  enough_rounds, Parsed, is_eol, is_eof,
}
use bitcode.Assembler.Parser.Sources.{
  SourceLine, eol, label, bare_directive, plain, unary, binary, IsSource, cost_of, costs_of,
  line_of, program_cost, IsProgram, Spells,
}

-- A round that skips a line break.
parse_lines-eol :
    (fuel capacity : ℕ) (done : List Line) (head ts : List Token) (a : MemoryArena)
    → parse_lines (suc fuel) capacity done (at head (eol ∷ ts) a)
      ≡ parse_lines fuel capacity done (at head ts a)
unfolding parse_lines consume rest_tokens first_word
parse_lines-eol fuel capacity done head ts a = refl

-- A separator that may follow a line is a line break, and behind it the program goes on.
skip_separator-IsProgram :
    (head : List Token) (ls : List SourceLine) (us : List Token)
    → IsProgram ls us
    → (us' : List Token) × IsProgram ls us'
      × (length us' ≤ length us)
      × ((a : MemoryArena) → skip_separator (at head us a) ≡ ok (tt, at head us' a))
unfolding skip_separator peek consume first_token rest_tokens
skip_separator-IsProgram head ls us IsProgram.done =
    (closing ∷ [], IsProgram.done, omega arith, λ a. refl)
skip_separator-IsProgram head ls us (IsProgram.gap ls' us' prog) =
    (us', prog, omega arith, λ a. refl)
skip_separator-IsProgram head ls us (IsProgram.line l ls' ts vs (Spells.label_words p s) prog) =
    (us, IsProgram.line l ls' ts vs (Spells.label_words p s) prog, omega arith, λ a. refl)
skip_separator-IsProgram head ls us (IsProgram.line l ls' ts vs (Spells.directive_words d x) prog) =
    (us, IsProgram.line l ls' ts vs (Spells.directive_words d x) prog, omega arith, λ a. refl)
skip_separator-IsProgram head ls us (IsProgram.line l ls' ts vs (Spells.plain_words p op) prog) =
    (us, IsProgram.line l ls' ts vs (Spells.plain_words p op) prog, omega arith, λ a. refl)
skip_separator-IsProgram head ls us
      (IsProgram.line l ls' ts vs (Spells.unary_words p q op x o) prog) =
    (us, IsProgram.line l ls' ts vs (Spells.unary_words p q op x o) prog, omega arith, λ a. refl)
skip_separator-IsProgram head ls us
      (IsProgram.line l ls' ts vs (Spells.binary_words p q r op x y o o') prog) =
    (
      us,
      IsProgram.line l ls' ts vs (Spells.binary_words p q r op x y o o') prog,
      omega arith,
      λ a. refl,
    )

-- What is left behind a line is the rest of the program.
left-IsProgram :
    (l : SourceLine) (ls : List SourceLine) (us us' : List Token)
    → IsProgram ls us
    → IsProgram ls us'
    → length us' ≤ length us
    → IsProgram ls (left_of l us us') × (length (left_of l us us') ≤ length us)
left-IsProgram (label s) ls us us' prog prog' h = (prog, omega arith)
left-IsProgram (bare_directive d) ls us us' prog prog' h = (prog, omega arith)
left-IsProgram (plain op) ls us us' prog prog' h = (prog', h)
left-IsProgram (unary op o) ls us us' prog prog' h = (prog', h)
left-IsProgram (binary op o o') ls us us' prog prog' h = (prog, omega arith)

-- A token that is neither a line break nor `TOK_EOF`.
abbrev Opens : Token → Type 0
Opens t = (is_eol t ≡ false) × (is_eof t.kind ≡ false)

-- A round that starts at such a token and parses a line.
parse_lines-line :
    (fuel capacity : ℕ) (done : List Line) (t : Token) (rest : List Token) (head : List Token)
    (a : MemoryArena) (l : Line) (s : ParserState)
    → Opens t
    → length done < capacity
    → parse_line zeroed (at head (t ∷ rest) a) ≡ ok (some l, s)
    → parse_lines (suc fuel) capacity done (at head (t ∷ rest) a)
      ≡ parse_lines fuel capacity (done ++ l ∷ []) s
unfolding parse_lines
parse_lines-line fuel capacity done t rest head a l s (no_eol, no_eof) room e =
    let open_ : (length done == capacity) ≡ false = ground arith in
    rw (no_eol, no_eof, open_, e, parse_lines, ◌>>=◌) refl

-- A round at such a token with no line left.
parse_lines-full :
    (fuel capacity : ℕ) (done : List Line) (t : Token) (rest : List Token) (head : List Token)
    (a : MemoryArena)
    → Opens t
    → length done ≡ capacity
    → parse_lines (suc fuel) capacity done (at head (t ∷ rest) a) ≡ exited 1 []
unfolding parse_lines
parse_lines-full fuel capacity done t rest head a (no_eol, no_eof) h =
    let full : (length done == capacity) ≡ true = ground arith in
    rw (no_eol, no_eof, full, parse_lines, ◌>>=◌) refl

-- The tokens of a line start with a word or a directive.
starts :
    (l : SourceLine) (ts : List Token)
    → Spells l ts
    → (t : Token) × (rest : List Token) × Opens t × (ts ≡ t ∷ rest)
starts l ts (Spells.label_words p s) = (_, _, (refl, refl), refl)
starts l ts (Spells.directive_words d x) = (_, _, (refl, refl), refl)
starts l ts (Spells.plain_words p op) = (_, _, (refl, refl), refl)
starts l ts (Spells.unary_words p q op x o) = (_, _, (refl, refl), refl)
starts l ts (Spells.binary_words p q r op x y o o') = (_, _, (refl, refl), refl)

-- The lines, or the end of the process with code 1 where they are over the capacity.
abbrev pub ParsesInto :
    ℕ → List Line → MemoryArena → List Token → ℕ → Outcome (Parsed × ParserState) → Type 0
ParsesInto capacity ls a head n r =
    ((length ls ≤ capacity) × (r ≡ ok (lines ls, at head (closing ∷ []) (spend n a))))
    ⊎ ((capacity < length ls) × (r ≡ exited 1 []))

module _ (head : List Token) where
  parse_lines-Spells :
      (l : SourceLine) (ts us us' : List Token) (fuel capacity : ℕ) (done : List Line)
      (a : MemoryArena)
      → IsArena a
      → ((b : MemoryArena) → skip_separator (at head us b) ≡ ok (tt, at head us' b))
      → Spells l ts
      → IsSource l
      → length done < capacity
      → a.offset + cost_of l ≤ a.size
      → parse_lines (suc fuel) capacity done (at head (ts ++ us) a)
        ≡ parse_lines fuel capacity
            (done ++ line_of l ∷ [])
            (at head (left_of l us us') (spend (cost_of l) a))
  parse_lines-Spells l ts us us' fuel capacity done a ar skips spelled h room fits =
      let (t, rest, opens, e) = starts l ts spelled in
      let parsed = parse_line-Spells head us us' a ar skips l ts spelled h fits in
      let e' : ts ++ us ≡ t ∷ (rest ++ us) = ap (λ (vs : List Token). vs ++ us) e in
      ap (λ (vs : List Token). parse_lines (suc fuel) capacity done (at head vs a)) e'
      ∙ parse_lines-line fuel capacity done t (rest ++ us) head a (line_of l) _ opens room (
          subst
            (λ (vs : List Token).
              parse_line zeroed (at head vs a)
              ≡ ok (some (line_of l), at head (left_of l us us') (spend (cost_of l) a)))
            e' parsed)

  parse_lines-over :
      (l : SourceLine) (ts us : List Token) (fuel capacity : ℕ) (done : List Line) (a : MemoryArena)
      → Spells l ts
      → length done ≡ capacity
      → parse_lines (suc fuel) capacity done (at head (ts ++ us) a) ≡ exited 1 []
  parse_lines-over l ts us fuel capacity done a spelled full =
      let (t, rest, opens, e) = starts l ts spelled in
      ap (λ (vs : List Token). parse_lines (suc fuel) capacity done (at head (vs ++ us) a)) e
      ∙ parse_lines-full fuel capacity done t (rest ++ us) head a opens full

  length-Spells : (l : SourceLine) (us : List Token) → Spells l us → 1 ≤ length us
  length-Spells l us (Spells.label_words p s) = omega arith
  length-Spells l us (Spells.directive_words d x) = omega arith
  length-Spells l us (Spells.plain_words p op) = omega arith
  length-Spells l us (Spells.unary_words p q op x o) = omega arith
  length-Spells l us (Spells.binary_words p q r op x y o o') = omega arith

  parse_lines-IsProgram :
      (ls : List SourceLine) (ts : List Token) (fuel capacity : ℕ) (done : List Line)
      (a : MemoryArena)
      → IsProgram ls ts
      → IsArena a
      → All IsSource ls
      → length done ≤ capacity
      → a.offset + costs_of ls ≤ a.size
      → length ts < fuel
      → ParsesInto capacity
          (done ++ map line_of ls)
          a
          head
          (costs_of ls)
          (parse_lines fuel capacity done (at head ts a))
  unfolding parse_lines
  parse_lines-IsProgram ls ts zero capacity done a prog ar h room fits enough = absurd (omega arith)
  parse_lines-IsProgram ls ts (suc fuel) capacity done a IsProgram.done ar h room fits enough =
      let same : a.offset + 0 ≡ a.offset = omega arith in
      rw (append-nil done, same) (inl (room, refl))
  parse_lines-IsProgram ls ts (suc fuel) capacity done a (IsProgram.gap ls' us prog) ar h room fits
        enough =
      subst (ParsesInto capacity (done ++ map line_of ls) a head (costs_of ls))
        (sym (parse_lines-eol fuel capacity done head us a))
        (parse_lines-IsProgram ls us fuel capacity done a prog ar h room fits (omega arith))
  parse_lines-IsProgram ls ts (suc fuel) capacity done a (IsProgram.line l ls' us vs spelled prog)
        ar h room fits enough =
      elim (dec_lt (length done) capacity) [
        | no full ↦ inr (
          omega (arith, length-append done (map line_of (l ∷ ls'))),
          parse_lines-over l us vs fuel capacity done a spelled (omega arith),
        )
        | yes open_ ↦
            let b = spend (cost_of l) a in
            let (vs', prog', shorter, skips) = skip_separator-IsProgram head ls' vs prog in
            let (prog'', shorter') = left-IsProgram l ls' vs vs' prog prog' shorter in
            let whole : a.offset + cost_of l + costs_of ls' ≡ a.offset + costs_of (l ∷ ls') =
              omega arith in
            let after =
              parse_lines-IsProgram ls' (left_of l vs vs') fuel capacity (done ++ line_of l ∷ []) b
                prog'' (spend-IsArena (cost_of l) a ar (omega arith)) h.1
                (omega (arith, length-append done (line_of l ∷ []))) (omega arith)
                (omega (arith, length-Spells l us spelled, length-append us vs)) in
            subst (ParsesInto capacity (done ++ map line_of ls) a head (costs_of ls))
              (sym (
                parse_lines-Spells l us vs vs' fuel capacity done a ar skips spelled h.0 open_
                  (omega arith)))
              (rw (← append_assoc done (line_of l ∷ []) (map line_of ls'), ← whole) after)
      ]

  -- A program whose lines are labels, directives without operands, or instructions with as many
  -- operands as their opcodes take, with any number of line breaks between and behind them, is
  -- parsed back from its tokens, where every operand is a register with a number below 255, a symbol
  -- or an integer of 32 bits (and so no character and no string, which are not parsed back), and
  -- where the arena has room for the array of lines and a copy of the first word of each:
  -- `parse_program` gives exactly these lines in their order and leaves the stream at `TOK_EOF`, if
  -- there are at most 100; with more it ends the process with code 1.
  pub parse_program-IsProgram :
      (ls : List SourceLine) (ts : List Token) (a : MemoryArena)
      → IsProgram ls ts
      → IsArena a
      → All IsSource ls
      → a.offset + program_cost ls ≤ a.size
      → ParsesInto initial_line_capacity
          (map line_of ls)
          a
          head
          (program_cost ls)
          (parse_program initial_line_capacity (at head ts a))
  unfolding parse_program arena_calloc
  parse_program-IsProgram ls ts a prog ar h fits =
      let block = alloc_fits (initial_line_capacity * line_size) a ar (omega arith) in
      let b = spend (initial_line_capacity * line_size + header_size) a in
      let whole : a.offset + (initial_line_capacity * line_size + header_size) + costs_of ls
          ≡ a.offset + program_cost ls =
        omega arith in
      let parsed =
        parse_lines-IsProgram ls ts (enough_rounds initial_line_capacity (at head ts b))
          initial_line_capacity [] b prog
          (spend-IsArena (initial_line_capacity * line_size + header_size) a ar (omega arith)) h
          (omega arith) (omega arith) (omega arith) in
      rw (block, ◌>>=◌, parse_program) (rw (← whole) parsed)
