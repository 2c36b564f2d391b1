-- ===== src/Assembler/Lexer/Layouts/Cut.antt =====
-- What `getLexemesInLine` (src/assembler/lexer/lexer.c) cuts a line into.
use mathlib.Core.Path.{subst}
use bitcode.Arena.Fits.{spend, alloc_fits, spend-IsArena}
use bitcode.Base.{
  ℕ, zero, suc, ◌+◌, ◌≤◌, ◌<◌, ◌≡◌, ◌⊎◌, inl, inr, refl, ◌∙◌, Bool, true, false, List, [], ◌∷◌,
  Option, Outcome, none, some, sym, exited, Bytes, ok, arith, length, length-append, if◌then◌else◌,
  ◌*◌,
}
use bitcode.Base.Stateful.{Stateful, pure, ◌>>=◌}
use bitcode.Arena.{MemoryArena, header_size, arena_alloc}
use bitcode.Arena.Disjoint.{IsArena, arena_alloc_cases}
use bitcode.Assembler.Lexer.Lines.{skip_space, keep, lexemes_from, get_lexemes_in_line}
use bitcode.Assembler.Lexer.Layouts.{IsWord, Layout, is_kept, kept, copy_size, copies}
use bitcode.Assembler.Lexer.Layouts.Rounds.{round-blank, round-comment, round-separator, round-text}
use bitcode.Assembler.Lexer.Layouts.Total.{layout}

-- The lexemes `ws` for `n` bytes of the arena; without room for these the process ends with code 1.
abbrev pub Gives :
    ℕ → List Bytes → MemoryArena → Outcome (Option (List Bytes) × MemoryArena) → Type 0
Gives n ws a r =
    ((a.offset + n ≤ a.size) × (r ≡ ok (some ws, spend n a)))
    ⊎ ((a.size < a.offset + n) × (r ≡ exited 1 []))

Gives-nothing :
    (a : MemoryArena) (r : Outcome (Option (List Bytes) × MemoryArena))
    → IsArena a
    → r ≡ ok (some [], a)
    → Gives 0 [] a r
Gives-nothing a r ar e =
    let same : a.offset + 0 ≡ a.offset = omega arith in inl (omega (arith, ar.within), rw same e)

-- An allocation of `n` bytes with a header, and what follows it.
allocated :
    (n m : ℕ) (ws : List Bytes) (rest : Stateful MemoryArena (Option (List Bytes)))
    (a : MemoryArena)
    → IsArena a
    → n < 4611686018427387904
    → (a.offset + (n + header_size) ≤ a.size
        → Gives m ws (spend (n + header_size) a) (rest (spend (n + header_size) a)))
    → Gives (n + header_size + m) ws a ((arena_alloc n >>= λ p. rest) a)
allocated n m ws rest a ar small h = elim (arena_alloc_cases n a ar small) [
  | inr (full, e) ↦ inr (omega arith, rw (e, ◌>>=◌) refl)
  | inl (fits, e) ↦
      let room : a.offset + (n + header_size) ≤ a.size = omega arith in
      elim (h room) [
        | inr (full, e') ↦ inr (omega arith, rw (alloc_fits n a ar room, ◌>>=◌) e')
        | inl (fits', e') ↦
            let whole : a.offset + (n + header_size) + m ≡ a.offset + (n + header_size + m) =
              omega arith in
            inl (omega arith, rw (alloc_fits n a ar room, ◌>>=◌) (e' ∙ rw whole refl))
      ]
]

-- A lexeme stands before those that follow it.
prepended :
    (w : Bytes) (ws : List Bytes) (n : ℕ) (a : MemoryArena)
    (rest : Stateful MemoryArena (Option (List Bytes)))
    → Gives n ws a (rest a)
    → Gives n
        (w ∷ ws)
        a
        ((rest >>= λ found. pure (elim found [ none ↦ none | some more ↦ some (w ∷ more) ])) a)
prepended w ws n a rest (inl (fits, e)) = inl (fits, rw (e, ◌>>=◌) refl)
prepended w ws n a rest (inr (full, e)) = inr (full, rw (e, ◌>>=◌) refl)

-- A lexeme that is kept is copied.
copied :
    (b : Bool) (w : Bytes) (rest : Stateful MemoryArena (Option (List Bytes))) (more : List Bytes)
    (a : MemoryArena)
    → IsArena a
    → length w + 1 < 4611686018427387904
    → (a.offset + copy_size w ≤ a.size
        → Gives (copies more) more (spend (copy_size w) a) (rest (spend (copy_size w) a)))
    → Gives
        (copies (if b then w ∷ more else []))
        (if b then w ∷ more else [])
        a
        ((if b then keep w rest else pure (some [])) a)
copied false w rest more a ar small h = Gives-nothing a _ ar refl
copied true w rest more a ar small h =
    allocated (length w + 1) (copies more) (w ∷ more) _ a ar small
      λ room. prepended w more (copies more) (spend (copy_size w) a) rest (h room)

positive-IsWord : (w : Bytes) → IsWord w → 0 < length w
positive-IsWord [] h = absurd h
positive-IsWord (c ∷ w) h = omega arith

-- What the loop gives from a line that is laid out in this way, `count` lexemes behind the start.
abbrev GivesFrom : ℕ → ℕ → Bytes → List Bytes → MemoryArena → Type 0
GivesFrom fuel count line ws a =
    Gives (copies (kept count ws)) (kept count ws) a (lexemes_from fuel line count a)

lexemes_from-Layout :
    (fuel count : ℕ) (line : Bytes) (ws : List Bytes) (a : MemoryArena)
    → Layout line ws
    → IsArena a
    → length line < fuel
    → length line < 4611686018427387900
    → GivesFrom fuel count line ws a
unfolding lexemes_from skip_space
lexemes_from-Layout zero count line ws a l ar enough small = absurd (omega arith)
lexemes_from-Layout (suc fuel) count line ws a Layout.finish ar enough small =
    Gives-nothing a _ ar refl
lexemes_from-Layout (suc fuel) count line ws a (Layout.comment c cs h) ar enough small =
    Gives-nothing a _ ar (round-comment fuel count c cs a h)
lexemes_from-Layout (suc fuel) count line ws a (Layout.blank c cs ws' h l) ar enough small =
    subst (Gives (copies (kept count ws')) (kept count ws') a)
      (sym (round-blank (suc fuel) count c cs a h))
      (lexemes_from-Layout (suc fuel) count cs ws' a l ar (omega arith) (omega arith))
lexemes_from-Layout (suc fuel) count line ws a (Layout.separator c cs ws' h l) ar enough small =
    subst (Gives (copies (kept count ((c ∷ []) ∷ ws'))) (kept count ((c ∷ []) ∷ ws')) a)
      (sym (round-separator fuel count c cs a h))
      (copied (is_kept count (c ∷ [])) (c ∷ []) (lexemes_from fuel cs (count + 1))
        (kept (count + 1) ws') a ar (omega arith)
        λ room.
          lexemes_from-Layout fuel (count + 1) cs ws' (spend (copy_size (c ∷ [])) a) l
            (spend-IsArena (copy_size (c ∷ [])) a ar room) (omega arith) (omega arith))
lexemes_from-Layout (suc fuel) count line ws a (Layout.text w cs ws' h k l) ar enough small =
    let size = length-append w cs in
    let some_left = positive-IsWord w h in
    subst (Gives (copies (kept count (w ∷ ws'))) (kept count (w ∷ ws')) a)
      (sym (round-text fuel count w cs a h k))
      (copied (is_kept count w) w (lexemes_from fuel cs (count + 1)) (kept (count + 1) ws') a ar
        (omega arith)
        λ room.
          lexemes_from-Layout fuel (count + 1) cs ws' (spend (copy_size w) a) l
            (spend-IsArena (copy_size w) a ar room) (omega arith) (omega arith))

-- A line, however it is laid out, is cut into its lexemes, which are its texts, commas and line
-- breaks in their order: blanks are left out, and so is a comment from `;` or `#` on. A comma or a
-- line break that is not one of the first eleven lexemes, and a text that is not one of the first
-- hundred, end the list. Without room in the arena for the array and a copy of each lexeme of the
-- list, the process is ended with code 1.
pub get_lexemes_in_line-Layout :
    (line : Bytes) (ws : List Bytes) (a : MemoryArena)
    → Layout line ws
    → IsArena a
    → length line < 4611686018427387900
    → Gives (808 + copies (kept 0 ws)) (kept 0 ws) a (get_lexemes_in_line line a)
unfolding get_lexemes_in_line
get_lexemes_in_line-Layout line ws a l ar small =
    allocated 800 (copies (kept 0 ws)) (kept 0 ws) (lexemes_from (suc (length line)) line 0) a ar
      (omega arith)
      λ room.
        lexemes_from-Layout (suc (length line)) 0 line ws (spend 808 a) l
          (spend-IsArena 808 a ar room) (omega arith) small

-- Every line is laid out in some way.
pub get_lexemes_in_line_total :
    (line : Bytes) (a : MemoryArena)
    → IsArena a
    → length line < 4611686018427387900
    → (ws : List Bytes) × Layout line ws
      × Gives (808 + copies (kept 0 ws)) (kept 0 ws) a (get_lexemes_in_line line a)
get_lexemes_in_line_total line a ar small =
    let (ws, l) = layout line in (ws, l, get_lexemes_in_line-Layout line ws a l ar small)

is_kept_few : (n : ℕ) (w : Bytes) → n ≤ 10 → is_kept n w ≡ true
is_kept_few n w h = ground arith

kept_few : (n : ℕ) (ws : List Bytes) → n + length ws ≤ 11 → kept n ws ≡ ws
kept_few n [] h = refl
kept_few n (w ∷ ws) h = rw (is_kept_few n w (omega arith), kept_few (n + 1) ws (omega arith)) refl

-- A line of eleven lexemes at most, where there is room.
pub get_lexemes_in_line_few :
    (line : Bytes) (ws : List Bytes) (a : MemoryArena)
    → Layout line ws
    → IsArena a
    → length line < 4611686018427387900
    → length ws ≤ 11
    → a.offset + (808 + copies ws) ≤ a.size
    → get_lexemes_in_line line a ≡ ok (some ws, spend (808 + copies ws) a)
get_lexemes_in_line_few line ws a l ar small few room =
    let all = kept_few 0 ws (omega arith) in
    let gives : Gives (808 + copies ws) ws a (get_lexemes_in_line line a) =
      rw all at (get_lexemes_in_line-Layout line ws a l ar small) in
    elim gives [ inl (fits, e) ↦ e | inr (full, e) ↦ absurd (omega arith) ]

-- The copies take no more than the line and nine bytes for each lexeme.
pub copies-Layout :
    (line : Bytes) (ws : List Bytes) → Layout line ws → copies ws ≤ length line + 9 * length ws
copies-Layout line ws Layout.finish = omega arith
copies-Layout line ws (Layout.comment c cs h) = omega arith
copies-Layout line ws (Layout.blank c cs ws' h l) = omega (arith, copies-Layout cs ws' l)
copies-Layout line ws (Layout.separator c cs ws' h l) = omega (arith, copies-Layout cs ws' l)
copies-Layout line ws (Layout.text w cs ws' h k l) =
    omega (arith, copies-Layout cs ws' l, length-append w cs)
