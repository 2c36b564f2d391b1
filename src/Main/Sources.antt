-- ===== src/Main/Sources.antt =====
-- `main` (src/main.c) on a source file.
use bitcode.Base.{
  ◌*◌, ◌≤◌, ◌≡◌, ◌≢◌, refl, false, List, [], some, Bytes, codes, length, exited, arith, ltb, ◌==◌,
  str_eq, ◌&&◌, ℕ, map, inl, leb, ◌∷◌, inr, if◌then◌else◌, ap, true, suc,
}
use bitcode.Arena.Disjoint.{IsArena}
use bitcode.Arena.{MemoryArena, arena_init, max_arena_size}
use bitcode.Assembler.Parser.Sources.{SourceLine, line_of}
use bitcode.Assembler.Parser.Programs.{initial_line_capacity}
use bitcode.Assembler.Texts.{IsText, text, lexemes}
use bitcode.Assembler.Texts.Programs.{AssemblesInto, assemble-IsText}
use bitcode.Main.Endings.{Selects}
use bitcode.Main.Programs.{selected}
use bitcode.Main.{Environment, argument, asm_run, asm_link, asm_parse, asm_finish, main}

-- The arena that `main` makes.
abbrev pub made : Environment → MemoryArena
made env = record { buffer = env.arena_address; size = 2 * max_arena_size; offset = 0 }

pub arena_init-made :
    (env : Environment)
    → env.arena_address ≢ 0
    → arena_init env.arena env.arena_address (2 * max_arena_size) ≡ made env
unfolding arena_init
arena_init-made env there = let no : (env.arena_address == 0) ≡ false = ground arith in rw no refl

pub made-IsArena : (env : Environment) → env.arena_address ≢ 0 → IsArena (made env)
made-IsArena env there = record { exists = there; within = omega arith; small = omega arith }

length-map : (ls : List SourceLine) → length (map line_of ls) ≡ length ls
length-map [] = refl
length-map (l ∷ ls) = ap suc (length-map ls)

-- 0 where there are at most 255 lexemes and 100 lines, and else 1.
abbrev pub text_code : List SourceLine → List (Bytes × List Bytes) → ℕ
text_code ls rows =
    if leb (lexemes rows) 255 then (if leb (length ls) initial_line_capacity then 0 else 1) else 1

module _ (env : Environment) (path : Bytes) (ls : List SourceLine)
    (rows : List (Bytes × List Bytes)) (there : env.arena_address ≢ 0)
    (file : env.files path ≡ some (text rows)) where
  -- The three stages one after the other.
  assembled :
      AssemblesInto (map line_of ls) (text rows) (made env)
      → lexemes rows ≤ 255
      → asm_run env path ≡ some (exited (text_code ls rows) [])
  unfolding asm_run asm_link asm_parse asm_finish
  assembled (ts, b, stream, c, n, lexed, built, inl (fits, parsed)) few =
      let short : leb (lexemes rows) 255 ≡ true = ground arith in
      let lines_fit : leb (length ls) 100 ≡ true = ground (arith, length-map ls) in
      rw (asm_run, file, arena_init-made env there, lexed, built, parsed, short, lines_fit) refl
  assembled (ts, b, stream, c, n, lexed, built, inr (many, parsed)) few =
      let short : leb (lexemes rows) 255 ≡ true = ground arith in
      let too_many : leb (length ls) 100 ≡ false = ground (arith, length-map ls) in
      rw (asm_run, file, arena_init-made env there, lexed, built, parsed, short, too_many) refl

  asm_run-IsText :
      IsText ls rows → length rows ≤ 495 → asm_run env path ≡ some (exited (text_code ls rows) [])
  unfolding asm_run asm_link asm_parse asm_finish
  asm_run-IsText t few =
      elim (assemble-IsText ls rows (made env) t (made-IsArena env there) (omega arith)) [
        | inl (short, stages) ↦ assembled stages short
        | inr (many, lexed) ↦
            let over : leb (lexemes rows) 255 ≡ false = ground arith in
            rw (asm_run, file, arena_init-made env there, lexed, over) refl
      ]

pub not_vm :
    (argv : List Bytes)
    → Selects argv (codes "asm")
    → (str_eq (argument argv 1) (codes "vm") && str_eq (argument argv 2) (codes "run")) ≡ false
unfolding str_eq
not_vm argv asm = rw asm.0 refl

-- `bitcode asm run FILE` on the text of a program, laid out in any way and of at most 495 lines of
-- text, where `malloc` gives the arena, and where labels, symbols and names of opcodes start with an
-- underscore or with a letter other than a capital R and have an ASCII character that is no digit in
-- the second place (so `RET` and `L1:` are not covered): it writes nothing, and exits with 0 if the
-- program has at most 100 lines and its text at most 255 lexemes, and with 1 if it has more of
-- either.
pub main-IsText :
    (env : Environment) (argv : List Bytes) (ls : List SourceLine)
    (rows : List (Bytes × List Bytes))
    → 4 ≤ length argv
    → Selects argv (codes "asm")
    → env.arena_address ≢ 0
    → env.files (argument argv 3) ≡ some (text rows)
    → IsText ls rows
    → length rows ≤ 495
    → main env argv ≡ some (exited (text_code ls rows) [])
unfolding main
main-IsText env argv ls rows enough asm there file t few =
    let usage : ltb (length argv) 4 ≡ false = ground arith in
    rw (usage, not_vm argv asm, selected argv (codes "asm") asm, main)
      (asm_run-IsText env (argument argv 3) ls rows there file t few)
