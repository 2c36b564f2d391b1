-- ===== src/Main/Safety.antt =====
-- `main` (src/main.c) on a source file of any ASCII content.
use bitcode.Base.{
  IsAscii, fault, missing_argument, ◌+◌, ◌*◌, ◌≤◌, ◌≡◌, ◌≢◌, ◌⊎◌, inl, inr, refl, Bool, true, false,
  ◌&&◌, Bool-cases, List, [], ◌∷◌, ◌++◌, Option, none, some, Bytes, All, All-append, Outcome, ok,
  exited, codes, arith, length, ltb,
}
use bitcode.Base.Safely.{Yields}
use mathlib.Core.Path.{subst}
use bitcode.Arena.Disjoint.{IsArena}
use bitcode.Arena.{MemoryArena}
use bitcode.Assembler.Lexer.Capacity.{closing}
use bitcode.Assembler.Lexer.Files.{run_lexer}
use bitcode.Assembler.Lexer.Safety.{Lexed, run_lexer-IsTyped}
use bitcode.Assembler.Lexer.Typed.{IsTyped}
use bitcode.Assembler.Parser.{ParserState}
use bitcode.Assembler.Parser.Programs.{Parsed, lines, failed, out_of_fuel, initial_line_capacity}
use bitcode.Assembler.Parser.Safety.Lines.{ParsedTyped, parse_program-IsTyped}
use bitcode.Assembler.Parser.Termination.{Ends, parse_program-Ends}
use bitcode.Assembler.Parser.Typed.{IsPlain, is_not_rodata, Ready}
use bitcode.Assembler.TokenStream.{build_token_stream}
use bitcode.Assembler.TokenStream.Built.{build_token_stream-Tokens}
use bitcode.Assembler.Tokens.{Token}
use bitcode.Main.Endings.{Selects}
use bitcode.Main.Programs.{selected}
use bitcode.Main.Sources.{made, arena_init-made, made-IsArena, not_vm}
use bitcode.Main.{Environment, Ending, argument, asm_run, asm_link, asm_parse, asm_finish, main}

-- No token is the directive `.rodata`.
abbrev pub are_not_rodata : List Token → Bool
are_not_rodata [] = true
are_not_rodata (t ∷ ts) = is_not_rodata t && are_not_rodata ts

-- The process writes nothing and ends with 0 or with 1, or logs the status -1 of the parser without
-- an argument for its format.
abbrev pub Completes : Ending → Type 0
Completes r =
    (r ≡ some (exited 0 [])) ⊎ (r ≡ some (fault missing_argument)) ⊎ (r ≡ some (exited 1 []))

All-IsPlain : (ts : List Token) → All IsTyped ts → are_not_rodata ts ≡ true → All IsPlain ts
All-IsPlain [] h e = tt
All-IsPlain (t ∷ ts) h e = elim (Bool-cases (is_not_rodata t)) [
  | inl plain ↦ ((h.0, plain), All-IsPlain ts h.1 (rw plain at e))
  | inr rodata ↦ cc (rw rodata at e)
]

no_fuel : {s : ParserState} → ¬ Ends initial_line_capacity (ok (out_of_fuel, s))
no_fuel h = elim h [ ]

finished :
    {r : Outcome (Parsed × ParserState)}
    → Ends initial_line_capacity r
    → Yields ParsedTyped Ready r
    → Completes (asm_finish r)
unfolding asm_finish
finished e (Yields.yields (lines ls) s q i) = inl refl
finished e (Yields.yields failed s q i) = inr (inl refl)
finished e (Yields.yields out_of_fuel s q i) = absurd (no_fuel e)
finished e Yields.quits = inr (inr refl)

-- The stream of tokens that are plain is parsed.
parsed :
    (t : Token) (ts : List Token) (a : MemoryArena)
    → IsArena a
    → All IsPlain (t ∷ ts)
    → Completes (asm_parse (build_token_stream (t ∷ ts) a))
unfolding asm_parse
parsed t ts a ar plain = elim (build_token_stream-Tokens t ts a ar) [
  | inr (full, e) ↦ rw e (inr (inr refl))
  | inl (fits, e) ↦
      let b = record a { offset = a.offset + 24 + 48 * length (t ∷ ts) } in
      let s : ParserState = record {
        stream = record { head = t ∷ ts; current = t ∷ ts };
        arena = b;
      } in
      let ar' : IsArena b = record { exists = ar.exists; within = fits; small = ar.small } in
      rw e (
        finished (parse_program-Ends initial_line_capacity s)
          (parse_program-IsTyped initial_line_capacity s (omega arith) (ar', plain)))
]

linked :
    (items : List Token) (a : MemoryArena)
    → IsArena a
    → All IsPlain (items ++ closing ∷ [])
    → Completes (asm_parse (build_token_stream (items ++ closing ∷ []) a))
linked [] a ar plain = parsed closing [] a ar plain
linked (t ∷ ts) a ar plain = parsed t (ts ++ closing ∷ []) a ar plain

-- The tokens of the file hold the directive `.rodata`.
abbrev pub HasRodata : Bytes → MemoryArena → Type 0
HasRodata file a =
    (ts : List Token) × (b : MemoryArena) × (run_lexer (some file) a ≡ ok (some ts, b))
    × (are_not_rodata ts ≡ false)

lexed :
    (file : Bytes) (a : MemoryArena) {r : Outcome (Option (List Token) × MemoryArena)}
    → run_lexer (some file) a ≡ r
    → Yields Lexed IsArena r
    → Completes (asm_link r) ⊎ HasRodata file a
unfolding asm_link
lexed file a e (Yields.yields none b q ar) = absurd q
lexed file a e (Yields.yields (some ts) b (items, whole, typed, few) ar) =
    elim (Bool-cases (are_not_rodata ts)) [
      | inr rodata ↦ inr (ts, b, e, rodata)
      | inl plain ↦
          let all : All IsTyped (items ++ closing ∷ []) =
            All-append IsTyped items (closing ∷ []) typed (IsTyped.an_end, tt) in
          inl (
            rw whole (
              linked items b ar (
                All-IsPlain (items ++ closing ∷ []) all
                  (subst (λ us. are_not_rodata us ≡ true) whole plain))))
    ]
lexed file a e Yields.quits = inl (inr (inr refl))

-- `bitcode asm run FILE` on a file of ASCII characters, where `malloc` gives the arena: unless the
-- lexer finds the directive `.rodata` in the file, the process writes nothing to stdout and ends with
-- 0 or with 1, or is undefined because the log call for a status of the parser lacks the argument
-- that its format asks for. It reaches no other fault of the model. (Misaligned blocks, and a format
-- whose argument has another type than it names, are not among these faults.)
pub main-Completes :
    (env : Environment) (argv : List Bytes) (file : Bytes)
    → 4 ≤ length argv
    → Selects argv (codes "asm")
    → env.arena_address ≢ 0
    → env.files (argument argv 3) ≡ some file
    → IsAscii file
    → Completes (main env argv) ⊎ HasRodata file (made env)
unfolding main asm_run
main-Completes env argv file enough asm there e asc =
    let usage : ltb (length argv) 4 ≡ false = ground arith in
    rw
      (
        usage,
        not_vm argv asm,
        selected argv (codes "asm") asm,
        main,
        asm_run,
        e,
        arena_init-made env there,
      )
      (lexed file (made env) refl (run_lexer-IsTyped file (made env) (made-IsArena env there) asc))
