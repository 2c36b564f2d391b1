-- ===== src/Main/Assembling.antt =====
-- How `asm run` of src/main.c ends.
use bitcode.Base.{
  ℕ, inl, inr, List, [], ◌∷◌, ◌++◌, Option, none, some, Option-cases, Bytes, Outcome, ok, exited,
  fault, Fault, missing_argument, null_pointer,
}
use bitcode.Base.Stateful.{pure, ◌>>=◌}
use bitcode.Arena.{MemoryArena, arena_calloc}
use bitcode.Arena.Aborts.{
  Allocates, Aborting, bind, pure-Aborting, arena_alloc-Aborting, arena_calloc-Aborting,
}
use bitcode.Assembler.Lexer.Capacity.{Lexes, closing, run_lexer-Lexes}
use bitcode.Assembler.Lexer.Files.{run_lexer}
use bitcode.Assembler.Parser.{ParserState}
use bitcode.Assembler.Parser.Programs.{Parsed, initial_line_capacity}
use bitcode.Assembler.Parser.Termination.{Ends, parse_program-Ends}
use bitcode.Assembler.TokenStream.{TokenStream, link_nodes, build_token_stream}
use bitcode.Assembler.Tokens.{Token, token_size}
use bitcode.Main.{Environment, Ending, asm_finish, asm_parse, asm_link, asm_run}

-- `asm run`: 0, the 1 of a failed allocation or of too many lines, or
-- undefined behaviour.
pub data AsmEnds : Ending → Type 0 where
  completes : AsmEnds (some (exited 0 []))
  aborts : AsmEnds (some (exited 1 []))
  faults : (e : Fault) → AsmEnds (some (fault e))

link_nodes-Aborting : (built ts : List Token) → Aborting (link_nodes built ts)
unfolding link_nodes
link_nodes-Aborting built [] = pure-Aborting built
link_nodes-Aborting built (t ∷ ts) =
    bind (arena_alloc-Aborting 40) λ node. link_nodes-Aborting (built ++ t ∷ []) ts

asm_finish-AsmEnds :
    (capacity : ℕ) {r : Outcome (Parsed × ParserState)} → Ends capacity r → AsmEnds (asm_finish r)
unfolding asm_finish
asm_finish-AsmEnds capacity (Ends.parses done s h e) = completes
asm_finish-AsmEnds capacity (Ends.fails s) = AsmEnds.faults missing_argument
asm_finish-AsmEnds capacity Ends.quits = aborts
asm_finish-AsmEnds capacity (Ends.breaks e) = AsmEnds.faults e

-- The stream of tokens, where there are any, is not NULL.
data Links : Outcome (Option TokenStream × MemoryArena) → Type 0 where
  links : (stream : TokenStream) (a : MemoryArena) → Links (ok (some stream, a))
  quits : Links (exited 1 [])
  breaks : (e : Fault) → Links (fault e)

after_nodes :
    (a : MemoryArena) {r : Outcome (List Token × MemoryArena)}
    → Allocates r
    → Links (((λ b. r) >>= λ nodes. pure (some (record { head = nodes; current = nodes }))) a)
after_nodes a (Allocates.gives nodes b) = links _ b
after_nodes a Allocates.aborts = quits
after_nodes a (Allocates.breaks e) = breaks e

after_stream :
    (t : Token) (ts : List Token) (a : MemoryArena) {r : Outcome (ℕ × MemoryArena)}
    → Allocates r
    → Links (
        ((λ b. r) >>= λ stream.
        link_nodes [] (t ∷ ts) >>= λ nodes. pure (some (record { head = nodes; current = nodes })))
          a)
after_stream t ts a (Allocates.gives p b) = after_nodes b ((link_nodes-Aborting [] (t ∷ ts)).ends b)
after_stream t ts a Allocates.aborts = quits
after_stream t ts a (Allocates.breaks e) = breaks e

-- The tokens of `run_lexer` are at least the closing one.
build_token_stream-Links :
    (items : List Token) (a : MemoryArena) → Links (build_token_stream (items ++ closing ∷ []) a)
unfolding build_token_stream
build_token_stream-Links [] a = after_stream closing [] a ((arena_alloc-Aborting 16).ends a)
build_token_stream-Links (t ∷ ts) a =
    after_stream t (ts ++ closing ∷ []) a ((arena_alloc-Aborting 16).ends a)

asm_parse-AsmEnds :
    {r : Outcome (Option TokenStream × MemoryArena)} → Links r → AsmEnds (asm_parse r)
unfolding asm_parse
asm_parse-AsmEnds (links stream a) =
    asm_finish-AsmEnds initial_line_capacity (parse_program-Ends initial_line_capacity _)
asm_parse-AsmEnds quits = aborts
asm_parse-AsmEnds (breaks e) = AsmEnds.faults e

asm_link-AsmEnds :
    {r : Outcome (Option (List Token) × MemoryArena)} → Lexes r → AsmEnds (asm_link r)
unfolding asm_link
asm_link-AsmEnds (Lexes.lexes items a h) = asm_parse-AsmEnds (build_token_stream-Links items a)
asm_link-AsmEnds Lexes.quits = aborts
asm_link-AsmEnds (Lexes.breaks e) = AsmEnds.faults e

-- Without a file `fgets` reads through NULL, once the vector has its blocks.
missing-AsmEnds : (a : MemoryArena) → AsmEnds (asm_link (run_lexer none a))
unfolding asm_link run_lexer
missing-AsmEnds a = after_vector ((arena_alloc-Aborting 16).ends a)
  where
    after_block :
        {r : Outcome (Option ℕ × MemoryArena)} (b : MemoryArena)
        → Allocates r
        → AsmEnds (asm_link (((λ c. r) >>= λ block arena. fault null_pointer) b))
    after_block b (Allocates.gives p c) = AsmEnds.faults null_pointer
    after_block b Allocates.aborts = aborts
    after_block b (Allocates.breaks e) = AsmEnds.faults e

    after_vector :
        {r : Outcome (ℕ × MemoryArena)}
        → Allocates r
        → AsmEnds (
            asm_link (
              ((λ c. r) >>= λ vector.
              arena_calloc 256 token_size >>= λ block arena. fault null_pointer)
                a))
    after_vector (Allocates.gives p b) =
        after_block b ((arena_calloc-Aborting 256 token_size).ends b)
    after_vector Allocates.aborts = aborts
    after_vector (Allocates.breaks e) = AsmEnds.faults e

pub asm_run-AsmEnds : (env : Environment) (path : Bytes) → AsmEnds (asm_run env path)
unfolding asm_run
asm_run-AsmEnds env path = elim (Option-cases (env.files path)) [
  | inl e ↦ rw (e, asm_run) (missing-AsmEnds _)
  | inr (file, e) ↦ rw (e, asm_run) (asm_link-AsmEnds (run_lexer-Lexes file _))
]
