-- ===== src/Main.antt =====
-- src/main.c: the command line. What it writes to the log is left out.
pub mod Assembling
pub mod Endings
pub mod Programs
pub mod Sources
pub mod Safety
use bitcode.Base.{
  ℕ, ◌+◌, ◌*◌, Bool, true, false, ◌&&◌, List, [], ◌∷◌, ◌++◌, Option, none, some, Bytes, ltb, codes,
  str_eq, if◌then◌else◌, length, get_or, Outcome, ok, exited, fault, null_pointer, ◌>>=◌,
  missing_argument,
}
use bitcode.Arena.{MemoryArena, arena_init, arena_calloc, max_arena_size}
use bitcode.Assembler.Lexer.Files.{run_lexer}
use bitcode.Assembler.Parser.{ParserState}
use bitcode.Assembler.Parser.Programs.{
  Parsed, lines, failed, out_of_fuel, run_parser, line_size, initial_line_capacity,
}
use bitcode.Assembler.TokenStream.{TokenStream, build_token_stream}
use bitcode.Assembler.Tokens.{Token}
use bitcode.Vm.Header.{BytecodeFileHeader}
use bitcode.Vm.Load.{vm_create, destroy_message}
use bitcode.Vm.Run.{run_vm}
use bitcode.Vm.State.{VmContext, DecodedInstruction}

-- What the process finds: the files that `fopen` opens, whether the two `malloc` calls of
-- `vm_create` succeed and what the memory holds then, the address that `malloc` gives the arena
-- (0 where it fails), and what the local variables hold before they are set.
pub record Environment : Type 0 where
  pub files : Bytes → Option Bytes
  pub context_fits : Bool
  pub memory_fits : Bool
  pub contents : ℕ → ℕ
  pub arena_address : ℕ
  pub arena : MemoryArena
  pub header : BytecodeFileHeader
  pub raw_instruction : Bytes
  pub decoded_instruction : DecodedInstruction

-- The end of the process; `none` is a loop that has used up its fuel.
abbrev pub Ending : Type 0
Ending = Option (Outcome ⊥)

-- `vm_destroy(ctx); return status;`, which both branches come to. The status is not negative.
unfoldable pub vm_finish : VmContext × ℕ → Outcome ⊥
vm_finish (ctx, status) = exited status (ctx.stdout ++ destroy_message)

-- `vm run FILE`. A context that is NULL is read through by `run_vm`.
unfoldable pub vm_run : Environment → Bytes → Ending
unfolding vm_finish
vm_run env path = elim (vm_create env.context_fits env.memory_fits env.contents) [
  | none ↦ some (fault null_pointer)
  | some ctx ↦
      elim (run_vm ctx env.header env.raw_instruction env.decoded_instruction (env.files path)) [
        | none ↦ none
        | some r ↦ some (r >>= vm_finish)
      ]
]

-- The status of the parser: for -1 the format of `LOG_ERROR` has a `%d` and no argument.
unfoldable pub asm_finish : Outcome (Parsed × ParserState) → Ending
asm_finish (ok (lines done, s)) = some (exited 0 [])
asm_finish (ok (failed, s)) = some (fault missing_argument)
asm_finish (ok (out_of_fuel, s)) = none
asm_finish (exited code out) = some (exited code out)
asm_finish (fault e) = some (fault e)

-- `run_parser` on the stream. NULL is read through by `parse_program`, once its lines have their
-- block.
unfoldable pub asm_parse : Outcome (Option TokenStream × MemoryArena) → Ending
unfolding asm_finish
asm_parse (ok (some stream, arena)) =
    asm_finish (run_parser initial_line_capacity (record { stream = stream; arena = arena }))
asm_parse (ok (none, arena)) =
    some (arena_calloc initial_line_capacity line_size arena >>= λ block. fault null_pointer)
asm_parse (exited code out) = some (exited code out)
asm_parse (fault e) = some (fault e)

-- The tokens of `run_lexer`, which has taken a block for them: `items` is not NULL.
unfoldable pub asm_link : Outcome (Option (List Token) × MemoryArena) → Ending
unfolding asm_parse
asm_link (ok (some all_tokens, arena)) = asm_parse (build_token_stream all_tokens arena)
asm_link (ok (none, arena)) = none
asm_link (exited code out) = some (exited code out)
asm_link (fault e) = some (fault e)

-- `asm run FILE`.
unfoldable pub asm_run : Environment → Bytes → Ending
unfolding asm_link
asm_run env path =
    asm_link
      (run_lexer (env.files path) (arena_init env.arena env.arena_address (2 * max_arena_size)))

-- `argv[i]`, which exists where it is read.
abbrev pub argument : List Bytes → ℕ → Bytes
argument argv i = get_or argv i []

unfoldable pub main : Environment → List Bytes → Ending
main env argv =
    if ltb (length argv) 4
    then some (exited 1 [])
    else if str_eq (argument argv 1) (codes "vm") && str_eq (argument argv 2) (codes "run")
    then vm_run env (argument argv 3)
    else if str_eq (argument argv 1) (codes "asm") && str_eq (argument argv 2) (codes "run")
    then asm_run env (argument argv 3)
    else some (exited 0 [])
