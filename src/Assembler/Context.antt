-- ===== src/Assembler/Context.antt =====
-- `asm_ctx_init` of src/assembler/assembler_context.c.
use bitcode.Base.{ℕ, ◌+◌, ◌<◌, ◌≡◌, refl, inl, inr, Option, none, [], exited, arith}
use bitcode.Base.Stateful.{Stateful, pure, ◌>>=◌}
use bitcode.Arena.{MemoryArena, arena_alloc, header_size}
use bitcode.Arena.Disjoint.{IsArena, arena_alloc_cases}
use bitcode.Vm.Layout.{mem_size}
use bitcode.Vm.Layout

-- The fields that are set. `symbol_table` is none where it is NULL; `memory` is an address.
pub record AssemblerContext : Type 0 where
  pub location_counter : ℕ
  pub code_start : ℕ
  pub data_start : ℕ
  pub rodata_start : ℕ
  pub initial_hp : ℕ
  pub initial_sp : ℕ
  pub symbol_table : Option ℕ
  pub memory : ℕ

-- `sizeof(AssemblerContext)`.
abbrev pub context_size : ℕ
context_size = 64

unfoldable pub asm_ctx_init : Stateful MemoryArena AssemblerContext
asm_ctx_init = do
  asm_ctx ← arena_alloc context_size
  memory ← arena_alloc mem_size
  pure (record {
    location_counter = 0;
    code_start = Layout.code_start;
    data_start = Layout.data_start;
    rodata_start = Layout.rodata_start;
    initial_hp = Layout.heap_start;
    initial_sp = Layout.stack_start;
    symbol_table = none;
    memory = memory;
  })

-- From an arena within its bounds whose size is below that of the machine's memory, as the 2 MB
-- that the command line makes, `asm_ctx_init` ends the process with code 1.
pub asm_ctx_init_small :
    (a : MemoryArena) → IsArena a → a.size < mem_size → asm_ctx_init a ≡ exited 1 []
unfolding asm_ctx_init
asm_ctx_init_small a ar small = elim (arena_alloc_cases context_size a ar (omega arith)) [
  | inr (full, e) ↦ rw (e, ◌>>=◌) refl
  | inl (fits, e) ↦
      elim (arena_alloc_cases mem_size (record a { offset = a.offset + context_size + header_size })
        (record { exists = ar.exists; within = fits; small = ar.small }) (omega arith)) [
          | inr (full, e') ↦ rw (e, ◌>>=◌) (rw (e', ◌>>=◌) refl)
          | inl (fits', e') ↦ absurd (omega arith)
        ]
]
