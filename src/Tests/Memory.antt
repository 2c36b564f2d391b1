-- ===== src/Tests/Memory.antt =====
-- Strings in the memory of the machine, and blocks in the arena.
use bitcode.Vm.State.{VmContext, print, window, store_bytes}
use bitcode.Vm.Layout.{mem_size}
use bitcode.Base.{
  ℕ, ◌≡◌, refl, [], ◌∷◌, arith, codes, List, fault, ok, ◌≤◌, ◌+◌, ◌<◌, size_mod, length, ◌⊎◌,
  memory_out_of_bounds, ◌*◌, ◌-◌, exited, ◌++◌,
}
use bitcode.Arena.{header_size, MemoryArena, arena_alloc, header_size}
use bitcode.Arena.Disjoint.{Block, IsArena, Between, alloc_all, alloc_all-Between, taken, Block}
use bitcode.Arena.Overflow.{arena_alloc_overflow}
use bitcode.Vm.Strings.{vm_print_string, vm_allocate_string}
use bitcode.Vm.Strings.Heap.{Stored, vm_allocate_string_cases, vm_allocate_string_overlap}
use bitcode.Vm.Strings.Print.{vm_print_string_text, vm_print_string_endless}
use bitcode.Tests.Machine.{machine}

-- "hi" at the address 16.
abbrev with_text : VmContext
with_text = record machine { memory = store_bytes (λ i. 0) 16 (codes "hi") }

-- A memory without a null byte.
abbrev full : VmContext
full = record machine { memory = λ i. 65 }

vm_print_string_text_example :
    vm_print_string with_text 16 ≡ ok (print with_text (window with_text.memory 16 2 ++ b'\n' ∷ []))
vm_print_string_text_example =
    vm_print_string_text with_text 16 2 (omega arith) (λ i h. ground arith) refl

vm_print_string_endless_example : vm_print_string full 16 ≡ fault memory_out_of_bounds
vm_print_string_endless_example = vm_print_string_endless full 16 (omega arith) (λ i h. omega arith)

vm_allocate_string_cases_example :
    ((0x4C0000 ≤ machine.hp + 2 + 2) × (vm_allocate_string machine (codes "hi") ≡ ok (machine, 0)))
    ⊎ ((machine.hp + 2 + 2 < 0x4C0000)
        × (machine.hp + 2 * (2 + 1) ≤ mem_size)
        × (m : ℕ → ℕ) × (vm_allocate_string machine (codes "hi")
            ≡ ok (record machine { memory = m; hp = machine.hp + 2 + 1 }, machine.hp + 2 + 1))
        × Stored machine.memory m (machine.hp + 2 + 1) (codes "hi"))
    ⊎ ((machine.hp + 2 + 2 < 0x4C0000)
        × (mem_size < machine.hp + 2 * (2 + 1))
        × (vm_allocate_string machine (codes "hi") ≡ fault memory_out_of_bounds))
vm_allocate_string_cases_example = vm_allocate_string_cases machine (codes "hi") (omega arith)

-- The context after "hello", and after "x" behind it.
abbrev once : VmContext
once = record machine {
  memory = store_bytes (λ i. 0) 0x100006 (codes "hello" ++ 0 ∷ []);
  hp = 0x100006;
}

abbrev twice : VmContext
twice = record once {
  memory = store_bytes once.memory 0x100008 (codes "x" ++ 0 ∷ []);
  hp = 0x100008;
}

allocate_once : vm_allocate_string machine (codes "hello") ≡ ok (once, 0x100006)
unfolding vm_allocate_string
allocate_once = refl

allocate_twice : vm_allocate_string once (codes "x") ≡ ok (twice, 0x100008)
unfolding vm_allocate_string
allocate_twice = refl

vm_allocate_string_overlap_example :
    (0x100006 < 0x100008)
    × (0x100008 ≤ 0x100006 + length (codes "hello"))
    × (twice.memory 0x100008 ≡ b'x')
vm_allocate_string_overlap_example =
    vm_allocate_string_overlap machine once twice (codes "hello") b'x' [] 0x100006 0x100008
      (omega arith) allocate_once (omega arith) allocate_twice (omega arith) (omega arith)

abbrev arena : MemoryArena
arena = record { buffer = 0x5000; size = 64; offset = 0 }

arena-IsArena : IsArena arena
arena-IsArena = record { exists = omega arith; within = omega arith; small = omega arith }

abbrev sizes : List ℕ
sizes = 3 ∷ 16 ∷ 5 ∷ []

alloc_all-Between_example :
    ((arena.offset + taken sizes ≤ arena.size)
      × (bs : List Block) × (alloc_all sizes arena
          ≡ ok (bs, record arena { offset = arena.offset + taken sizes }))
      × Between
          (arena.buffer + arena.offset)
          (arena.buffer + (arena.offset + taken sizes))
          sizes
          bs)
    ⊎ ((arena.size < arena.offset + taken sizes) × (alloc_all sizes arena ≡ exited 1 []))
alloc_all-Between_example = alloc_all-Between sizes arena arena-IsArena (omega arith)

arena_alloc_overflow_example :
    (arena.size < size_mod - 2)
    × (arena_alloc (size_mod - 2) arena
        ≡ ok (
          arena.buffer + arena.offset + header_size,
          record arena { offset = arena.offset + (size_mod - 2 + header_size - size_mod) },
        ))
    × (size_mod - 2 + header_size - size_mod < header_size)
arena_alloc_overflow_example =
    arena_alloc_overflow (size_mod - 2) arena arena-IsArena (omega arith) (omega arith)
      (omega arith)
