-- ===== src/Vm/Strings.antt =====
-- `vm_allocate_string` and `vm_print_string` of src/vm/vm_utils/vm_utils.c.
pub mod Print
pub mod Heap
use bitcode.Base.{
  ℕ, zero, suc, ◌+◌, ◌-◌, ◌++◌, [], ◌∷◌, Bytes, leb, ltb, ◌==◌, if◌then◌else◌, u32, true, false,
  Outcome, ok, fault, ◌>>=◌, memory_out_of_bounds, length,
}
use bitcode.Vm.Layout.{mem_size, heap_start, heap_size}
use bitcode.Vm.State.{VmContext, print, store_bytes}

-- The host string is the list of its characters, without the terminator. `hp` and the size are
-- added as size_t, which does not wrap for a string that exists.
unfoldable pub vm_allocate_string : VmContext → Bytes → Outcome (VmContext × ℕ)
vm_allocate_string ctx host_string =
    let required_size = length host_string + 1 in
    let vm_mem_address = u32 (ctx.hp + required_size) in
    if leb (heap_start + heap_size - 1) (ctx.hp + required_size)
    then ok (ctx, 0)
    else if leb (vm_mem_address + required_size) mem_size
    then ok (
      record ctx {
        memory = store_bytes ctx.memory vm_mem_address (host_string ++ 0 ∷ []);
        hp = u32 (ctx.hp + required_size);
      },
      vm_mem_address,
    )
    else fault memory_out_of_bounds

-- The loop of `vm_print_string` from `curr_addr` on. `left` is `mem_size - curr_addr`; at 0 the
-- byte behind the memory is read, since the test of the bound stands behind that of the byte.
unfoldable pub print_from : (ℕ → ℕ) → ℕ → ℕ → Outcome Bytes
print_from memory curr_addr zero = fault memory_out_of_bounds
print_from memory curr_addr (suc left) = elim (memory curr_addr == 0) [
  | true ↦ ok []
  | false ↦ do rest ← print_from memory (curr_addr + 1) left; ok (memory curr_addr ∷ rest)
]

-- The final line break is written whatever ended the loop.
unfoldable pub vm_print_string : VmContext → ℕ → Outcome VmContext
unfolding print_from
vm_print_string ctx address = do
  text ← print_from ctx.memory address (mem_size - address)
  ok (print ctx (text ++ b'\n' ∷ []))
