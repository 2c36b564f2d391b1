-- ===== src/Vm/Handlers/Mov.antt =====
-- What `handle_mov` writes, and where its tests let a read out of the memory pass.
use bitcode.Base.{
  ◌>>=◌, ℕ, ◌+◌, ◌<◌, ◌≤◌, ◌≡◌, ◌⊎◌, inl, inr, refl, ok, fault, memory_out_of_bounds,
  register_out_of_bounds, arith, set, get_elem?-lt, get_elem?-le, length, le32, dec_lt,
  if◌then◌else◌, u32, leb, ◌||◌,
}
use bitcode.Vm.Handlers.{handle_mov, mov_from, move_to, Result, vm_err_memory_out_of_bounds}
use bitcode.Vm.Layout.{mem_size}
use bitcode.Vm.State.{VmContext, DecodedInstruction, write_register, load_word}

-- A write to a register that exists, and one to a register that does not.
pub move_to_cases :
    (ctx : VmContext) (dest v : ℕ)
    → ((dest < length ctx.registers)
        × (move_to ctx dest v ≡ ok (record ctx { registers = set ctx.registers dest v }, 0)))
      ⊎ ((length ctx.registers ≤ dest) × (move_to ctx dest v ≡ fault register_out_of_bounds))
unfolding write_register
move_to_cases ctx dest v = elim (dec_lt dest (length ctx.registers)) [
  | yes h ↦ let (old, e) = get_elem?-lt ctx.registers dest h in inl (h, rw (e, write_register) refl)
  | no h ↦
      inr (omega arith, rw (get_elem?-le ctx.registers dest (omega arith), write_register) refl)
]

-- The word at an address, the lowest byte first.
abbrev pub word_at : VmContext → ℕ → ℕ
word_at ctx a = le32 (ctx.memory a) (ctx.memory (a + 1)) (ctx.memory (a + 2)) (ctx.memory (a + 3))

-- A read for `mov` into a register that exists: it loads the word where the four bytes lie within
-- the memory, and refuses an address past the memory with status 103; but for the last three
-- addresses and the address `mem_size` itself it reads outside the memory.
pub mov_from_cases :
    (ctx : VmContext) (dest address : ℕ)
    → dest < length ctx.registers
    → ((address + 4 ≤ mem_size)
        × (mov_from ctx dest address
            ≡ ok (record ctx { registers = set ctx.registers dest (word_at ctx address) }, 0)))
      ⊎ ((mem_size < address) × (mov_from ctx dest address ≡ ok (ctx, 103)))
      ⊎ ((mem_size < address + 4)
          × (address ≤ mem_size)
          × (mov_from ctx dest address ≡ fault memory_out_of_bounds))
unfolding mov_from load_word
mov_from_cases ctx dest address h = ground (arith, move_to_cases ctx dest (word_at ctx address))

-- The branch `VM_AM_BASE_OFFSET`, into a register that exists.
abbrev pub mov_based : VmContext → ℕ → ℕ → ℕ → Result
mov_based ctx dest base offset =
    if leb mem_size base || leb mem_size (u32 (base + offset))
    then ok (ctx, vm_err_memory_out_of_bounds)
    else (do v ← load_word ctx (u32 (base + offset)); move_to ctx dest v)

pub mov_based_cases :
    (ctx : VmContext) (dest base offset : ℕ)
    → dest < length ctx.registers
    → let a = u32 (base + offset) in
      ((base < mem_size)
        × (a + 4 ≤ mem_size)
        × (mov_based ctx dest base offset
            ≡ ok (record ctx { registers = set ctx.registers dest (word_at ctx a) }, 0)))
      ⊎ (((mem_size ≤ base) ⊎ (mem_size ≤ a)) × (mov_based ctx dest base offset ≡ ok (ctx, 103)))
      ⊎ ((base < mem_size)
          × (a < mem_size)
          × (mem_size < a + 4)
          × (mov_based ctx dest base offset ≡ fault memory_out_of_bounds))
unfolding load_word
mov_based_cases ctx dest base offset h =
    ground (arith, move_to_cases ctx dest (word_at ctx (u32 (base + offset))))

-- The offset of `[R_x + Offset]` is ignored: `handle_mov` does the same for any two offsets.
pub handle_mov_offset :
    (ctx : VmContext) (instruction : DecodedInstruction) (offset : ℕ)
    → handle_mov ctx (record instruction {
      operand_1 = record {
        mode = instruction.operand_1.mode;
        value = record {
          reg_id = instruction.operand_1.value.reg_id;
          upper = instruction.operand_1.value.upper;
          offset = offset;
        };
      };
    })
      ≡ handle_mov ctx instruction
unfolding handle_mov
handle_mov_offset ctx instruction offset = refl
