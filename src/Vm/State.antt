-- ===== src/Vm/State.antt =====
-- The types of src/include/vm.h, with the bounds-checked accesses to the registers and the
-- memory by which the model tells defined from undefined behaviour.
use bitcode.Base.{
  ℕ, ◌+◌, ◌%◌, ◌/◌, ◌*◌, List, [], ◌∷◌, ◌++◌, none, some, Bytes, leb, ◌==◌, if◌then◌else◌, u8_mod,
  le32, Outcome, ok, fault, register_out_of_bounds, memory_out_of_bounds, get_elem?, set,
}
use bitcode.Vm.Layout.{mem_size}

pub data VmState : Type 0 where
  running halted fatal_error soft_error : VmState

-- `stdout` is no field of the C struct: it is what the process has written there so far. Memory
-- past `mem_size` is outside of what `malloc` gave, and is never read or written here.
pub record VmContext : Type 0 where
  pub state : VmState
  pub registers : List ℕ
  pub memory : ℕ → ℕ
  pub memory_size : ℕ
  pub pc : ℕ
  pub sp : ℕ
  pub bp : ℕ
  pub hp : ℕ
  pub flags : List ℕ
  pub stdout : Bytes

-- `other` is a value of the three mode bits that names no enumerator.
pub data VmAddressingMode : Type 0 where
  reg_direct imm_int imm_addr reg_indirect base_offset pc_relative am_none : VmAddressingMode
  other : ℕ → VmAddressingMode

-- The eight bytes of the union in `VMOperand`: the byte that is `reg_id`, the three bytes that
-- are the rest of `address_or_value` (padding in `base_and_offset`), and `base_and_offset.offset`.
pub record OperandUnion : Type 0 where
  pub reg_id : ℕ
  pub upper : ℕ
  pub offset : ℕ

pub record VmOperand : Type 0 where
  pub mode : VmAddressingMode
  pub value : OperandUnion

abbrev pub address_or_value : OperandUnion → ℕ
address_or_value u = u.reg_id + u.upper * u8_mod

abbrev pub set_address_or_value : OperandUnion → ℕ → OperandUnion
set_address_or_value u v = record u { reg_id = v % u8_mod; upper = v / u8_mod }

pub record DecodedInstruction : Type 0 where
  pub opcode : ℕ
  pub metadata_flags : ℕ
  pub operand_0 : VmOperand
  pub operand_1 : VmOperand

abbrev pub print : VmContext → Bytes → VmContext
print ctx out = record ctx { stdout = ctx.stdout ++ out }

-- `ctx->registers[i]`, read and written.
unfoldable pub read_register : VmContext → ℕ → Outcome ℕ
read_register ctx i = elim (get_elem? ctx.registers i) [
  | none ↦ fault register_out_of_bounds
  | some v ↦ ok v
]

unfoldable pub write_register : VmContext → ℕ → ℕ → Outcome VmContext
write_register ctx i v = elim (get_elem? ctx.registers i) [
  | none ↦ fault register_out_of_bounds
  | some _ ↦ ok (record ctx { registers = set ctx.registers i v })
]

-- `memcpy` of a uint32_t out of the memory, in the byte order of a little-endian host.
unfoldable pub load_word : VmContext → ℕ → Outcome ℕ
load_word ctx a =
    if leb (a + 4) mem_size
    then ok (le32 (ctx.memory a) (ctx.memory (a + 1)) (ctx.memory (a + 2)) (ctx.memory (a + 3)))
    else fault memory_out_of_bounds

-- `memcpy` of bytes into a memory, from address `a` on.
abbrev pub store_bytes : (ℕ → ℕ) → ℕ → Bytes → ℕ → ℕ
store_bytes m a [] = m
store_bytes m a (b ∷ bs) = λ i. if i == a then b else store_bytes m (a + 1) bs i

-- `n` bytes of a memory from address `a` on.
abbrev pub window : (ℕ → ℕ) → ℕ → ℕ → Bytes
window m a ℕ.zero = []
window m a (ℕ.suc n) = m a ∷ window m (a + 1) n
