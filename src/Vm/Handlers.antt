-- ===== src/Vm/Handlers.antt =====
-- The handlers of src/vm/vm.c, the table `opcode_handler` and `execute_bytecode`.
pub mod Mov
pub mod Programs
pub mod Ensures
pub mod Invariant
use bitcode.Base.{
  ℕ, ◌+◌, ◌%◌, ◌∷◌, [], Bool, true, false, not, ◌&&◌, ◌||◌, ltb, leb, ◌==◌, if◌then◌else◌, u32,
  Outcome, ok, fault, null_handler, ◌>>=◌, Option, some, none,
}
use bitcode.InstructionFormat.{op_print_chr, op_print_str, op_mov, op_load_addr, op_halt}
use bitcode.Vm.Layout.{
  mem_size, vm_exit_success, vm_err_memory_out_of_bounds, vm_err_illegal_operation,
}
use bitcode.Vm.State.{
  VmState, running, halted, fatal_error, soft_error, VmContext, VmAddressingMode, reg_direct,
  imm_int, imm_addr, reg_indirect, base_offset, pc_relative, am_none, other, address_or_value,
  DecodedInstruction, print, read_register, write_register, load_word,
}
use bitcode.Vm.Strings.{vm_print_string}

-- A handler ends with the new context and a status.
abbrev pub Result : Type 0
Result = Outcome (VmContext × ℕ)

abbrev success : VmContext → Result
success ctx = ok (ctx, vm_exit_success)

unfoldable pub handle_print_chr : VmContext → DecodedInstruction → Result
handle_print_chr ctx instruction = elim instruction.operand_0.mode [
  | reg_direct ↦ do
    v ← read_register ctx instruction.operand_0.value.reg_id
    success (print ctx (v % 256 ∷ []))
  | _ ↦ ok (ctx, vm_err_illegal_operation)
]

-- An address past the memory prints nothing and is no error.
abbrev pub print_at : VmContext → ℕ → Result
print_at ctx address =
    if ltb address mem_size
    then (do ctx' ← vm_print_string ctx address; success ctx')
    else success ctx

unfoldable pub handle_print_str : VmContext → DecodedInstruction → Result
handle_print_str ctx instruction = elim instruction.operand_0.mode [
  | reg_indirect ↦ do
    address ← read_register ctx instruction.operand_0.value.reg_id
    print_at ctx address
  | imm_addr ↦ print_at ctx (address_or_value instruction.operand_0.value)
  | _ ↦ ok (ctx, vm_err_illegal_operation)
]

abbrev pub move_to : VmContext → ℕ → ℕ → Result
move_to ctx dest v = do ctx' ← write_register ctx dest v; success ctx'

-- The read of a word behind the test `address > MEM_SIZE`.
unfoldable pub mov_from : VmContext → ℕ → ℕ → Result
mov_from ctx dest address =
    if ltb mem_size address
    then ok (ctx, vm_err_memory_out_of_bounds)
    else (do v ← load_word ctx address; move_to ctx dest v)

unfoldable pub handle_mov : VmContext → DecodedInstruction → Result
unfolding mov_from
handle_mov ctx instruction =
    let dest_register_id = instruction.operand_0.value.reg_id in
    let src_reg_id = instruction.operand_1.value.reg_id in
    let imm_addr_or_val = address_or_value instruction.operand_1.value in
    elim instruction.operand_1.mode [
      | reg_direct ↦ do v ← read_register ctx src_reg_id; move_to ctx dest_register_id v
      | imm_int ↦ move_to ctx dest_register_id imm_addr_or_val
      | imm_addr ↦ mov_from ctx dest_register_id imm_addr_or_val
      | reg_indirect ↦ do
        address ← read_register ctx src_reg_id
        mov_from ctx dest_register_id address
      | base_offset ↦ do
        base ← read_register ctx src_reg_id
        if leb mem_size base || leb mem_size (u32 (base + imm_addr_or_val))
            then ok (ctx, vm_err_memory_out_of_bounds)
            else (do
              v ← load_word ctx (u32 (base + imm_addr_or_val))
              move_to ctx dest_register_id v)
      | _ ↦ success ctx
    ]

-- The switch is on the mode of operand 0, the destination.
unfoldable pub handle_load_addr : VmContext → DecodedInstruction → Result
handle_load_addr ctx instruction =
    let dest_register_id = instruction.operand_0.value.reg_id in
    let imm_addr_or_offset = address_or_value instruction.operand_1.value in
    elim instruction.operand_0.mode [
      | imm_addr ↦
          if leb mem_size imm_addr_or_offset
          then ok (ctx, vm_err_memory_out_of_bounds)
          else move_to ctx dest_register_id imm_addr_or_offset
      | reg_indirect ↦ do
        address ← read_register ctx instruction.operand_0.value.reg_id
        if leb mem_size address
            then ok (ctx, vm_err_memory_out_of_bounds)
            else move_to ctx dest_register_id address
      | base_offset ↦ do
        base ← read_register ctx instruction.operand_1.value.reg_id
        if leb mem_size base || leb mem_size (u32 (base + imm_addr_or_offset))
            then ok (ctx, vm_err_memory_out_of_bounds)
            else move_to ctx instruction.operand_1.value.reg_id (u32 (base + imm_addr_or_offset))
      | pc_relative ↦ move_to ctx dest_register_id (u32 (ctx.pc + imm_addr_or_offset))
      | _ ↦ success ctx
    ]

abbrev is_halted : VmState → Bool
is_halted halted = true
is_halted running = false
is_halted fatal_error = false
is_halted soft_error = false

unfoldable pub handle_halt : VmContext → DecodedInstruction → Result
handle_halt ctx instruction =
    if instruction.opcode == op_halt then success (record ctx { state = halted }) else success ctx

-- The table; an entry that it does not name is null.
unfoldable pub opcode_handler : ℕ → Option (VmContext → DecodedInstruction → Result)
opcode_handler opcode =
    if opcode == op_print_chr
    then some handle_print_chr
    else if opcode == op_print_str
    then some handle_print_str
    else if opcode == op_mov
    then some handle_mov
    else if opcode == op_load_addr
    then some handle_load_addr
    else if opcode == op_halt
    then some handle_halt
    else none

-- `opcode_handler[opcode](ctx, *instruction)`.
unfoldable pub execute_bytecode : VmContext → DecodedInstruction → Result
unfolding opcode_handler handle_print_chr handle_print_str handle_mov handle_load_addr handle_halt
execute_bytecode ctx instruction = elim (opcode_handler instruction.opcode) [
  | none ↦ fault null_handler
  | some handler ↦ handler ctx instruction
]
