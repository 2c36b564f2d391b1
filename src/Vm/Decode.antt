-- ===== src/Vm/Decode.antt =====
-- `fetch_instruction` and `decode_instruction` of src/vm/vm.c, and `populate_operand` of
-- src/vm/vm_utils/vm_utils.c.
pub mod Fetch
pub mod Operands
pub mod RoundTrip
use bitcode.Base.{
  ℕ, ◌+◌, ◌%◌, ◌/◌, ◌*◌, List, [], ◌∷◌, ◌++◌, none, some, Bytes, leb, ltb, ◌==◌, if◌then◌else◌, u32,
  le32, codes, Outcome, ok, fault, memory_out_of_bounds, get_or, Option,
}
use bitcode.InstructionFormat.{OpcodeInfo, opcode_info}
use bitcode.Vm.Layout.{
  mem_size, memory_limit, instruction_size, vm_exit_success, vm_err_pc_out_of_bounds,
  vm_err_opcode_not_found,
}
use bitcode.Vm.State.{
  VmState, fatal_error, VmContext, VmAddressingMode, reg_direct, imm_int, imm_addr, reg_indirect,
  base_offset, pc_relative, am_none, other, OperandUnion, VmOperand, set_address_or_value,
  DecodedInstruction, print, window,
}

-- The new context, what `out` holds afterwards, and the status.
unfoldable pub fetch_instruction : VmContext → Bytes → Outcome (VmContext × Bytes × ℕ)
fetch_instruction ctx out =
    if ltb memory_limit ctx.pc
    then ok (ctx, out, vm_err_pc_out_of_bounds)
    else if leb (ctx.pc + instruction_size) mem_size
    then ok (
      record ctx { pc = u32 (ctx.pc + instruction_size) },
      window ctx.memory ctx.pc instruction_size,
      vm_exit_success,
    )
    else fault memory_out_of_bounds

-- The cast of three bits to `VMAddressingMode`.
unfoldable pub to_mode : ℕ → VmAddressingMode
to_mode m =
    if m == 0
    then reg_direct
    else if m == 1
    then imm_int
    else if m == 2
    then imm_addr
    else if m == 4
    then reg_indirect
    else if m == 6
    then base_offset
    else if m == 7
    then pc_relative
    else other m

-- `GET_SRC_MODE` and `GET_DEST_MODE`: a shift by 1 or 4, and the mask 0b111.
abbrev pub get_src_mode : ℕ → ℕ
get_src_mode metadata = metadata / 2 % 8

abbrev pub get_dest_mode : ℕ → ℕ
get_dest_mode metadata = metadata / 16 % 8

-- On the union of an operand whose mode is set.
unfoldable pub populate_operand : VmAddressingMode → OperandUnion → ℕ → ℕ → OperandUnion
populate_operand reg_direct u raw_id_byte imm = record u { reg_id = raw_id_byte }
populate_operand reg_indirect u raw_id_byte imm = record u { reg_id = raw_id_byte }
populate_operand base_offset u raw_id_byte imm = record u { reg_id = raw_id_byte; offset = imm }
populate_operand imm_int u raw_id_byte imm = set_address_or_value u imm
populate_operand imm_addr u raw_id_byte imm = set_address_or_value u imm
populate_operand pc_relative u raw_id_byte imm = set_address_or_value u imm
populate_operand am_none u raw_id_byte imm = u
populate_operand (other m) u raw_id_byte imm = u

-- `operands[i].mode = mode; populate_operand(&operands[i], …)`.
abbrev fill : VmOperand → VmAddressingMode → ℕ → ℕ → VmOperand
fill operand mode raw_id_byte imm = record {
  mode = mode;
  value = populate_operand mode operand.value raw_id_byte imm;
}

-- What the `printf` in the two-operand branch writes.
abbrev pub src_mode_message : ℕ → Bytes
src_mode_message m = codes "DEBUG: src_mode calculated: " ++ (b'0' + m) ∷ b'\n' ∷ []

-- `*(uint32_t*) &instruction[IMMEDIATE_VALUE_START]` on a little-endian host that reads a misaligned
-- word as it reads any other, as x86-64 does.
abbrev pub immediate : Bytes → ℕ
immediate bytes = le32 (get_or bytes 3 0) (get_or bytes 4 0) (get_or bytes 5 0) (get_or bytes 6 0)

-- The first operand, by the operand count of the opcode.
unfoldable pub decode_dest : OpcodeInfo → Bytes → VmOperand → VmOperand
unfolding populate_operand to_mode
decode_dest info bytes operand =
    if leb 1 info.operand_count
    then fill operand (to_mode (get_dest_mode (get_or bytes 7 0))) (get_or bytes 1 0)
        (immediate bytes)
    else record operand { mode = am_none }

unfoldable pub decode_src : OpcodeInfo → Bytes → VmOperand → VmOperand
unfolding populate_operand to_mode
decode_src info bytes operand =
    if info.operand_count == 2
    then fill operand (to_mode (get_src_mode (get_or bytes 7 0))) (get_or bytes 2 0)
        (immediate bytes)
    else record operand { mode = am_none }

-- The `printf` of the two-operand branch.
unfoldable pub report_src_mode : VmContext → OpcodeInfo → ℕ → VmContext
report_src_mode ctx info metadata =
    if info.operand_count == 2 then print ctx (src_mode_message (get_src_mode metadata)) else ctx

-- What follows the look-up of the opcode. `out` is what the caller's variable held before: the
-- union keeps the bytes that are not set.
unfoldable pub decode_by :
    Option OpcodeInfo → VmContext → Bytes → DecodedInstruction → VmContext × DecodedInstruction × ℕ
unfolding decode_dest decode_src report_src_mode
decode_by none ctx bytes out = (
  record ctx { state = fatal_error },
  record out { opcode = get_or bytes 0 0; metadata_flags = get_or bytes 7 0 },
  vm_err_opcode_not_found,
)
decode_by (some info) ctx bytes out = (
  report_src_mode ctx info (get_or bytes 7 0),
  record {
    opcode = get_or bytes 0 0;
    metadata_flags = get_or bytes 7 0;
    operand_0 = decode_dest info bytes out.operand_0;
    operand_1 = decode_src info bytes out.operand_1;
  },
  vm_exit_success,
)

unfoldable pub decode_instruction :
    VmContext → Bytes → DecodedInstruction → VmContext × DecodedInstruction × ℕ
unfolding decode_by
decode_instruction ctx bytes out = decode_by (opcode_info (get_or bytes 0 0)) ctx bytes out
