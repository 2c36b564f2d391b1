-- ===== src/Vm/Handlers/Programs.antt =====
-- Single instructions, from their bytes to their effect: `decode_instruction` and then
-- `execute_bytecode`, as a round of `run_vm` joins them.
use bitcode.Base.{
  ◌>>=◌, ℕ, ◌+◌, ◌<◌, ◌≤◌, ◌≡◌, ◌⊎◌, inl, inr, refl, Bytes, ◌∷◌, ok, fault, null_handler,
  register_out_of_bounds, arith, u32_mod, length, set, le32-bytes32, ◌%◌, ◌/◌, ◌*◌, get_elem?, some,
  u32, memory_out_of_bounds,
}
use bitcode.InstructionFormat.{opcode_info, op_mov, op_load_addr, opcode_info_cases}
use bitcode.Vm.Decode.{decode_instruction, decode_by, src_mode_message}
use bitcode.Vm.Decode.RoundTrip.{
  Operand, register, integer, based, mode_bits, encode, metadata_fields,
}
use bitcode.Vm.Handlers.{Result, execute_bytecode, mem_size, handle_mov}
use bitcode.Vm.Handlers.Mov.{move_to_cases, word_at, mov_based_cases, mov_based}
use bitcode.Vm.Layout.{vm_exit_success}
use bitcode.Vm.State.{VmContext, DecodedInstruction, print, address_or_value, read_register}

-- The effect of eight bytes.
abbrev pub perform : VmContext → Bytes → DecodedInstruction → Result
perform ctx bytes out =
    let (ctx', decoded, status) = decode_instruction ctx bytes out in execute_bytecode ctx' decoded

-- Of the opcodes that `decode_instruction` accepts, those from 4 to 24 and 255 have no handler:
-- the decoding succeeds, and the execution calls a null pointer.
pub perform_no_handler :
    (ctx : VmContext) (opcode : ℕ) (rest : Bytes) (out : DecodedInstruction)
    → ((4 ≤ opcode) × (opcode ≤ 24)) ⊎ (opcode ≡ 255)
    → ((decode_instruction ctx (opcode ∷ rest) out).2 ≡ vm_exit_success)
      × (perform ctx (opcode ∷ rest) out ≡ fault null_handler)
unfolding decode_instruction
perform_no_handler ctx opcode rest out h = elim (opcode_info_cases opcode) [
  | inl (known, info, e) ↦
      (rw (e, decode_by) refl, rw (e, decode_by) (unfold execute_bytecode in ground arith))
  | inr (above, ne, e) ↦ absurd (omega arith)
]

-- `LOAD_ADDR` into a register has no effect, whatever its source operand is: but for the line that
-- the decoder prints, the machine is as before, with status 0.
pub perform_load_addr :
    (ctx : VmContext) (out : DecodedInstruction) (low global imm n : ℕ) (src : Operand)
    → low < 2
    → global < 2
    → perform ctx (encode op_load_addr low global imm (register n) src) out
      ≡ ok (print ctx (src_mode_message (mode_bits src)), 0)
unfolding decode_instruction decode_by opcode_info execute_bytecode
perform_load_addr ctx out low global imm n src l g =
    rw
      (
        (metadata_fields low global (register n) src l g).0,
        (metadata_fields low global (register n) src l g).1,
      )
      refl

-- `MOV R_n, v` puts the 32-bit immediate `v` into the register `n`, if there is a register `n`;
-- for any other byte `n` it writes outside the registers.
pub perform_mov_immediate :
    (ctx : VmContext) (out : DecodedInstruction) (low global v n : ℕ)
    → low < 2
    → global < 2
    → v < u32_mod
    → let printed = print ctx (src_mode_message 1) in
      let done = perform ctx (encode op_mov low global v (register n) (integer v)) out in
      ((n < length ctx.registers)
        × (done ≡ ok (record printed { registers = set ctx.registers n v }, 0)))
      ⊎ ((length ctx.registers ≤ n) × (done ≡ fault register_out_of_bounds))
unfolding decode_instruction decode_by opcode_info execute_bytecode
perform_mov_immediate ctx out low global v n l g b =
    let (dest, src) = metadata_fields low global (register n) (integer v) l g in
    let whole : v % 256 + v / 256 * 256 ≡ v = omega arith in
    rw (dest, src, le32-bytes32 v b, whole) (move_to_cases (print ctx (src_mode_message 1)) n v)

-- `MOV R_n, [R_m + offset]` does the same for every offset that its bytes give.
perform_mov_based :
    (ctx : VmContext) (out : DecodedInstruction) (low global offset offset' n m : ℕ)
    → low < 2
    → global < 2
    → perform ctx (encode op_mov low global offset (register n) (based m offset)) out
      ≡ perform ctx (encode op_mov low global offset' (register n) (based m offset')) out
unfolding decode_instruction decode_by opcode_info execute_bytecode
perform_mov_based ctx out low global offset offset' n m l g =
    let (dest, src) = metadata_fields low global (register n) (based m offset) l g in
    rw (dest, src) refl

-- The number that `handle_mov` takes for the offset of `[R_m + offset]`: the four bytes that start
-- with the register's, of which `decode_instruction` leaves three as they were.
abbrev pub taken_offset : DecodedInstruction → ℕ → ℕ
taken_offset out m = address_or_value (record out.operand_1.value { reg_id = m })

perform-mov_based :
    (ctx : VmContext) (out : DecodedInstruction) (low global offset n m : ℕ)
    → low < 2
    → global < 2
    → let printed = print ctx (src_mode_message 6) in
      perform ctx (encode op_mov low global offset (register n) (based m offset)) out
      ≡ (read_register printed m >>= λ base. mov_based printed n base (taken_offset out m))
unfolding decode_instruction decode_by opcode_info execute_bytecode handle_mov
perform-mov_based ctx out low global offset n m l g =
    let (dest, src) = metadata_fields low global (register n) (based m offset) l g in
    rw (dest, src) refl

-- `MOV R_n, [R_m + offset]`, where both registers exist, never uses the offset that its bytes give.
-- The address is the value of `R_m` plus the number `m` and what the three bytes above it held
-- before. The word there goes into `R_n` where it lies within the memory; an address or a base
-- from `mem_size` on is refused with status 103; at the last three addresses the read goes outside
-- the memory.
pub perform_mov_based_cases :
    (ctx : VmContext) (out : DecodedInstruction) (low global offset n m base : ℕ)
    → low < 2
    → global < 2
    → n < length ctx.registers
    → get_elem? ctx.registers m ≡ some base
    → let printed = print ctx (src_mode_message 6) in
      let a = u32 (base + taken_offset out m) in
      let done = perform ctx (encode op_mov low global offset (register n) (based m offset)) out in
      ((base < mem_size)
        × (a + 4 ≤ mem_size)
        × (done ≡ ok (record printed { registers = set ctx.registers n (word_at ctx a) }, 0)))
      ⊎ (((mem_size ≤ base) ⊎ (mem_size ≤ a)) × (done ≡ ok (printed, 103)))
      ⊎ ((base < mem_size)
          × (a < mem_size)
          × (mem_size < a + 4)
          × (done ≡ fault memory_out_of_bounds))
unfolding read_register
perform_mov_based_cases ctx out low global offset n m base l g h at =
    let printed = print ctx (src_mode_message 6) in
    let loaded : read_register printed m ≡ ok base = rw (at, read_register) refl in
    rw (perform-mov_based ctx out low global offset n m l g, loaded, ◌>>=◌)
      (mov_based_cases printed n base (taken_offset out m) h)
