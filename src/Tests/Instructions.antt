-- ===== src/Tests/Instructions.antt =====
-- Decoding and executing single instructions.
use bitcode.Vm.Layout.{
  memory_limit, instruction_size, mem_size, vm_exit_success, vm_err_pc_out_of_bounds,
  vm_err_opcode_not_found,
}
use bitcode.Vm.State.{print, window, fatal_error}
use bitcode.Base.{
  ℕ, ◌≡◌, ◌⊎◌, inl, refl, [], ◌∷◌, ok, fault, null_handler, arith, ◌≤◌, ◌+◌, some, set,
  if◌then◌else◌, ◌<◌, ◌≢◌, leb, memory_out_of_bounds, none, ◌==◌,
}
use bitcode.InstructionFormat.{OpcodeInfo, opcode_info, op_mov, op_load_addr, OpcodeInfo}
use bitcode.Vm.Decode.{src_mode_message, fetch_instruction, decode_instruction}
use bitcode.Vm.Decode.Fetch.{fetch_instruction_total}
use bitcode.Vm.Decode.RoundTrip.{
  register, address, integer, based, decode_instruction-encode, decode_instruction_known, encode,
  view, mode_bits, address,
}
use bitcode.Vm.Handlers.{mov_from, execute_bytecode}
use bitcode.Vm.Handlers.Ensures.{Ensures}
use bitcode.Vm.Handlers.Invariant.{Handled, execute_bytecode-Handled}
use bitcode.Vm.Handlers.Mov.{word_at, mov_from_cases}
use bitcode.Vm.Handlers.Programs.{
  perform, perform_no_handler, perform_load_addr, perform_mov_based_cases,
}
use bitcode.Tests.Machine.{machine, machine-IsValid, no_instruction, blank-IsUnion, program}

-- `mov r3, 0x01020304` decoded: a register and the 32-bit immediate.
mov_program : (decode_instruction machine program no_instruction).2 ≡ 0
unfolding decode_instruction opcode_info
mov_program = refl

-- An instruction at the start, and one past the limit.
fetch_instruction_total_example :
    ((machine.pc ≤ memory_limit)
      × (machine.pc + instruction_size ≤ mem_size)
      × (fetch_instruction machine []
          ≡ ok (
            record machine { pc = machine.pc + instruction_size },
            window machine.memory machine.pc instruction_size,
            vm_exit_success,
          )))
    ⊎ ((memory_limit < machine.pc)
        × (fetch_instruction machine [] ≡ ok (machine, [], vm_err_pc_out_of_bounds)))
fetch_instruction_total_example = fetch_instruction_total machine []

mov_info : (info : OpcodeInfo) × (opcode_info op_mov ≡ some info)
unfolding opcode_info
mov_info = (_, refl)

decode_instruction-encode_example :
    let (ctx', decoded, status) =
      decode_instruction machine (encode op_mov 0 0 5 (register 3) (integer 5)) no_instruction in
    (status ≡ vm_exit_success)
    × (decoded.opcode ≡ op_mov)
    × (view decoded.operand_0
        ≡ (if leb 1 mov_info.0.operand_count then some (register 3) else none))
    × (view decoded.operand_1 ≡ (if mov_info.0.operand_count == 2 then some (integer 5) else none))
    × (ctx'.state ≡ machine.state)
    × (ctx'.registers ≡ machine.registers)
    × (ctx'.memory ≡ machine.memory)
    × (ctx'.pc ≡ machine.pc)
decode_instruction-encode_example =
    decode_instruction-encode 0 0 5 op_mov (register 3) (integer 5) (omega arith) (omega arith)
      (omega arith) tt refl machine no_instruction mov_info.0 mov_info.1

abbrev unassigned : ℕ
unassigned = 26

decode_instruction_known_example :
    let (ctx', decoded, status) = decode_instruction machine (unassigned ∷ []) no_instruction in
    (((unassigned ≤ 25) ⊎ (unassigned ≡ 255))
      × (status ≡ vm_exit_success)
      × (ctx'.state ≡ machine.state))
    ⊎ ((25 < unassigned)
        × (unassigned ≢ 255)
        × (status ≡ vm_err_opcode_not_found)
        × (ctx'.state ≡ fatal_error))
decode_instruction_known_example = decode_instruction_known machine unassigned [] no_instruction

execute_bytecode-Handled_example :
    Ensures (Handled machine) (execute_bytecode machine no_instruction)
execute_bytecode-Handled_example =
    execute_bytecode-Handled machine machine-IsValid no_instruction blank-IsUnion

mov_from_cases_example :
    ((8 + 4 ≤ mem_size)
      × (mov_from machine 3 8
          ≡ ok (record machine { registers = set machine.registers 3 (word_at machine 8) }, 0)))
    ⊎ ((mem_size < 8) × (mov_from machine 3 8 ≡ ok (machine, 103)))
    ⊎ ((mem_size < 8 + 4) × (8 ≤ mem_size) × (mov_from machine 3 8 ≡ fault memory_out_of_bounds))
mov_from_cases_example = mov_from_cases machine 3 8 (omega arith)

perform_no_handler_example :
    ((decode_instruction machine (4 ∷ []) no_instruction).2 ≡ vm_exit_success)
    × (perform machine (4 ∷ []) no_instruction ≡ fault null_handler)
perform_no_handler_example =
    perform_no_handler machine 4 [] no_instruction (inl (omega arith, omega arith))

perform_load_addr_example :
    perform machine (encode op_load_addr 0 0 64 (register 1) (address 64)) no_instruction
    ≡ ok (print machine (src_mode_message (mode_bits (address 64))), 0)
perform_load_addr_example =
    perform_load_addr machine no_instruction 0 0 64 1 (address 64) (omega arith) (omega arith)

perform_mov_based_cases_example :
    let printed = print machine (src_mode_message 6) in
    let done = perform machine (encode op_mov 0 0 16 (register 2) (based 5 16)) no_instruction in
    ((0 < mem_size)
      × (5 + 4 ≤ mem_size)
      × (done ≡ ok (record printed { registers = set machine.registers 2 (word_at machine 5) }, 0)))
    ⊎ (((mem_size ≤ 0) ⊎ (mem_size ≤ 5)) × (done ≡ ok (printed, 103)))
    ⊎ ((0 < mem_size) × (5 < mem_size) × (mem_size < 5 + 4) × (done ≡ fault memory_out_of_bounds))
perform_mov_based_cases_example =
    perform_mov_based_cases machine no_instruction 0 0 16 2 5 0 (omega arith) (omega arith)
      (omega arith) refl
