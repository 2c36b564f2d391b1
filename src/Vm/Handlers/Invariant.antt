-- ===== src/Vm/Handlers/Invariant.antt =====
-- Every handler keeps the machine well formed.
use bitcode.InstructionFormat.{op_print_chr, op_print_str, op_mov, op_load_addr, op_halt}
use bitcode.Base.{
  Option, none, some, fault, null_handler, true, false, zero, suc, ℕ, ◌+◌, ◌<◌, ◌≡◌, ◌⊎◌, inl, inr,
  refl, ok, arith, u8_mod, u32_mod, u32, Bool-cases, ltb, Bytes, Bool, suc, if◌then◌else◌, ◌==◌,
  ◌-◌, Option, some,
}
use bitcode.InstructionFormat.{op_print_chr, op_print_str, op_mov, op_load_addr, op_halt}
use bitcode.Vm.Handlers.{
  handle_print_chr, handle_print_str, handle_mov, handle_load_addr, handle_halt, execute_bytecode,
  opcode_handler, mov_from, move_to, print_at, Result,
}
use bitcode.Vm.Handlers.Ensures.{
  print-Kept, state-Kept, Ensures, returns, faults, Ensures-bind, IsValid, Frame, Frame-refl,
  IsWord, read_register-IsWord, load_word-IsWord, write_register-Kept,
}
use bitcode.Vm.Strings.{print_from, vm_print_string}
use bitcode.Vm.Layout.{mem_size, vm_err_memory_out_of_bounds}
use bitcode.Vm.State.{
  VmContext, OperandUnion, DecodedInstruction, address_or_value, VmAddressingMode, reg_direct,
  imm_int, imm_addr, reg_indirect, base_offset, pc_relative, halted, print,
}

-- A status that a handler may return, and the state that goes with it.
pub record Handled (before : VmContext) (result : VmContext × ℕ) : Type 0 where
  pub frame : Frame before (result.0)
  pub valid : IsValid result.0
  pub state_is : (result.0.state ≡ before.state) ⊎ (result.0.state ≡ halted)
  pub status_is : (result.1 ≡ 0) ⊎ (result.1 ≡ 103) ⊎ (result.1 ≡ 113)

-- The bytes of an operand are bytes.
pub record IsUnion (u : OperandUnion) : Type 0 where
  pub id_fits : u.reg_id < u8_mod
  pub upper_fits : u.upper < 16777216
  pub offset_fits : u.offset < u32_mod

address_or_value-IsWord : (u : OperandUnion) → IsUnion u → IsWord (address_or_value u)
address_or_value-IsWord u h = omega arith

u32-IsWord : (n : ℕ) → IsWord (u32 n)
u32-IsWord n = omega arith

pub print_from-Ensures :
    (memory : ℕ → ℕ) (a left : ℕ) → Ensures (λ text. Unit {0}) (print_from memory a left)
unfolding print_from
print_from-Ensures memory a zero = faults _
print_from-Ensures memory a (suc left) = elim (Bool-cases (memory a == 0)) [
  | inl e ↦ rw (e, print_from) (returns _ tt)
  | inr e ↦
      rw (e, print_from)
        (Ensures-bind _ _ _ (print_from-Ensures memory (a + 1) left) λ rest _. returns _ tt)
]

module _ (ctx : VmContext) (valid : IsValid ctx) where
  unchanged :
      (status : ℕ) → (status ≡ 0) ⊎ (status ≡ 103) ⊎ (status ≡ 113) → Handled ctx (ctx, status)
  unchanged status h = record {
    frame = Frame-refl ctx;
    valid = valid;
    state_is = inl refl;
    status_is = h;
  }

  move_to-Handled : (dest v : ℕ) → IsWord v → Ensures (Handled ctx) (move_to ctx dest v)
  move_to-Handled dest v w = Ensures-bind _ _ _ (write_register-Kept ctx valid dest v w) λ ctx' k.
      returns _ (record { frame = k.0.0; valid = k.0.1; state_is = inl k.1; status_is = inl refl })

  mov_from-Handled : (dest address : ℕ) → Ensures (Handled ctx) (mov_from ctx dest address)
  unfolding mov_from
  mov_from-Handled dest address = elim (Bool-cases (ltb mem_size address)) [
    | inl e ↦ rw e (returns _ (unchanged 103 (inr (inl refl))))
    | inr e ↦
        rw e
          (Ensures-bind _ _ _ (load_word-IsWord ctx valid address) λ v w. move_to-Handled dest v w)
  ]

  guarded-Handled :
      (test : Bool) (r : Result)
      → Ensures (Handled ctx) r
      → Ensures (Handled ctx) (if test then ok (ctx, vm_err_memory_out_of_bounds) else r)
  guarded-Handled true r h = returns _ (unchanged 103 (inr (inl refl)))
  guarded-Handled false r h = h

  handle_mov-Handled :
      (instruction : DecodedInstruction) (m : VmAddressingMode)
      → instruction.operand_1.mode ≡ m
      → IsUnion instruction.operand_1.value
      → Ensures (Handled ctx) (handle_mov ctx instruction)
  unfolding handle_mov
  handle_mov-Handled instruction reg_direct e h =
      rw (e, handle_mov)
        (Ensures-bind _ _ _ (read_register-IsWord ctx valid _) λ v. move_to-Handled _ v)
  handle_mov-Handled instruction imm_int e h =
      rw (e, handle_mov) (move_to-Handled _ _ (address_or_value-IsWord _ h))
  handle_mov-Handled instruction imm_addr e h = rw (e, handle_mov) (mov_from-Handled _ _)
  handle_mov-Handled instruction reg_indirect e h =
      rw (e, handle_mov)
        (Ensures-bind _ _ _ (read_register-IsWord ctx valid _) λ v _. mov_from-Handled _ v)
  handle_mov-Handled instruction base_offset e h =
      rw (e, handle_mov)
        (Ensures-bind _ _ _ (read_register-IsWord ctx valid _) λ v _.
          guarded-Handled _ _
            (Ensures-bind _ _ _ (load_word-IsWord ctx valid _) λ w. move_to-Handled _ w))
  handle_mov-Handled instruction _ e h = rw (e, handle_mov) (returns _ (unchanged 0 (inl refl)))

  handle_load_addr-Handled :
      (instruction : DecodedInstruction) (m : VmAddressingMode)
      → instruction.operand_0.mode ≡ m
      → IsUnion instruction.operand_1.value
      → Ensures (Handled ctx) (handle_load_addr ctx instruction)
  unfolding handle_load_addr
  handle_load_addr-Handled instruction imm_addr e h =
      rw (e, handle_load_addr)
        (guarded-Handled _ _ (move_to-Handled _ _ (address_or_value-IsWord _ h)))
  handle_load_addr-Handled instruction reg_indirect e h =
      rw (e, handle_load_addr)
        (Ensures-bind _ _ _ (read_register-IsWord ctx valid _)
          λ v w. guarded-Handled _ _ (move_to-Handled _ v w))
  handle_load_addr-Handled instruction base_offset e h =
      rw (e, handle_load_addr)
        (Ensures-bind _ _ _ (read_register-IsWord ctx valid _)
          λ v w. guarded-Handled _ _ (move_to-Handled _ _ (u32-IsWord _)))
  handle_load_addr-Handled instruction pc_relative e h =
      rw (e, handle_load_addr) (move_to-Handled _ _ (u32-IsWord _))
  handle_load_addr-Handled instruction _ e h =
      rw (e, handle_load_addr) (returns _ (unchanged 0 (inl refl)))

  -- A context that differs in what it has printed.
  printed-Handled : (out : Bytes) → Handled ctx (print ctx out, 0)
  printed-Handled out =
      let kept = print-Kept ctx valid out in
      record { frame = kept.0; valid = kept.1; state_is = inl refl; status_is = inl refl }

  halted-Handled : Handled ctx (record ctx { state = halted }, 0)
  halted-Handled =
      let kept = state-Kept ctx valid halted in
      record { frame = kept.0; valid = kept.1; state_is = inr refl; status_is = inl refl }

  either :
      (test : Bool) {a b : Result}
      → Ensures (Handled ctx) a
      → Ensures (Handled ctx) b
      → Ensures (Handled ctx) (if test then a else b)
  either true h k = h
  either false h k = k

  vm_print_string-Handled :
      (address : ℕ) → Ensures (λ ctx'. Handled ctx (ctx', 0)) (vm_print_string ctx address)
  unfolding vm_print_string
  vm_print_string-Handled address =
      Ensures-bind _ _ _ (print_from-Ensures ctx.memory address (mem_size - address))
        λ text _. returns _ (printed-Handled _)

  print_at-Handled : (address : ℕ) → Ensures (Handled ctx) (print_at ctx address)
  print_at-Handled address =
      either _ (Ensures-bind _ _ _ (vm_print_string-Handled address) λ ctx' h. returns _ h)
        (returns _ (unchanged 0 (inl refl)))

  handle_print_chr-Handled :
      (instruction : DecodedInstruction) (m : VmAddressingMode)
      → instruction.operand_0.mode ≡ m
      → Ensures (Handled ctx) (handle_print_chr ctx instruction)
  unfolding handle_print_chr
  handle_print_chr-Handled instruction reg_direct e =
      rw (e, handle_print_chr)
        (Ensures-bind _ _ _ (read_register-IsWord ctx valid _) λ v w. returns _ (printed-Handled _))
  handle_print_chr-Handled instruction _ e =
      rw (e, handle_print_chr) (returns _ (unchanged 113 (inr (inr refl))))

  handle_print_str-Handled :
      (instruction : DecodedInstruction) (m : VmAddressingMode)
      → instruction.operand_0.mode ≡ m
      → Ensures (Handled ctx) (handle_print_str ctx instruction)
  unfolding handle_print_str
  handle_print_str-Handled instruction reg_indirect e =
      rw (e, handle_print_str)
        (Ensures-bind _ _ _ (read_register-IsWord ctx valid _) λ v _. print_at-Handled v)
  handle_print_str-Handled instruction imm_addr e = rw (e, handle_print_str) (print_at-Handled _)
  handle_print_str-Handled instruction _ e =
      rw (e, handle_print_str) (returns _ (unchanged 113 (inr (inr refl))))

  handle_halt-Handled :
      (instruction : DecodedInstruction) → Ensures (Handled ctx) (handle_halt ctx instruction)
  unfolding handle_halt
  handle_halt-Handled instruction =
      either _ (returns _ halted-Handled) (returns _ (unchanged 0 (inl refl)))

  -- A call of the entry of a table, as `execute_bytecode` makes it.
  abbrev call : DecodedInstruction → Option (VmContext → DecodedInstruction → Result) → Result
  call instruction entry = elim entry [
    | none ↦ fault null_handler
    | some handler ↦ handler ctx instruction
  ]

  call-Handled :
      (instruction : DecodedInstruction) (b : Bool)
      (handler : VmContext → DecodedInstruction → Result)
      (others : Option (VmContext → DecodedInstruction → Result))
      → Ensures (Handled ctx) (handler ctx instruction)
      → Ensures (Handled ctx) (call instruction others)
      → Ensures (Handled ctx) (call instruction (if b then some handler else others))
  call-Handled instruction true handler others h k = h
  call-Handled instruction false handler others h k = k

  -- On a well-formed machine and an operand of bytes, `execute_bytecode` never ends the process;
  -- where it returns, the machine is well formed, the memory, `pc`, `sp`, `bp`, `hp` and the flags
  -- are as before, stdout has only grown, the state is as before or halted, and the status is 0,
  -- 103 or 113.
  pub execute_bytecode-Handled :
      (instruction : DecodedInstruction)
      → IsUnion instruction.operand_1.value
      → Ensures (Handled ctx) (execute_bytecode ctx instruction)
  unfolding execute_bytecode opcode_handler
  execute_bytecode-Handled instruction h =
      call-Handled instruction (instruction.opcode == op_print_chr) handle_print_chr _
        (handle_print_chr-Handled instruction _ refl)
        (call-Handled instruction (instruction.opcode == op_print_str) handle_print_str _
          (handle_print_str-Handled instruction _ refl)
          (call-Handled instruction (instruction.opcode == op_mov) handle_mov _
            (handle_mov-Handled instruction _ refl h)
            (call-Handled instruction (instruction.opcode == op_load_addr) handle_load_addr _
              (handle_load_addr-Handled instruction _ refl h)
              (call-Handled instruction (instruction.opcode == op_halt) handle_halt _
                (handle_halt-Handled instruction) (faults _)))))
