-- ===== src/Vm/Machine/Commands.antt =====
-- The commands and their bytes, for src/vm/vm.c.
use bitcode.Vm.Handlers.Programs.{perform_load_addr, perform_mov_immediate}
use bitcode.Vm.Strings.{vm_print_string}
use bitcode.Base.{
  ℕ, ◌+◌, ◌*◌, ◌/◌, ◌%◌, ◌<◌, ◌≡◌, refl, Outcome, ok, ◌>>=◌, arith, length, get_or, get_elem?, some,
  u32_mod, le32-bytes32, Bytes, List, [], ◌∷◌, ◌++◌, exited, fault, Bool-cases, ltb, inl, ◌-◌, inr,
}
use bitcode.InstructionFormat.{opcode_info}
use bitcode.Vm.Decode.{decode_instruction, decode_by, src_mode_message}
use bitcode.Vm.Decode.RoundTrip.{Operand}
use bitcode.Vm.Handlers.{Result, execute_bytecode, mov_from, print_at}
use bitcode.Vm.Handlers.Mov.{mov_from_cases}
use bitcode.Vm.Machine.{
  Command, mov_integer, mov_register, mov_address, mov_indirect, load_addr, print_chr, print_str_in,
  print_str_at, halt_bytes, View, view_of, effect, IsCommand, assemble, load, say, immediate_of,
  print_text, mem_size, print_from,
}
use bitcode.Vm.State.{
  VmContext, DecodedInstruction, read_register, write_register, load_word, print, halted,
}

-- A result of the abstract machine, on the machine that it is a view of.
abbrev pub realise : VmContext → Outcome (View × ℕ) → Result
realise ctx r = r >>= λ p. ok (record ctx { registers = p.0.registers; stdout = p.0.stdout }, p.1)

-- The bytes are decoded without an error, and the decoded instruction has the effect.
abbrev pub Performs : VmContext → Command → DecodedInstruction → Type 0
Performs ctx c out =
    let (ctx', decoded, status) = decode_instruction ctx (assemble c) out in
    (status ≡ 0)
    × (ctx'.state ≡ ctx.state)
    × (execute_bytecode ctx' decoded ≡ realise ctx (effect ctx.memory (view_of ctx) c))

get_elem?-get_or : (xs : List ℕ) (i : ℕ) → i < length xs → get_elem? xs i ≡ some (get_or xs i 0)
get_elem?-get_or [] i h = absurd (omega arith)
get_elem?-get_or (x ∷ xs) ℕ.zero h = refl
get_elem?-get_or (x ∷ xs) (ℕ.suc i) h = get_elem?-get_or xs i (omega arith)

module _ (ctx : VmContext) (eight : length ctx.registers ≡ 8) where
  stored : (i : ℕ) → i < 8 → get_elem? ctx.registers i ≡ some (get_or ctx.registers i 0)
  stored i h = get_elem?-get_or ctx.registers i (omega arith)

  mov_integer-Performs :
      (n x : ℕ) (out : DecodedInstruction)
      → n < 8
      → x < u32_mod
      → Performs ctx (mov_integer n x) out
  unfolding decode_instruction opcode_info
  mov_integer-Performs n x out h b = (
    refl,
    refl,
    elim (perform_mov_immediate ctx out 0 0 x n (omega arith) (omega arith) b) [
      | inl (wide, e) ↦ e
      | inr (narrow, e) ↦ absurd (omega arith)
    ],
  )

  mov_register-Performs :
      (n k : ℕ) (out : DecodedInstruction) → n < 8 → k < 8 → Performs ctx (mov_register n k) out
  unfolding decode_instruction decode_by opcode_info execute_bytecode read_register write_register
  mov_register-Performs n k out h g =
      (refl, refl, rw (read_register, stored k g, write_register, stored n h) refl)

  mov_from-load :
      (text : Bytes) (n a : ℕ)
      → n < 8
      → mov_from (print ctx text) n a ≡ realise ctx (load ctx.memory (say (view_of ctx) text) n a)
  unfolding mov_from load_word
  mov_from-load text n a h =
      let wide : n < length ctx.registers = omega arith in
      ground (arith, mov_from_cases (print ctx text) n a wide)

  mov_address-Performs :
      (n a : ℕ) (out : DecodedInstruction)
      → n < 8
      → a < u32_mod
      → Performs ctx (mov_address n a) out
  unfolding decode_instruction decode_by opcode_info execute_bytecode
  mov_address-Performs n a out h b =
      let whole : a % 256 + a / 256 * 256 ≡ a = omega arith in
      (refl, refl, rw (le32-bytes32 a b, whole) (mov_from-load (src_mode_message 2) n a h))

  mov_indirect-Performs :
      (n k : ℕ) (out : DecodedInstruction) → n < 8 → k < 8 → Performs ctx (mov_indirect n k) out
  unfolding decode_instruction decode_by opcode_info execute_bytecode read_register
  mov_indirect-Performs n k out h g = (
    refl,
    refl,
    rw (read_register, stored k g)
        (mov_from-load (src_mode_message 4) n (get_or ctx.registers k 0) h),
  )

  load_addr-Performs :
      (n : ℕ) (src : Operand) (out : DecodedInstruction) → Performs ctx (load_addr n src) out
  unfolding decode_instruction opcode_info
  load_addr-Performs n src out = (
    refl,
    refl,
    perform_load_addr ctx out 0 0 (immediate_of src) n src (omega arith) (omega arith),
  )

  print_chr-Performs : (n : ℕ) (out : DecodedInstruction) → n < 8 → Performs ctx (print_chr n) out
  unfolding decode_instruction decode_by opcode_info execute_bytecode read_register
  print_chr-Performs n out h = (refl, refl, rw (read_register, stored n h) refl)

  print_at-print_text :
      (a : ℕ) → print_at ctx a ≡ realise ctx (print_text ctx.memory (view_of ctx) a)
  unfolding vm_print_string
  print_at-print_text a = elim (Bool-cases (ltb a mem_size)) [
    | inl e ↦ rw (e, vm_print_string) (printed (print_from ctx.memory a (mem_size - a)))
    | inr e ↦ rw e refl
  ]
    where
      printed :
          (r : Outcome Bytes)
          → ((do ctx' ← r >>= λ text. ok (print ctx (text ++ b'\n' ∷ [])); ok (ctx', 0))
              ≡ realise ctx (r >>= λ text. ok (say (view_of ctx) (text ++ b'\n' ∷ []), 0)))
      printed (ok text) = refl
      printed (exited code out) = refl
      printed (fault e) = refl

  print_str_at-Performs :
      (a : ℕ) (out : DecodedInstruction) → a < u32_mod → Performs ctx (print_str_at a) out
  unfolding decode_instruction decode_by opcode_info execute_bytecode
  print_str_at-Performs a out b =
      let whole : a % 256 + a / 256 * 256 ≡ a = omega arith in
      (refl, refl, rw (le32-bytes32 a b, whole) (print_at-print_text a))

  print_str_in-Performs :
      (n : ℕ) (out : DecodedInstruction) → n < 8 → Performs ctx (print_str_in n) out
  unfolding decode_instruction decode_by opcode_info execute_bytecode read_register
  print_str_in-Performs n out h =
      (refl, refl, rw (read_register, stored n h) (print_at-print_text (get_or ctx.registers n 0)))

  -- From a machine with eight registers, the eight bytes of every command are decoded without an
  -- error, and executing them does to registers, output and status what the command says.
  pub perform-effect : (c : Command) (out : DecodedInstruction) → IsCommand c → Performs ctx c out
  perform-effect (mov_integer n x) out (h, b) = mov_integer-Performs n x out h b
  perform-effect (mov_register n k) out (h, g) = mov_register-Performs n k out h g
  perform-effect (mov_address n a) out (h, b) = mov_address-Performs n a out h b
  perform-effect (mov_indirect n k) out (h, g) = mov_indirect-Performs n k out h g
  perform-effect (load_addr n src) out h = load_addr-Performs n src out
  perform-effect (print_chr n) out h = print_chr-Performs n out h
  perform-effect (print_str_in n) out h = print_str_in-Performs n out h
  perform-effect (print_str_at a) out b = print_str_at-Performs a out b

-- The same for `halt`.
pub perform-halt :
    (ctx : VmContext) (out : DecodedInstruction)
    → let (ctx', decoded, status) = decode_instruction ctx halt_bytes out in
      (status ≡ 0) × (execute_bytecode ctx' decoded ≡ ok (record ctx { state = halted }, 0))
unfolding decode_instruction decode_by opcode_info execute_bytecode
perform-halt ctx out = (refl, refl)
