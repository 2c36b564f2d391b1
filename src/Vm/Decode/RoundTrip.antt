-- ===== src/Vm/Decode/RoundTrip.antt =====
-- The instruction format: `decode_instruction` reads back what an encoder of the documented
-- layout writes.
use bitcode.Base.{
  ℕ, ◌+◌, ◌*◌, ◌<◌, ◌≤◌, ◌≡◌, ◌⊎◌, ◌≢◌, inl, inr, refl, Option, none, some, [], ◌∷◌, ◌++◌, Bytes,
  arith, u32_mod, bytes32, le32-bytes32, leb, ◌==◌, if◌then◌else◌,
}
use bitcode.InstructionFormat.{OpcodeInfo, opcode_info, opcode_info_cases}
use bitcode.Vm.Decode.{
  decode_instruction, decode_dest, decode_src, populate_operand, to_mode, get_dest_mode,
  get_src_mode,
}
use bitcode.Vm.Layout.{vm_exit_success, vm_err_opcode_not_found}
use bitcode.Vm.State.{
  VmContext, reg_direct, imm_int, imm_addr, reg_indirect, base_offset, pc_relative, OperandUnion,
  VmOperand, address_or_value, DecodedInstruction, fatal_error,
}

-- An operand as an assembler writer thinks of it.
pub data Operand : Type 0 where
  register integer address indirect relative : ℕ → Operand
  based : ℕ → ℕ → Operand

-- The operand that a mode and a union stand for, each mode with the member that is its own.
abbrev pub view : VmOperand → Option Operand
view operand = elim operand.mode [
  | reg_direct ↦ some (register operand.value.reg_id)
  | imm_int ↦ some (integer (address_or_value operand.value))
  | imm_addr ↦ some (address (address_or_value operand.value))
  | reg_indirect ↦ some (indirect operand.value.reg_id)
  | base_offset ↦ some (based operand.value.reg_id operand.value.offset)
  | pc_relative ↦ some (relative (address_or_value operand.value))
  | _ ↦ none
]

abbrev pub mode_bits : Operand → ℕ
mode_bits (register n) = 0b000
mode_bits (integer v) = 0b001
mode_bits (address v) = 0b010
mode_bits (indirect n) = 0b100
mode_bits (based n v) = 0b110
mode_bits (relative v) = 0b111

-- The operand's own byte; the modes without a register leave it 0.
abbrev pub id_byte : Operand → ℕ
id_byte (register n) = n
id_byte (indirect n) = n
id_byte (based n v) = n
id_byte _ = 0

-- The two operands share one immediate.
abbrev pub Fits : ℕ → Operand → Type 0
Fits imm (integer v) = v ≡ imm
Fits imm (address v) = v ≡ imm
Fits imm (relative v) = v ≡ imm
Fits imm (based n v) = v ≡ imm
Fits imm (register n) = Unit
Fits imm (indirect n) = Unit

-- `low` is the flag of bit 0 and `global` that of bit 7 of the metadata.
abbrev pub metadata : ℕ → ℕ → Operand → Operand → ℕ
metadata low global dest src = low + mode_bits src * 2 + mode_bits dest * 16 + global * 128

abbrev pub encode : ℕ → ℕ → ℕ → ℕ → Operand → Operand → Bytes
encode opcode low global imm dest src =
    opcode ∷ id_byte dest ∷ id_byte src ∷ (bytes32 imm ++ metadata low global dest src ∷ [])

mode_bits-lt : (o : Operand) → mode_bits o < 8
mode_bits-lt (register n) = omega arith
mode_bits-lt (integer v) = omega arith
mode_bits-lt (address v) = omega arith
mode_bits-lt (indirect n) = omega arith
mode_bits-lt (based n v) = omega arith
mode_bits-lt (relative v) = omega arith

-- The fields of the metadata byte do not overlap.
pub metadata_fields :
    (low global : ℕ) (dest src : Operand)
    → low < 2
    → global < 2
    → (get_dest_mode (metadata low global dest src) ≡ mode_bits dest)
      × (get_src_mode (metadata low global dest src) ≡ mode_bits src)
metadata_fields low global dest src l g = omega (arith, mode_bits-lt dest, mode_bits-lt src)

-- A populated operand shows what was encoded.
view-fill :
    (o : Operand) (old : OperandUnion) (imm : ℕ)
    → imm < u32_mod
    → Fits imm o
    → view (record {
      mode = to_mode (mode_bits o);
      value = populate_operand (to_mode (mode_bits o)) old (id_byte o) imm;
    })
      ≡ some o
unfolding to_mode populate_operand
view-fill (register n) old imm b f = refl
view-fill (integer v) old imm b f = ground arith
view-fill (address v) old imm b f = ground arith
view-fill (indirect n) old imm b f = refl
view-fill (based n v) old imm b f = ground arith
view-fill (relative v) old imm b f = ground arith

module _ (low global imm opcode : ℕ) (dest src : Operand) (l : low < 2) (g : global < 2)
    (b : imm < u32_mod) (fd : Fits imm dest) (fs : Fits imm src) where
  decode_dest-encode :
      (info : OpcodeInfo) (old : VmOperand)
      → view (decode_dest info (encode opcode low global imm dest src) old)
        ≡ (if leb 1 info.operand_count then some dest else none)
  unfolding decode_dest
  decode_dest-encode info old =
      rw ((metadata_fields low global dest src l g).0, le32-bytes32 imm b)
        (ground (arith, view-fill dest old.value imm b fd))

  decode_src-encode :
      (info : OpcodeInfo) (old : VmOperand)
      → view (decode_src info (encode opcode low global imm dest src) old)
        ≡ (if info.operand_count == 2 then some src else none)
  unfolding decode_src
  decode_src-encode info old =
      rw ((metadata_fields low global dest src l g).1, le32-bytes32 imm b)
        (ground (arith, view-fill src old.value imm b fs))

  -- For every opcode that the format table has, `decode_instruction` accepts the eight bytes that
  -- encode it with two operands whose immediate fits 32 bits, and gives back the opcode, the first
  -- operand if the opcode takes one and the second if it takes two; it leaves the state, the
  -- registers, the memory and `pc` alone, whatever `out` held before.
  pub decode_instruction-encode :
      (ctx : VmContext) (out : DecodedInstruction) (info : OpcodeInfo)
      → opcode_info opcode ≡ some info
      → let (ctx', decoded, status) =
          decode_instruction ctx (encode opcode low global imm dest src) out in
        (status ≡ vm_exit_success)
        × (decoded.opcode ≡ opcode)
        × (view decoded.operand_0 ≡ (if leb 1 info.operand_count then some dest else none))
        × (view decoded.operand_1 ≡ (if info.operand_count == 2 then some src else none))
        × (ctx'.state ≡ ctx.state)
        × (ctx'.registers ≡ ctx.registers)
        × (ctx'.memory ≡ ctx.memory)
        × (ctx'.pc ≡ ctx.pc)
  unfolding decode_instruction
  decode_instruction-encode ctx out info e =
      ground (arith, decode_dest-encode info out.operand_0, decode_src-encode info out.operand_1)

-- Of a byte, exactly the opcodes 0 to 25 and 255 are accepted; any other puts the machine in the
-- state `fatal_error`, with the status `vm_err_opcode_not_found`.
pub decode_instruction_known :
    (ctx : VmContext) (opcode : ℕ) (rest : Bytes) (out : DecodedInstruction)
    → let (ctx', decoded, status) = decode_instruction ctx (opcode ∷ rest) out in
      (((opcode ≤ 25) ⊎ (opcode ≡ 255)) × (status ≡ vm_exit_success) × (ctx'.state ≡ ctx.state))
      ⊎ ((25 < opcode)
          × (opcode ≢ 255)
          × (status ≡ vm_err_opcode_not_found)
          × (ctx'.state ≡ fatal_error))
unfolding decode_instruction
decode_instruction_known ctx opcode rest out = elim (opcode_info_cases opcode) [
  | inl (known, info, e) ↦
      inl (known, rw (e, decode_instruction) refl, rw (e, decode_instruction) (ground arith))
  | inr (above, ne, e) ↦
      inr (above, ne, rw (e, decode_instruction) refl, rw (e, decode_instruction) refl)
]
