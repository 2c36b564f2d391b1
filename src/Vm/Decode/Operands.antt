-- ===== src/Vm/Decode/Operands.antt =====
-- What `decode_instruction` keeps of the machine and of the operand that it fills.
use bitcode.Base.{
  ℕ, ◌<◌, ◌≡◌, ◌⊎◌, inl, inr, refl, sym, Bytes, All, All-get_or, arith, le32-lt, get_or, ◌==◌,
  Bool-cases, u8_mod, zero, suc, ◌+◌,
}
use mathlib.Core.Path.{subst}
use bitcode.InstructionFormat.{OpcodeInfo, opcode_info_cases}
use bitcode.Vm.Decode.{
  report_src_mode, decode_by, decode_instruction, decode_src, populate_operand, to_mode,
  get_src_mode, immediate,
}
use bitcode.Vm.Handlers.Ensures.{IsValid, Frame, Frame-refl, IsWord, Kept, print-Kept, state-Kept}
use bitcode.Vm.Handlers.Invariant.{IsUnion}
use bitcode.Vm.State.{
  VmContext, VmOperand, VmAddressingMode, OperandUnion, DecodedInstruction, fatal_error, window,
  reg_direct,
}

abbrev pub AreBytes : Bytes → Type 0
AreBytes = All (λ b. b < u8_mod)

pub window-AreBytes : (m : ℕ → ℕ) (a n : ℕ) → ((i : ℕ) → m i < u8_mod) → AreBytes (window m a n)
window-AreBytes m a zero h = tt
window-AreBytes m a (suc n) h = (h a, window-AreBytes m (a + 1) n h)

get_or-lt : (bytes : Bytes) (i : ℕ) → AreBytes bytes → get_or bytes i 0 < u8_mod
get_or-lt bytes i h = All-get_or _ bytes i 0 h (omega arith)

immediate-IsWord : (bytes : Bytes) → AreBytes bytes → IsWord (immediate bytes)
immediate-IsWord bytes h =
    le32-lt _ _ _ _ (get_or-lt bytes 3 h) (get_or-lt bytes 4 h) (get_or-lt bytes 5 h)
      (get_or-lt bytes 6 h)

populate_operand-IsUnion :
    (m : VmAddressingMode) (u : OperandUnion) (raw_id_byte imm : ℕ)
    → IsUnion u
    → raw_id_byte < u8_mod
    → IsWord imm
    → IsUnion (populate_operand m u raw_id_byte imm)
unfolding populate_operand
populate_operand-IsUnion reg_direct u raw_id_byte imm h r w = omega arith
populate_operand-IsUnion _ u raw_id_byte imm h r w = omega arith

decode_src-IsUnion :
    (info : OpcodeInfo) (bytes : Bytes) (old : VmOperand)
    → AreBytes bytes
    → IsUnion old.value
    → IsUnion (decode_src info bytes old).value
unfolding decode_src
decode_src-IsUnion info bytes old b h = elim (Bool-cases (info.operand_count == 2)) [
  | inl e ↦
      rw (e, decode_src)
        (populate_operand-IsUnion (to_mode (get_src_mode (get_or bytes 7 0))) old.value _ _ h
          (get_or-lt bytes 2 b) (immediate-IsWord bytes b))
  | inr e ↦ rw (e, decode_src) h
]

-- The parts of a decoding that later steps rely on.
pub record Decodes (before : VmContext) (result : VmContext × DecodedInstruction × ℕ) : Type 0 where
  pub frame : Frame before result.0
  pub valid : IsValid result.0
  pub union : IsUnion result.1.operand_1.value
  pub status_is : ((result.2 ≡ 0) × (result.0.state ≡ before.state)) ⊎ (result.2 ≡ 4)

report_src_mode-Kept :
    (ctx : VmContext) (info : OpcodeInfo) (m : ℕ)
    → IsValid ctx
    → Kept ctx (report_src_mode ctx info m) × ((report_src_mode ctx info m).state ≡ ctx.state)
unfolding report_src_mode
report_src_mode-Kept ctx info m valid = elim (Bool-cases (info.operand_count == 2)) [
  | inl e ↦ rw (e, report_src_mode) (print-Kept ctx valid _, refl)
  | inr e ↦ rw (e, report_src_mode) ((Frame-refl ctx, valid), refl)
]

pub decode_instruction-Decodes :
    (ctx : VmContext) (bytes : Bytes) (out : DecodedInstruction)
    → IsValid ctx
    → AreBytes bytes
    → IsUnion out.operand_1.value
    → Decodes ctx (decode_instruction ctx bytes out)
unfolding decode_instruction decode_by
decode_instruction-Decodes ctx bytes out valid b h = elim (opcode_info_cases (get_or bytes 0 0)) [
  | inl (_, info, e) ↦
      let kept = report_src_mode-Kept ctx info (get_or bytes 7 0) valid in
      subst (λ o. Decodes ctx (decode_by o ctx bytes out)) (sym e)
        (record {
          frame = kept.0.0;
          valid = kept.0.1;
          union = decode_src-IsUnion info bytes out.operand_1 b h;
          status_is = inl (refl, kept.1);
        })
  | inr (_, _, e) ↦
      let kept = state-Kept ctx valid fatal_error in
      subst (λ o. Decodes ctx (decode_by o ctx bytes out)) (sym e)
        (record { frame = kept.0; valid = kept.1; union = h; status_is = inr refl })
]
