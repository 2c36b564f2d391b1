-- ===== src/Vm/Run/Rounds.antt =====
-- What one round of the loop of `run_vm` may do.
use mathlib.Core.Path.{subst}
use bitcode.Base.{
  u32_mod, ℕ, ◌+◌, ◌<◌, ◌≤◌, ◌≡◌, ◌⊎◌, inl, inr, refl, Outcome, ok, exited, fault, ◌>>=◌, arith,
  Bytes, sym, ◌∙◌, Fault,
}
use bitcode.Vm.Decode.Fetch.{fetch_instruction_total}
use bitcode.Vm.Decode.Operands.{window-AreBytes, Decodes, decode_instruction-Decodes}
use bitcode.Vm.Handlers.Ensures.{Ensures, returns, faults, IsValid, Frame, state-Kept}
use bitcode.Vm.Handlers.Invariant.{IsUnion, Handled, execute_bytecode-Handled}
use bitcode.Vm.Layout.{memory_limit, instruction_size}
use bitcode.Vm.Run.{
  Loop, Round, next, return, after_execute, execute_decoded, decode_fetched, round,
}
use bitcode.Vm.State.{VmContext, halted, soft_error, DecodedInstruction}

-- The invariant of the loop.
pub record IsReady (l : Loop) : Type 0 where
  pub valid : IsValid l.ctx
  pub union : IsUnion l.decoded_instruction.operand_1.value

-- The machine apart from what a round changes: state, registers, `pc` and stdout.
pub record Same (before after : VmContext) : Type 0 where
  pub memory : after.memory ≡ before.memory
  pub sp : after.sp ≡ before.sp
  pub bp : after.bp ≡ before.bp
  pub hp : after.hp ≡ before.hp
  pub flags : after.flags ≡ before.flags

-- How the function may be left: at the end of the code with status 0, or with the status of a
-- non-fatal error.
abbrev pub Leaves : VmContext → ℕ → Type 0
Leaves ctx status =
    ((status ≡ 0) × (ctx.state ≡ halted))
    ⊎ (((status ≡ 103) ⊎ (status ≡ 113)) × (ctx.state ≡ soft_error))

-- `from` is the loop at the start of the round; the fatal error is the unknown opcode.
pub data Steps (from : Loop) : Outcome Round → Type 0 where
  goes_on :
      (l : Loop)
      → IsReady l
      → Same from.ctx l.ctx
      → (l.ctx.state ≡ from.ctx.state) ⊎ (l.ctx.state ≡ halted)
      → from.ctx.pc ≤ memory_limit
      → l.ctx.pc ≡ from.ctx.pc + instruction_size
      → Steps from (ok (next l))
  leaves :
      (ctx : VmContext) (status : ℕ)
      → IsValid ctx
      → Same from.ctx ctx
      → Leaves ctx status
      → Steps from (ok (return ctx status))
  ends : (out : Bytes) → Steps from (exited 4 out)
  stuck : (e : Fault) → Steps from (fault e)

Same-Frame : {a b c : VmContext} → Same a b → Frame b c → Same a c
Same-Frame s f = record {
  memory = f.memory ∙ s.memory;
  sp = f.sp ∙ s.sp;
  bp = f.bp ∙ s.bp;
  hp = f.hp ∙ s.hp;
  flags = f.flags ∙ s.flags;
}

pub Same-trans : {a b c : VmContext} → Same a b → Same b c → Same a c
Same-trans s t = record {
  memory = t.memory ∙ s.memory;
  sp = t.sp ∙ s.sp;
  bp = t.bp ∙ s.bp;
  hp = t.hp ∙ s.hp;
  flags = t.flags ∙ s.flags;
}

module _ (from : Loop) (low : from.ctx.pc ≤ memory_limit) where
  after_execute-Steps :
      (l : Loop) (result : VmContext × ℕ)
      → IsReady l
      → Same from.ctx l.ctx
      → l.ctx.pc ≡ from.ctx.pc + instruction_size
      → l.ctx.state ≡ from.ctx.state
      → Handled l.ctx result
      → Steps from (after_execute l result)
  unfolding after_execute
  after_execute-Steps l (ctx, status) ready same pc state h = elim h.status_is [
    | inl e ↦
        subst (λ s. Steps from (after_execute l (ctx, s))) (sym e)
          (goes_on (record l { ctx = ctx }) (record { valid = h.valid; union = ready.union })
            (Same-Frame same h.frame) (kept_or_halted h.state_is) low (h.frame.pc ∙ pc))
    | inr (inl e) ↦
        subst (λ s. Steps from (after_execute l (ctx, s))) (sym e)
          (leaves (record ctx { state = soft_error }) 103 soft_valid soft_same
            (inr (inl refl, refl)))
    | inr (inr e) ↦
        subst (λ s. Steps from (after_execute l (ctx, s))) (sym e)
          (leaves (record ctx { state = soft_error }) 113 soft_valid soft_same
            (inr (inr refl, refl)))
  ]
    where
      kept_or_halted :
          (ctx.state ≡ l.ctx.state) ⊎ (ctx.state ≡ halted)
          → (ctx.state ≡ from.ctx.state) ⊎ (ctx.state ≡ halted)
      kept_or_halted (inl e) = inl (e ∙ state)
      kept_or_halted (inr e) = inr e

      soft_valid : IsValid (record ctx { state = soft_error })
      soft_valid = (state-Kept ctx h.valid soft_error).1

      soft_same : Same from.ctx (record ctx { state = soft_error })
      soft_same = Same-Frame (Same-Frame same h.frame) (state-Kept ctx h.valid soft_error).0

  bind-Steps :
      (l : Loop) {m : Outcome (VmContext × ℕ)}
      → IsReady l
      → Same from.ctx l.ctx
      → l.ctx.pc ≡ from.ctx.pc + instruction_size
      → l.ctx.state ≡ from.ctx.state
      → Ensures (Handled l.ctx) m
      → Steps from (m >>= after_execute l)
  bind-Steps l ready same pc state (returns result h) =
      after_execute-Steps l result ready same pc state h
  bind-Steps l ready same pc state (faults e) = stuck e

  execute_decoded-Steps :
      (l : Loop) (result : VmContext × DecodedInstruction × ℕ)
      → Same from.ctx l.ctx
      → l.ctx.pc ≡ from.ctx.pc + instruction_size
      → l.ctx.state ≡ from.ctx.state
      → Decodes l.ctx result
      → Steps from (execute_decoded l result)
  unfolding execute_decoded
  execute_decoded-Steps l (ctx, decoded, status) same pc state d = elim d.status_is [
    | inl (e, same_state) ↦
        subst (λ s. Steps from (execute_decoded l (ctx, decoded, s))) (sym e)
          (bind-Steps _ (record { valid = d.valid; union = d.union }) (Same-Frame same d.frame)
            (d.frame.pc ∙ pc) (same_state ∙ state)
            (execute_bytecode-Handled ctx d.valid decoded d.union))
    | inr e ↦ subst (λ s. Steps from (execute_decoded l (ctx, decoded, s))) (sym e) (ends _)
  ]

moved-IsValid :
    (ctx : VmContext) (pc : ℕ) → IsValid ctx → pc < u32_mod → IsValid (record ctx { pc = pc })
moved-IsValid ctx pc v h = record {
  register_count = v.register_count;
  registers_fit = v.registers_fit;
  memory_bytes = v.memory_bytes;
  pc_fits = h;
}

-- From a well-formed machine, a round of the loop does one of four things: it goes on with a
-- well-formed machine whose `pc` was within `memory_limit` and is 8 more, in the same state or
-- halted; it leaves the function, with status 0 and the machine halted, or with 103 or 113 in the
-- state `soft_error`; it ends the process with 4; or it reaches undefined behaviour. In the first
-- two it leaves the memory, `sp`, `bp`, `hp` and the flags alone.
pub round-Steps : (l : Loop) → IsReady l → Steps l (round l)
unfolding round decode_fetched
round-Steps l ready = elim (fetch_instruction_total l.ctx l.raw_instruction) [
  | inl (low, _, e) ↦
      let valid = moved-IsValid l.ctx (l.ctx.pc + instruction_size) ready.valid (omega arith) in
      rw (e, round)
        (execute_decoded-Steps l low _ _
          (record { memory = refl; sp = refl; bp = refl; hp = refl; flags = refl }) refl refl
          (decode_instruction-Decodes _ _ l.decoded_instruction valid
            (window-AreBytes l.ctx.memory l.ctx.pc instruction_size ready.valid.memory_bytes)
            ready.union))
  | inr (above, e) ↦
      rw (e, round)
        (leaves (record l.ctx { state = halted }) 0 (state-Kept l.ctx ready.valid halted).1
          (record { memory = refl; sp = refl; bp = refl; hp = refl; flags = refl })
          (inl (refl, refl)))
]
