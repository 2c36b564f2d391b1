-- ===== src/Vm/Run/Termination.antt =====
-- The loop of `run_vm` ends, and how.
use bitcode.Base.{
  ℕ, zero, suc, ◌+◌, ◌*◌, ◌<◌, ◌≤◌, ◌≡◌, ◌⊎◌, inl, inr, refl, false, some, Outcome, ok, exited,
  fault, arith, Bytes, Fault, ◌∙◌, ap,
}
use bitcode.Vm.Layout.{memory_limit, instruction_size}
use bitcode.Vm.Run.{Loop, Round, round, run_loop, is_running, halted}
use bitcode.Vm.Run.Rounds.{
  IsReady, Same, Leaves, Steps, goes_on, leaves, ends, stuck as round_stuck, round-Steps,
  Same-trans,
}
use bitcode.Vm.Handlers.Ensures.{IsValid}
use bitcode.Vm.State.{VmContext, VmState, running}

-- How a run of the loop ends: it returns a status, or the process ends with the code of an unknown
-- opcode, or undefined behaviour is reached.
pub data Ends (from : VmContext) : Outcome (VmContext × ℕ) → Type 0 where
  returns :
      (ctx : VmContext) (status : ℕ)
      → IsValid ctx
      → Same from ctx
      → Leaves ctx status
      → Ends from (ok (ctx, status))
  exits : (out : Bytes) → Ends from (exited 4 out)
  faults : (e : Fault) → Ends from (fault e)

Ends-Same : {a b : VmContext} {r : Outcome (VmContext × ℕ)} → Same a b → Ends b r → Ends a r
Ends-Same s (returns ctx status v t l) = returns ctx status v (Same-trans s t) l
Ends-Same s (exits out) = exits out
Ends-Same s (faults e) = faults e

-- The state in which the test of the loop is read.
abbrev pub Entered : VmState → Type 0
Entered s = (s ≡ running) ⊎ (s ≡ halted)

-- With this fuel the loop has ended.
abbrev pub Terminates : ℕ → Loop → Type 0
Terminates fuel l = (r : Outcome (VmContext × ℕ)) × (run_loop fuel l ≡ some r) × Ends l.ctx r

pub run_loop_stopped :
    (fuel : ℕ) (l : Loop)
    → is_running l.ctx.state ≡ false
    → run_loop (suc fuel) l ≡ some (ok (l.ctx, 0))
unfolding run_loop
run_loop_stopped fuel l e = rw (e, run_loop) refl

-- One round, from what is known of the rounds behind it.
run_loop-round :
    (fuel : ℕ) (l : Loop) {m : Outcome Round}
    → l.ctx.state ≡ running
    → round l ≡ m
    → Steps l m
    → ((l' : Loop)
        → IsReady l'
        → (l'.ctx.state ≡ l.ctx.state) ⊎ (l'.ctx.state ≡ halted)
        → l.ctx.pc ≤ memory_limit
        → l'.ctx.pc ≡ l.ctx.pc + instruction_size
        → Terminates fuel l')
    → Terminates (suc fuel) l
unfolding run_loop
run_loop-round fuel l running_is e (goes_on l' ready same state low pc) rest =
    let (r, ran, how) = rest l' ready state low pc in
    (r, rw (running_is, e, run_loop) ran, Ends-Same same how)
run_loop-round fuel l running_is e (leaves ctx status valid same how) rest =
    (ok (ctx, status), rw (running_is, e, run_loop) refl, returns ctx status valid same how)
run_loop-round fuel l running_is e (ends out) rest =
    (exited 4 out, rw (running_is, e, run_loop) refl, exits out)
run_loop-round fuel l running_is e (round_stuck x) rest =
    (fault x, rw (running_is, e, run_loop) refl, faults x)

-- From a well-formed machine in the state running or halted, the loop has ended once its fuel is
-- not 0 and 8 times the fuel passes the rest of the way from `pc` to `memory_limit + 8`; it then
-- returns, ends the process with 4 or reaches undefined behaviour, and where it returns, the
-- machine is well formed and the memory, `sp`, `bp`, `hp` and the flags are as before.
pub run_loop-Terminates :
    (fuel : ℕ) (l : Loop)
    → IsReady l
    → Entered l.ctx.state
    → memory_limit + instruction_size < l.ctx.pc + instruction_size * fuel
    → (fuel ≡ 0 → ⊥)
    → Terminates fuel l
unfolding run_loop
run_loop-Terminates zero l ready entered h ne = absurd (ne refl)
run_loop-Terminates (suc fuel) l ready (inr e) h ne = (
  ok (l.ctx, 0),
  run_loop_stopped fuel l (ap is_running e),
  returns l.ctx 0 ready.valid
      (record { memory = refl; sp = refl; bp = refl; hp = refl; flags = refl }) (inl (refl, e)),
)
run_loop-Terminates (suc fuel) l ready (inl e) h ne =
    run_loop-round fuel l e refl (round-Steps l ready) λ l' ready' state low pc.
      run_loop-Terminates fuel l' ready' (next_state state) (omega arith) (λ z. omega arith)
  where
    next_state : {s : VmState} → (s ≡ l.ctx.state) ⊎ (s ≡ halted) → Entered s
    next_state (inl k) = inl (k ∙ e)
    next_state (inr k) = inr k
