-- ===== src/Vm/Run/Images.antt =====
-- The loop of `run_vm` (src/vm/vm.c) on a program of commands.
use bitcode.Vm.Run.Stored.{Stored, window-Stored, Stored-append}
use bitcode.Base.{
  ℕ, zero, suc, ◌+◌, ◌*◌, ◌<◌, ◌≤◌, ◌≡◌, refl, List, [], ◌∷◌, ◌++◌, Bytes, All, length, some,
  Outcome, ok, fault, Fault, arith, ◌>>=◌, inr, inl, ◌∙◌, if◌then◌else◌, ◌==◌,
}
use mathlib.Core.Path.{subst}
use mathlib.Core.List.{append_assoc}
use bitcode.Vm.Machine.Effects.{Effects, effect-Effects}
use bitcode.Vm.Decode.{decode_instruction}
use bitcode.Vm.Decode.Fetch.{fetch_instruction_total}
use bitcode.Vm.Layout.{memory_limit, instruction_size}
use bitcode.Vm.Machine.{
  Command, View, view_of, effect, evaluate, IsCommand, assemble, halt_bytes, image,
}
use bitcode.Vm.Machine.Commands.{realise, perform-effect, perform-halt}
use bitcode.Vm.Run.{Loop, round, decode_fetched, execute_decoded, after_execute, run_loop, next}
use bitcode.Vm.State.{VmContext, running, halted, soft_error, window}

pub length-assemble : (c : Command) → length (assemble c) ≡ 8
length-assemble (Command.mov_integer n x) = refl
length-assemble (Command.mov_register n k) = refl
length-assemble (Command.mov_address n a) = refl
length-assemble (Command.mov_indirect n k) = refl
length-assemble (Command.load_addr n src) = refl
length-assemble (Command.print_chr n) = refl
length-assemble (Command.print_str_in n) = refl
length-assemble (Command.print_str_at a) = refl

abbrev moved : VmContext → VmContext
moved ctx = record ctx { pc = ctx.pc + instruction_size }

-- The variables behind the decoding of a command.
abbrev decoded_of : Loop → Bytes → Loop
decoded_of l bytes =
    let (ctx, decoded, status) = decode_instruction (moved l.ctx) bytes l.decoded_instruction in
    record { ctx = ctx; raw_instruction = bytes; decoded_instruction = decoded }

round-command :
    (l : Loop) (c : Command)
    → length l.ctx.registers ≡ 8
    → IsCommand c
    → l.ctx.pc ≤ memory_limit
    → window l.ctx.memory l.ctx.pc 8 ≡ assemble c
    → round l
      ≡ realise (moved l.ctx) (effect l.ctx.memory (view_of l.ctx) c)
        >>= after_execute (decoded_of l (assemble c))
unfolding round decode_fetched execute_decoded
round-command l c eight h within bytes = elim (fetch_instruction_total l.ctx l.raw_instruction) [
  | inr (past, e) ↦ absurd (omega arith)
  | inl (below, room, e) ↦
      let (status, state, exec) = perform-effect (moved l.ctx) eight c l.decoded_instruction h in
      rw (e, round, bytes, decode_fetched, execute_decoded, status, exec) refl
]

round-halt :
    (l : Loop)
    → l.ctx.pc ≤ memory_limit
    → window l.ctx.memory l.ctx.pc 8 ≡ halt_bytes
    → round l
      ≡ ok (
          next (record (decoded_of l halt_bytes) { ctx = record (moved l.ctx) { state = halted } }))
unfolding round decode_fetched execute_decoded after_execute
round-halt l within bytes = elim (fetch_instruction_total l.ctx l.raw_instruction) [
  | inr (past, e) ↦ absurd (omega arith)
  | inl (below, room, e) ↦
      let (status, exec) = perform-halt (moved l.ctx) l.decoded_instruction in
      rw (e, round, bytes, decode_fetched, execute_decoded, status, exec) refl
]

-- A result of `run_vm` against one of the abstract machine: registers, output and status are the
-- same, the memory is the one that the program began with, and the state tells whether the
-- program came to its `halt`.
pub data Implements (m : ℕ → ℕ) : Outcome (View × ℕ) → Outcome (VmContext × ℕ) → Type 0 where
  halts :
      (ctx : VmContext)
      → ctx.state ≡ halted
      → ctx.memory ≡ m
      → Implements m (ok (view_of ctx, 0)) (ok (ctx, 0))
  stops :
      (ctx : VmContext)
      → ctx.state ≡ soft_error
      → ctx.memory ≡ m
      → Implements m (ok (view_of ctx, 103)) (ok (ctx, 103))
  breaks : (e : Fault) → Implements m (fault e) (fault e)

-- A loop that is about to run a program.
pub record IsAt (cs : List Command) (more : Bytes) (l : Loop) : Type 0 where
  pub eight : length l.ctx.registers ≡ 8
  pub started : l.ctx.state ≡ running
  pub stored : Stored l.ctx.memory l.ctx.pc (image cs ++ more)
  pub within : l.ctx.pc + 8 * length cs ≤ memory_limit
  pub commands : All IsCommand cs

abbrev pub Finishes : ℕ → Loop → Outcome (View × ℕ) → Type 0
Finishes fuel l r =
    (s : Outcome (VmContext × ℕ)) × (run_loop fuel l ≡ some s) × Implements l.ctx.memory r s

-- What follows the effect of a command.
after_command :
    (fuel : ℕ) (l l' : Loop) (cs : List Command) {r : Outcome (View × ℕ)}
    → l.ctx.state ≡ running
    → Effects (view_of l.ctx) r
    → round l ≡ realise (moved l.ctx) r >>= after_execute l'
    → ((v : View)
        → length v.registers ≡ length l.ctx.registers
        → Finishes fuel
            (record l' {
              ctx = record (moved l.ctx) { registers = v.registers; stdout = v.stdout };
            })
            (evaluate l.ctx.memory v cs))
    → Finishes (suc fuel) l (r >>= λ p. if p.1 == 0 then evaluate l.ctx.memory p.0 cs else ok p)
unfolding run_loop after_execute
after_command fuel l l' cs start (Effects.goes_on v same) e k =
    let (s, ran, how) = k v same in (s, rw (run_loop, start, e) ran, how)
after_command fuel l l' cs start (Effects.refuses v) e k = (
  _,
  rw (run_loop, start, e) refl,
  stops (record (moved l.ctx) { state = soft_error; registers = v.registers; stdout = v.stdout })
      refl refl,
)
after_command fuel l l' cs start (Effects.breaks e) e' k =
    (fault e, rw (run_loop, start, e') refl, breaks e)

pub run_loop-Implements :
    (fuel : ℕ) (cs : List Command) (more : Bytes) (l : Loop)
    → length cs + 1 < fuel
    → IsAt cs more l
    → Finishes fuel l (evaluate l.ctx.memory (view_of l.ctx) cs)
unfolding evaluate run_loop
run_loop-Implements zero cs more l enough at = absurd (omega arith)
run_loop-Implements (suc zero) cs more l enough at = absurd (omega arith)
run_loop-Implements (suc (suc fuel)) [] more l enough at =
    let bytes = window-Stored l.ctx.memory l.ctx.pc halt_bytes more at.stored in
    let below : l.ctx.pc ≤ memory_limit = omega (arith, at.within) in
    (
      _,
      rw (run_loop, at.started, round-halt l below bytes) refl,
      halts (record (moved l.ctx) { state = halted }) refl refl,
    )
run_loop-Implements (suc (suc fuel)) (c ∷ cs) more l enough at =
    after_command (suc fuel) l (decoded_of l (assemble c)) cs at.started
      (effect-Effects l.ctx.memory (view_of l.ctx) c)
      (round-command l c at.eight at.commands.0 (omega (arith, at.within)) bytes)
      λ v same. run_loop-Implements (suc fuel) cs more _ (omega arith) (record {
        eight = same ∙ at.eight;
        started = at.started;
        stored =
            subst (λ n. Stored l.ctx.memory (l.ctx.pc + n) (image cs ++ more)) (length-assemble c)
              (Stored-append l.ctx.memory l.ctx.pc (assemble c) (image cs ++ more) whole);
        within = omega (arith, at.within);
        commands = at.commands.1;
      })
  where
    whole : Stored l.ctx.memory l.ctx.pc (assemble c ++ (image cs ++ more))
    whole =
        subst (Stored l.ctx.memory l.ctx.pc) (append_assoc (assemble c) (image cs) more) at.stored

    bytes : window l.ctx.memory l.ctx.pc 8 ≡ assemble c
    bytes =
        subst (λ n. window l.ctx.memory l.ctx.pc n ≡ assemble c) (length-assemble c)
          (window-Stored l.ctx.memory l.ctx.pc (assemble c) (image cs ++ more) whole)
