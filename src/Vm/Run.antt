-- ===== src/Vm/Run.antt =====
-- `run_vm` of src/vm/vm.c: the loop of fetch, decode and execute.
pub mod Rounds
pub mod Termination
pub mod Outcomes
pub mod Stored
pub mod Images
pub mod Files
use bitcode.Base.{
  ℕ, zero, suc, ◌+◌, ◌/◌, Bool, true, false, not, ◌&&◌, Option, none, some, [], Bytes, ltb, leb,
  ◌==◌, if◌then◌else◌, replicate, Outcome, ok, exited, fault, ◌>>=◌,
}
use bitcode.Vm.Decode.{fetch_instruction, decode_instruction}
use bitcode.Vm.Handlers.{execute_bytecode}
use bitcode.Vm.Header.{BytecodeFileHeader}
use bitcode.Vm.Layout.{
  memory_limit, instruction_size, vm_exit_success, vm_err_pc_out_of_bounds, vm_err_unknown,
  vm_err_stack_overflow,
}
use bitcode.Vm.Load.{vm_terminate, load_bytecode}
use bitcode.Vm.State.{
  VmState, running, halted, fatal_error, soft_error, VmContext, DecodedInstruction,
}

-- The variables of the loop.
pub record Loop : Type 0 where
  pub ctx : VmContext
  pub raw_instruction : Bytes
  pub decoded_instruction : DecodedInstruction

-- One round of the loop goes on with new variables, or leaves the function with a context and a
-- status.
pub data Round : Type 0 where
  next : Loop → Round
  return : VmContext → ℕ → Round

abbrev pub is_running : VmState → Bool
is_running running = true
is_running halted = false
is_running fatal_error = false
is_running soft_error = false

-- The last part of a round: what follows the status of `execute_bytecode`.
unfoldable pub after_execute : Loop → VmContext × ℕ → Outcome Round
after_execute l (ctx, status) =
    if status == vm_exit_success
    then ok (next (record l { ctx = ctx }))
    else if ltb vm_exit_success status && leb status vm_err_unknown
    then vm_terminate ctx status
    else if leb vm_err_stack_overflow status
    then ok (return (record ctx { state = soft_error }) status)
    else vm_terminate ctx vm_err_unknown

-- What follows `decode_instruction`, on the context, the instruction and the status it leaves.
unfoldable pub execute_decoded : Loop → VmContext × DecodedInstruction × ℕ → Outcome Round
execute_decoded l (ctx, decoded, status) =
    if status == vm_exit_success
    then execute_bytecode ctx decoded
      >>= after_execute
          (record { ctx = ctx; raw_instruction = l.raw_instruction; decoded_instruction = decoded })
    else vm_terminate ctx status

-- What follows `fetch_instruction`. After the `break` the function returns success.
unfoldable pub decode_fetched : Loop → VmContext × Bytes × ℕ → Outcome Round
decode_fetched l (ctx, raw, status) =
    if status == vm_exit_success
    then execute_decoded (record l { ctx = ctx; raw_instruction = raw })
        (decode_instruction ctx raw l.decoded_instruction)
    else if status == vm_err_pc_out_of_bounds
    then ok (return (record ctx { state = halted }) vm_exit_success)
    else vm_terminate ctx status

-- The body of the loop.
unfoldable pub round : Loop → Outcome Round
round l = do fetched ← fetch_instruction l.ctx l.raw_instruction; decode_fetched l fetched

-- `none` is a loop that has used up its fuel.
pub run_loop : ℕ → Loop → Option (Outcome (VmContext × ℕ))
run_loop zero l = none
run_loop (suc fuel) l = elim (is_running l.ctx.state) [
  | true ↦ elim (round l) [
    | ok (next l') ↦ run_loop fuel l'
    | ok (return ctx status) ↦ some (ok (ctx, status))
    | exited code out ↦ some (exited code out)
    | fault e ↦ some (fault e)
  ]
  | false ↦ some (ok (l.ctx, vm_exit_success))
]

-- A round takes `pc` on by `instruction_size`, up to `memory_limit`.
abbrev pub enough_fuel : ℕ
enough_fuel = memory_limit / instruction_size + 3

-- `header`, `raw` and `decoded` are what the local variables hold before they are set.
unfoldable pub run_vm :
    VmContext
    → BytecodeFileHeader
    → Bytes
    → DecodedInstruction
    → Option Bytes
    → Option (Outcome (VmContext × ℕ))
run_vm ctx header raw decoded file =
    elim (load_bytecode (record ctx { state = running }) header file) [
      | ok (loaded, status) ↦
          if status == vm_exit_success
          then run_loop enough_fuel
              (record { ctx = loaded; raw_instruction = raw; decoded_instruction = decoded })
          else some (vm_terminate loaded status)
      | exited code out ↦ some (exited code out)
      | fault e ↦ some (fault e)
    ]
