-- ===== src/Vm/Run/Outcomes.antt =====
-- `run_vm` as a whole: it ends, and these are the ways in which it does.
use bitcode.Base.{
  ℕ, ◌≤◌, ◌≡◌, inl, inr, refl, some, none, Outcome, ok, exited, fault, null_pointer, arith, Bytes,
  Fault, ap, ◌∙◌, ◌++◌,
}
use bitcode.Vm.Decode.Operands.{AreBytes}
use bitcode.Vm.Handlers.Ensures.{IsValid, Ensures-ok, state-Kept}
use bitcode.Vm.Handlers.Invariant.{IsUnion}
use bitcode.Vm.Header.{BytecodeFileHeader}
use bitcode.Vm.Layout.{code_size}
use bitcode.Vm.Load.{load_bytecode, destroy_message}
use bitcode.Vm.Load.Valid.{load_bytecode-IsValid}
use bitcode.Vm.Load.Image.{Loads, load_bytecode-Loads}
use bitcode.Vm.Run.{run_vm, enough_fuel}
use bitcode.Vm.Run.Rounds.{Leaves}
use bitcode.Vm.Run.Termination.{Ends, run_loop-Terminates}
use bitcode.Vm.State.{VmContext, running, DecodedInstruction}

-- How `run_vm` ends on a file that can be opened: it returns, or ends the process with the code 3
-- of a file that is refused or the code 4 of an unknown opcode, or reaches undefined behaviour.
pub data Runs (from : VmContext) : Outcome (VmContext × ℕ) → Type 0 where
  returns :
      (ctx : VmContext) (status : ℕ)
      → IsValid ctx
      → ((i : ℕ) → code_size ≤ i → ctx.memory i ≡ from.memory i)
      → Leaves ctx status
      → Runs from (ok (ctx, status))
  refuses : (out : Bytes) → Runs from (exited 3 out)
  unknown_opcode : (out : Bytes) → Runs from (exited 4 out)
  faults : (e : Fault) → Runs from (fault e)

Runs-Ends :
    {from loaded : VmContext} {r : Outcome (VmContext × ℕ)}
    → ((i : ℕ) → code_size ≤ i → loaded.memory i ≡ from.memory i)
    → Ends loaded r
    → Runs from r
Runs-Ends h (Ends.returns ctx status valid same how) =
    returns ctx status valid (λ i k. ap (λ (m : ℕ → ℕ). m i) same.memory ∙ h i k) how
Runs-Ends h (Ends.exits out) = unknown_opcode out
Runs-Ends h (Ends.faults e) = faults e

run_vm_cases :
    (ctx : VmContext) (old : BytecodeFileHeader) (raw : Bytes) (decoded : DecodedInstruction)
    (file : Bytes) (r : VmContext × ℕ)
    → load_bytecode (record ctx { state = running }) old (some file) ≡ ok r
    → Loads (record ctx { state = running }) old file r
    → IsValid r.0
    → IsUnion decoded.operand_1.value
    → (s : Outcome (VmContext × ℕ)) × (run_vm ctx old raw decoded (some file) ≡ some s) × Runs ctx s
unfolding run_vm
run_vm_cases ctx old raw decoded file (loaded, status) e (untouched, inl (z, _)) valid union =
    let (s, ran, how) =
      run_loop-Terminates enough_fuel
        (record { ctx = loaded; raw_instruction = raw; decoded_instruction = decoded })
        (record { valid = valid; union = union }) (inl untouched.state) (omega arith)
        (λ n. omega arith) in
    (s, rw (e, z, run_vm) ran, Runs-Ends untouched.memory how)
run_vm_cases ctx old raw decoded file (loaded, status) e (untouched, inr (three, _, _)) valid
      union =
    (exited 3 (loaded.stdout ++ destroy_message), rw (e, three, run_vm) refl, refuses _)

-- From a well-formed machine `run_vm` ends on every file of bytes, with the fuel given here. It
-- returns 0 with the machine halted, or 103 or 113 in the state `soft_error`, or it ends the
-- process with 3 (a refused file) or 4 (an unknown opcode), or it reaches undefined behaviour.
-- Where it returns, the machine is well formed and the memory from `code_size` on is untouched.
pub run_vm-Runs :
    (ctx : VmContext) (old : BytecodeFileHeader) (raw : Bytes) (decoded : DecodedInstruction)
    (file : Bytes)
    → IsValid ctx
    → IsUnion decoded.operand_1.value
    → AreBytes file
    → (s : Outcome (VmContext × ℕ)) × (run_vm ctx old raw decoded (some file) ≡ some s) × Runs ctx s
run_vm-Runs ctx old raw decoded file valid union b =
    let started = (state-Kept ctx valid running).1 in
    let (r, e, loads) = load_bytecode-Loads (record ctx { state = running }) old file in
    run_vm_cases ctx old raw decoded file r e loads
      (Ensures-ok _ (load_bytecode-IsValid (record ctx { state = running }) old file started b) e)
      union

-- A file that cannot be opened is undefined behaviour: `load_bytecode` closes a null stream.
pub run_vm_missing :
    (ctx : VmContext) (old : BytecodeFileHeader) (raw : Bytes) (decoded : DecodedInstruction)
    → run_vm ctx old raw decoded none ≡ some (fault null_pointer)
unfolding run_vm load_bytecode
run_vm_missing ctx old raw decoded = refl
