-- ===== src/Main/Endings.antt =====
-- How `main` (src/main.c) ends.
use bitcode.Base.{
  ℕ, ◌<◌, ◌≡◌, ◌⊎◌, inl, inr, refl, Bool-cases, true, false, List, [], some, Bytes, ltb, codes,
  str_eq, str_eq→eq, Outcome, exited, fault, Fault, arith, length, ◌>>=◌, Option-cases,
  null_pointer, ◌&&◌, Bool, str_eq_self, ◌≤◌,
}
use mathlib.Core.Path.{subst}
use bitcode.Main.Assembling.{AsmEnds, asm_run-AsmEnds}
use bitcode.Main.{Environment, Ending, argument, vm_run, main, vm_finish}
use bitcode.Vm.Decode.Operands.{AreBytes}
use bitcode.Vm.Handlers.Ensures.{IsValid}
use bitcode.Vm.Handlers.Invariant.{IsUnion}
use bitcode.Vm.Load.{vm_create}
use bitcode.Vm.Run.Outcomes.{Runs, run_vm-Runs, run_vm_missing}
use bitcode.Vm.State.{VmContext}

-- What has the type of a C variable or of a byte of a file.
pub record IsEnvironment (env : Environment) : Type 0 where
  pub contents_fit : (i : ℕ) → env.contents i < 256
  pub union : IsUnion env.decoded_instruction.operand_1.value
  pub files_fit : (path file : Bytes) → env.files path ≡ some file → AreBytes file

-- `vm run`: 0, a non-fatal error, a refused file, an unknown opcode, or undefined behaviour.
pub data VmEnds : Ending → Type 0 where
  completes : (out : Bytes) → VmEnds (some (exited 0 out))
  errs : (code : ℕ) (out : Bytes) → (code ≡ 103) ⊎ (code ≡ 113) → VmEnds (some (exited code out))
  refuses : (out : Bytes) → VmEnds (some (exited 3 out))
  unknown_opcode : (out : Bytes) → VmEnds (some (exited 4 out))
  faults : (e : Fault) → VmEnds (some (fault e))

abbrev pub Selects : List Bytes → Bytes → Type 0
Selects argv command = (argument argv 1 ≡ command) × (argument argv 2 ≡ codes "run")

-- The ways in which `main` ends, by its arguments.
pub data MainEnds (argv : List Bytes) : Ending → Type 0 where
  usage : length argv < 4 → MainEnds argv (some (exited 1 []))
  runs_vm : {r : Ending} → 4 ≤ length argv → Selects argv (codes "vm") → VmEnds r → MainEnds argv r
  runs_asm :
      {r : Ending} → 4 ≤ length argv → Selects argv (codes "asm") → AsmEnds r → MainEnds argv r
  ignores :
      4 ≤ length argv
      → ¬ Selects argv (codes "vm")
      → ¬ Selects argv (codes "asm")
      → MainEnds argv (some (exited 0 []))

vm_finish-VmEnds :
    (from : VmContext) {r : Outcome (VmContext × ℕ)} → Runs from r → VmEnds (some (r >>= vm_finish))
unfolding vm_finish
vm_finish-VmEnds from (Runs.returns ctx status valid same (inl (z, _))) = rw z (completes _)
vm_finish-VmEnds from (Runs.returns ctx status valid same (inr (soft, _))) = errs status _ soft
vm_finish-VmEnds from (Runs.refuses out) = refuses out
vm_finish-VmEnds from (Runs.unknown_opcode out) = unknown_opcode out
vm_finish-VmEnds from (Runs.faults e) = VmEnds.faults e

from_context :
    (env : Environment) (path : Bytes) (ctx : VmContext)
    → IsEnvironment env
    → IsValid ctx
    → vm_create env.context_fits env.memory_fits env.contents ≡ some ctx
    → VmEnds (vm_run env path)
unfolding vm_run
from_context env path ctx h valid e = elim (Option-cases (env.files path)) [
  | inl missing ↦
      rw
        (
          vm_run,
          e,
          missing,
          run_vm_missing ctx env.header env.raw_instruction env.decoded_instruction,
        )
        (VmEnds.faults null_pointer)
  | inr (file, found) ↦
      let (r, ran, how) =
        run_vm-Runs ctx env.header env.raw_instruction env.decoded_instruction file valid h.union
          (h.files_fit path file found) in
      rw (vm_run, e, found, ran) (vm_finish-VmEnds ctx how)
]

same_IsValid : (a b : VmContext) → some a ≡ some b → IsValid a → IsValid b
same_IsValid a b e v = subst IsValid (ground arith) v

created-IsValid :
    (context_fits memory_fits : Bool) (contents : ℕ → ℕ) (ctx : VmContext)
    → ((i : ℕ) → contents i < 256)
    → vm_create context_fits memory_fits contents ≡ some ctx
    → IsValid ctx
unfolding vm_create
created-IsValid false memory_fits contents ctx h e = cc
created-IsValid true false contents ctx h e = cc
created-IsValid true true contents ctx h e = same_IsValid _ ctx e (record {
  register_count = refl;
  registers_fit = omega arith;
  memory_bytes = h;
  pc_fits = omega arith;
})

vm_run-VmEnds : (env : Environment) (path : Bytes) → IsEnvironment env → VmEnds (vm_run env path)
unfolding vm_run vm_create
vm_run-VmEnds env path h =
    elim (Option-cases (vm_create env.context_fits env.memory_fits env.contents)) [
      | inl e ↦ rw (vm_run, e) (VmEnds.faults null_pointer)
      | inr (ctx, e) ↦
          from_context env path ctx h
            (created-IsValid env.context_fits env.memory_fits env.contents ctx h.contents_fit e) e
    ]

both : (x y : Bool) → (x && y) ≡ true → (x ≡ true) × (y ≡ true)
both true y h = (refl, h)
both false y h = cc

not_both : (x y : Bool) → (x && y) ≡ false → x ≡ true → y ≡ true → ⊥
not_both true true h e e' = cc
not_both true false h e e' = cc
not_both false y h e e' = cc

-- The two comparisons that select a command.
selected :
    (argv : List Bytes) (command : Bytes)
    → ((str_eq (argument argv 1) command && str_eq (argument argv 2) (codes "run")) ≡ true)
    → Selects argv command
selected argv command h =
    let (first, second) =
      both (str_eq (argument argv 1) command) (str_eq (argument argv 2) (codes "run")) h in
    (str_eq→eq (argument argv 1) command first, str_eq→eq (argument argv 2) (codes "run") second)

not_selected :
    (argv : List Bytes) (command : Bytes)
    → ((str_eq (argument argv 1) command && str_eq (argument argv 2) (codes "run")) ≡ false)
    → ¬ Selects argv command
not_selected argv command h (first, second) =
    not_both (str_eq (argument argv 1) command) (str_eq (argument argv 2) (codes "run")) h
      (rw first (str_eq_self command)) (rw second (str_eq_self (codes "run")))

-- `main` ends with any arguments, where files and memory hold bytes, with the fuel that
-- its loops are given. Fewer than four arguments end it with 1. With `vm run` the process ends with
-- 0, with the 103 or 113 of a non-fatal error, with 3 for a refused file or 4 for an unknown
-- opcode, or in undefined behaviour; with `asm run` it writes nothing and ends with 0, with 1
-- where memory or lines run out, or in undefined behaviour. Any other command does nothing and ends
-- it with 0.
pub main-MainEnds :
    (env : Environment) (argv : List Bytes) → IsEnvironment env → MainEnds argv (main env argv)
unfolding main
main-MainEnds env argv h = elim (Bool-cases (ltb (length argv) 4)) [
  | inl few ↦ rw (few, main) (usage (ground arith))
  | inr enough ↦
      elim (Bool-cases
        (str_eq (argument argv 1) (codes "vm") && str_eq (argument argv 2) (codes "run"))) [
          | inl vm ↦
              rw (enough, vm, main)
                (runs_vm (ground arith) (selected argv (codes "vm") vm)
                  (vm_run-VmEnds env (argument argv 3) h))
          | inr no_vm ↦
              elim (Bool-cases (
                str_eq (argument argv 1) (codes "asm") && str_eq (argument argv 2) (codes "run"))) [
                  | inl asm ↦
                      rw (enough, no_vm, asm, main)
                        (runs_asm (ground arith) (selected argv (codes "asm") asm)
                          (asm_run-AsmEnds env (argument argv 3)))
                  | inr no_asm ↦
                      rw (enough, no_vm, no_asm, main)
                        (ignores (ground arith) (not_selected argv (codes "vm") no_vm)
                          (not_selected argv (codes "asm") no_asm))
                ]
        ]
]
