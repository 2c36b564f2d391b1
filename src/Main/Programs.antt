-- ===== src/Main/Programs.antt =====
-- `main` (src/main.c) on a bytecode file that holds a program of commands.
use bitcode.Base.{
  ℕ, ◌≤◌, ◌≡◌, refl, true, List, [], ◌++◌, some, Bytes, All, codes, length, replicate, Outcome, ok,
  exited, fault, ◌>>=◌, arith, ltb, str_eq_self, false, ap, str_eq, ◌&&◌,
}
use bitcode.Main.{Environment, argument, vm_finish, vm_run, main}
use bitcode.Main.Endings.{Selects}
use bitcode.Vm.Header.RoundTrip.{encode_header, IsHeader}
use bitcode.Vm.Header.{BytecodeFileHeader}
use bitcode.Vm.Layout.{code_start}
use bitcode.Vm.Load.Image.{Accepts}
use bitcode.Vm.Load.{vm_create, destroy_message}
use bitcode.Vm.Machine.{Command, View, evaluate, IsCommand}
use bitcode.Vm.Run.Files.{segment, run_vm-Implements}
use bitcode.Vm.Run.Images.{Implements}
use bitcode.Vm.State.{VmContext, store_bytes, halted}

-- How the process ends after a run of the abstract machine: with its status, after what it has
-- written and the messages of `vm_destroy`.
abbrev pub ends_with : Outcome (View × ℕ) → Outcome ⊥
ends_with (ok (v, status)) = exited status (v.stdout ++ destroy_message)
ends_with (exited code out) = exited code out
ends_with (fault e) = fault e

-- The machine of `vm_create`.
abbrev pub fresh : View
fresh = record { registers = replicate 8 0; stdout = [] }

vm_finish-ends_with :
    (m : ℕ → ℕ) {r : Outcome (View × ℕ)} {s : Outcome (VmContext × ℕ)}
    → Implements m r s
    → (s >>= vm_finish) ≡ ends_with r
unfolding vm_finish
vm_finish-ends_with m (Implements.halts ctx state memory) = refl
vm_finish-ends_with m (Implements.stops ctx state memory) = refl
vm_finish-ends_with m (Implements.breaks e) = refl

created : (ℕ → ℕ) → VmContext
created contents = record {
  state = halted;
  registers = replicate 8 0;
  memory = contents;
  memory_size = 0;
  pc = 0;
  sp = 0;
  bp = 0;
  hp = 0;
  flags = replicate 4 0;
  stdout = [];
}

vm_create-created :
    (env : Environment)
    → env.context_fits ≡ true
    → env.memory_fits ≡ true
    → vm_create env.context_fits env.memory_fits env.contents ≡ some (created env.contents)
unfolding vm_create created
vm_create-created env context memory = rw (context, memory) refl

vm_run-evaluate :
    (env : Environment) (path : Bytes) (h : BytecodeFileHeader) (cs : List Command)
    (before after more : Bytes)
    → env.context_fits ≡ true
    → env.memory_fits ≡ true
    → env.files path ≡ some (encode_header h (segment before cs after ++ more))
    → IsHeader h
    → Accepts h
    → All IsCommand cs
    → length (segment before cs after) ≡ h.code_len
    → length before ≡ h.entry_point
    → vm_run env path
      ≡ some (
          ends_with
            (evaluate (store_bytes env.contents code_start (segment before cs after)) fresh cs))
unfolding vm_run created
vm_run-evaluate env path h cs before after more context memory file fits accepts good len entry =
    let (s, ran, how) =
      run_vm-Implements (created env.contents) env.header h env.raw_instruction
        env.decoded_instruction cs before after more fits accepts refl good len entry in
    rw (vm_run, vm_create-created env context memory, file, ran)
      (ap some
        (vm_finish-ends_with (store_bytes env.contents code_start (segment before cs after)) how))

pub selected :
    (argv : List Bytes) (command : Bytes)
    → Selects argv command
    → (str_eq (argument argv 1) command && str_eq (argument argv 2) (codes "run")) ≡ true
selected argv command (first, second) =
    rw (first, second, str_eq_self command, str_eq_self (codes "run")) refl

-- `bitcode vm run FILE` on a file in the documented layout whose code segment holds at its entry
-- point a program of commands: where both `malloc` calls succeed, the process ends as the abstract
-- machine says, on registers of zero and whatever the memory held. Where the machine is defined on the
-- commands, the process exits with 0 or 103 after writing exactly what they print, and then the
-- messages of `vm_destroy`; where it is not, as for a read at one of the last three addresses of the
-- memory, the process is undefined as well.
pub main-evaluate :
    (env : Environment) (argv : List Bytes) (h : BytecodeFileHeader) (cs : List Command)
    (before after more : Bytes)
    → 4 ≤ length argv
    → Selects argv (codes "vm")
    → env.context_fits ≡ true
    → env.memory_fits ≡ true
    → env.files (argument argv 3) ≡ some (encode_header h (segment before cs after ++ more))
    → IsHeader h
    → Accepts h
    → All IsCommand cs
    → length (segment before cs after) ≡ h.code_len
    → length before ≡ h.entry_point
    → main env argv
      ≡ some (
          ends_with
            (evaluate (store_bytes env.contents code_start (segment before cs after)) fresh cs))
unfolding main
main-evaluate env argv h cs before after more enough vm context memory file fits accepts good len
      entry =
    let usage : ltb (length argv) 4 ≡ false = ground arith in
    rw (usage, selected argv (codes "vm") vm, main)
      (vm_run-evaluate env (argument argv 3) h cs before after more context memory file fits accepts
        good len entry)
