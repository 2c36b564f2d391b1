-- ===== src/Vm/Run/Files.antt =====
-- `run_vm` (src/vm/vm.c) on a file that holds a program of commands.
use bitcode.Vm.Run.Stored.{Stored, store_bytes-Stored}
use bitcode.Vm.Run.Images.{Implements, length-assemble, run_loop-Implements}
use bitcode.Base.{
  ℕ, ◌+◌, ◌*◌, ◌≤◌, ◌≡◌, refl, List, [], ◌∷◌, ◌++◌, Bytes, All, length, some, Outcome, arith,
  length-append,
}
use mathlib.Core.Path.{subst}
use bitcode.Vm.Layout.{code_start}
use bitcode.Vm.Machine.{Command, view_of, evaluate, IsCommand, assemble, image}
use bitcode.Vm.Header.{BytecodeFileHeader}
use bitcode.Vm.Header.RoundTrip.{encode_header, IsHeader}
use bitcode.Vm.Load.Image.{Accepts}
use bitcode.Vm.Load.RoundTrip.{loaded, load_bytecode-loaded}
use bitcode.Vm.Run.{run_vm, enough_fuel}
use bitcode.Vm.State.{DecodedInstruction, store_bytes, VmContext, running}

length-image : (cs : List Command) → length (image cs) ≡ 8 * length cs + 8
length-image [] = refl
length-image (c ∷ cs) =
    omega (arith, length-append (assemble c) (image cs), length-assemble c, length-image cs)

-- A code segment that holds a program, with any bytes before and behind it.
abbrev pub segment : Bytes → List Command → Bytes → Bytes
segment before cs after = before ++ (image cs ++ after)

-- On a file in the documented layout whose code segment holds at its entry point a program of
-- commands, `run_vm` does what the abstract machine does. It ends, with the fuel given here; it
-- halts with status 0 where the commands all succeed, stops with 103 in the state `soft_error` at
-- the first refused load, and is undefined where the commands are; registers and output are those
-- that the abstract machine computes, and the memory is that which was loaded.
pub run_vm-Implements :
    (ctx : VmContext) (old h : BytecodeFileHeader) (raw : Bytes) (decoded : DecodedInstruction)
    (cs : List Command) (before after more : Bytes)
    → IsHeader h
    → Accepts h
    → length ctx.registers ≡ 8
    → All IsCommand cs
    → length (segment before cs after) ≡ h.code_len
    → length before ≡ h.entry_point
    → let m = store_bytes ctx.memory code_start (segment before cs after) in
      (s : Outcome (VmContext × ℕ)) × (run_vm ctx old raw decoded
          (some (encode_header h (segment before cs after ++ more)))
        ≡ some s)
      × Implements m (evaluate m (view_of ctx) cs) s
unfolding run_vm
run_vm-Implements ctx old h raw decoded cs before after more fits accepts eight good len entry =
    let m = store_bytes ctx.memory code_start (segment before cs after) in
    let started = record ctx { state = running } in
    let (s, ran, how) =
      run_loop-Implements enough_fuel cs after
        (record {
          ctx = loaded started h (segment before cs after);
          raw_instruction = raw;
          decoded_instruction = decoded;
        })
        (omega (arith, room, accepts.code_fits))
        (record {
          eight = eight;
          started = refl;
          stored =
              subst (λ p. Stored m p (image cs ++ after)) (omega (arith, fits.entry_fits))
                (store_bytes-Stored ctx.memory before (image cs ++ after));
          within = omega (arith, room, fits.entry_fits, accepts.code_fits);
          commands = good;
        }) in
    (
      s,
      rw
          (
            load_bytecode-loaded started old h (segment before cs after) more fits accepts len,
            run_vm,
          )
          ran,
      how,
    )
  where
    room : length before + 8 * length cs + 8 ≤ h.code_len
    room = omega (
      arith,
      length-append before (image cs ++ after),
      length-append (image cs) after,
      length-image cs,
    )
