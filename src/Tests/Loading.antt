-- ===== src/Tests/Loading.antt =====
-- Headers, whole files, and runs of them.
use bitcode.Vm.State.{VmContext}
use bitcode.Vm.Decode.Operands.{AreBytes}
use bitcode.Base.{ℕ, ◌≡◌, refl, [], some, ok, arith, Bytes, Outcome}
use bitcode.Vm.Header.{parse_header}
use bitcode.Vm.Header.Lengths.{Takes, parse_header-Takes}
use bitcode.Vm.Header.RoundTrip.{encode_header, parse_header-encode_header}
use bitcode.Vm.Load.{load_bytecode}
use bitcode.Vm.Load.Image.{Accepts, Loads, load_bytecode-Loads}
use bitcode.Vm.Load.RoundTrip.{load_bytecode_magic}
use bitcode.Vm.Run.{run_vm}
use bitcode.Vm.Run.Outcomes.{Runs, run_vm-Runs}
use bitcode.Tests.Machine.{
  machine, machine-IsValid, no_instruction, blank-IsUnion, no_header, program, header,
  header-IsHeader,
}

abbrev file : Bytes
file = encode_header header program

header-Accepts : Accepts header
header-Accepts = record {
  code_not_empty = omega arith;
  code_fits = omega arith;
  version_is = refl;
  data_fits = omega arith;
  rodata_fits = omega arith;
}

parse_header-Takes_example : Takes 22 file (parse_header no_header file)
parse_header-Takes_example = parse_header-Takes no_header file

parse_header-encode_header_example :
    parse_header no_header file ≡ record { file = program; out = header; status = 0 }
parse_header-encode_header_example =
    parse_header-encode_header header no_header program header-IsHeader

load_bytecode-Loads_example :
    (r : VmContext × ℕ) × (load_bytecode machine no_header (some file) ≡ ok r)
    × Loads machine no_header file r
load_bytecode-Loads_example = load_bytecode-Loads machine no_header file

load_bytecode_magic_example :
    load_bytecode machine no_header
      (some (encode_header (record header { magic_number = 7 }) program))
    ≡ load_bytecode machine no_header (some (encode_header header program))
load_bytecode_magic_example =
    load_bytecode_magic machine no_header header 7 program header-IsHeader (omega arith)

file-AreBytes : AreBytes file
file-AreBytes = omega arith

run_vm-Runs_example :
    (s : Outcome (VmContext × ℕ)) × (run_vm machine no_header [] no_instruction (some file)
      ≡ some s)
    × Runs machine s
run_vm-Runs_example =
    run_vm-Runs machine no_header [] no_instruction file machine-IsValid blank-IsUnion file-AreBytes
