-- ===== src/Tests/Machine.antt =====
-- The machines and programs that the tests share.
use bitcode.Base.{refl, [], ◌∷◌, replicate, arith, Bytes}
use bitcode.Vm.Handlers.Ensures.{IsValid}
use bitcode.Vm.Handlers.Invariant.{IsUnion}
use bitcode.Vm.Header.{BytecodeFileHeader}
use bitcode.Vm.Header.RoundTrip.{IsHeader}
use bitcode.Vm.State.{VmContext, running, DecodedInstruction, VmOperand, am_none}

abbrev pub machine : VmContext
machine = record {
  state = running;
  registers = replicate 8 0;
  memory = λ i. 0;
  memory_size = 0;
  pc = 0;
  sp = 0;
  bp = 0;
  hp = 0x100000;
  flags = replicate 4 0;
  stdout = [];
}

pub machine-IsValid : IsValid machine
machine-IsValid = record {
  register_count = refl;
  registers_fit = omega arith;
  memory_bytes = λ a. omega arith;
  pc_fits = omega arith;
}

abbrev pub blank : VmOperand
blank = record { mode = am_none; value = record { reg_id = 0; upper = 0; offset = 0 } }

abbrev pub no_instruction : DecodedInstruction
no_instruction = record { opcode = 0; metadata_flags = 0; operand_0 = blank; operand_1 = blank }

pub blank-IsUnion : IsUnion blank.value
blank-IsUnion = record {
  id_fits = omega arith;
  upper_fits = omega arith;
  offset_fits = omega arith;
}

abbrev pub no_header : BytecodeFileHeader
no_header = record {
  magic_number = 0;
  version_number = 0;
  code_len = 0;
  entry_point = 0;
  rodata_len = 0;
  data_len = 0;
}

-- `mov r3, 0x01020304` and `halt`.
abbrev pub program : Bytes
program = 2 ∷ 3 ∷ 0 ∷ 4 ∷ 3 ∷ 2 ∷ 1 ∷ 2 ∷ 25 ∷ 0 ∷ 0 ∷ 0 ∷ 0 ∷ 0 ∷ 0 ∷ 0 ∷ []

abbrev pub header : BytecodeFileHeader
header = record {
  magic_number = 0x564D4259;
  version_number = 1;
  code_len = 16;
  entry_point = 0;
  rodata_len = 0;
  data_len = 0;
}

pub header-IsHeader : IsHeader header
header-IsHeader = record {
  magic_fits = omega arith;
  version_fits = omega arith;
  code_fits = omega arith;
  entry_fits = omega arith;
  rodata_fits = omega arith;
  data_fits = omega arith;
}
