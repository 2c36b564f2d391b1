-- ===== src/Tests/Commands.antt =====
-- The command line, and programs of commands.
use bitcode.Main.Programs.{ends_with, fresh, main-evaluate}
use bitcode.Vm.Decode.Operands.{AreBytes}
use bitcode.Vm.Run.Images.{Implements}
use bitcode.Vm.Run.Files.{segment, run_vm-Implements}
use bitcode.Vm.Run.{run_vm}
use bitcode.Vm.State.{VmContext, store_bytes}
use bitcode.Vm.Header.RoundTrip.{IsHeader, encode_header}
use bitcode.Vm.Load.Image.{Accepts}
use bitcode.Vm.Layout.{code_start}
use mathlib.Core.Option.{some-injective}
use mathlib.Core.Path.{subst}
use bitcode.Tests.Machine.{machine, no_header, no_instruction, blank-IsUnion}
use bitcode.Base.{
  ℕ, ◌≡◌, refl, List, [], ◌∷◌, ◌++◌, none, some, true, false, Bytes, Outcome, ok, arith, codes,
  if◌then◌else◌, str_eq, Bool,
}
use bitcode.Main.{Environment, main}
use bitcode.Main.Endings.{IsEnvironment, MainEnds, main-MainEnds}
use bitcode.Vm.Machine.{Command, mov_integer, print_chr, evaluate, view_of}
use bitcode.Vm.Header.{BytecodeFileHeader}

-- `mov r3, 65` and `print_chr r3`.
abbrev letter : List Command
letter = mov_integer 3 65 ∷ print_chr 3 ∷ []

-- Eight bytes of data stand before the code and two behind it.
abbrev before : Bytes
before = 1 ∷ 2 ∷ 3 ∷ 4 ∷ 5 ∷ 6 ∷ 7 ∷ 8 ∷ []

abbrev after : Bytes
after = 9 ∷ 9 ∷ []

abbrev letter_header : BytecodeFileHeader
letter_header = record {
  magic_number = 0x564D4259;
  version_number = 1;
  code_len = 34;
  entry_point = 8;
  rodata_len = 0;
  data_len = 0;
}

letter_header-IsHeader : IsHeader letter_header
letter_header-IsHeader = record {
  magic_fits = omega arith;
  version_fits = omega arith;
  code_fits = omega arith;
  entry_fits = omega arith;
  rodata_fits = omega arith;
  data_fits = omega arith;
}

letter_header-Accepts : Accepts letter_header
letter_header-Accepts = record {
  code_not_empty = omega arith;
  code_fits = omega arith;
  version_is = refl;
  data_fits = omega arith;
  rodata_fits = omega arith;
}

abbrev letter_memory : ℕ → ℕ
letter_memory = store_bytes machine.memory code_start (segment before letter after)

run_vm-Implements_example :
    (s : Outcome (VmContext × ℕ)) × (run_vm machine no_header [] no_instruction
        (some (encode_header letter_header (segment before letter after ++ [])))
      ≡ some s)
    × Implements letter_memory (evaluate letter_memory (view_of machine) letter) s
run_vm-Implements_example =
    run_vm-Implements machine no_header letter_header [] no_instruction letter before after []
      letter_header-IsHeader letter_header-Accepts refl
      ((omega arith, omega arith), (omega arith, tt)) refl refl

-- What the abstract machine prints: the decoder's message and the letter.
letter_output :
    evaluate letter_memory (view_of machine) letter
    ≡ ok (
      record {
        registers = 0 ∷ 0 ∷ 0 ∷ 65 ∷ 0 ∷ 0 ∷ 0 ∷ 0 ∷ [];
        stdout = codes "DEBUG: src_mode calculated: 1\nA";
      },
      0,
    )
unfolding evaluate
letter_output = refl

-- One file, and memory of zero bytes.
abbrev pub environment : Environment
environment = record {
  files = λ path. if str_eq path (codes "a.bin") then some (codes "halt\n") else none;
  context_fits = true;
  memory_fits = true;
  contents = λ i. 0;
  arena_address = 0x1000;
  arena = record { buffer = 0; size = 0; offset = 0 };
  header = no_header;
  raw_instruction = [];
  decoded_instruction = no_instruction;
}

only_file :
    (b : Bool) (file : Bytes)
    → (if b then some (codes "halt\n") else none) ≡ some file
    → AreBytes file
only_file true file e = subst AreBytes (some-injective _ _ e) (omega arith)
only_file false file e = cc

environment-IsEnvironment : IsEnvironment environment
environment-IsEnvironment = record {
  contents_fit = λ i. omega arith;
  union = blank-IsUnion;
  files_fit = λ path file. only_file (str_eq path (codes "a.bin")) file;
}

main-MainEnds_example :
    MainEnds
      (codes "bitcode" ∷ codes "asm" ∷ codes "run" ∷ codes "a.bin" ∷ [])
      (main environment (codes "bitcode" ∷ codes "asm" ∷ codes "run" ∷ codes "a.bin" ∷ []))
main-MainEnds_example =
    main-MainEnds environment (codes "bitcode" ∷ codes "asm" ∷ codes "run" ∷ codes "a.bin" ∷ [])
      environment-IsEnvironment

-- The file of the program, wherever it is looked for.
abbrev letter_environment : Environment
letter_environment = record environment {
  files = λ path. some (encode_header letter_header (segment before letter after ++ []));
}

abbrev run_letter : List Bytes
run_letter = codes "bitcode" ∷ codes "vm" ∷ codes "run" ∷ codes "l.bin" ∷ []

main-evaluate_example :
    main letter_environment run_letter ≡ some (ends_with (evaluate letter_memory fresh letter))
main-evaluate_example =
    main-evaluate letter_environment run_letter letter_header letter before after [] (omega arith)
      (refl, refl) refl refl refl letter_header-IsHeader letter_header-Accepts
      ((omega arith, omega arith), (omega arith, tt)) refl refl
