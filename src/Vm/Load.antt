-- ===== src/Vm/Load.antt =====
-- `vm_create`, `load_bytecode` and `vm_terminate` of src/vm/vm.c.
pub mod Image
pub mod Valid
pub mod RoundTrip
use bitcode.Base.{
  ℕ, ◌+◌, Bool, true, false, not, Option, none, some, [], ◌∷◌, ◌++◌, Bytes, ltb, ◌==◌,
  if◌then◌else◌, u32, codes, Outcome, ok, exited, fault, null_pointer, length, replicate,
}
use bitcode.Vm.Header.{BytecodeFileHeader, Read, fread, parse_header}
use bitcode.Vm.Layout.{
  code_start, code_size, rodata_size, data_size, heap_start, stack_start, stack_size,
  bytecode_supported_version, vm_exit_success, vm_err_invalid_bytecode,
}
use bitcode.Vm.State.{VmContext, halted, store_bytes}

-- The two arguments say whether the `malloc` calls succeed, and `contents` what the memory that
-- `malloc` returns holds, which nothing initialises. `memory_size` stays at the 0 of `memset`.
unfoldable pub vm_create : Bool → Bool → (ℕ → ℕ) → Option VmContext
vm_create context_fits memory_fits contents =
    if not context_fits
    then none
    else if not memory_fits
    then none
    else some (record {
      state = halted;
      registers = replicate 8 0;
      memory = contents;
      memory_size = 0;
      pc = 0;
      sp = 0;
      bp = 0;
      hp = 0;
      flags = replicate 4 0;
      stdout = [];
    })

-- What `vm_destroy` writes on a context with a memory.
abbrev pub destroy_message : Bytes
destroy_message = codes "DEBUG: vm_destroy called.\nDEBUG: ctx->memory freed.\nDEBUG: ctx freed.\n"

-- `vm_terminate`: it marks the context, destroys it and ends the process.
abbrev pub vm_terminate {ℓ} : {A : Type ℓ} → VmContext → ℕ → Outcome A
vm_terminate ctx error_code = exited error_code (ctx.stdout ++ destroy_message)

-- The tests of the header, in the order of the code: true where one of them refuses the file.
unfoldable pub refuses : BytecodeFileHeader → Bool
refuses header =
    if ltb code_size header.code_len
    then true
    else if header.code_len == 0
    then true
    else if not (header.version_number == bytecode_supported_version)
    then true
    else if ltb data_size header.data_len
    then true
    else ltb rodata_size header.rodata_len

-- The context and the status after the code segment is read from what follows the header. A
-- short read has stored the bytes that there are.
unfoldable pub load_code : VmContext → BytecodeFileHeader → Bytes → VmContext × ℕ
load_code ctx header file =
    let code = (fread header.code_len file).0 in
    let loaded = record ctx { memory = store_bytes ctx.memory code_start code } in
    if not (length code == header.code_len) then (loaded, vm_err_invalid_bytecode) else (
      record loaded {
        pc = u32 (code_start + header.entry_point);
        sp = stack_start + stack_size;
        bp = stack_start + stack_size;
        hp = heap_start;
      },
      vm_exit_success,
    )

-- `file` is what `fopen` finds: `none` where it fails, and then the code calls `fclose(NULL)`.
-- `header` is what the local variable holds before it is read.
unfoldable pub load_bytecode :
    VmContext → BytecodeFileHeader → Option Bytes → Outcome (VmContext × ℕ)
unfolding refuses load_code
load_bytecode ctx header none = fault null_pointer
load_bytecode ctx header (some file) =
    let parsed = parse_header header file in
    if not (parsed.status == vm_exit_success)
    then ok (ctx, parsed.status)
    else if refuses parsed.out
    then ok (ctx, vm_err_invalid_bytecode)
    else ok (load_code ctx parsed.out parsed.file)
