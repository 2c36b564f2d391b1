-- ===== src/Vm/Layout.antt =====
-- The macros of src/include/vm.h: the memory map, the instruction format and the error codes.
use bitcode.Base.{ℕ}

abbrev pub mem_size : ℕ
mem_size = 0x540000

abbrev pub code_start : ℕ
code_start = 0x000000

abbrev pub code_size : ℕ
code_size = 0x080000

abbrev pub rodata_start : ℕ
rodata_start = 0x080000

abbrev pub rodata_size : ℕ
rodata_size = 0x040000

abbrev pub data_start : ℕ
data_start = 0x0C0000

abbrev pub data_size : ℕ
data_size = 0x040000

abbrev pub heap_start : ℕ
heap_start = 0x100000

abbrev pub heap_size : ℕ
heap_size = 0x3C0000

abbrev pub stack_start : ℕ
stack_start = 0x4C0000

abbrev pub stack_size : ℕ
stack_size = 0x080000

abbrev pub memory_limit : ℕ
memory_limit = 5242880

abbrev pub instruction_size : ℕ
instruction_size = 8

abbrev pub bytecode_magic : ℕ
bytecode_magic = 0x564D4259

abbrev pub bytecode_supported_version : ℕ
bytecode_supported_version = 1

-- `VMErrorState`, of which every value fits the int8_t that the functions return.
abbrev pub vm_exit_success : ℕ
vm_exit_success = 0

abbrev pub vm_err_invalid_bytecode : ℕ
vm_err_invalid_bytecode = 3

abbrev pub vm_err_opcode_not_found : ℕ
vm_err_opcode_not_found = 4

abbrev pub vm_err_pc_out_of_bounds : ℕ
vm_err_pc_out_of_bounds = 6

abbrev pub vm_err_unknown : ℕ
vm_err_unknown = 99

abbrev pub vm_err_stack_overflow : ℕ
vm_err_stack_overflow = 100

abbrev pub vm_err_memory_out_of_bounds : ℕ
vm_err_memory_out_of_bounds = 103

abbrev pub vm_err_illegal_operation : ℕ
vm_err_illegal_operation = 113
