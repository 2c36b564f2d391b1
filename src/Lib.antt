-- ===== src/Lib.antt =====
-- BitLang: an assembler front end and a small virtual machine, in C.
--
-- The program has two commands. `vm run FILE` (src/vm) makes a machine, loads a bytecode file into
-- its memory and runs the loop of fetch, decode and execute. `asm run FILE` (src/assembler and
-- src/utils) cuts a source file into tokens, links them into a stream and parses the stream into
-- lines; both take their memory from one arena. The format table of the instructions is what the
-- two halves share. No bytecode is generated yet.
--
-- Which file models what (paths of the sources from the repository's root):
--   Base               Booleans, lists, words, character classes, outcomes, stateful functions.
--   InstructionFormat  src/vm/instruction_format_table.c: `opcode_info`, and the enumerators of
--                      `Opcode`.
--   Vm                 src/vm/vm.c, src/vm/vm_utils/vm_utils.c, src/include/vm.h.
--     Vm/Layout        the macros of the memory map and the error codes.
--     Vm/State         `VMContext`, `VMOperand`, `DecodedInstruction`, accesses to registers and
--                      memory.
--     Vm/Decode        `fetch_instruction`, `decode_instruction`, `populate_operand`.
--     Vm/Strings       `vm_allocate_string`, `vm_print_string`.
--     Vm/Handlers      the handlers, the table `opcode_handler` and `execute_bytecode`.
--     Vm/Header        `read_header_u16`, `read_header_u32`, `parse_header`.
--     Vm/Load          `vm_create`, `vm_terminate`, `load_bytecode`.
--     Vm/Machine       the machine as the writer of a program sees it: commands, registers, output.
--     Vm/Run           `run_vm`; files that hold programs of commands are in Vm/Run/Files.
--   Arena              src/utils/arena_allocator/arena_allocator.c.
--   Assembler          src/assembler and src/utils.
--     Assembler/Tokens       the types of src/include/lexer.h.
--     Assembler/Opcodes      src/utils/assembler_utils/opcodes.c, `is_opcode`.
--     Assembler/Lexer        src/assembler/lexer/lexer.c: the tables, `getLexemesInLine`, `lexer`,
--                            `run_lexer`.
--     Assembler/TokenStream  src/utils/token_stream/token_stream.c.
--     Assembler/Parser       src/assembler/parser/parser.c; in Assembler/Parser/Sources, programs
--                            as their author writes them.
--     Assembler/Texts        the text of such programs, through lexer, stream and parser.
--     Assembler/Symbols      src/utils/symbol_table/symbol_table.c, over uthash as a parameter.
--     Assembler/Context      src/assembler/assembler_context.c.
--     Assembler/DataSize     `calculate_vm_data_size` of src/utils/assembler_utils.
--   Logger             src/utils/logger/logger.c: `log_message`.
--   Main               src/main.c: the command line, which composes the two halves.
--   Tests              runs at small inputs, and instances of the theorems.
--
-- How code becomes a definition. A function of the machine takes the context and gives back the
-- context and its status. An `Outcome` is a value, the end of the process by `exit` with its code
-- and what stdout had received, or a fault: behaviour that the C standard leaves undefined, by its
-- cause. Every access to `registers[8]` and to the block of MEM_SIZE bytes is checked for its bound
-- in the model, so a fault says that the C code reads or writes outside. The functions of the
-- assembler are `Stateful`: they take the arena, and the parser the position in the stream as well,
-- and give back what they change. A failure that the C code reports by -1, false or NULL is `none`.
-- Numbers are natural numbers; where a C type wraps, `u32` or `to_size` stands in the definition.
-- The host is little-endian with 8-byte pointers and a signed char, as on x86-64, and reads and writes
-- misaligned words as any other, as the casts in the code and the blocks of the arena expect.
--
-- The faults of the model are accesses outside `registers[8]` and outside the block that `malloc` gave,
-- a call of a null handler, a null pointer that is read through or handed to the library, a negative
-- char handed to `isdigit`, the log call of src/main.c whose format lacks its argument, and the
-- overflow of the int that indexes a literal. The C standard leaves more undefined: misaligned accesses
-- (see above), and the `%d` that is given a size_t where the arena is full. Theorems that exclude
-- faults speak of those of the model.
--
-- Bounds and fuel. A round of `run_vm` moves `pc` on by 8 and the loop is left once `pc` is over
-- MEMORY_LIMIT, so MEMORY_LIMIT / 8 + 3 rounds are enough; there are no jumps. The loops of the
-- lexer and of the parser run on fuel as well: a round of `getLexemesInLine` and of `run_lexer`
-- takes a character at least, and a round of `parse_program` takes a token or fills one of the
-- lines that the capacity allows.
--
-- Not modelled: the inside of uthash, which is another project's and enters as operations with the
-- laws that it documents, and the test programs. `log_message` is modelled on its own; the calls of
-- it in the other components, which only write to stderr, are left out there. The symbol table and
-- the assembler's context are modelled although nothing calls them yet. `malloc`,
-- `fopen` and the bytes of files are arguments of the definitions. `fread`, `fgets`, `strtoll` and
-- the character classes are modelled as the C standard describes them for the arguments that occur.
pub mod Base
pub mod InstructionFormat
pub mod Vm
pub mod Arena
pub mod Logger
pub mod Assembler
pub mod Main
pub mod Tests
