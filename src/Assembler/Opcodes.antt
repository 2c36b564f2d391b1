-- ===== src/Assembler/Opcodes.antt =====
-- src/utils/assembler_utils/opcodes.c, and `is_opcode` of assembler_utils.c.
pub mod Names
use bitcode.Base.{
  ℕ, Bool, not, List, [], ◌∷◌, Option, none, some, Bytes, ◌==◌, if◌then◌else◌, codes, str_eq,
}

pub record OpcodeEntry : Type 0 where
  pub opcode_name : Bytes
  pub opcode_id : ℕ

abbrev entry : Bytes → ℕ → OpcodeEntry
entry name id = record { opcode_name = name; opcode_id = id }

-- The first `NUM_OPCODES` entries; the loops below read no other.
unfoldable pub opcode_table : List OpcodeEntry
opcode_table =
    entry (codes "print_chr") 0x00
    ∷ entry (codes "print_str") 0x01
    ∷ entry (codes "mov") 0x02
    ∷ entry (codes "load_addr") 0x03
    ∷ entry (codes "add") 0x04
    ∷ entry (codes "sub") 0x05
    ∷ entry (codes "mul") 0x06
    ∷ entry (codes "div") 0x07
    ∷ entry (codes "mod") 0x08
    ∷ entry (codes "and") 0x09
    ∷ entry (codes "or") 0x0a
    ∷ entry (codes "not") 0x0b
    ∷ entry (codes "cmp") 0x0c
    ∷ entry (codes "jz") 0x0d
    ∷ entry (codes "jnz") 0x0e
    ∷ entry (codes "jeq") 0x0f
    ∷ entry (codes "jgt") 0x10
    ∷ entry (codes "jge") 0x11
    ∷ entry (codes "jlt") 0x12
    ∷ entry (codes "jle") 0x13
    ∷ entry (codes "jmp") 0x14
    ∷ entry (codes "call") 0x15
    ∷ entry (codes "ret") 0x16
    ∷ entry (codes "push") 0x17
    ∷ entry (codes "pop") 0x18
    ∷ entry (codes "halt") 0x19
    ∷ []

-- The loop of `opcode_lookup` over the entries that are left.
unfoldable pub lookup_in : List OpcodeEntry → Bytes → ℕ
lookup_in [] s = 0xFF
lookup_in (e ∷ es) s = if str_eq e.opcode_name s then e.opcode_id else lookup_in es s

unfoldable pub opcode_lookup : Bytes → ℕ
unfolding lookup_in opcode_table
opcode_lookup s = lookup_in opcode_table s

unfoldable pub ident_in : List OpcodeEntry → ℕ → Option Bytes
ident_in [] opcode_id = none
ident_in (e ∷ es) opcode_id =
    if e.opcode_id == opcode_id then some e.opcode_name else ident_in es opcode_id

unfoldable pub ident_lookup : ℕ → Option Bytes
unfolding ident_in opcode_table
ident_lookup opcode_id = ident_in opcode_table opcode_id

unfoldable pub is_opcode : Bytes → Bool
is_opcode identifier = not (opcode_lookup identifier == 0xFF)
