-- ===== src/InstructionFormat.antt =====
-- The table of src/vm/instruction_format_table.c, indexed by opcode, and the enumerators of
-- `Opcode` (src/include/parser.h) that the code names.
use bitcode.Base.{
  dec_le, ℕ_discrete, ℕ, List, [], ◌∷◌, Option, none, some, Bytes, ◌==◌, if◌then◌else◌, codes,
  get_elem?, ◌≤◌, ◌⊎◌, ◌≡◌, ◌<◌, ◌≢◌, get_elem?-lt, arith, inl, inr, get_elem?-le,
}

abbrev pub op_print_chr : ℕ
op_print_chr = 0x00

abbrev pub op_print_str : ℕ
op_print_str = 0x01

abbrev pub op_mov : ℕ
op_mov = 0x02

abbrev pub op_load_addr : ℕ
op_load_addr = 0x03

abbrev pub op_halt : ℕ
op_halt = 0x19

abbrev pub op_unknown : ℕ
op_unknown = 0xFF

pub data OperandType : Type 0 where
  ot_register ot_immediate_int ot_immediate_chr ot_immediate_str : OperandType
  ot_symbol ot_any_source ot_none : OperandType

pub record OpcodeInfo : Type 0 where
  pub name : Bytes
  pub operand_count : ℕ
  pub operand_0 : OperandType
  pub operand_1 : OperandType

abbrev info : Bytes → ℕ → OperandType → OperandType → OpcodeInfo
info name count a b = record { name = name; operand_count = count; operand_0 = a; operand_1 = b }

-- The entries that the table names, from opcode 0 on.
unfoldable pub named_opcodes : List OpcodeInfo
named_opcodes =
    info (codes "print_chr") 1 ot_register ot_none
    ∷ info (codes "print_str") 1 ot_any_source ot_none
    ∷ info (codes "mov") 2 ot_register ot_any_source
    ∷ info (codes "load_addr") 2 ot_register ot_any_source
    ∷ info (codes "add") 2 ot_register ot_any_source
    ∷ info (codes "sub") 2 ot_register ot_any_source
    ∷ info (codes "mul") 2 ot_register ot_any_source
    ∷ info (codes "div") 2 ot_register ot_any_source
    ∷ info (codes "mod") 2 ot_register ot_any_source
    ∷ info (codes "and") 2 ot_register ot_any_source
    ∷ info (codes "or") 2 ot_register ot_any_source
    ∷ info (codes "not") 1 ot_register ot_none
    ∷ info (codes "cmp") 0 ot_none ot_none
    ∷ info (codes "jz") 1 ot_symbol ot_none
    ∷ info (codes "jnz") 1 ot_symbol ot_none
    ∷ info (codes "jeq") 1 ot_symbol ot_none
    ∷ info (codes "jgt") 1 ot_symbol ot_none
    ∷ info (codes "jge") 1 ot_symbol ot_none
    ∷ info (codes "jlt") 1 ot_symbol ot_none
    ∷ info (codes "jle") 1 ot_symbol ot_none
    ∷ info (codes "jmp") 1 ot_symbol ot_none
    ∷ info (codes "call") 1 ot_symbol ot_none
    ∷ info (codes "ret") 0 ot_none ot_none
    ∷ info (codes "push") 1 ot_register ot_none
    ∷ info (codes "pop") 1 ot_register ot_none
    ∷ info (codes "halt") 0 ot_none ot_none
    ∷ []

-- `none` is an entry whose name is NULL.
unfoldable pub opcode_info : ℕ → Option OpcodeInfo
unfolding named_opcodes
opcode_info op =
    if op == op_unknown
    then some (info (codes "unknown") 0 ot_none ot_none)
    else get_elem? named_opcodes op

-- Which opcodes have a name.
pub opcode_info_cases :
    (op : ℕ)
    → (((op ≤ 25) ⊎ (op ≡ 255)) × (info : OpcodeInfo) × (opcode_info op ≡ some info))
      ⊎ ((25 < op) × (op ≢ 255) × (opcode_info op ≡ none))
unfolding opcode_info
opcode_info_cases op = elim (dec_le op 25) [
  | yes h ↦
      let (info, e) = get_elem?-lt named_opcodes op (omega arith) in
      inl (inl h, info, rw e (ground arith))
  | no h ↦ elim (ℕ_discrete op 255) [
    | yes e ↦ inl (inr e, info (codes "unknown") 0 ot_none ot_none, ground arith)
    | no ne ↦ inr (omega arith, ne, rw (get_elem?-le named_opcodes op (omega arith)) (ground arith))
  ]
]
