-- ===== src/Assembler/Opcodes/Names.antt =====
-- The tables of opcodes agree: `opcode_table` of opcodes.c, by which the parser finds an opcode,
-- `opcode_info` of instruction_format_table.c, by which operands are counted, and `OPCODES` of
-- lexer.c.
use bitcode.Base.{
  AllBelow, AllBelow-lt, ℕ, ◌≤◌, ◌≡◌, ◌≢◌, some, none, arith, Option, str_eq, List, [], ◌∷◌, Bytes,
  Bool, All, true, map, ◌⊎◌, false, inr, Bool-cases, inl, ◌∙◌, str_eq→eq, ◌+◌, refl, leb, ◌&&◌,
}
use mathlib.Core.Path.{subst}
use bitcode.Assembler.Lexer
use bitcode.Assembler.Lexer.{index_from, opcodes}
use bitcode.InstructionFormat.{OpcodeInfo, opcode_info, opcode_info_cases}
use bitcode.Assembler.Opcodes.{
  opcode_lookup, ident_lookup, is_opcode, OpcodeEntry, lookup_in, opcode_table,
}

abbrev Agrees : ℕ → Type 0
Agrees op = elim (opcode_info op) [
  | none ↦ Unit
  | some info ↦ (opcode_lookup info.name ≡ op) × (ident_lookup op ≡ some info.name)
]

all_below : AllBelow Agrees 26
unfolding opcode_info opcode_lookup ident_lookup str_eq
all_below = search

-- For every opcode up to 25, the name in the format table is the name by which `opcode_lookup`
-- finds the opcode, and the one that `ident_lookup` gives back.
pub opcode_lookup-name :
    (op : ℕ) (info : OpcodeInfo)
    → op ≤ 25
    → opcode_info op ≡ some info
    → (opcode_lookup info.name ≡ op) × (ident_lookup op ≡ some info.name)
opcode_lookup-name op info h e =
    let agrees : Agrees op = AllBelow-lt Agrees 26 op (omega arith) all_below in
    subst
      (λ (o : Option OpcodeInfo). elim o [
        | none ↦ Unit
        | some i ↦ (opcode_lookup i.name ≡ op) × (ident_lookup op ≡ some i.name)
      ])
      e agrees

-- An entry of `opcode_table` whose name is the one in the format table.
abbrev IsNamed : OpcodeEntry → Type 0
IsNamed e =
    (e.opcode_id ≤ 25)
    × (info : OpcodeInfo) × (opcode_info e.opcode_id ≡ some info)
    × (info.name ≡ e.opcode_name)

-- The same as a test.
abbrev is_named : OpcodeEntry → Bool
is_named e =
    leb e.opcode_id 25
    && elim (opcode_info e.opcode_id) [ none ↦ false | some info ↦ str_eq info.name e.opcode_name ]

is_named-IsNamed : (e : OpcodeEntry) → is_named e ≡ true → IsNamed e
is_named-IsNamed e h = elim (opcode_info_cases e.opcode_id) [
  | inl (known, info, found) ↦
      let same : str_eq info.name e.opcode_name ≡ true = ground (arith, h, found) in
      (ground (arith, h), info, found, str_eq→eq info.name e.opcode_name same)
  | inr (above, ne, found) ↦ absurd (ground (arith, h))
]

All-IsNamed : (es : List OpcodeEntry) → All (λ e. is_named e ≡ true) es → All IsNamed es
All-IsNamed [] h = tt
All-IsNamed (e ∷ es) (h, hs) = (is_named-IsNamed e h, All-IsNamed es hs)

opcode_table-IsNamed : All IsNamed opcode_table
unfolding opcode_table opcode_info str_eq
opcode_table-IsNamed = All-IsNamed opcode_table search

str_eq_comm : (xs ys : Bytes) → str_eq xs ys ≡ str_eq ys xs
unfolding str_eq
str_eq_comm [] [] = refl
str_eq_comm [] (y ∷ ys) = refl
str_eq_comm (x ∷ xs) [] = refl
str_eq_comm (x ∷ xs) (y ∷ ys) = ground (arith, str_eq_comm xs ys)

-- What `isOpcode` finds in the names of the entries.
abbrev is_found : Option ℕ → Bool
is_found found = elim found [ some i ↦ true | none ↦ false ]

-- The two loops over the same names.
lookup_in_cases :
    (es : List OpcodeEntry) (s : Bytes) (i : ℕ)
    → All IsNamed es
    → ((lookup_in es s ≤ 25)
        × (info : OpcodeInfo) × (opcode_info (lookup_in es s) ≡ some info)
        × (info.name ≡ s)
        × (is_found (index_from i (map OpcodeEntry.opcode_name es) s) ≡ true))
      ⊎ ((lookup_in es s ≡ 0xFF)
          × (is_found (index_from i (map OpcodeEntry.opcode_name es) s) ≡ false))
unfolding lookup_in index_from
lookup_in_cases [] s i all = inr (refl, refl)
lookup_in_cases (e ∷ es) s i ((small, info, known, name), all) =
    elim (Bool-cases (str_eq e.opcode_name s)) [
      | inl same ↦
          let found = str_eq_comm s e.opcode_name ∙ same in
          rw (same, found, lookup_in, index_from)
            (inl (small, info, known, name ∙ str_eq→eq e.opcode_name s same, refl))
      | inr other ↦
          let missed = str_eq_comm s e.opcode_name ∙ other in
          rw (other, missed, lookup_in, index_from) (lookup_in_cases es s (i + 1) all)
    ]

-- A text is found by `opcode_lookup` exactly where it is the name of an opcode up to 25 in the
-- format table, and then as that opcode; `is_opcode` of assembler_utils.c and `isOpcode` of lexer.c,
-- which has a table of its own, hold of exactly these texts.
pub opcode_lookup_cases :
    (s : Bytes)
    → ((opcode_lookup s ≤ 25)
        × (is_opcode s ≡ true)
        × (Lexer.is_opcode s ≡ true)
        × (info : OpcodeInfo) × (opcode_info (opcode_lookup s) ≡ some info)
        × (info.name ≡ s))
      ⊎ ((opcode_lookup s ≡ 0xFF)
          × (is_opcode s ≡ false)
          × (Lexer.is_opcode s ≡ false)
          × ((op : ℕ) (info : OpcodeInfo) → op ≤ 25 → opcode_info op ≡ some info → info.name ≢ s))
unfolding opcode_lookup is_opcode Lexer.is_opcode opcode_table opcodes
opcode_lookup_cases s = elim (lookup_in_cases opcode_table s 0 opcode_table-IsNamed) [
  | inl (small, info, known, name, found) ↦ inl (small, ground arith, found, info, known, name)
  | inr (missed, absent) ↦ inr (
    missed,
    rw missed refl,
    absent,
    λ op info low known same.
        let looked : opcode_lookup s ≡ op =
          subst (λ n. opcode_lookup n ≡ op) same (opcode_lookup-name op info low known).0 in
        absurd (omega (arith, looked, missed)),
  )
]
