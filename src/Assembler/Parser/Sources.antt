-- ===== src/Assembler/Parser/Sources.antt =====
-- Programs as their author writes them, line by line, and the tokens of such a program for
-- src/assembler/parser/parser.c.
pub mod Lines
pub mod Programs
pub mod Rodata
use bitcode.Base.{
  ℕ, ◌+◌, ◌*◌, ◌≤◌, ◌<◌, ◌≡◌, List, [], ◌∷◌, ◌++◌, Option, none, some, Bytes, All, codes, length,
  get_or,
}
use bitcode.Arena.{MemoryArena, header_size}
use bitcode.Assembler.Lexer.Capacity.{closing}
use bitcode.Assembler.Parser.{
  Operand, register, symbol, immediate_int, immediate_chr, immediate_str,
}
use bitcode.Assembler.Parser.Programs.{
  Line, label_def, instruction, directive, with_none, with_one, with_two, operand_count,
  initial_line_capacity, line_size,
}
use bitcode.Assembler.Parser.RoundTrip.{token_of, Readable, comma, word}
use bitcode.Assembler.Tokens
use bitcode.Assembler.Tokens.{Token, separator, tok_separator, tok_directive, sep_eol}
use bitcode.InstructionFormat.{opcode_info}

-- The first number of an instruction is its opcode, that of a directive the index in the lexer's
-- table.
pub data SourceLine : Type 0 where
  label : Bytes → SourceLine
  bare_directive : ℕ → SourceLine
  plain : ℕ → SourceLine
  unary : ℕ → Operand → SourceLine
  binary : ℕ → Operand → Operand → SourceLine

abbrev pub line_of : SourceLine → Line
line_of (label s) = label_def s
line_of (bare_directive d) = directive (record { type = d; operand_0 = none; operand_1 = none })
line_of (plain op) = instruction (with_none op)
line_of (unary op a) = instruction (with_one op a)
line_of (binary op a b) = instruction (with_two op a b)

abbrev pub name_of : ℕ → Bytes
name_of op = elim (opcode_info op) [ none ↦ [] | some info ↦ info.name ]

abbrev Takes : ℕ → ℕ → Type 0
Takes op n = (op ≤ 25) × (operand_count op ≡ n)

-- The opcode takes as many operands as there are, and these are parsed back.
abbrev pub IsSource : SourceLine → Type 0
IsSource (label s) = Unit
IsSource (bare_directive d) = d < 4
IsSource (plain op) = Takes op 0
IsSource (unary op a) = Takes op 1 × Readable a
IsSource (binary op a b) = Takes op 2 × Readable a × Readable b

abbrev pub eol : Token
eol = record { kind = tok_separator; value = separator sep_eol; lexeme = some (codes "\n") }

abbrev pub directive_token : ℕ → Option Bytes → Token
directive_token d x = record { kind = tok_directive; value = Tokens.directive d; lexeme = x }

-- The tokens of a line without the line break; where the texts stand, and the lexemes of operands,
-- are of no account.
pub data Spells : SourceLine → List Token → Type 0 where
  label_words : (p : ℕ) (s : Bytes) → Spells (label s) (word p (s ++ b':' ∷ []) ∷ [])
  directive_words :
      (d : ℕ) (x : Option Bytes) → Spells (bare_directive d) (directive_token d x ∷ [])
  plain_words : (p op : ℕ) → Spells (plain op) (word p (name_of op) ∷ [])
  unary_words :
      (p q op : ℕ) (x : Option Bytes) (o : Operand)
      → Spells (unary op o) (word p (name_of op) ∷ token_of q x o ∷ [])
  binary_words :
      (p q r op : ℕ) (x y : Option Bytes) (a b : Operand)
      → Spells (binary op a b) (word p (name_of op) ∷ token_of q x a ∷ comma ∷ token_of r y b ∷ [])

-- The tokens of a program: its lines with any number of line breaks between them, and `TOK_EOF` at
-- the end.
pub data IsProgram : List SourceLine → List Token → Type 0 where
  done : IsProgram [] (closing ∷ [])
  gap : (ls : List SourceLine) (us : List Token) → IsProgram ls us → IsProgram ls (eol ∷ us)
  line :
      (l : SourceLine) (ls : List SourceLine) (ts us : List Token)
      → Spells l ts
      → IsProgram ls us
      → IsProgram (l ∷ ls) (ts ++ us)

-- What a line takes from the arena: a copy of its first word, with a header, but for a directive.
abbrev pub cost_of : SourceLine → ℕ
cost_of (label s) = length s + 1 + header_size
cost_of (bare_directive d) = 0
cost_of (plain op) = length (name_of op) + 1 + header_size
cost_of (unary op a) = length (name_of op) + 1 + header_size
cost_of (binary op a b) = length (name_of op) + 1 + header_size

abbrev pub costs_of : List SourceLine → ℕ
costs_of [] = 0
costs_of (l ∷ ls) = cost_of l + costs_of ls

-- The array of lines, and what each line costs.
abbrev pub program_cost : List SourceLine → ℕ
program_cost ls = initial_line_capacity * line_size + header_size + costs_of ls
