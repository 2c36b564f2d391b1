-- ===== src/Assembler/Texts.antt =====
-- The text of a program as its author writes it, word by word, for the lexer of
-- src/assembler/lexer/lexer.c.
pub mod Words
pub mod Registers
pub mod Lines
pub mod Copies
pub mod Buffers
pub mod Files
pub mod Runs
pub mod Programs
use bitcode.Assembler.Lexer.Layouts.{Layout}
use bitcode.Base.{
  map, ◌&&◌, zero, suc, codes, length, ℕ, ◌+◌, ◌-◌, ◌*◌, ◌≤◌, ◌<◌, ◌≡◌, true, List, [], ◌∷◌, ◌++◌,
  Bytes, All, u32_mod, ◌⊎◌, if◌then◌else◌, ◌≢◌, leb,
}
use bitcode.Assembler.Parser.{Operand, register, symbol, immediate_int}
use bitcode.Assembler.Parser.Sources.{
  SourceLine, label, bare_directive, plain, unary, binary, name_of, IsSource,
}

-- A name starts with a letter other than a capital R, or with an underscore.
abbrev pub StartsName : ℕ → Type 0
StartsName c = (((65 ≤ c) × (c ≤ 90) × (c ≢ b'R')) ⊎ ((97 ≤ c) × (c ≤ 122))) ⊎ (c ≡ b'_')

-- Its second character, if it has one, is an ASCII character other than a digit.
abbrev pub GoesOn : Bytes → Type 0
GoesOn [] = Unit
GoesOn (d ∷ ds) = (d < 48) ⊎ ((57 < d) × (d < 128))

abbrev pub lower_case : ℕ → ℕ
lower_case c = if leb 65 c && leb c 90 then c + 32 else c

-- A word that is a name, and its text in lower case.
abbrev pub IsName : Bytes → Bytes → Type 0
IsName [] s = ⊥
IsName (c ∷ cs) s = StartsName c × GoesOn cs × (map lower_case (c ∷ cs) ≡ s)

abbrev pub IsDigit : ℕ → Type 0
IsDigit c = (48 ≤ c) × (c ≤ 57)

-- A digit, or a letter from A to F in either case.
abbrev pub IsHexDigit : ℕ → Type 0
IsHexDigit c = ((48 ≤ c) × (c ≤ 57)) ⊎ ((65 ≤ c) × (c ≤ 70)) ⊎ ((97 ≤ c) × (c ≤ 102))

abbrev pub hex_digit : ℕ → ℕ
hex_digit c = if leb c 57 then c - 48 else if leb c 70 then c - 55 else c - 87

-- The number that decimal digits stand for, behind those read so far.
abbrev pub value : ℕ → Bytes → ℕ
value acc [] = acc
value acc (c ∷ cs) = value (acc * 10 + (c - 48)) cs

abbrev pub hex_value : ℕ → Bytes → ℕ
hex_value acc [] = acc
hex_value acc (c ∷ cs) = hex_value (acc * 16 + hex_digit c) cs

-- The words that stand for an operand; a negative integer stands for what it is modulo 2 ^ 32.
pub data Writes : Operand → Bytes → Type 0 where
  a_register : (r : ℕ) → r < 8 → Writes (register r) (b'r' ∷ (b'0' + r) ∷ [])
  a_symbol : (w s : Bytes) → IsName w s → Writes (symbol s) w
  an_integer :
      (c : ℕ) (cs : Bytes)
      → All IsDigit (c ∷ cs)
      → value 0 (c ∷ cs) < u32_mod
      → Writes (immediate_int (value 0 (c ∷ cs))) (c ∷ cs)
  a_negative :
      (c : ℕ) (cs : Bytes)
      → All IsDigit (c ∷ cs)
      → 0 < value 0 (c ∷ cs)
      → value 0 (c ∷ cs) ≤ 2147483648
      → Writes (immediate_int (u32_mod - value 0 (c ∷ cs))) (b'-' ∷ c ∷ cs)
  a_hexadecimal :
      (c : ℕ) (cs : Bytes)
      → IsDigit c
      → All IsHexDigit cs
      → hex_value 0 (c ∷ cs) < u32_mod
      → Writes (immediate_int (hex_value 0 (c ∷ cs))) (b'0' ∷ b'x' ∷ c ∷ cs)

-- The names of the directives.
abbrev pub directive_name : ℕ → Bytes
directive_name zero = codes ".start"
directive_name (suc zero) = codes ".data"
directive_name (suc (suc zero)) = codes ".rodata"
directive_name (suc (suc (suc d))) = codes ".global"

-- The lexemes of a line, without a line break.
pub data WritesLine : SourceLine → List Bytes → Type 0 where
  label_text : (w s : Bytes) → IsName w (s ++ b':' ∷ []) → WritesLine (label s) (w ∷ [])
  directive_text : (d : ℕ) → d < 4 → WritesLine (bare_directive d) (directive_name d ∷ [])
  plain_text : (op : ℕ) (w : Bytes) → IsName w (name_of op) → WritesLine (plain op) (w ∷ [])
  unary_text :
      (op : ℕ) (o : Operand) (w v : Bytes)
      → IsName w (name_of op)
      → Writes o v
      → WritesLine (unary op o) (w ∷ v ∷ [])
  binary_text :
      (op : ℕ) (o o' : Operand) (w v v' : Bytes)
      → IsName w (name_of op)
      → Writes o v
      → Writes o' v'
      → WritesLine (binary op o o') (w ∷ v ∷ (b',' ∷ []) ∷ v' ∷ [])

-- The source lines of a buffer, one at most, with their lexemes.
pub data Holds : List SourceLine → List Bytes → Type 0 where
  nothing : Holds [] []
  one : (l : SourceLine) (ws : List Bytes) → WritesLine l ws → IsSource l → Holds (l ∷ []) ws

-- Its line break, unless a comment hides it or the file ends.
pub data Breaks : List Bytes → Type 0 where
  hidden : Breaks []
  shown : Breaks ((b'\n' ∷ []) ∷ [])

-- A byte that ends neither the line nor the string in the buffer.
abbrev pub IsInner : ℕ → Type 0
IsInner c = (c ≢ b'\n') × (c ≢ 0)

-- What `fgets` takes into the buffer of 1024 bytes: a whole line, or the last one without its line
-- break; with the rest of the file.
pub data Buffer : Bytes → Bytes → Type 0 where
  a_line :
      (body rest : Bytes) → All IsInner body → length body ≤ 1022 → Buffer (body ++ b'\n' ∷ []) rest
  last_line :
      (body rest : Bytes)
      → All IsInner body
      → 0 < length body
      → length body ≤ 1023
      → rest ≡ []
      → Buffer body rest

-- A file of such buffers, each with its lexemes.
abbrev pub text : List (Bytes × List Bytes) → Bytes
text [] = []
text ((t, ws) ∷ rows) = t ++ text rows

-- How many lexemes there are.
abbrev pub lexemes : List (Bytes × List Bytes) → ℕ
lexemes [] = 0
lexemes ((t, ws) ∷ rows) = length ws + lexemes rows

-- The text of a program, laid out in any way.
pub data IsText : List SourceLine → List (Bytes × List Bytes) → Type 0 where
  empty : IsText [] []
  row :
      (ks ls : List SourceLine) (t : Bytes) (ws bs : List Bytes) (rows : List (Bytes × List Bytes))
      → Holds ks ws
      → Breaks bs
      → Layout t (ws ++ bs)
      → Buffer t (text rows)
      → IsText ls rows
      → IsText (ks ++ ls) ((t, ws ++ bs) ∷ rows)
