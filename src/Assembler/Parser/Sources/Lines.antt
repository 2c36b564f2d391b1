-- ===== src/Assembler/Parser/Sources/Lines.antt =====
-- The lines of a program for `parse_line` (src/assembler/parser/parser.c).
use bitcode.Arena.Fits.{spend, alloc_fits}
use bitcode.Assembler.Parser.RoundTrip.{
  at, Readable, comma, parse_instruction-tokens, skip_separator-token_of, parse_operand-token_of,
  token_of, word,
}
use bitcode.Assembler.Tokens.{identifier_value, first_word}
use bitcode.Arena.{header_size, arena_strdup}
use bitcode.Assembler.TokenStream.{peek, consume, first_token, rest_tokens}
use bitcode.Arena.Disjoint.{IsArena}
use bitcode.Assembler.Parser.{
  parse_directive, directive_operands, skip_separator, parse_opcode, ParserState, Operand, Option,
}
use bitcode.Base.Stateful.{◌>>=◌}
use bitcode.Base.{
  AllBelow, AllBelow-lt, ℕ, ◌+◌, ◌-◌, ◌≤◌, ◌≡◌, refl, false, true, List, [], ◌∷◌, ◌++◌, some, ok,
  Bytes, arith, length, length-append, get_or, take-length-append, ◌==◌, str_eq, ap, ◌∙◌, Option,
}
use mathlib.Core.Path.{subst}
use bitcode.InstructionFormat.{opcode_info}
use bitcode.Assembler.Opcodes.{opcode_lookup, is_opcode}
use bitcode.Assembler.Parser.Programs.{
  ends_with_colon, parse_instruction, operands_of, operand_count, with_none, parse_line,
  second_operand, parse_identifier_line, parse_label_def, Instruction, zeroed, label_def,
  instruction, with_two, with_one,
}
use bitcode.Assembler.Parser.Sources.{
  name_of, SourceLine, MemoryArena, Token, label, bare_directive, directive_token, plain, unary,
  binary, cost_of, IsSource, line_of, Spells,
}

abbrev pub Spelled : ℕ → Type 0
Spelled op = (opcode_lookup (name_of op) ≡ op) × (ends_with_colon (name_of op) ≡ false)

all_below : AllBelow Spelled 26
unfolding opcode_info opcode_lookup ends_with_colon str_eq
all_below = search

-- The name of an opcode is found again, and is no label.
pub name_of-Spelled : (op : ℕ) → op ≤ 25 → Spelled op
name_of-Spelled op h = AllBelow-lt Spelled 26 op (omega arith) all_below

get_or-length : (s : Bytes) (c : ℕ) → get_or (s ++ c ∷ []) (length s) 0 ≡ c
get_or-length [] c = refl
get_or-length (x ∷ xs) c = get_or-length xs c

ends_with_colon-label : (s : Bytes) → ends_with_colon (s ++ b':' ∷ []) ≡ true
unfolding ends_with_colon
ends_with_colon-label s =
    let colon : length (s ++ b':' ∷ []) - 1 ≡ length s =
      omega (arith, length-append s (b':' ∷ [])) in
    rw (colon, get_or-length s b':') refl

-- What is left behind a line: a separator that follows has gone where one may stand.
abbrev pub left_of : SourceLine → List Token → List Token → List Token
left_of (label s) us us' = us
left_of (bare_directive d) us us' = us
left_of (plain op) us us' = us'
left_of (unary op a) us us' = us'
left_of (binary op a b) us us' = us

-- What follows is passed over in this way.
module _ (head us us' : List Token) (a : MemoryArena) (ar : IsArena a)
    (skips : (b : MemoryArena) → skip_separator (at head us b) ≡ ok (tt, at head us' b)) where
  parse_instruction-plain :
      (p op : ℕ)
      → op ≤ 25
      → operand_count op ≡ 0
      → a.offset + cost_of (plain op) ≤ a.size
      → parse_instruction (at head (word p (name_of op) ∷ us) a)
        ≡ ok (some (with_none op), at head us' (spend (cost_of (plain op)) a))
  unfolding parse_instruction parse_opcode operands_of peek consume first_token rest_tokens
      identifier_value arena_strdup
  parse_instruction-plain p op known count room =
      let (same, no_label) = name_of-Spelled op known in
      let fine : (op == 0xFF) ≡ false = ground arith in
      rw
        (
          ◌>>=◌,
          alloc_fits (length (name_of op) + 1) a ar room,
          same,
          fine,
          skips (spend (cost_of (plain op)) a),
          count,
          parse_instruction,
          parse_opcode,
        )
        refl

  parse_instruction-unary :
      (p q op : ℕ) (x : Option Bytes) (o : Operand)
      → op ≤ 25
      → operand_count op ≡ 1
      → Readable o
      → a.offset + cost_of (unary op o) ≤ a.size
      → parse_instruction (at head (word p (name_of op) ∷ token_of q x o ∷ us) a)
        ≡ ok (some (with_one op o), at head us' (spend (cost_of (unary op o)) a))
  unfolding parse_instruction parse_opcode operands_of second_operand peek consume first_token
      rest_tokens identifier_value arena_strdup
  parse_instruction-unary p q op x o known count readable room =
      let (same, no_label) = name_of-Spelled op known in
      let fine : (op == 0xFF) ≡ false = ground arith in
      let b = spend (cost_of (unary op o)) a in
      rw
        (
          ◌>>=◌,
          alloc_fits (length (name_of op) + 1) a ar room,
          same,
          fine,
          skip_separator-token_of o q x head us b readable,
          count,
          parse_operand-token_of o q x head us b readable,
          skips b,
          count,
          parse_instruction,
          parse_opcode,
        )
        refl

  parse_instruction-binary :
      (p q r op : ℕ) (x y : Option Bytes) (o o' : Operand)
      → op ≤ 25
      → operand_count op ≡ 2
      → Readable o
      → Readable o'
      → a.offset + cost_of (binary op o o') ≤ a.size
      → parse_instruction
          (at head (word p (name_of op) ∷ token_of q x o ∷ comma ∷ token_of r y o' ∷ us) a)
        ≡ ok (some (with_two op o o'), at head us (spend (cost_of (binary op o o')) a))
  unfolding arena_strdup
  parse_instruction-binary p q r op x y o o' known count readable readable' room =
      let (same, no_label) = name_of-Spelled op known in
      subst
        (λ n.
          parse_instruction
            (at head (word p (name_of op) ∷ token_of q x o ∷ comma ∷ token_of r y o' ∷ us) a)
          ≡ ok (some (with_two n o o'), at head us (spend (cost_of (binary op o o')) a)))
        same
        (parse_instruction-tokens (name_of op) o o' p q r (a.buffer + a.offset + header_size) x y
          head us a (spend (cost_of (binary op o o')) a) (λ e. omega (arith, same, e))
          (ap operand_count same ∙ count) readable readable'
          (alloc_fits (length (name_of op) + 1) a ar room))

  -- A line that starts with the name of an opcode is an instruction.
  parse_line-instruction :
      (p op : ℕ) (rest : List Token) (i : Instruction) (s : ParserState)
      → op ≤ 25
      → parse_instruction (at head (word p (name_of op) ∷ rest) a) ≡ ok (some i, s)
      → parse_line zeroed (at head (word p (name_of op) ∷ rest) a) ≡ ok (some (instruction i), s)
  unfolding parse_line parse_identifier_line peek first_token identifier_value is_opcode
  parse_line-instruction p op rest i s known e =
      let (same, no_label) = name_of-Spelled op known in
      let fine : (op == 0xFF) ≡ false = ground arith in
      rw (◌>>=◌, no_label, same, fine, e, parse_line) refl

  parse_line-label :
      (p : ℕ) (s : Bytes)
      → a.offset + cost_of (label s) ≤ a.size
      → parse_line zeroed (at head (word p (s ++ b':' ∷ []) ∷ us) a)
        ≡ ok (some (label_def s), at head us (spend (cost_of (label s)) a))
  unfolding parse_line parse_identifier_line parse_label_def peek consume first_token rest_tokens
      identifier_value
  parse_line-label p s room =
      let colon : length (s ++ b':' ∷ []) - 1 ≡ length s =
        omega (arith, length-append s (b':' ∷ [])) in
      rw
        (
          ◌>>=◌,
          ends_with_colon-label s,
          colon,
          alloc_fits (length s + 1) a ar room,
          colon,
          take-length-append s (b':' ∷ []),
          parse_line,
        )
        refl

  parse_line-directive :
      (d : ℕ) (x : Option Bytes)
      → parse_line zeroed (at head (directive_token d x ∷ us) a)
        ≡ ok (some (line_of (bare_directive d)), at head us (spend 0 a))
  unfolding parse_line parse_directive directive_operands peek consume first_token rest_tokens
      first_word
  parse_line-directive d x =
      let same : a.offset + 0 ≡ a.offset = omega arith in rw (parse_line, same) refl

  -- A line is parsed back, and what it costs is taken from the arena.
  pub parse_line-Spells :
      (l : SourceLine) (ts : List Token)
      → Spells l ts
      → IsSource l
      → a.offset + cost_of l ≤ a.size
      → parse_line zeroed (at head (ts ++ us) a)
        ≡ ok (some (line_of l), at head (left_of l us us') (spend (cost_of l) a))
  parse_line-Spells l ts (Spells.label_words p s) h room = parse_line-label p s room
  parse_line-Spells l ts (Spells.directive_words d x) h room = parse_line-directive d x
  parse_line-Spells l ts (Spells.plain_words p op) (known, count) room =
      parse_line-instruction p op us _ _ known (parse_instruction-plain p op known count room)
  parse_line-Spells l ts (Spells.unary_words p q op x o) ((known, count), readable) room =
      parse_line-instruction p op (token_of q x o ∷ us) _ _ known
        (parse_instruction-unary p q op x o known count readable room)
  parse_line-Spells l ts (Spells.binary_words p q r op x y o o')
        ((known, count), readable, readable') room =
      parse_line-instruction p op (token_of q x o ∷ comma ∷ token_of r y o' ∷ us) _ _ known
        (parse_instruction-binary p q r op x y o o' known count readable readable' room)
