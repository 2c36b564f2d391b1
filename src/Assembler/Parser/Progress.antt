-- ===== src/Assembler/Parser/Progress.antt =====
-- No function of the parser gives tokens back to the stream.
use bitcode.Base.{
  ℕ, ◌≤◌, Bool, true, false, List, [], ◌∷◌, Option, none, some, Outcome, ok, exited, fault, Fault,
  null_pointer, ◌==◌, ◌%◌, arith, length, if◌then◌else◌,
}
use bitcode.Base.Stateful.{Stateful, pure, ◌>>=◌}
use bitcode.Arena.Aborts.{Allocates, gives, aborts, breaks, Aborting, arena_strdup-Aborting}
use bitcode.Arena.{MemoryArena}
use bitcode.Assembler.Opcodes.{opcode_lookup}
use bitcode.Base.Int.{to_u32}
use bitcode.Assembler.Parser.{
  is_separator, is_out_of_range, made, char_operand, text_of, symbol, register, immediate_int,
  immediate_str, ParserState, Parser, peek_token, consume_token, in_arena, skip_separator,
  unless_at_end, parse_integer, parse_char, parse_string, parse_register, parse_literal,
  parse_operand_at, parse_operand, parse_opcode,
}
use bitcode.Assembler.TokenStream.{consume, rest_tokens}
use bitcode.Assembler.Tokens.{
  long_value, char_value, string_value, first_word, lit_integer, lit_char, lit_string, Token,
  TokenKind, tok_register, tok_identifier, tok_separator, tok_directive, tok_unknown, tok_literal,
  tok_eof,
}

abbrev pub left : ParserState → ℕ
left s = length s.stream.current

-- An outcome that leaves at most `n` tokens.
pub data Within {A : Type 0} (n : ℕ) : Outcome (A × ParserState) → Type 0 where
  returns : (a : A) (s : ParserState) → left s ≤ n → Within n (ok (a, s))
  exits : Within n (exited 1 [])
  faults : (e : Fault) → Within n (fault e)

pub record Shrinking {A : Type 0} (m : Parser A) : Type 0 where
  pub within : (s : ParserState) → Within (left s) (m s)

Within-le : {A : Type 0} {k n : ℕ} {r : Outcome (A × ParserState)} → k ≤ n → Within k r → Within n r
Within-le h (returns a s l) = returns a s (omega arith)
Within-le h exits = exits
Within-le h (faults e) = faults e

Within-bind :
    {A B : Type 0} {n : ℕ} {r : Outcome (A × ParserState)} (s : ParserState) (f : A → Parser B)
    → Within n r
    → ((a : A) → Shrinking (f a))
    → Within n (((λ t. r) >>= f) s)
Within-bind s f (returns a t l) k = Within-le l ((k a).within t)
Within-bind s f exits k = exits
Within-bind s f (faults e) k = faults e

pub bind :
    {A B : Type 0} {m : Parser A} {f : A → Parser B}
    → Shrinking m
    → ((a : A) → Shrinking (f a))
    → Shrinking (m >>= f)
bind {f = f} h k = record { within = λ s. Within-bind s f (h.within s) k }

pub pure-Shrinking : {A : Type 0} (a : A) → Shrinking (pure {A = A} a)
pure-Shrinking a = record { within = λ s. returns a s (omega arith) }

pub peek_token-Shrinking : Shrinking peek_token
peek_token-Shrinking = record { within = λ s. returns _ s (omega arith) }

length-rest_tokens : (ts : List Token) → length (rest_tokens ts) ≤ length ts
unfolding rest_tokens
length-rest_tokens [] = omega arith
length-rest_tokens (t ∷ ts) = omega arith

pub consume_token-Shrinking : Shrinking consume_token
unfolding consume
consume_token-Shrinking = record { within = λ s. returns _ _ (length-rest_tokens s.stream.current) }

Within-arena :
    {A : Type 0} (s : ParserState) {r : Outcome (A × MemoryArena)}
    → Allocates r
    → Within (left s) (in_arena (λ a. r) s)
Within-arena s (gives a arena) = returns a _ (omega arith)
Within-arena s aborts = exits
Within-arena s (breaks e) = faults e

pub in_arena-Shrinking :
    {A : Type 0} {m : Stateful MemoryArena A} → Aborting m → Shrinking (in_arena m)
in_arena-Shrinking h = record { within = λ s. Within-arena s (h.ends s.arena) }

-- The ways in which the functions branch.
pub either :
    {A : Type 0} (b : Bool) {x y : Parser A}
    → Shrinking x
    → Shrinking y
    → Shrinking (if b then x else y)
either true h k = h
either false h k = k

pub by_option :
    {A B : Type 0} (o : Option B) {x : Parser A} {f : B → Parser A}
    → Shrinking x
    → ((b : B) → Shrinking (f b))
    → Shrinking (elim o [ none ↦ x | some b ↦ f b ])
by_option none h k = h
by_option (some b) h k = k b

pub by_kind :
    {A : Type 0} (k : TokenKind) {x y z u v w t : Parser A}
    → Shrinking x
    → Shrinking y
    → Shrinking z
    → Shrinking u
    → Shrinking v
    → Shrinking w
    → Shrinking t
    → Shrinking (elim k [
      | tok_register ↦ x
      | tok_identifier ↦ y
      | tok_separator ↦ z
      | tok_directive ↦ u
      | tok_unknown ↦ v
      | tok_literal ↦ w
      | tok_eof ↦ t
    ])
by_kind tok_register a b c d e f g = a
by_kind tok_identifier a b c d e f g = b
by_kind tok_separator a b c d e f g = c
by_kind tok_directive a b c d e f g = d
by_kind tok_unknown a b c d e f g = e
by_kind tok_literal a b c d e f g = f
by_kind tok_eof a b c d e f g = g

at_end :
    {A : Type 0} (m : Parser (Option A)) (ts : List Token) (s : ParserState)
    → Shrinking m
    → Within (left s) (elim ts [ [] ↦ ok (none, s) | t ∷ rest ↦ m s ])
at_end m [] s h = returns none s (omega arith)
at_end m (t ∷ ts) s h = h.within s

pub unless_at_end-Shrinking :
    {A : Type 0} {m : Parser (Option A)} → Shrinking m → Shrinking (unless_at_end m)
unless_at_end-Shrinking {m = m} h = record { within = λ s. at_end m s.stream.current s h }

pub fail : {A : Type 0} → Shrinking (pure {A = Option A} none)
fail = pure-Shrinking none

pub skip_separator-Shrinking : Shrinking skip_separator
unfolding skip_separator
skip_separator-Shrinking =
    bind peek_token-Shrinking
      λ token. either (is_separator token.kind) consume_token-Shrinking (pure-Shrinking tt)

pub parse_integer-Shrinking : Shrinking parse_integer
unfolding parse_integer
parse_integer-Shrinking = unless_at_end-Shrinking (
    bind peek_token-Shrinking λ token.
      either (is_out_of_range (long_value token.value)) fail
        (bind consume_token-Shrinking λ _. pure-Shrinking (some (to_u32 (long_value token.value)))))

pub parse_char-Shrinking : Shrinking parse_char
unfolding parse_char
parse_char-Shrinking =
    unless_at_end-Shrinking
      (bind peek_token-Shrinking λ token. pure-Shrinking (some (char_value token.value)))

pub parse_string-Shrinking : Shrinking parse_string
unfolding parse_string
parse_string-Shrinking = unless_at_end-Shrinking (
    bind peek_token-Shrinking λ token.
      by_option (string_value token.value) (record { within = λ s. faults null_pointer })
        λ text.
          bind (in_arena-Shrinking (arena_strdup-Aborting text))
            λ p. bind consume_token-Shrinking λ _. pure-Shrinking (some text))

pub parse_register-Shrinking : Shrinking parse_register
unfolding parse_register
parse_register-Shrinking = unless_at_end-Shrinking (
    bind peek_token-Shrinking λ token.
      by_kind token.kind
        (bind consume_token-Shrinking λ _. pure-Shrinking (
          if first_word token.value % 256 == 0xFF
          then none
          else some (first_word token.value % 256)))
        fail fail fail fail fail fail)

pub parse_literal-Shrinking : (type : ℕ) → Shrinking (parse_literal type)
unfolding parse_literal
parse_literal-Shrinking type =
    either (type == lit_integer)
      (bind parse_integer-Shrinking λ v. pure-Shrinking (made immediate_int v))
      (either (type == lit_char) (bind parse_char-Shrinking λ c. pure-Shrinking (char_operand c)) (
        either (type == lit_string)
          (bind parse_string-Shrinking λ s. pure-Shrinking (made immediate_str s)) fail))

pub parse_operand_at-Shrinking : (token : Token) → Shrinking (parse_operand_at token)
unfolding parse_operand_at
parse_operand_at-Shrinking token =
    let literal = parse_literal-Shrinking (first_word token.value) in
    by_kind token.kind (bind parse_register-Shrinking λ r. pure-Shrinking (made register r))
      (bind consume_token-Shrinking λ _. pure-Shrinking (some (symbol (text_of token.value))))
      literal literal literal literal literal

pub parse_operand-Shrinking : Shrinking parse_operand
unfolding parse_operand
parse_operand-Shrinking = unless_at_end-Shrinking (
    bind skip_separator-Shrinking
      λ _. bind peek_token-Shrinking λ token. parse_operand_at-Shrinking token)

pub parse_opcode-Shrinking : Shrinking parse_opcode
unfolding parse_opcode
parse_opcode-Shrinking = bind peek_token-Shrinking λ token.
    by_kind token.kind fail
      (bind (in_arena-Shrinking (arena_strdup-Aborting (text_of token.value))) λ p.
        either (opcode_lookup (text_of token.value) == 0xFF) fail (
          bind consume_token-Shrinking
            λ _. pure-Shrinking (some (opcode_lookup (text_of token.value)))))
      fail fail fail fail fail
