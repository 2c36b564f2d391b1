-- ===== src/Assembler/Texts/Registers.antt =====
-- A register operand from its text to the operand: `lexer` and then `parse_operand`.
use bitcode.Base.{
  ℕ, ◌<◌, ◌+◌, ◌≡◌, refl, Outcome, ok, ◌>>=◌, Option, some, Bytes, List, [], ◌∷◌, arith,
}
use bitcode.Arena.{MemoryArena}
use bitcode.Assembler.Lexer.{make_token}
use bitcode.Assembler.Lexer.Literals.{make_token_capital}
use bitcode.Assembler.Parser.{
  Operand, register, ParserState, parse_operand, parse_operand_at, parse_register, skip_separator,
}
use bitcode.Assembler.Parser.RoundTrip.{at, parse_operand-token_of}
use bitcode.Assembler.TokenStream.{peek, consume, first_token, rest_tokens}
use bitcode.Assembler.Tokens.{Token, zero_token, first_word}
use bitcode.Assembler.Texts.Words.{make_token-register}

-- The operand that a lexeme in front of other tokens is read as.
abbrev pub operand_of :
    Bytes → List Token → List Token → MemoryArena → Outcome (Option Operand × ParserState)
operand_of lexeme head ts arena = do
  made ← make_token lexeme arena
  parse_operand (at head (made.0 ∷ ts) made.1)

parse_operand-zero_token :
    (head ts : List Token) (arena : MemoryArena)
    → parse_operand (at head (zero_token ∷ ts) arena) ≡ ok (some (register 0), at head ts arena)
unfolding parse_operand parse_operand_at parse_register skip_separator peek consume first_token
    rest_tokens first_word
parse_operand-zero_token head ts arena = refl

-- A register that is written as a small r and a number from 0 to 7 is read with this number;
-- written with a capital R, as the README writes them, it is read as r0 whatever the number is. No
-- token behind it is touched, and nothing is allocated.
pub operand_of_register :
    (r : ℕ) (head ts : List Token) (arena : MemoryArena)
    → r < 8
    → (operand_of (b'r' ∷ (b'0' + r) ∷ []) head ts arena ≡ ok (some (register r), at head ts arena))
      × (operand_of (b'R' ∷ (b'0' + r) ∷ []) head ts arena
          ≡ ok (some (register 0), at head ts arena))
operand_of_register r head ts arena h = (
  rw (make_token-register r arena h) (
      parse_operand-token_of (register r) 0 (some (b'r' ∷ (b'0' + r) ∷ [])) head ts arena
        (omega arith)),
  rw (make_token_capital ((b'0' + r) ∷ []) arena) (parse_operand-zero_token head ts arena),
)
