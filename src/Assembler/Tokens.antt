-- ===== src/Assembler/Tokens.antt =====
-- The types of src/include/lexer.h.
use bitcode.Base.{ℕ, Option, none, some, Bytes, ◌%◌, u32_mod, ◌-◌}
use bitcode.Base.Int.{ℤ, pos, negsuc}

pub data TokenKind : Type 0 where
  tok_register tok_identifier tok_separator tok_directive tok_unknown tok_literal tok_eof :
      TokenKind

-- The union `TokenValue`, by the member that was stored last; `zeroed` is a union of zero bytes.
-- A text comes with the address at which it stands. In a literal the lexer stores the `value` of
-- the struct `Literal` and never its `type`, which stays 0.
pub data TokenValue : Type 0 where
  zeroed : TokenValue
  identifier : ℕ → Bytes → TokenValue
  long_literal : ℤ → TokenValue
  char_literal : ℕ → TokenValue
  string_literal : ℕ → Bytes → TokenValue
  directive : ℕ → TokenValue
  separator : ℕ → TokenValue
  register : ℕ → TokenValue

-- `lexeme` is `none` where it is NULL.
pub record Token : Type 0 where
  pub kind : TokenKind
  pub value : TokenValue
  pub lexeme : Option Bytes

-- `Token token = {0};` : the kind 0 is `TOK_REGISTER`.
abbrev pub zero_token : Token
zero_token = record { kind = tok_register; value = zeroed; lexeme = none }

-- The first four bytes of the union: `reg`, `sep`, `directive` and `literal.type`.
unfoldable pub first_word : TokenValue → ℕ
first_word zeroed = 0
first_word (identifier p s) = p % u32_mod
first_word (long_literal v) = 0
first_word (char_literal c) = 0
first_word (string_literal p s) = 0
first_word (directive d) = d
first_word (separator s) = s
first_word (register r) = r

-- `literal.value.longValue`, the last eight bytes.
unfoldable pub long_value : TokenValue → ℤ
long_value (long_literal v) = v
long_value (char_literal c) = pos c
long_value (string_literal p s) = pos p
long_value _ = pos 0

-- `literal.value.charValue`, the lowest byte of these.
unfoldable pub char_value : TokenValue → ℕ
char_value (long_literal (pos n)) = n % 256
char_value (long_literal (negsuc n)) = 255 - n % 256
char_value (char_literal c) = c
char_value (string_literal p s) = p % 256
char_value _ = 0

-- `literal.value.stringValue`, where it points to a text.
unfoldable pub string_value : TokenValue → Option Bytes
string_value (string_literal p s) = some s
string_value _ = none

-- `identifier`, where the union holds one.
unfoldable pub identifier_value : TokenValue → Option Bytes
identifier_value (identifier p s) = some s
identifier_value _ = none

abbrev pub sep_comma : ℕ
sep_comma = 0

abbrev pub sep_eol : ℕ
sep_eol = 1

abbrev pub lit_integer : ℕ
lit_integer = 0

abbrev pub lit_char : ℕ
lit_char = 1

abbrev pub lit_string : ℕ
lit_string = 2

-- `REG_UNKNOWN` and `DIRECT_UNKNOWN`.
abbrev pub unknown : ℕ
unknown = 0xFF

-- `sizeof(Token)`.
abbrev pub token_size : ℕ
token_size = 32
