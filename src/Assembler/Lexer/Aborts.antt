-- ===== src/Assembler/Lexer/Aborts.antt =====
-- Making tokens of lexemes ends with exit code 1 where it does not return.
use bitcode.Base.{
  ◌+◌, ◌-◌, ◌&&◌, ◌||◌, not, List, [], ◌∷◌, none, some, Bytes, leb, ltb, ◌==◌, codes,
  char_out_of_range, str_eq, is_digit, take, drop, length, get_or, if◌then◌else◌,
}
use bitcode.Arena.Aborts.{
  Allocates, Aborting, bind, pure-Aborting, either, by_option, arena_alloc-Aborting,
  arena_strdup-Aborting, arena_calloc-Aborting,
}
use bitcode.Assembler.Lexer.{
  is_second_undefined, make_token, other_token, starts_identifier, is_register,
  is_negative_int_literal, is_hex_literal, normalize_input, get_directive_type, get_register_type,
  clip_literal, strtoll_16, strtoll_10, some_token,
}
use bitcode.Assembler.Lexer.Files.{make_tokens, lexer}
use bitcode.Assembler.Tokens.{
  zero_token, token_size, tok_register, tok_identifier, tok_separator, tok_directive, tok_literal,
  identifier, register, long_literal, char_literal, string_literal, separator, directive, sep_comma,
  sep_eol,
}

other_token-Aborting : (lexeme : Bytes) → Aborting (other_token lexeme)
unfolding other_token
other_token-Aborting lexeme =
    either (get_or lexeme 0 0 == b'\'' && get_or lexeme 2 0 == b'\'' && length lexeme == 3)
      (pure-Aborting (some_token tok_literal (char_literal (get_or lexeme 1 0)) lexeme))
      (either
        (get_or lexeme 0 0 == b'"'
          && get_or lexeme (length lexeme - 1) 0 == b'"'
          && leb 2 (length lexeme))
        (bind (arena_alloc-Aborting (length lexeme - 2 + 1)) λ p. pure-Aborting (
          some_token tok_literal (string_literal p (take (length lexeme - 2) (drop 1 lexeme)))
            lexeme))
        (either (str_eq lexeme (codes ","))
          (pure-Aborting (some_token tok_separator (separator sep_comma) lexeme))
          (either (str_eq lexeme (codes "\n"))
            (pure-Aborting (some_token tok_separator (separator sep_eol) lexeme))
            (either
              (get_or lexeme 0 0 == b'.' && not (get_or lexeme 1 0 == 0) && ltb 3 (length lexeme))
              (bind (arena_strdup-Aborting lexeme) λ p. pure-Aborting (
                some_token tok_directive (directive (get_directive_type lexeme))
                  (normalize_input lexeme)))
              (pure-Aborting zero_token)))))

make_token-Aborting : (lexeme : Bytes) → Aborting (make_token lexeme)
unfolding make_token
make_token-Aborting [] = pure-Aborting zero_token
make_token-Aborting (c ∷ cs) =
    let lexeme : Bytes = c ∷ cs in
    either (is_second_undefined lexeme) (record { ends = λ a. Allocates.breaks char_out_of_range })
      (either (starts_identifier lexeme)
        (bind (arena_strdup-Aborting lexeme) λ p. pure-Aborting (
          some_token tok_identifier (identifier p (normalize_input lexeme))
            (normalize_input lexeme)))
        (either (is_register lexeme)
          (pure-Aborting (some_token tok_register (register (get_register_type lexeme)) lexeme))
          (either (is_digit c || is_negative_int_literal lexeme || is_hex_literal lexeme)
            (pure-Aborting (
              some_token tok_literal
                (long_literal (
                  clip_literal
                    (if is_hex_literal lexeme then strtoll_16 lexeme else strtoll_10 lexeme)))
                lexeme))
            (other_token-Aborting lexeme))))

make_tokens-Aborting : (lexemes : List Bytes) → Aborting (make_tokens lexemes)
unfolding make_tokens
make_tokens-Aborting [] = pure-Aborting []
make_tokens-Aborting (lexeme ∷ lexemes) =
    bind (make_token-Aborting lexeme)
      λ token. bind (make_tokens-Aborting lexemes) λ tokens. pure-Aborting (token ∷ tokens)

pub lexer-Aborting : (line : List Bytes) → Aborting (lexer line)
unfolding lexer
lexer-Aborting line = bind (arena_calloc-Aborting (length line) token_size) λ block.
    by_option block (pure-Aborting none)
      λ p. bind (make_tokens-Aborting line) λ tokens. pure-Aborting (some tokens)
