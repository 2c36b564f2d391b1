-- ===== src/Assembler/Lexer/Literals.antt =====
-- Lexemes that become other tokens than a reader of the language would expect.
use bitcode.Base.{◌≡◌, ◌∷◌, refl, Bytes, ok, str_eq}
use bitcode.Arena.{MemoryArena}
use bitcode.Assembler.Lexer.{make_token, is_second_undefined, other_token, is_register, str_eq}
use bitcode.Assembler.Tokens.{zero_token}

-- Every lexeme that starts with a capital R becomes a token of zero bytes, which is that of the
-- register r0 but for its lexeme; nothing is allocated.
pub make_token_capital :
    (s : Bytes) (arena : MemoryArena) → make_token (b'R' ∷ s) arena ≡ ok (zero_token, arena)
unfolding make_token is_second_undefined other_token is_register str_eq
make_token_capital s arena = refl
