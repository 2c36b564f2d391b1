-- ===== src/Assembler/Parser/Addresses.antt =====
-- Addresses and integers that do not fit 32 bits (src/assembler/parser/parser.c).
use bitcode.Base.{◌≡◌, refl, false, List, ◌∷◌, none, some, ok, arith, ltb, true}
use bitcode.Base.Int.{ℤ, pos, negsuc, to_u32}
use bitcode.Arena.{MemoryArena}
use bitcode.Assembler.Parser.{parse_address, parse_integer, is_out_of_range, true}
use bitcode.Assembler.Parser.RoundTrip.{at}
use bitcode.Assembler.TokenStream.{peek, consume, first_token, rest_tokens}
use bitcode.Assembler.Tokens.{Token, long_value}

to_u32-le : (v : ℤ) → ltb 4294967295 (to_u32 v) ≡ false
to_u32-le (pos n) = ground arith
to_u32-le (negsuc n) = ground arith

-- A value that does not fit 32 bits, which `parse_integer` refuses, staying at its token, is taken
-- by `parse_address`: the test comes after the cut to 32 bits and is never true.
pub parse_address_out_of_range :
    (t : Token) (head ts : List Token) (arena : MemoryArena)
    → is_out_of_range (long_value t.value) ≡ true
    → (parse_integer (at head (t ∷ ts) arena) ≡ ok (none, at head (t ∷ ts) arena))
      × (parse_address (at head (t ∷ ts) arena)
          ≡ ok (some (to_u32 (long_value t.value)), at head ts arena))
unfolding parse_address parse_integer peek consume first_token rest_tokens
parse_address_out_of_range t head ts arena e = (rw e refl, rw (to_u32-le (long_value t.value)) refl)
