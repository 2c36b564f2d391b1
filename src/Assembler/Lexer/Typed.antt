-- ===== src/Assembler/Lexer/Typed.antt =====
-- Which member of its union a token of the lexer holds (src/assembler/lexer/lexer.c).
use bitcode.Base.{
  IsAscii, is_alpha, is_upper, is_lower, false, ℕ, suc, ◌+◌, ◌-◌, ◌≤◌, ◌<◌, ◌≡◌, ◌⊎◌, inl, inr,
  refl, ap, not, ◌&&◌, ◌||◌, List, [], ◌∷◌, none, some, Bytes, All, arith, length, leb, ltb, ◌==◌,
  codes, str_eq, is_digit, get_or, true, Bool-cases,
}
use bitcode.Base.Int.{ℤ}
use bitcode.Base.Safely.{Safely, bind, pure-Safely, either}
use bitcode.Arena.Safety.{arena_alloc-Safely, arena_strdup-Safely}
use bitcode.Arena.Disjoint.{IsArena}
use bitcode.Assembler.Lexer.{
  is_second_undefined, is_ident_start, make_token, other_token, starts_identifier, is_register,
  is_negative_int_literal, is_hex_literal, normalize_input, get_directive_type, get_register_type,
  some_token, index_from, registers, directives, true,
}
use bitcode.Assembler.Lexer.Capacity.{closing}
use bitcode.Assembler.Lexer.Files.{make_tokens}
use bitcode.Assembler.Tokens.{
  Token, zero_token, tok_register, tok_identifier, tok_separator, tok_directive, tok_literal,
  identifier, register, long_literal, char_literal, string_literal, separator, directive, unknown,
}

-- The kind of a token goes with the member of its union: registers are r0 to hp, separators and
-- directives have their numbers, and a token of zero bytes stands for a lexeme that is none of
-- these.
pub data IsTyped : Token → Type 0 where
  a_zero : IsTyped zero_token
  an_end : IsTyped closing
  a_word :
      (p : ℕ) (s : Bytes) → length s ≤ 1023 → IsTyped (some_token tok_identifier (identifier p s) s)
  a_register : (r : ℕ) (s : Bytes) → r ≤ 10 → IsTyped (some_token tok_register (register r) s)
  a_number : (v : ℤ) (s : Bytes) → IsTyped (some_token tok_literal (long_literal v) s)
  a_character : (c : ℕ) (s : Bytes) → IsTyped (some_token tok_literal (char_literal c) s)
  a_string : (p : ℕ) (t s : Bytes) → IsTyped (some_token tok_literal (string_literal p t) s)
  a_separator : (n : ℕ) (s : Bytes) → n ≤ 1 → IsTyped (some_token tok_separator (separator n) s)
  a_directive :
      (d : ℕ) (s : Bytes)
      → (d ≤ 3) ⊎ (d ≡ unknown)
      → IsTyped (some_token tok_directive (directive d) s)

-- A lexeme of the buffer.
abbrev pub Fits : Bytes → Type 0
Fits w = (length w ≤ 1023) × IsAscii w

-- On these the lexer's first test is defined.
is_second_undefined-IsAscii : (w : Bytes) → IsAscii w → is_second_undefined w ≡ false
unfolding is_second_undefined is_ident_start is_alpha is_upper is_lower
is_second_undefined-IsAscii [] h = refl
is_second_undefined-IsAscii (c ∷ []) h = ground arith
is_second_undefined-IsAscii (c ∷ d ∷ ds) (h, (k, rest)) = ground (arith, k)

length-normalize_input : (w : Bytes) → length (normalize_input w) ≡ length w
length-normalize_input [] = refl
length-normalize_input (c ∷ cs) = ap suc (length-normalize_input cs)

-- An index into a table of names.
index_from-lt :
    (i : ℕ) (names : List Bytes) (s : Bytes)
    → (index_from i names s ≡ none)
      ⊎ ((k : ℕ) × (index_from i names s ≡ some k) × (k < i + length names))
unfolding index_from
index_from-lt i [] s = inl refl
index_from-lt i (name ∷ names) s = elim (Bool-cases (str_eq s name)) [
  | inl e ↦ inr (i, rw (e, index_from) refl, omega arith)
  | inr e ↦ elim (index_from-lt (i + 1) names s) [
    | inl none_there ↦ inl (rw (e, index_from) none_there)
    | inr (k, found, below) ↦ inr (k, rw (e, index_from) found, omega arith)
  ]
]

get_register_type-le : (s : Bytes) → is_register s ≡ true → get_register_type s ≤ 10
unfolding is_register get_register_type
get_register_type-le s h = elim (index_from-lt 0 registers s) [
  | inl e ↦ cc (rw (e, is_register) at h)
  | inr (k, e, below) ↦ rw (e, get_register_type) (unfold registers in omega arith)
]

get_directive_type-cases :
    (s : Bytes) → (get_directive_type s ≤ 3) ⊎ (get_directive_type s ≡ unknown)
unfolding get_directive_type
get_directive_type-cases s = elim (index_from-lt 0 directives s) [
  | inl e ↦ rw (e, get_directive_type) (inr refl)
  | inr (k, e, below) ↦ rw (e, get_directive_type) (inl (unfold directives in omega arith))
]

other_token-Safely : (lexeme : Bytes) → Fits lexeme → Safely IsArena IsTyped (other_token lexeme)
unfolding other_token
other_token-Safely lexeme h =
    either (get_or lexeme 0 0 == b'\'' && get_or lexeme 2 0 == b'\'' && length lexeme == 3)
      (λ _. pure-Safely _ (a_character _ _))
      λ _.
        either
          (get_or lexeme 0 0 == b'"'
            && get_or lexeme (length lexeme - 1) 0 == b'"'
            && leb 2 (length lexeme))
          (λ _.
            bind (arena_alloc-Safely (length lexeme - 2 + 1) (omega arith))
              λ p _. pure-Safely _ (a_string p _ _))
          λ _.
            either (str_eq lexeme (codes ",")) (λ _. pure-Safely _ (a_separator 0 _ (omega arith)))
              λ _.
                either (str_eq lexeme (codes "\n"))
                  (λ _. pure-Safely _ (a_separator 1 _ (omega arith)))
                  λ _.
                    either
                      (get_or lexeme 0 0 == b'.'
                        && not (get_or lexeme 1 0 == 0)
                        && ltb 3 (length lexeme))
                      (λ _.
                        bind (arena_strdup-Safely lexeme (omega arith))
                          λ p _. pure-Safely _ (a_directive _ _ (get_directive_type-cases lexeme)))
                      λ _. pure-Safely zero_token a_zero

pub make_token-Safely : (lexeme : Bytes) → Fits lexeme → Safely IsArena IsTyped (make_token lexeme)
unfolding make_token
make_token-Safely [] h = pure-Safely zero_token a_zero
make_token-Safely (c ∷ cs) h =
    let lexeme : Bytes = c ∷ cs in
    either (is_second_undefined lexeme) (λ e. cc (e, is_second_undefined-IsAscii lexeme h.1))
      λ _.
        either (starts_identifier lexeme)
          (λ _. bind (arena_strdup-Safely lexeme (omega arith)) λ p _.
            pure-Safely _
              (a_word p (normalize_input lexeme) (omega (arith, length-normalize_input lexeme))))
          λ _.
            either (is_register lexeme)
              (λ e. pure-Safely _ (a_register _ lexeme (get_register_type-le lexeme e)))
              λ _.
                either (is_digit c || is_negative_int_literal lexeme || is_hex_literal lexeme)
                  (λ _. pure-Safely _ (a_number _ lexeme)) λ _. other_token-Safely lexeme h

pub make_tokens-Safely :
    (ls : List Bytes) → All Fits ls → Safely IsArena (All IsTyped) (make_tokens ls)
unfolding make_tokens
make_tokens-Safely [] h = pure-Safely [] tt
make_tokens-Safely (l ∷ ls) h =
    bind (make_token-Safely l h.0)
      λ t q. bind (make_tokens-Safely ls h.1) λ ts qs. pure-Safely (t ∷ ts) (q, qs)
