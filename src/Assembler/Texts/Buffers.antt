-- ===== src/Assembler/Texts/Buffers.antt =====
-- What `fgets` reads of a file (src/assembler/lexer/lexer.c).
use bitcode.Base.{
  ℕ, zero, suc, ◌+◌, ◌≤◌, ◌<◌, ◌≡◌, refl, false, [], ◌∷◌, ◌++◌, Bytes, All, arith, length,
  length-append, ◌==◌,
}
use bitcode.Assembler.Lexer.Files.{fgets, after_fgets, c_string}
use bitcode.Assembler.Texts.{Buffer, IsInner}
use mathlib.Core.List.{append-nil}

-- The buffer takes `t`, and leaves the rest.
abbrev pub Reads : ℕ → Bytes → Bytes → Type 0
Reads n t rest = (fgets n (t ++ rest) ≡ t) × (after_fgets n (t ++ rest) ≡ rest)

fgets-line :
    (body rest : Bytes) (n : ℕ)
    → All IsInner body
    → length body + 1 ≤ n
    → Reads n (body ++ b'\n' ∷ []) rest
unfolding fgets after_fgets
fgets-line body rest zero k h = absurd (omega arith)
fgets-line [] rest (suc n) k h = (refl, refl)
fgets-line (c ∷ cs) rest (suc n) k h =
    let inside : (c == b'\n') ≡ false = ground (arith, k.0) in
    let (line, after) = fgets-line cs rest n k.1 (omega arith) in
    (rw (inside, fgets, line) refl, rw (inside, after_fgets, after) refl)

fgets-last : (body : Bytes) (n : ℕ) → All IsInner body → length body ≤ n → Reads n body []
unfolding fgets after_fgets
fgets-last [] zero k h = (refl, refl)
fgets-last [] (suc n) k h = (refl, refl)
fgets-last (c ∷ cs) zero k h = absurd (omega arith)
fgets-last (c ∷ cs) (suc n) k h =
    let inside : (c == b'\n') ≡ false = ground (arith, k.0) in
    let (line, after) = fgets-last cs n k.1 (omega arith) in
    (rw (inside, fgets, line) refl, rw (inside, after_fgets, after) refl)

c_string-append :
    (body t : Bytes) → All IsInner body → c_string t ≡ t → c_string (body ++ t) ≡ body ++ t
unfolding c_string
c_string-append [] t k e = e
c_string-append (c ∷ cs) t k e =
    let inside : (c == 0) ≡ false = ground (arith, k.0) in
    rw (inside, c_string, c_string-append cs t k.1 e) refl

-- A buffer is read as a whole, and is the string in the array of 1024 bytes.
pub record IsRead (t rest : Bytes) : Type 0 where
  pub reads : Reads 1023 t rest
  pub string : c_string t ≡ t
  pub short : length t ≤ 1023
  pub positive : 0 < length t

pub Buffer-IsRead : (t rest : Bytes) → Buffer t rest → IsRead t rest
unfolding c_string
Buffer-IsRead t rest (Buffer.a_line body r inner short) = record {
  reads = fgets-line body rest 1023 inner (omega arith);
  string = c_string-append body (b'\n' ∷ []) inner refl;
  short = omega (arith, length-append body (b'\n' ∷ []));
  positive = omega (arith, length-append body (b'\n' ∷ []));
}
Buffer-IsRead t rest (Buffer.last_line body r inner some_left short end) = record {
  reads = rw end (fgets-last t 1023 inner short);
  string = rw (append-nil t) at (c_string-append t [] inner refl);
  short = short;
  positive = some_left;
}
