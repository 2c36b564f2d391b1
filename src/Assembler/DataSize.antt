-- ===== src/Assembler/DataSize.antt =====
-- `calculate_vm_data_size` of src/utils/assembler_utils/assembler_utils.c.
use bitcode.Base.{
  Outcome, ok, fault, signed_overflow, ◌>>=◌, ltb, ◌⊎◌, inl, inr, ap, refl, dec_lt, ℕ, ◌+◌, ◌*◌,
  ◌/◌, ◌%◌, ◌<◌, ◌≤◌, ◌≡◌, ◌≢◌, [], ◌∷◌, Bytes, ◌==◌, if◌then◌else◌, length, to_size, arith,
}

-- `INT_MAX`.
abbrev pub int_max : ℕ
int_max = 2147483647

-- The loop from the index `i` on, with the bytes counted so far. A backslash that is not the last
-- character takes the character behind it along. `i` is an int: a step beyond `int_max` is undefined.
unfoldable pub count_bytes : ℕ → ℕ → Bytes → Outcome ℕ
count_bytes i bytes [] = ok bytes
count_bytes i bytes (c ∷ []) = if ltb int_max (i + 1) then fault signed_overflow else ok (bytes + 1)
count_bytes i bytes (c ∷ d ∷ content) =
    let escape = count_bytes (i + 2) (bytes + 1) content in
    let plain = count_bytes (i + 1) (bytes + 1) (d ∷ content) in
    if c == b'\\'
    then (if ltb int_max (i + 2) then fault signed_overflow else escape)
    else if ltb int_max (i + 1)
    then fault signed_overflow
    else plain

-- `(total + 3) & ~3` clears the two lowest bits.
unfoldable pub calculate_vm_data_size : Bytes → Outcome ℕ
unfolding count_bytes
calculate_vm_data_size content = do
  bytes ← count_bytes 0 0 content
  ok (to_size (bytes + 1 + 3) / 4 * 4)

-- What a literal's content stands for: a backslash and a character for one byte, which the
-- assembler is free to choose, and any other character for itself, as does a backslash at the end.
pub data Denotes : Bytes → Bytes → Type 0 where
  done : Denotes [] []
  plain : {c : ℕ} {s t : Bytes} → c ≢ b'\\' → Denotes s t → Denotes (c ∷ s) (c ∷ t)
  escape : {b c e : ℕ} {s t : Bytes} → b ≡ b'\\' → Denotes s t → Denotes (b ∷ c ∷ s) (e ∷ t)
  lone : {b : ℕ} → b ≡ b'\\' → Denotes (b ∷ []) (b ∷ [])

-- No more bytes than characters.
length-Denotes : {s t : Bytes} → Denotes s t → length t ≤ length s
length-Denotes done = omega arith
length-Denotes (plain ne rest) = omega (arith, length-Denotes rest)
length-Denotes (escape e rest) = omega (arith, length-Denotes rest)
length-Denotes (lone e) = omega arith

-- The count of the loop, or the overflow of its index.
abbrev Counts : ℕ → ℕ → Bytes → Bytes → Type 0
Counts i bytes s t =
    ((i + length s ≤ int_max) × (count_bytes i bytes s ≡ ok (bytes + length t)))
    ⊎ ((int_max < i + length s) × (count_bytes i bytes s ≡ fault signed_overflow))

count_bytes-Counts : (i bytes : ℕ) {s t : Bytes} → Denotes s t → i ≤ int_max → Counts i bytes s t
unfolding count_bytes
count_bytes-Counts i bytes done h = inl (omega arith, ap ok (omega arith))
count_bytes-Counts i bytes (lone e) h = ground arith
count_bytes-Counts i bytes (plain ne done) h = ground arith
count_bytes-Counts i bytes (plain {c} ne (plain {c = d} ne' rest)) h = elim (dec_lt i int_max) [
  | yes room ↦
      ground (arith, count_bytes-Counts (i + 1) (bytes + 1) (plain {c = d} ne' rest) (omega arith))
  | no full ↦ ground arith
]
count_bytes-Counts i bytes (plain {c} ne (escape {c = d} {e = f} e rest)) h =
    elim (dec_lt i int_max) [
      | yes room ↦ ground (
        arith,
        count_bytes-Counts (i + 1) (bytes + 1) (escape {c = d} {e = f} e rest) (omega arith),
      )
      | no full ↦ ground arith
    ]
count_bytes-Counts i bytes (plain {c} ne (lone e)) h = elim (dec_lt i int_max) [
  | yes room ↦ ground (arith, count_bytes-Counts (i + 1) (bytes + 1) (lone e) (omega arith))
  | no full ↦ ground arith
]
count_bytes-Counts i bytes (escape e rest) h = elim (dec_lt (i + 1) int_max) [
  | yes room ↦ ground (arith, count_bytes-Counts (i + 2) (bytes + 1) rest (omega arith))
  | no full ↦ ground arith
]

-- The content of a literal of at most 2 ^ 31 - 1 characters gets the least multiple of 4 as its size
-- that holds the bytes it stands for and a terminator; on a longer one the index of the loop
-- overflows, which is undefined.
pub calculate_vm_data_size-Denotes :
    (s t : Bytes)
    → Denotes s t
    → ((length s ≤ int_max)
        × (n : ℕ) × (calculate_vm_data_size s ≡ ok n)
        × (n % 4 ≡ 0)
        × (length t + 1 ≤ n)
        × (n < length t + 1 + 4))
      ⊎ ((int_max < length s) × (calculate_vm_data_size s ≡ fault signed_overflow))
unfolding calculate_vm_data_size
calculate_vm_data_size-Denotes s t d = elim (count_bytes-Counts 0 0 d (omega arith)) [
  | inr (long, e) ↦ inr (omega arith, rw (e, calculate_vm_data_size) refl)
  | inl (short, e) ↦
      let fewer = length-Denotes d in
      inl (
        omega arith,
        to_size (length t + 1 + 3) / 4 * 4,
        rw (e, calculate_vm_data_size) (ap ok (omega arith)),
        omega arith,
        omega arith,
        omega arith,
      )
]
