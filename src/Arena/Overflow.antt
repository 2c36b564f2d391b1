-- ===== src/Arena/Overflow.antt =====
-- Where the sums in `arena_alloc` wrap, and where its pointers are not aligned.
use bitcode.Base.{
  ℕ, ◌+◌, ◌-◌, ◌%◌, ◌<◌, ◌≤◌, ◌≡◌, inl, inr, refl, false, arith, ok, size_mod, to_size, ltb, ◌==◌,
  sym, ◌∙◌, ◌↔◌,
}
use bitcode.Arena.{MemoryArena, arena_alloc, header_size}
use bitcode.Arena.Disjoint.{IsArena, arena_alloc_cases}

-- A size within 8 of 2 ^ 64 is granted, for the sum with the header wraps: the arena moves on by
-- less than a header, although it has nothing like that room.
pub arena_alloc_overflow :
    (n : ℕ) (a : MemoryArena)
    → IsArena a
    → size_mod ≤ n + header_size
    → n < size_mod
    → a.offset + header_size ≤ a.size
    → (a.size < n)
      × (arena_alloc n a
          ≡ ok (
            a.buffer + a.offset + header_size,
            record a { offset = a.offset + (n + header_size - size_mod) },
          ))
      × (n + header_size - size_mod < header_size)
unfolding arena_alloc
arena_alloc_overflow n a ar wraps fits room =
    let total : to_size (n + header_size) ≡ n + header_size - size_mod = omega arith in
    let required : to_size (a.offset + (n + header_size - size_mod))
        ≡ a.offset + (n + header_size - size_mod) =
      omega arith in
    let enough : ltb a.size (a.offset + (n + header_size - size_mod)) ≡ false = ground arith in
    let there : (a.buffer == 0) ≡ false = ground arith in
    let header : ltb a.size (a.offset + header_size) ≡ false = ground arith in
    (omega arith, rw (total, required, enough, there, header, arena_alloc) refl, omega arith)

-- What an allocation that succeeds has done.
arena_alloc_returns :
    (n p : ℕ) (a b : MemoryArena)
    → IsArena a
    → n < 4611686018427387904
    → arena_alloc n a ≡ ok (p, b)
    → (p ≡ a.buffer + a.offset + header_size)
      × (b.buffer ≡ a.buffer)
      × (b.offset ≡ a.offset + n + header_size)
      × IsArena b
arena_alloc_returns n p a b ar small e = elim (arena_alloc_cases n a ar small) [
  | inr (_, f) ↦ let never = sym f ∙ e in cc
  | inl (fits, f) ↦
      let same = sym f ∙ e in
      let start : a.buffer + a.offset + header_size ≡ p = ground arith in
      let buffer : a.buffer ≡ b.buffer = ground arith in
      let size : a.size ≡ b.size = ground arith in
      let offset : a.offset + n + header_size ≡ b.offset = ground arith in
      (
        sym start,
        sym buffer,
        sym offset,
        record {
          exists = λ z. ar.exists (buffer ∙ z);
          within = omega arith;
          small = omega (arith, ar.small);
        },
      )
]

-- Nothing rounds a size up: after a block of `n` bytes at an address that is a multiple of 8, the
-- next block is at such an address exactly where `n` is a multiple of 8.
arena_alloc_alignment :
    (n k p q : ℕ) (a b c : MemoryArena)
    → IsArena a
    → n < 4611686018427387904
    → k < 4611686018427387904
    → arena_alloc n a ≡ ok (p, b)
    → arena_alloc k b ≡ ok (q, c)
    → p % 8 ≡ 0
    → (q % 8 ≡ 0) ↔ (n % 8 ≡ 0)
arena_alloc_alignment n k p q a b c ar sn sk e e' aligned =
    let (start, buffer, offset, next) = arena_alloc_returns n p a b ar sn e in
    let (start', _, _, _) = arena_alloc_returns k q b c next sk e' in
    (λ h. omega arith, λ h. omega arith)
