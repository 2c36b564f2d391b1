-- ===== src/Arena/Safety.antt =====
-- Allocations from an arena within its bounds reach no fault
-- (src/utils/arena_allocator/arena_allocator.c).
use bitcode.Base.{
  ℕ, zero, suc, ◌+◌, ◌*◌, ◌/◌, ◌<◌, ◌≤◌, ◌≡◌, ◌||◌, inl, inr, refl, false, Option, none, some,
  Bytes, arith, length, ltb, ◌==◌, sym, to_size,
}
use bitcode.Base.Safely.{Yields, Safely, bind, pure-Safely}
use mathlib.Core.Path.{subst}
use native.Mathlib.Nat.{le-div_iff_mul-le, mul_comm}
use bitcode.Arena.Disjoint.{IsArena, arena_alloc_cases}
use bitcode.Arena.{MemoryArena, arena_alloc, arena_calloc, arena_strdup}

abbrev pub Anything : {A : Type 0} → A → Type 0
Anything x = Unit {0}

alloc-Yields :
    (n : ℕ) (a : MemoryArena)
    → IsArena a
    → n < 4611686018427387904
    → Yields (Anything {A = ℕ}) IsArena (arena_alloc n a)
alloc-Yields n a ar small = elim (arena_alloc_cases n a ar small) [
  | inr (full, e) ↦ subst (Yields Anything IsArena) (sym e) Yields.quits
  | inl (fits, e) ↦
      subst (Yields Anything IsArena) (sym e)
        (Yields.yields _ _ tt (record { exists = ar.exists; within = fits; small = ar.small }))
]

pub arena_alloc-Safely :
    (n : ℕ) → n < 4611686018427387904 → Safely IsArena (Anything {A = ℕ}) (arena_alloc n)
arena_alloc-Safely n small = record { run = λ a ar. alloc-Yields n a ar small }

pub arena_strdup-Safely :
    (s : Bytes)
    → length s < 4611686018427387903
    → Safely IsArena (Anything {A = ℕ}) (arena_strdup s)
unfolding arena_strdup
arena_strdup-Safely s small = arena_alloc-Safely (length s + 1) (omega arith)

-- NULL only where there is nothing to allocate.
abbrev pub NullAt : ℕ → Option ℕ → Type 0
NullAt n none = n ≡ 0
NullAt n (some p) = Unit

pub arena_calloc-Safely :
    (count size : ℕ)
    → 0 < size
    → count * size ≤ 1048576
    → Safely IsArena (NullAt count) (arena_calloc count size)
unfolding arena_calloc
arena_calloc-Safely zero size positive small = pure-Safely none refl
arena_calloc-Safely (suc n) size positive small =
    let some_size : (suc n == 0 || size == 0) ≡ false = ground arith in
    let swapped : size * suc n ≤ 18446744073709551615 = rw (mul_comm size (suc n)) (omega arith) in
    let room : size ≤ 18446744073709551615 / suc n =
      (le-div_iff_mul-le {k = suc n} {x = size} {y = 18446744073709551615} (omega arith)).1
        swapped in
    let fits : ltb (18446744073709551615 / suc n) size ≡ false = ground arith in
    let short : to_size (suc n * size) < 4611686018427387904 = omega arith in
    rw (some_size, fits)
      (bind (arena_alloc-Safely (to_size (suc n * size)) short) λ p q. pure-Safely (some p) tt)
