-- ===== src/Arena/Fits.antt =====
-- An allocation that fits, as an equation (src/utils/arena_allocator/arena_allocator.c).
use mathlib.Core.Path.{subst}
use bitcode.Base.{ℕ, ◌+◌, ◌≤◌, ◌≡◌, ◌∙◌, refl, inl, inr, ok, arith}
use bitcode.Arena.{MemoryArena, arena_alloc, header_size}
use bitcode.Arena.Disjoint.{IsArena, arena_alloc_cases}

abbrev pub spend : ℕ → MemoryArena → MemoryArena
spend n arena = record arena { offset = arena.offset + n }

pub alloc_fits :
    (n : ℕ) (a : MemoryArena)
    → IsArena a
    → a.offset + (n + header_size) ≤ a.size
    → arena_alloc n a ≡ ok (a.buffer + a.offset + header_size, spend (n + header_size) a)
alloc_fits n a ar h = elim (arena_alloc_cases n a ar (omega (arith, ar.small))) [
  | inl (fits, e) ↦
      let whole : a.offset + n + header_size ≡ a.offset + (n + header_size) = omega arith in
      subst (λ o. arena_alloc n a ≡ ok (a.buffer + a.offset + header_size, record a { offset = o }))
        whole e
  | inr (full, e) ↦ absurd (omega arith)
]

pub spend-IsArena :
    (n : ℕ) (a : MemoryArena) → IsArena a → a.offset + n ≤ a.size → IsArena (spend n a)
spend-IsArena n a ar room = record { exists = ar.exists; within = room; small = ar.small }

-- The arena of `b` has taken at most `n` bytes more than that of `a`.
pub record Uses (n : ℕ) (a b : MemoryArena) : Type 0 where
  pub in_bounds : IsArena b
  pub size : b.size ≡ a.size
  pub offset : b.offset ≤ a.offset + n

pub Uses-spend :
    (n m : ℕ) (a : MemoryArena) → IsArena a → a.offset + n ≤ a.size → m ≤ n → Uses n a (spend m a)
Uses-spend n m a ar room h = record {
  in_bounds = spend-IsArena m a ar (omega arith);
  size = refl;
  offset = omega arith;
}

pub Uses-offset :
    (n o : ℕ) (a : MemoryArena)
    → IsArena a
    → o ≤ a.size
    → o ≤ a.offset + n
    → Uses n a (record a { offset = o })
Uses-offset n o a ar room h = record {
  in_bounds = record { exists = ar.exists; within = room; small = ar.small };
  size = refl;
  offset = h;
}

pub Uses-refl : (n : ℕ) (a : MemoryArena) → IsArena a → Uses n a a
Uses-refl n a ar = record { in_bounds = ar; size = refl; offset = omega arith }

pub Uses-trans :
    (n m k : ℕ) {a b c : MemoryArena} → n + m ≤ k → Uses n a b → Uses m b c → Uses k a c
Uses-trans n m k h u v = record {
  in_bounds = v.in_bounds;
  size = v.size ∙ u.size;
  offset = omega (arith, u.offset, v.offset);
}
