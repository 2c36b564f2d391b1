-- ===== src/Arena/Disjoint.antt =====
-- The blocks that an arena gives out lie within its buffer and do not overlap.
use mathlib.Core.Path.{subst₂}
use bitcode.Base.{
  ℕ, ◌+◌, ◌<◌, ◌≤◌, ◌≡◌, ◌≢◌, ◌⊎◌, inl, inr, refl, List, [], ◌∷◌, All, arith, ok, exited, to_size,
  dec_le, ltb, false, ◌==◌, true,
}
use bitcode.Base.Stateful.{Stateful, pure, ◌>>=◌}
use bitcode.Arena.{MemoryArena, arena_alloc, header_size, to_size, ltb}

-- A block: its address and its length.
pub record Block : Type 0 where
  pub start : ℕ
  pub length : ℕ

-- The allocations of a list of sizes, one after the other.
pub alloc_all : List ℕ → Stateful MemoryArena (List Block)
alloc_all [] = pure []
alloc_all (n ∷ ns) = do
  p ← arena_alloc n
  blocks ← alloc_all ns
  pure (record { start = p; length = n } ∷ blocks)

-- What the sizes take, their headers included.
abbrev pub taken : List ℕ → ℕ
taken [] = 0
taken (n ∷ ns) = n + header_size + taken ns

-- The blocks have the lengths of `ns`, and each stands behind the one before it with room for its
-- own header; the first is at least a header past `low`, and the last ends at `high`.
abbrev pub Between : ℕ → ℕ → List ℕ → List Block → Type 0
Between low high [] [] = low ≡ high
Between low high (n ∷ ns) (b ∷ bs) =
    (b.start ≡ low + header_size) × (b.length ≡ n) × Between (b.start + n) high ns bs
Between low high _ _ = ⊥

-- An arena whose buffer exists, and whose numbers are far from the end of size_t.
pub record IsArena (a : MemoryArena) : Type 0 where
  pub exists : a.buffer ≢ 0
  pub within : a.offset ≤ a.size
  pub small : a.size < 4611686018427387904

abbrev Small : ℕ → Type 0
Small n = n < 4611686018427387904

-- One allocation.
pub arena_alloc_cases :
    (n : ℕ) (a : MemoryArena)
    → IsArena a
    → n < 4611686018427387904
    → ((a.offset + n + header_size ≤ a.size)
        × (arena_alloc n a
            ≡ ok (
              a.buffer + a.offset + header_size,
              record a { offset = a.offset + n + header_size },
            )))
      ⊎ ((a.size < a.offset + n + header_size) × (arena_alloc n a ≡ exited 1 []))
unfolding arena_alloc
arena_alloc_cases n a ar s =
    let total : to_size (n + header_size) ≡ n + header_size = omega arith in
    elim (dec_le (a.offset + n + header_size) a.size) [
      | yes fits ↦
          let required : to_size (a.offset + (n + header_size)) ≡ a.offset + n + header_size =
            omega arith in
          let room : ltb a.size (a.offset + n + header_size) ≡ false = ground arith in
          let there : (a.buffer == 0) ≡ false = ground arith in
          let header : ltb a.size (a.offset + header_size) ≡ false = ground arith in
          inl (fits, rw (total, required, room, there, header, arena_alloc) refl)
      | no full ↦
          let required : to_size (a.offset + (n + header_size)) ≡ a.offset + n + header_size =
            omega arith in
          let none_left : ltb a.size (a.offset + n + header_size) ≡ true = ground arith in
          inr (omega arith, rw (total, required, none_left, arena_alloc) refl)
    ]

-- From an arena within its bounds, the allocations of any list of sizes below 2 ^ 62 either all
-- succeed, exactly where the sizes and their headers fit behind the offset, or the process is ended
-- with code 1. Where they succeed, the blocks have the sizes that were asked for, stand in order
-- behind the old offset with a header each and none overlapping, and end where the new offset is,
-- which is within the buffer.
pub alloc_all-Between :
    (ns : List ℕ) (a : MemoryArena)
    → IsArena a
    → All (λ n. n < 4611686018427387904) ns
    → ((a.offset + taken ns ≤ a.size)
        × (bs : List Block) × (alloc_all ns a ≡ ok (bs, record a { offset = a.offset + taken ns }))
        × Between (a.buffer + a.offset) (a.buffer + (a.offset + taken ns)) ns bs)
      ⊎ ((a.size < a.offset + taken ns) × (alloc_all ns a ≡ exited 1 []))
unfolding alloc_all
alloc_all-Between [] a ar small =
    let same : a.offset + 0 ≡ a.offset = omega arith in
    inl (omega (arith, ar.within), [], rw same refl, omega arith)
alloc_all-Between (n ∷ ns) a ar small = elim (arena_alloc_cases n a ar small.0) [
  | inr (full, e) ↦ inr (omega arith, rw (e, alloc_all, ◌>>=◌) refl)
  | inl (fits, e) ↦
      let next : IsArena (record a { offset = a.offset + n + header_size }) = record {
        exists = ar.exists;
        within = fits;
        small = ar.small;
      } in
      elim (alloc_all-Between ns (record a { offset = a.offset + n + header_size }) next small.1) [
        | inr (full, e') ↦ inr (omega arith, rw (e, alloc_all, ◌>>=◌) (rw (e', ◌>>=◌) refl))
        | inl (fits', bs, e', between) ↦
            let whole : a.offset + n + header_size + taken ns
                ≡ a.offset + (n + header_size + taken ns) =
              omega arith in
            inl (
              omega arith,
              record { start = a.buffer + a.offset + header_size; length = n } ∷ bs,
              rw (e, alloc_all, ◌>>=◌) (rw (e', ◌>>=◌, whole) refl),
              (
                refl,
                refl,
                subst₂ (λ (low high : ℕ). Between low high ns bs) (omega arith) (omega arith)
                    between,
              ),
            )
      ]
]
