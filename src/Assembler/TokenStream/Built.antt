-- ===== src/Assembler/TokenStream/Built.antt =====
-- What `build_token_stream` links together, and what it takes from the arena.
use mathlib.Core.List.{append-nil, append_assoc}
use bitcode.Base.{
  ℕ, ◌+◌, ◌*◌, ◌≤◌, ◌<◌, ◌≡◌, ◌⊎◌, inl, inr, refl, ◌∙◌, List, [], ◌∷◌, ◌++◌, some, ok, exited,
  arith, length,
}
use bitcode.Base.Stateful.{◌>>=◌}
use bitcode.Arena.{MemoryArena, header_size}
use bitcode.Arena.Disjoint.{IsArena, arena_alloc_cases}
use bitcode.Assembler.TokenStream.{link_nodes, build_token_stream}
use bitcode.Assembler.Tokens.{Token}

moved-IsArena :
    (a : MemoryArena) (n : ℕ)
    → IsArena a
    → a.offset + n + header_size ≤ a.size
    → IsArena (record a { offset = a.offset + n + header_size })
moved-IsArena a n ar h = record { exists = ar.exists; within = h; small = ar.small }

-- A node takes 40 bytes and a header.
link_nodes-append :
    (built ts : List Token) (a : MemoryArena)
    → IsArena a
    → ((a.offset + 48 * length ts ≤ a.size)
        × (link_nodes built ts a
            ≡ ok (built ++ ts, record a { offset = a.offset + 48 * length ts })))
      ⊎ ((a.size < a.offset + 48 * length ts) × (link_nodes built ts a ≡ exited 1 []))
unfolding link_nodes
link_nodes-append built [] a ar =
    let same : a.offset + 48 * 0 ≡ a.offset = omega arith in
    inl (omega (arith, ar.within), rw (same, append-nil built) refl)
link_nodes-append built (t ∷ ts) a ar = elim (arena_alloc_cases 40 a ar (omega arith)) [
  | inr (full, e) ↦ inr (omega arith, rw (e, link_nodes, ◌>>=◌) refl)
  | inl (fits, e) ↦
      elim (link_nodes-append (built ++ t ∷ []) ts
        (record a { offset = a.offset + 40 + header_size }) (moved-IsArena a 40 ar fits)) [
          | inr (full, e') ↦ inr (omega arith, rw (e, link_nodes, ◌>>=◌) e')
          | inl (fits', e') ↦
              let whole : a.offset + 40 + header_size + 48 * length ts
                  ≡ a.offset + 48 * length (t ∷ ts) =
                omega arith in
              inl (
                omega arith,
                rw (e, link_nodes, ◌>>=◌) (e' ∙ rw (whole, append_assoc built (t ∷ []) ts) refl),
              )
        ]
]

-- From an arena within its bounds, `build_token_stream` makes of the tokens of a list that is not
-- empty a stream of exactly these tokens in their order, which stands at the first of them, and
-- takes 24 bytes and 48 for each token; where the arena has no room for that, the process is ended
-- with code 1.
pub build_token_stream-Tokens :
    (t : Token) (ts : List Token) (a : MemoryArena)
    → IsArena a
    → ((a.offset + 24 + 48 * length (t ∷ ts) ≤ a.size)
        × (build_token_stream (t ∷ ts) a
            ≡ ok (
              some (record { head = t ∷ ts; current = t ∷ ts }),
              record a { offset = a.offset + 24 + 48 * length (t ∷ ts) },
            )))
      ⊎ ((a.size < a.offset + 24 + 48 * length (t ∷ ts))
          × (build_token_stream (t ∷ ts) a ≡ exited 1 []))
unfolding build_token_stream
build_token_stream-Tokens t ts a ar = elim (arena_alloc_cases 16 a ar (omega arith)) [
  | inr (full, e) ↦ inr (omega arith, rw (e, build_token_stream, ◌>>=◌) refl)
  | inl (fits, e) ↦
      elim (link_nodes-append [] (t ∷ ts) (record a { offset = a.offset + 16 + header_size })
        (moved-IsArena a 16 ar fits)) [
          | inr (full, e') ↦
              inr (omega arith, rw (e, build_token_stream, ◌>>=◌) (rw (◌>>=◌, e') refl))
          | inl (fits', e') ↦
              let whole : a.offset + 16 + header_size + 48 * length (t ∷ ts)
                  ≡ a.offset + 24 + 48 * length (t ∷ ts) =
                omega arith in
              inl (omega arith, rw (e, build_token_stream, ◌>>=◌) (rw (◌>>=◌, e', whole) refl))
        ]
]
