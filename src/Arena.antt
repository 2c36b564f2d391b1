-- ===== src/Arena.antt =====
-- src/utils/arena_allocator/arena_allocator.c. A block is what its pointer says: what callers put
-- into their blocks is kept as values, since no block overlaps another (Arena/Disjoint).
pub mod Disjoint
pub mod Fits
pub mod Overflow
pub mod Safety
pub mod Aborts
use bitcode.Base.{
  ℕ, ◌+◌, ◌*◌, ◌/◌, ◌-◌, ◌||◌, Option, none, some, [], Bytes, ltb, leb, ◌==◌, if◌then◌else◌,
  to_size, size_mod, length, Outcome, ok, exited, fault, null_pointer, memory_out_of_bounds,
}
use bitcode.Base.Stateful.{Stateful, pure, ◌>>=◌}

-- `buffer` is the address that `malloc` gave; 0 is NULL.
pub record MemoryArena : Type 0 where
  pub buffer : ℕ
  pub size : ℕ
  pub offset : ℕ

abbrev pub max_arena_size : ℕ
max_arena_size = 1048576

-- `sizeof(ArenaHeader)`.
abbrev pub header_size : ℕ
header_size = 8

-- `malloced` is what `malloc` returns, 0 where it fails; `size` and `offset` are set only where
-- it does not.
unfoldable pub arena_init : MemoryArena → ℕ → ℕ → MemoryArena
arena_init arena malloced initial_size =
    if malloced == 0
    then record arena { buffer = malloced }
    else record { buffer = malloced; size = initial_size; offset = 0 }

-- The header is written at `buffer + offset`, and the result is the address behind it. Nothing is
-- aligned, which the host allows; and the message in front of the `exit`, whose `%d` is given a
-- size_t, is taken to print some number.
unfoldable pub arena_alloc : ℕ → Stateful MemoryArena ℕ
arena_alloc needed_size arena =
    let total = to_size (needed_size + header_size) in
    let required = to_size (arena.offset + total) in
    if ltb arena.size required
    then exited 1 []
    else if arena.buffer == 0
    then fault null_pointer
    else if ltb arena.size (arena.offset + header_size)
    then fault memory_out_of_bounds
    else ok (
      arena.buffer + arena.offset + header_size,
      record arena { offset = to_size (arena.offset + total) },
    )

-- `none` is NULL. `count` is not negative.
unfoldable pub arena_calloc : ℕ → ℕ → Stateful MemoryArena (Option ℕ)
arena_calloc count size =
    if count == 0 || size == 0
    then pure none
    else if ltb ((size_mod - 1) / count) size
    then pure none
    else (do p ← arena_alloc (to_size (count * size)); pure (some p))

-- It is switched off.
unfoldable pub arena_realloc {ℓ} : {A : Type ℓ} → ℕ → ℕ → MemoryArena → Outcome A
arena_realloc original_ptr new_size arena = exited 1 []

-- The buffer is given back to the system; its address stays in the struct.
unfoldable pub arena_free : MemoryArena → MemoryArena
arena_free arena = record arena { offset = 0; size = 0 }

-- The copy holds the text; the result is its address.
unfoldable pub arena_strdup : Bytes → Stateful MemoryArena ℕ
unfolding arena_alloc
arena_strdup s = arena_alloc (length s + 1)
