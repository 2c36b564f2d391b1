-- ===== src/Assembler/Symbols/Laws.antt =====
-- The symbol table as a map, for src/utils/symbol_table/symbol_table.c.
use mathlib.Core.Bool.{true≢false}
use mathlib.Core.Path.{fun_ext}
use bitcode.Base.{
  ℕ, ◌+◌, ◌≤◌, ◌≡◌, ◌∙◌, ap, refl, sym, inl, inr, Bool, true, false, Bool-cases, List, [], ◌∷◌,
  Option, none, some, Bytes, Outcome, ok, fault, null_pointer, arith, length, str_eq, str_eq→eq,
  str_eq_self, if◌then◌else◌,
}
use bitcode.Base.Stateful.{Stateful, pure, ◌>>=◌}
use bitcode.Arena.{MemoryArena, arena_alloc, arena_strdup, header_size}
use bitcode.Arena.Disjoint.{IsArena, arena_alloc_cases}
use bitcode.Assembler.Symbols.{
  Entry, Uthash, IsLawful, Symbols, entry_size, symbol_table_init, symbol_table_add,
  symbol_table_get,
}

-- The abstract table: the first address that a symbol is given stays.
abbrev pub Bindings : Type 0
Bindings = Bytes → Option ℕ

abbrev pub define : Bytes → ℕ → Bindings → Bindings
define key value f k = elim (f key) [
  | some a ↦ f k
  | none ↦ if str_eq k key then some value else f k
]

abbrev pub is_new : Option ℕ → Bool
is_new none = true
is_new (some a) = false

abbrev pub replay : List (Bytes × ℕ) → Bindings → Bindings
replay [] f = f
replay ((key, value) ∷ ops) f = replay ops (define key value f)

abbrev pub answers : List (Bytes × ℕ) → Bindings → List Bool
answers [] f = []
answers ((key, value) ∷ ops) f = is_new (f key) ∷ answers ops (define key value f)

-- What a new symbol takes from the arena: an entry of 72 bytes, its text and two headers.
abbrev pub cost : List (Bytes × ℕ) → ℕ
cost [] = 0
cost ((key, value) ∷ ops) = length key + 89 + cost ops

-- What `symbol_table_get` makes of an abstract look-up.
abbrev pub get_from : Option ℕ → Outcome ℕ
get_from none = fault null_pointer
get_from (some a) = ok a

address_of : Option Entry → Option ℕ
address_of none = none
address_of (some e) = some e.address

module _ (U : Uthash) where
  -- Additions one after the other, with their results.
  pub add_all : List (Bytes × ℕ) → Stateful (Symbols U) (List Bool)
  add_all [] = pure []
  add_all ((key, value) ∷ ops) = do
    added ← symbol_table_add U key value
    rest ← add_all ops
    pure (added ∷ rest)

  bindings : Symbols U → Bindings
  unfolding address_of
  bindings s k = address_of (U.find s.table k)

  -- The arena of `b` has taken at most `n` bytes more than that of `a`.
  record Takes (n : ℕ) (a b : Symbols U) : Type 0 where
    in_bounds : IsArena b.arena
    offset : b.arena.offset ≤ a.arena.offset + n
    size : b.arena.size ≡ a.arena.size

module _ (U : Uthash) (laws : IsLawful U) where
  allocated :
      (key : Bytes) (a : MemoryArena)
      → IsArena a
      → a.offset + (length key + 89) ≤ a.size
      → (p : ℕ) × ((arena_alloc (entry_size U) >>= λ st. arena_strdup key >>= λ symbol. pure st) a
          ≡ ok (p, record a { offset = a.offset + (length key + 89) }))
  unfolding arena_strdup
  allocated key a ar room =
      elim (arena_alloc_cases (entry_size U) a ar (omega (arith, laws.handle_small))) [
        | inr (full, e) ↦ absurd (omega (arith, laws.handle_small))
        | inl (fits, e) ↦
            elim (arena_alloc_cases (length key + 1)
              (record a { offset = a.offset + entry_size U + header_size })
              (record { exists = ar.exists; within = fits; small = ar.small }) (omega arith)) [
                | inr (full, e') ↦ absurd (omega (arith, laws.handle_small))
                | inl (fits', e') ↦
                    let whole : a.offset
                          + entry_size U
                          + header_size
                          + (length key + 1)
                          + header_size
                        ≡ a.offset + (length key + 89) =
                      omega (arith, laws.handle_small) in
                    (a.buffer + a.offset + header_size, rw (e, ◌>>=◌) (rw (e', ◌>>=◌, whole) refl))
              ]
      ]

  unchanged :
      (key : Bytes) (value : ℕ) (s : Symbols U) {e : Entry}
      → U.find s.table key ≡ some e
      → (k : Bytes) → bindings U s k ≡ define key value (bindings U s) k
  unfolding bindings address_of
  unchanged key value s e k = rw (define, e) refl

  extended :
      (key : Bytes) (value : ℕ) (s : Symbols U) (a : MemoryArena)
      → U.find s.table key ≡ none
      → (k : Bytes)
      → bindings U
          (record { arena = a; table = U.add s.table (record { symbol = key; address = value }) })
          k
        ≡ define key value (bindings U s) k
  unfolding bindings address_of
  extended key value s a new k = elim (Bool-cases (str_eq k key)) [
    | inl same ↦
        rw
          (
            define,
            new,
            same,
            str_eq→eq k key same,
            laws.find-add_self s.table (record { symbol = key; address = value }) new,
          )
          refl
    | inr other ↦
        rw
          (
            define,
            new,
            other,
            laws.find-add_ne s.table (record { symbol = key; address = value }) k new
                (λ e. true≢false (sym (str_eq_self key) ∙ ap (λ j. str_eq j key) (sym e) ∙ other)),
          )
          refl
  ]

  -- One addition where the arena has room for it.
  add-define :
      (key : Bytes) (value : ℕ) (s : Symbols U) (o : Option Entry)
      → U.find s.table key ≡ o
      → IsArena s.arena
      → s.arena.offset + (length key + 89) ≤ s.arena.size
      → (t : Symbols U) × (symbol_table_add U key value s ≡ ok (is_new (bindings U s key), t))
        × (bindings U t ≡ define key value (bindings U s))
        × Takes U (length key + 89) s t
  unfolding symbol_table_add bindings address_of
  add-define key value s (some e) found ar room = (
    s,
    rw (found, symbol_table_add) refl,
    fun_ext (unchanged key value s found),
    record { in_bounds = ar; offset = omega arith; size = refl },
  )
  add-define key value s none new ar room =
      let (p, e) = allocated key s.arena ar room in
      let arena = record s.arena { offset = s.arena.offset + (length key + 89) } in
      (
        record { arena = arena; table = U.add s.table (record { symbol = key; address = value }) },
        rw (new, e, symbol_table_add) refl,
        fun_ext (extended key value s arena new),
        record {
          in_bounds = record { exists = ar.exists; within = room; small = ar.small };
          offset = omega arith;
          size = refl;
        },
      )

  add_all-replay :
      (ops : List (Bytes × ℕ)) (s : Symbols U)
      → IsArena s.arena
      → s.arena.offset + cost ops ≤ s.arena.size
      → (t : Symbols U) × (add_all U ops s ≡ ok (answers ops (bindings U s), t))
        × (bindings U t ≡ replay ops (bindings U s))
  unfolding add_all
  add_all-replay [] s ar room = (s, refl, refl)
  add_all-replay ((key, value) ∷ ops) s ar room =
      let (t, added, b, takes) =
        add-define key value s (U.find s.table key) refl ar (omega arith) in
      let (u, rest, c) =
        add_all-replay ops t takes.in_bounds (omega (arith, takes.offset, takes.size)) in
      (u, rw (added, add_all, ◌>>=◌) (rw (rest, ◌>>=◌, b) refl), c ∙ ap (replay ops) b)

  get-bindings :
      (t : Symbols U) (k : Bytes) → symbol_table_get U t.table k ≡ get_from (bindings U t k)
  unfolding symbol_table_get bindings address_of
  get-bindings t k = found (U.find t.table k) refl
    where
      found :
          (o : Option Entry)
          → U.find t.table k ≡ o
          → symbol_table_get U t.table k ≡ get_from (address_of (U.find t.table k))
      found none e = rw (e, symbol_table_get) refl
      found (some st) e = rw (e, symbol_table_get) refl

  -- Symbols that are added one after the other to a new table, from an arena with room for all of
  -- them: each addition answers whether its symbol was new, and afterwards `symbol_table_get` gives
  -- for every symbol the first address that it was added with, and reads through NULL for a symbol
  -- that was never added.
  pub symbol_table-replay :
      (ops : List (Bytes × ℕ)) (a : MemoryArena)
      → IsArena a
      → a.offset + cost ops ≤ a.size
      → (t : Symbols U) × (add_all U ops (record { arena = a; table = symbol_table_init U })
          ≡ ok (answers ops (λ k. none), t))
        × ((k : Bytes) → symbol_table_get U t.table k ≡ get_from (replay ops (λ j. none) k))
  unfolding symbol_table_init bindings address_of
  symbol_table-replay ops a ar room =
      let start : Symbols U = record { arena = a; table = U.null } in
      let (t, done, b) = add_all-replay ops start ar room in
      let nothing : bindings U start ≡ (λ k. none) =
        fun_ext (λ k. ap address_of (laws.find-null k)) in
      (
        t,
        rw nothing at done,
        λ k. get-bindings t k ∙ ap (λ (f : Bindings). get_from (f k)) (b ∙ ap (replay ops) nothing),
      )
