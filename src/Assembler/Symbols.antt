-- ===== src/Assembler/Symbols.antt =====
-- src/utils/symbol_table/symbol_table.c, over the hash table of src/include/uthash.h, which is
-- another project's and enters as a record of operations.
pub mod Laws
use bitcode.Base.{
  ℕ, ◌+◌, ◌≡◌, ◌≢◌, Bool, true, false, Option, none, some, Bytes, Outcome, ok, exited, fault,
  null_pointer,
}
use bitcode.Base.Stateful.{Stateful, pure, ◌>>=◌}
use bitcode.Arena.{MemoryArena, arena_alloc, arena_strdup}

-- One item of the table.
pub record Entry : Type 0 where
  pub symbol : Bytes
  pub address : ℕ

-- A table of entries by their symbol: NULL, `HASH_FIND_STR`, `HASH_ADD_STR` and the size of
-- `UT_hash_handle`. The memory that the table itself needs is granted.
pub record Uthash : Type 1 where
  pub Table : Type 0
  pub null : Table
  pub find : Table → Bytes → Option Entry
  pub add : Table → Entry → Table
  pub handle_size : ℕ

-- What uthash documents: nothing is found in NULL; an entry that is added under a new key is found
-- under this key, and what is found under the others stays.
pub record IsLawful (U : Uthash) : Type 0 where
  pub find-null : (k : Bytes) → U.find U.null k ≡ none
  pub find-add_self :
      (t : U.Table) (e : Entry) → U.find t e.symbol ≡ none → U.find (U.add t e) e.symbol ≡ some e
  pub find-add_ne :
      (t : U.Table) (e : Entry) (k : Bytes)
      → U.find t e.symbol ≡ none
      → k ≢ e.symbol
      → U.find (U.add t e) k ≡ U.find t k
  pub handle_small : U.handle_size ≡ 56

module _ (U : Uthash) where
  -- What the functions change: the arena and the table.
  pub record Symbols : Type 0 where
    pub arena : MemoryArena
    pub table : U.Table

  unfoldable pub symbol_table_init : U.Table
  symbol_table_init = U.null

  -- `sizeof(SymbolTable)`: a pointer, a padded uint32_t and the handle.
  abbrev pub entry_size : ℕ
  entry_size = 16 + U.handle_size

  -- The result is false for a key that is there already.
  unfoldable pub symbol_table_add : Bytes → ℕ → Stateful Symbols Bool
  symbol_table_add key value s = elim (U.find s.table key) [
    | some st ↦ ok (false, s)
    | none ↦ elim ((do st ← arena_alloc entry_size; symbol ← arena_strdup key; pure st) s.arena) [
      | ok (st, arena) ↦ ok (
        true,
        record { arena = arena; table = U.add s.table (record { symbol = key; address = value }) },
      )
      | exited code out ↦ exited code out
      | fault e ↦ fault e
    ]
  ]

  -- A key that is not found is read through NULL.
  unfoldable pub symbol_table_get : U.Table → Bytes → Outcome ℕ
  symbol_table_get symbol_table symbol = elim (U.find symbol_table symbol) [
    | none ↦ fault null_pointer
    | some st ↦ ok st.address
  ]
