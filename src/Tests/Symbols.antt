-- ===== src/Tests/Symbols.antt =====
-- The symbol table over an association list, sizes of literals, and the context.
use bitcode.Assembler.DataSize.{
  int_max, calculate_vm_data_size, calculate_vm_data_size-Denotes, Denotes,
}
use bitcode.Base.{
  fault, signed_overflow, ◌⊎◌, ℕ, ◌+◌, ◌%◌, ◌≤◌, ◌<◌, ◌≡◌, refl, sym, inl, inr, Bool-cases, true,
  false, List, [], ◌∷◌, Option, none, some, Bytes, ok, exited, arith, codes, str_eq, str_eq_self,
  str_eq→eq, if◌then◌else◌, length,
}
use bitcode.Arena.{MemoryArena}
use bitcode.Arena.Disjoint.{IsArena}
use bitcode.Assembler.Context.{asm_ctx_init, asm_ctx_init_small}
use bitcode.Assembler.Symbols.{
  Entry, Uthash, IsLawful, Symbols, symbol_table_init, symbol_table_get,
}
use bitcode.Assembler.Symbols.Laws.{add_all, answers, get_from, replay, symbol_table-replay}

abbrev pub arena : MemoryArena
arena = record { buffer = 0x1000; size = 1048576; offset = 0 }

pub arena-IsArena : IsArena arena
arena-IsArena = record { exists = λ e. omega (arith, e); within = omega arith; small = omega arith }

find_in : List Entry → Bytes → Option Entry
find_in [] k = none
find_in (e ∷ es) k = if str_eq e.symbol k then some e else find_in es k

abbrev entries : Uthash
entries = record {
  Table = List Entry;
  null = [];
  find = find_in;
  add = λ t e. e ∷ t;
  handle_size = 56;
}

entries-IsLawful : IsLawful entries
unfolding find_in
entries-IsLawful = record {
  find-null = λ k. refl;
  find-add_self = λ t e new. rw (str_eq_self e.symbol, find_in) refl;
  find-add_ne = λ t e k new ne. elim (Bool-cases (str_eq e.symbol k)) [
    | inl same ↦ absurd (ne (sym (str_eq→eq e.symbol k same)))
    | inr other ↦ rw (other, find_in) refl
  ];
  handle_small = refl;
}

-- A label that is defined twice.
abbrev labels : List (Bytes × ℕ)
labels = (codes "loop", 8) ∷ (codes "end", 16) ∷ (codes "loop", 24) ∷ []

symbol_table-replay_example :
    (t : Symbols entries) × (add_all entries labels
        (record { arena = arena; table = symbol_table_init entries })
      ≡ ok (answers labels (λ k. none), t))
    × ((k : Bytes) → symbol_table_get entries t.table k ≡ get_from (replay labels (λ j. none) k))
symbol_table-replay_example =
    symbol_table-replay entries entries-IsLawful labels arena arena-IsArena (omega arith)

-- The first two are new, the third is not, and its first address stays.
second_loop : answers labels (λ k. none) ≡ true ∷ true ∷ false ∷ []
unfolding str_eq
second_loop = refl

loop_address : replay labels (λ k. none) (codes "loop") ≡ some 8
unfolding str_eq
loop_address = refl

-- `a\n` stands for two bytes, for which there are four.
calculate_vm_data_size-Denotes_example :
    ((length (codes "a\\n") ≤ int_max)
      × (n : ℕ) × (calculate_vm_data_size (codes "a\\n") ≡ ok n)
      × (n % 4 ≡ 0)
      × (length (codes "a\n") + 1 ≤ n)
      × (n < length (codes "a\n") + 1 + 4))
    ⊎ ((int_max < length (codes "a\\n"))
        × (calculate_vm_data_size (codes "a\\n") ≡ fault signed_overflow))
calculate_vm_data_size-Denotes_example =
    calculate_vm_data_size-Denotes (codes "a\\n") (codes "a\n")
      (Denotes.plain (omega arith) (Denotes.escape refl Denotes.done))

asm_ctx_init_small_example : asm_ctx_init arena ≡ exited 1 []
asm_ctx_init_small_example = asm_ctx_init_small arena arena-IsArena (omega arith)
