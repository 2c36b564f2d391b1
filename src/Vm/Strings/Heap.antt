-- ===== src/Vm/Strings/Heap.antt =====
-- What `vm_allocate_string` does to the heap.
use mathlib.Core.Path.{subst}
use bitcode.Base.{
  sym, ◌∙◌, true, false, le→leb, ◌≢◌, ℕ, suc, ◌+◌, ◌-◌, ◌*◌, ◌<◌, ◌≤◌, ◌≡◌, ◌⊎◌, inl, inr, refl,
  Bytes, [], ◌∷◌, ◌++◌, ok, fault, memory_out_of_bounds, arith, length, length-append, leb, ltb,
  ◌&&◌, if◌then◌else◌, get_or, u32, dec_le,
}
use bitcode.Vm.Layout.{mem_size, heap_start, heap_size}
use bitcode.Vm.Load.Image.{store_bytes-get_or}
use bitcode.Vm.State.{VmContext, store_bytes}
use bitcode.Vm.Strings.{vm_allocate_string}

abbrev heap_end : ℕ
heap_end = 0x4C0000

-- The string and its terminator stand at an address, and the other bytes are as before.
abbrev pub Stored : (ℕ → ℕ) → (ℕ → ℕ) → ℕ → Bytes → Type 0
Stored before after a s =
    (i : ℕ)
    → after i
      ≡ (if leb a i && ltb i (a + length s + 1) then get_or (s ++ 0 ∷ []) (i - a) 0 else before i)

allocated :
    (ctx : VmContext) (s : Bytes)
    → ctx.hp + length s + 2 < heap_end
    → ctx.hp + 2 * (length s + 1) ≤ mem_size
    → vm_allocate_string ctx s
      ≡ ok (
        record ctx {
          memory = store_bytes ctx.memory (ctx.hp + length s + 1) (s ++ 0 ∷ []);
          hp = ctx.hp + length s + 1;
        },
        ctx.hp + length s + 1,
      )
unfolding vm_allocate_string
allocated ctx s room fits =
    let start : u32 (ctx.hp + (length s + 1)) ≡ ctx.hp + length s + 1 = omega arith in
    let first : leb (heap_start + heap_size - 1) (ctx.hp + (length s + 1)) ≡ false = ground arith in
    let second : leb (ctx.hp + length s + 1 + (length s + 1)) mem_size ≡ true =
      le→leb _ _ (omega arith) in
    rw (first, start, second, vm_allocate_string) refl

-- With `hp` in the heap, an allocation of a string of `n` bytes is refused with address 0, and
-- nothing changes, exactly where `hp + n + 1` reaches the last byte of the heap. Otherwise the
-- string goes to the address `hp + n + 1`, not to `hp`, which becomes the new `hp`; and where it
-- does not fit the memory from there, it is written past the memory.
pub vm_allocate_string_cases :
    (ctx : VmContext) (s : Bytes)
    → ctx.hp ≤ heap_end
    → ((heap_end ≤ ctx.hp + length s + 2) × (vm_allocate_string ctx s ≡ ok (ctx, 0)))
      ⊎ ((ctx.hp + length s + 2 < heap_end)
          × (ctx.hp + 2 * (length s + 1) ≤ mem_size)
          × (m : ℕ → ℕ) × (vm_allocate_string ctx s
              ≡ ok (record ctx { memory = m; hp = ctx.hp + length s + 1 }, ctx.hp + length s + 1))
          × Stored ctx.memory m (ctx.hp + length s + 1) s)
      ⊎ ((ctx.hp + length s + 2 < heap_end)
          × (mem_size < ctx.hp + 2 * (length s + 1))
          × (vm_allocate_string ctx s ≡ fault memory_out_of_bounds))
unfolding vm_allocate_string
vm_allocate_string_cases ctx s h = elim (dec_le heap_end (ctx.hp + length s + 2)) [
  | yes full ↦ inl (full, ground arith)
  | no room ↦ elim (dec_le (ctx.hp + 2 * (length s + 1)) mem_size) [
    | yes fits ↦ inr (
        inl (
          omega arith,
          fits,
          store_bytes ctx.memory (ctx.hp + length s + 1) (s ++ 0 ∷ []),
          allocated ctx s (omega arith) fits,
          λ i. ground (
            arith,
            store_bytes-get_or ctx.memory (ctx.hp + length s + 1) (s ++ 0 ∷ []) i,
            length-append s (0 ∷ []),
          ),
        ))
    | no past ↦ inr (inr (omega arith, omega arith, ground arith))
  ]
]

-- What an allocation that is not refused has done.
vm_allocate_string_returns :
    (ctx ctx' : VmContext) (s : Bytes) (a : ℕ)
    → ctx.hp ≤ heap_end
    → vm_allocate_string ctx s ≡ ok (ctx', a)
    → a ≢ 0
    → (a ≡ ctx.hp + length s + 1)
      × (ctx'.hp ≡ a)
      × (a + 1 < heap_end)
      × Stored ctx.memory ctx'.memory a s
vm_allocate_string_returns ctx ctx' s a h e ne = elim (vm_allocate_string_cases ctx s h) [
  | inl (_, f) ↦ let same = sym f ∙ e in absurd (ne (ground arith))
  | inr (inl (room, _, m, f, stored)) ↦
      let same = sym f ∙ e in
      let address : ctx.hp + length s + 1 ≡ a = ground arith in
      let memory : m ≡ ctx'.memory = ground arith in
      (
        sym address,
        ground arith,
        omega arith,
        subst (λ (after : ℕ → ℕ). Stored ctx.memory after a s) memory
            (subst (λ (b : ℕ). Stored ctx.memory m b s) address stored),
      )
  | inr (inr (_, _, f)) ↦ let same = sym f ∙ e in cc
]

-- Two allocations in a row overlap when the second string is shorter and not empty: it starts
-- within the bytes of the first or at its terminator, and its first byte replaces what was there.
pub vm_allocate_string_overlap :
    (ctx ctx' ctx'' : VmContext) (s : Bytes) (c : ℕ) (t : Bytes) (a a' : ℕ)
    → ctx.hp ≤ heap_end
    → vm_allocate_string ctx s ≡ ok (ctx', a)
    → a ≢ 0
    → vm_allocate_string ctx' (c ∷ t) ≡ ok (ctx'', a')
    → a' ≢ 0
    → suc (length t) < length s
    → (a < a') × (a' ≤ a + length s) × (ctx''.memory a' ≡ c)
vm_allocate_string_overlap ctx ctx' ctx'' s c t a a' h e n e' n' l =
    let (at, hp, top, _) = vm_allocate_string_returns ctx ctx' s a h e n in
    let (at', _, _, stored) =
      vm_allocate_string_returns ctx' ctx'' (c ∷ t) a' (omega arith) e' n' in
    let first : a' - a' ≡ 0 = omega arith in
    (omega arith, omega arith, stored a' ∙ rw first (ground arith))
