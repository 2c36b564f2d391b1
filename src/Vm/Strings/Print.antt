-- ===== src/Vm/Strings/Print.antt =====
-- What `vm_print_string` writes.
use mathlib.Core.Path.{subst}
use bitcode.Base.{
  ap, ◌∙◌, false, ℕ, zero, suc, ◌+◌, ◌-◌, ◌<◌, ◌≡◌, ◌≢◌, refl, [], ◌∷◌, ◌++◌, ok, fault,
  memory_out_of_bounds, arith, ◌==◌,
}
use bitcode.Vm.Layout.{mem_size}
use bitcode.Vm.State.{VmContext, print, window}
use bitcode.Vm.Strings.{print_from, vm_print_string}

ne→== : (a : ℕ) → a ≢ 0 → (a == 0) ≡ false
ne→== a h = ground arith

-- The bytes before the first null byte are read, where there is one within reach.
print_from_text :
    (m : ℕ → ℕ) (a n left : ℕ)
    → ((i : ℕ) → i < n → m (a + i) ≢ 0)
    → m (a + n) ≡ 0
    → n < left
    → print_from m a left ≡ ok (window m a n)
unfolding print_from
print_from_text m a n zero h e k = elim k [ ]
print_from_text m a zero (suc left) h e k =
    let here : m a ≡ 0 = ap m (omega arith) ∙ e in rw (here, print_from) refl
print_from_text m a (suc n) (suc left) h e k =
    let rest =
      print_from_text m (a + 1) n left
        (λ i b. subst (λ j. m j ≢ 0) (omega arith) (h (suc i) (omega arith)))
        (ap m (omega arith) ∙ e) (omega arith) in
    let here : m a ≢ 0 = subst (λ j. m j ≢ 0) (omega arith) (h 0 (omega arith)) in
    rw (ne→== (m a) here, rest, print_from) refl

print_from_endless :
    (m : ℕ → ℕ) (a left : ℕ)
    → ((i : ℕ) → i < left → m (a + i) ≢ 0)
    → print_from m a left ≡ fault memory_out_of_bounds
unfolding print_from
print_from_endless m a zero h = refl
print_from_endless m a (suc left) h =
    let rest =
      print_from_endless m (a + 1) left
        (λ i b. subst (λ j. m j ≢ 0) (omega arith) (h (suc i) (omega arith))) in
    let here : m a ≢ 0 = subst (λ j. m j ≢ 0) (omega arith) (h 0 (omega arith)) in
    rw (ne→== (m a) here, rest, print_from) refl

-- From an address within the memory, `vm_print_string` writes the bytes up to the first null byte
-- and a line break, and changes nothing else, if that null byte stands before the end of the
-- memory.
pub vm_print_string_text :
    (ctx : VmContext) (address n : ℕ)
    → address + n < mem_size
    → ((i : ℕ) → i < n → ctx.memory (address + i) ≢ 0)
    → ctx.memory (address + n) ≡ 0
    → vm_print_string ctx address ≡ ok (print ctx (window ctx.memory address n ++ b'\n' ∷ []))
unfolding vm_print_string
vm_print_string_text ctx address n k before e =
    rw
      (
        print_from_text ctx.memory address n (mem_size - address) before e (omega arith),
        vm_print_string,
      )
      refl

-- From an address within the memory with no null byte between it and the end of the memory,
-- `vm_print_string` reads behind the memory.
pub vm_print_string_endless :
    (ctx : VmContext) (address : ℕ)
    → address < mem_size
    → ((i : ℕ) → address + i < mem_size → ctx.memory (address + i) ≢ 0)
    → vm_print_string ctx address ≡ fault memory_out_of_bounds
unfolding vm_print_string
vm_print_string_endless ctx address h never =
    rw
      (
        print_from_endless ctx.memory address (mem_size - address) (λ i b. never i (omega arith)),
        vm_print_string,
      )
      refl
