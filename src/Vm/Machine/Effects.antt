-- ===== src/Vm/Machine/Effects.antt =====
-- How the effect of a command ends.
use bitcode.Base.{
  ℕ, ◌≡◌, refl, inl, inr, Bool-cases, length, length-set, Outcome, ok, fault, Fault, ltb, ◌+◌, ◌++◌,
  leb, ◌>>=◌, ◌-◌, Bytes, [], ◌∷◌,
}
use bitcode.Vm.Decode.{src_mode_message}
use bitcode.Vm.Decode.RoundTrip.{mode_bits, indirect, address}
use bitcode.Vm.Handlers.Ensures.{Ensures}
use bitcode.Vm.Handlers.Invariant.{print_from-Ensures}
use bitcode.Vm.Layout.{mem_size}
use bitcode.Vm.Machine.{
  Command, mov_integer, mov_register, mov_address, mov_indirect, load_addr, print_chr, print_str_in,
  print_str_at, View, register_of, effect, load, print_text, say,
}

-- A view with as many registers and the status 0, a refused load, or undefined behaviour.
pub data Effects (from : View) : Outcome (View × ℕ) → Type 0 where
  goes_on : (v : View) → length v.registers ≡ length from.registers → Effects from (ok (v, 0))
  refuses : (v : View) → Effects from (ok (v, 103))
  breaks : (e : Fault) → Effects from (fault e)

load-Effects : (m : ℕ → ℕ) (v : View) (out : Bytes) (n a : ℕ) → Effects v (load m (say v out) n a)
load-Effects m v out n a = elim (Bool-cases (leb (a + 4) mem_size)) [
  | inl e ↦ rw e (goes_on _ (length-set v.registers n _))
  | inr e ↦ elim (Bool-cases (ltb mem_size a)) [
    | inl past ↦ rw (e, past) (refuses _)
    | inr across ↦ rw (e, across) (breaks _)
  ]
]

text-Effects :
    (v : View) {r : Outcome Bytes}
    → Ensures (λ text. Unit {0}) r
    → Effects v (r >>= λ text. ok (say v (text ++ b'\n' ∷ []), 0))
text-Effects v (Ensures.returns text u) = goes_on _ refl
text-Effects v (Ensures.faults e) = breaks e

print_text-Effects : (m : ℕ → ℕ) (v : View) (a : ℕ) → Effects v (print_text m v a)
print_text-Effects m v a = elim (Bool-cases (ltb a mem_size)) [
  | inl e ↦ rw e (text-Effects v (print_from-Ensures m a (mem_size - a)))
  | inr e ↦ rw e (goes_on v refl)
]

pub effect-Effects : (m : ℕ → ℕ) (v : View) (c : Command) → Effects v (effect m v c)
effect-Effects m v (mov_integer n x) = goes_on _ (length-set v.registers n x)
effect-Effects m v (mov_register n k) = goes_on _ (length-set v.registers n _)
effect-Effects m v (mov_address n a) =
    load-Effects m v (src_mode_message (mode_bits (address a))) n a
effect-Effects m v (mov_indirect n k) =
    load-Effects m v (src_mode_message (mode_bits (indirect k))) n (register_of v k)
effect-Effects m v (load_addr n src) = goes_on _ refl
effect-Effects m v (print_chr n) = goes_on _ refl
effect-Effects m v (print_str_in n) = print_text-Effects m v (register_of v n)
effect-Effects m v (print_str_at a) = print_text-Effects m v a
