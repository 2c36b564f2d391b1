-- ===== src/Vm/Handlers/Ensures.antt =====
-- Postconditions of outcomes, with a rule for each access to the machine.
use bitcode.Base.{
  ℕ, ◌<◌, ◌≡◌, refl, inl, inr, Outcome, ok, fault, ◌>>=◌, arith, u32_mod, All, length, set,
  Option-cases, get_elem?, length-set, All-set, All-get_elem?, le32-lt, leb, Bool-cases, ◌+◌, Fault,
  [], Bytes, sym, ◌∙◌, ◌++◌,
}
use mathlib.Core.List.{append-nil}
use mathlib.Core.Path.{subst}
use bitcode.Vm.Layout.{mem_size}
use bitcode.Vm.State.{VmState, print, VmContext, read_register, write_register, load_word}

-- The outcome is a value with `P`, or a fault, and never the end of the process.
pub data Ensures {ℓ κ} {A : Type ℓ} (P : A → Type κ) : Outcome A → Type (ℓ ⊔ κ) where
  returns : (a : A) → P a → Ensures P (ok a)
  faults : (e : Fault) → Ensures P (fault e)

pub Ensures-bind {ℓ κ μ ν} :
    {A : Type ℓ} {B : Type μ} (P : A → Type κ) (Q : B → Type ν) {m : Outcome A} (f : A → Outcome B)
    → Ensures P m
    → ((a : A) → P a → Ensures Q (f a))
    → Ensures Q (m >>= f)
Ensures-bind P Q f (returns a p) k = k a p
Ensures-bind P Q f (faults e) k = faults e

-- A value that is `ok` has the postcondition.
pub Ensures-ok {ℓ κ} :
    {A : Type ℓ} (P : A → Type κ) {r : Outcome A} {a : A} → Ensures P r → r ≡ ok a → P a
Ensures-ok P (returns b p) e = subst P (ground arith) p
Ensures-ok P (faults f) e = cc

-- The types of the C variables: eight registers of 32 bits, memory of bytes, a 32-bit `pc`.
pub record IsValid (ctx : VmContext) : Type 0 where
  pub register_count : length ctx.registers ≡ 8
  pub registers_fit : All (λ r. r < u32_mod) ctx.registers
  pub memory_bytes : (a : ℕ) → ctx.memory a < 256
  pub pc_fits : ctx.pc < u32_mod

-- What execution leaves alone: everything but the state, the registers and what is printed.
pub record Frame (before after : VmContext) : Type 0 where
  pub memory : after.memory ≡ before.memory
  pub memory_size : after.memory_size ≡ before.memory_size
  pub pc : after.pc ≡ before.pc
  pub sp : after.sp ≡ before.sp
  pub bp : after.bp ≡ before.bp
  pub hp : after.hp ≡ before.hp
  pub flags : after.flags ≡ before.flags
  pub printed : Bytes
  pub stdout : after.stdout ≡ before.stdout ++ printed

pub Frame-refl : (ctx : VmContext) → Frame ctx ctx
Frame-refl ctx = record {
  memory = refl;
  memory_size = refl;
  pc = refl;
  sp = refl;
  bp = refl;
  hp = refl;
  flags = refl;
  printed = [];
  stdout = sym (append-nil _);
}

abbrev pub Kept : VmContext → VmContext → Type 0
Kept before after = Frame before after × IsValid after

abbrev pub IsWord : ℕ → Type 0
IsWord v = v < u32_mod

module _ (ctx : VmContext) (valid : IsValid ctx) where
  pub read_register-IsWord : (i : ℕ) → Ensures IsWord (read_register ctx i)
  unfolding read_register
  read_register-IsWord i = elim (Option-cases (get_elem? ctx.registers i)) [
    | inl e ↦ rw (e, read_register) (faults _)
    | inr (v, e) ↦
        rw (e, read_register) (returns v (All-get_elem? _ ctx.registers i valid.registers_fit e))
  ]

  pub load_word-IsWord : (a : ℕ) → Ensures IsWord (load_word ctx a)
  unfolding load_word
  load_word-IsWord a = elim (Bool-cases (leb (a + 4) mem_size)) [
    | inl e ↦ rw e (
        returns _ (
          le32-lt _ _ _ _ (valid.memory_bytes a) (valid.memory_bytes (a + 1))
            (valid.memory_bytes (a + 2)) (valid.memory_bytes (a + 3))))
    | inr e ↦ rw (e, load_word) (faults _)
  ]

  -- A register is written; nothing else changes.
  pub write_register-Kept :
      (i v : ℕ)
      → IsWord v
      → Ensures (λ after. Kept ctx after × (after.state ≡ ctx.state)) (write_register ctx i v)
  unfolding write_register
  write_register-Kept i v w = elim (Option-cases (get_elem? ctx.registers i)) [
    | inl e ↦ rw (e, write_register) (faults _)
    | inr (old, e) ↦
        rw (e, write_register)
          (returns (record ctx { registers = set ctx.registers i v })
            (
              (
                record {
                  memory = refl;
                  memory_size = refl;
                  pc = refl;
                  sp = refl;
                  bp = refl;
                  hp = refl;
                  flags = refl;
                  printed = [];
                  stdout = sym (append-nil _);
                },
                record {
                  register_count = length-set ctx.registers i v ∙ valid.register_count;
                  registers_fit = All-set _ ctx.registers i v valid.registers_fit w;
                  memory_bytes = valid.memory_bytes;
                  pc_fits = valid.pc_fits;
                },
              ),
              refl,
            ))
  ]

  pub print-Kept : (out : Bytes) → Kept ctx (print ctx out)
  print-Kept out = (
    record {
      memory = refl;
      memory_size = refl;
      pc = refl;
      sp = refl;
      bp = refl;
      hp = refl;
      flags = refl;
      printed = out;
      stdout = refl;
    },
    record {
      register_count = valid.register_count;
      registers_fit = valid.registers_fit;
      memory_bytes = valid.memory_bytes;
      pc_fits = valid.pc_fits;
    },
  )

  pub state-Kept : (state : VmState) → Kept ctx (record ctx { state = state })
  state-Kept state = (
    record {
      memory = refl;
      memory_size = refl;
      pc = refl;
      sp = refl;
      bp = refl;
      hp = refl;
      flags = refl;
      printed = [];
      stdout = sym (append-nil _);
    },
    record {
      register_count = valid.register_count;
      registers_fit = valid.registers_fit;
      memory_bytes = valid.memory_bytes;
      pc_fits = valid.pc_fits;
    },
  )
