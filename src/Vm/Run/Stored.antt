-- ===== src/Vm/Run/Stored.antt =====
-- Bytes in a memory: where a program stands for `run_vm` of src/vm/vm.c.
use bitcode.Base.{ℕ, suc, ◌+◌, ◌<◌, ◌≡◌, refl, ap, [], ◌∷◌, ◌++◌, Bytes, length, arith, ◌∙◌, get_or}
use mathlib.Core.Path.{subst}
use bitcode.Vm.Layout.{code_start}
use bitcode.Vm.Load.Image.{store_bytes-get_or}
use bitcode.Vm.State.{store_bytes, window}

-- The bytes stand in the memory from `p` on.
abbrev pub Stored : (ℕ → ℕ) → ℕ → Bytes → Type 0
Stored m p [] = Unit
Stored m p (b ∷ bs) = (m p ≡ b) × Stored m (p + 1) bs

pub window-Stored :
    (m : ℕ → ℕ) (p : ℕ) (bs rest : Bytes) → Stored m p (bs ++ rest) → window m p (length bs) ≡ bs
window-Stored m p [] rest h = refl
window-Stored m p (b ∷ bs) rest h = rw (h.0, window-Stored m (p + 1) bs rest h.1) refl

pub Stored-append :
    (m : ℕ → ℕ) (p : ℕ) (bs rest : Bytes) → Stored m p (bs ++ rest) → Stored m (p + length bs) rest
Stored-append m p [] rest h = subst (λ q. Stored m q rest) (omega arith) h
Stored-append m p (b ∷ bs) rest h =
    subst (λ q. Stored m q rest) (omega arith) (Stored-append m (p + 1) bs rest h.1)

Stored-get_or :
    (m : ℕ → ℕ) (p : ℕ) (bs : Bytes)
    → ((i : ℕ) → i < length bs → m (p + i) ≡ get_or bs i 0)
    → Stored m p bs
Stored-get_or m p [] h = tt
Stored-get_or m p (b ∷ bs) h = (
  ap m (omega arith) ∙ h 0 (omega arith),
  Stored-get_or m (p + 1) bs λ i k. ap m (omega arith) ∙ h (suc i) (omega arith),
)

pub store_bytes-Stored :
    (m : ℕ → ℕ) (before bs : Bytes)
    → Stored (store_bytes m code_start (before ++ bs)) (length before) bs
store_bytes-Stored m before bs =
    let whole =
      Stored-get_or (store_bytes m code_start (before ++ bs)) 0 (before ++ bs)
        λ i k. ground (arith, store_bytes-get_or m 0 (before ++ bs) i) in
    subst (λ p. Stored (store_bytes m code_start (before ++ bs)) p bs) (omega arith)
      (Stored-append (store_bytes m code_start (before ++ bs)) 0 before bs whole)
