-- ===== src/Base/Stateful.antt =====
-- Functions that change a state, and may end the process or reach undefined behaviour.
use bitcode.Base.Outcomes.{Outcome, ok, exited, fault}

abbrev pub Stateful : Type 0 → Type 0 → Type 0
Stateful S A = S → Outcome (A × S)

abbrev pub pure : {S A : Type 0} → A → Stateful S A
pure a s = ok (a, s)

infixl 5 ◌>>=◌ ◌>>◌
abbrev pub ◌>>=◌ : {S A B : Type 0} → Stateful S A → (A → Stateful S B) → Stateful S B
◌>>=◌ m f s = elim (m s) [
  | ok (a, s') ↦ f a s'
  | exited code out ↦ exited code out
  | fault e ↦ fault e
]

abbrev pub ◌>>◌ : {S B : Type 0} → Stateful S (Unit {0}) → Stateful S B → Stateful S B
m >> k = m >>= λ _. k
