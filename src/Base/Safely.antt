-- ===== src/Base/Safely.antt =====
-- Functions over a state that keep an invariant of it, reach no fault, and give a
-- value with a property, unless they end the process with code 1.
use mathlib.Core.Bool.{Bool, true, false}
use mathlib.Core.Option.{Option, none, some}
use mathlib.Core.List.{[]}
use mathlib.Core.Path.{◌≡◌, refl}
use bitcode.Base.Outcomes.{Outcome, ok, exited}
use bitcode.Base.Stateful.{Stateful, pure, ◌>>=◌}
use bitcode.Base.Tests.{if◌then◌else◌}

-- The value and the state have these properties, or the process is ended with code 1.
pub data Yields {A S : Type 0} (Q : A → Type 0) (I : S → Type 0) : Outcome (A × S) → Type 0 where
  yields : (x : A) (s : S) → Q x → I s → Yields Q I (ok (x, s))
  quits : Yields Q I (exited 1 [])

pub record Safely {A S : Type 0} (I : S → Type 0) (Q : A → Type 0) (m : Stateful S A) : Type 0 where
  pub run : (s : S) → I s → Yields Q I (m s)

module _ {S : Type 0} {I : S → Type 0} where
  Yields-bind :
      {A B : Type 0} {Q : A → Type 0} {R : B → Type 0} {r : Outcome (A × S)} (s : S)
      (f : A → Stateful S B)
      → Yields Q I r
      → ((x : A) → Q x → Safely I R (f x))
      → Yields R I (((λ t. r) >>= f) s)
  Yields-bind s f (Yields.yields x t q i) k = (k x q).run t i
  Yields-bind s f Yields.quits k = Yields.quits

  pub bind :
      {A B : Type 0} {Q : A → Type 0} {R : B → Type 0} {m : Stateful S A} {f : A → Stateful S B}
      → Safely I Q m
      → ((x : A) → Q x → Safely I R (f x))
      → Safely I R (m >>= f)
  bind {f = f} h k = record { run = λ s i. Yields-bind s f (h.run s i) k }

  pub pure-Safely : {A : Type 0} {Q : A → Type 0} (x : A) → Q x → Safely I Q (pure {A = A} x)
  pure-Safely x q = record { run = λ s i. Yields.yields x s q i }

  pub either :
      {A : Type 0} {Q : A → Type 0} (b : Bool) {x y : Stateful S A}
      → (b ≡ true → Safely I Q x)
      → (b ≡ false → Safely I Q y)
      → Safely I Q (if b then x else y)
  either true h k = h refl
  either false h k = k refl

  pub by_option :
      {A B : Type 0} {Q : A → Type 0} (o : Option B) {x : Stateful S A} {f : B → Stateful S A}
      → (o ≡ none → Safely I Q x)
      → ((b : B) → o ≡ some b → Safely I Q (f b))
      → Safely I Q (elim o [ none ↦ x | some b ↦ f b ])
  by_option none h k = h refl
  by_option (some b) h k = k b refl

  Yields-weaken :
      {A : Type 0} {Q R : A → Type 0} {r : Outcome (A × S)}
      → ((x : A) → Q x → R x)
      → Yields Q I r
      → Yields R I r
  Yields-weaken h (Yields.yields x s q i) = Yields.yields x s (h x q) i
  Yields-weaken h Yields.quits = Yields.quits

  pub weaken :
      {A : Type 0} {Q R : A → Type 0} {m : Stateful S A}
      → ((x : A) → Q x → R x)
      → Safely I Q m
      → Safely I R m
  weaken h k = record { run = λ s i. Yields-weaken h (k.run s i) }
