-- ===== src/Base/Outcomes.antt =====
-- What a C function may do besides returning: end the process by `exit`, or reach behaviour
-- that the C standard leaves undefined.
use Prim.Native.Nat.{ℕ}
use mathlib.Core.List.{List}

-- Undefined behaviour, by its cause. Accesses that are misaligned, and formats whose argument has
-- another type than they name, are not among these: the host makes something of both.
pub data Fault : Type 0 where
  -- a read or write outside `registers[8]`
  register_out_of_bounds : Fault
  -- a read or write outside the block that `malloc` gave
  memory_out_of_bounds : Fault
  -- a call through a null entry of a table of functions
  null_handler : Fault
  -- a null pointer is read through, or handed to the standard library
  null_pointer : Fault
  -- a negative char, which is not EOF, is handed to a function of ctype.h
  char_out_of_range : Fault
  -- a format of `printf` asks for an argument that is not there
  missing_argument : Fault
  -- an int passes its largest value
  signed_overflow : Fault

-- `exited` carries the exit code and what stdout had received.
pub data Outcome {ℓ} (A : Type ℓ) : Type ℓ where
  ok : A → Outcome A
  exited : ℕ → List ℕ → Outcome A
  fault : Fault → Outcome A

infixl 5 ◌>>=◌
abbrev pub ◌>>=◌ {ℓ κ} : {A : Type ℓ} {B : Type κ} → Outcome A → (A → Outcome B) → Outcome B
ok a >>= f = f a
exited c out >>= f = exited c out
fault e >>= f = fault e
