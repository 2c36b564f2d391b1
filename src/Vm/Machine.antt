-- ===== src/Vm/Machine.antt =====
-- The machine as the writer of a program sees it: registers and output, with commands in place of
-- bytes, as src/vm/vm.c shows itself to a program without a jump.
pub mod Commands
pub mod Effects
use bitcode.Base.{
  ℕ, ◌+◌, ◌-◌, ◌%◌, ◌<◌, List, [], ◌∷◌, ◌++◌, Bytes, if◌then◌else◌, leb, ltb, ◌==◌, length, get_or,
  set, le32, u32_mod, Outcome, ok, fault, memory_out_of_bounds, ◌>>=◌, All,
}
use bitcode.InstructionFormat.{op_print_chr, op_print_str, op_mov, op_load_addr, op_halt}
use bitcode.Vm.Decode.{src_mode_message}
use bitcode.Vm.Decode.RoundTrip.{
  Operand, register, integer, address, indirect, relative, based, mode_bits, encode,
}
use bitcode.Vm.Layout.{mem_size}
use bitcode.Vm.State.{VmContext}
use bitcode.Vm.Strings.{print_from}

-- The first number is the register that a command writes or prints.
pub data Command : Type 0 where
  mov_integer mov_register mov_address mov_indirect : ℕ → ℕ → Command
  load_addr : ℕ → Operand → Command
  print_chr print_str_in print_str_at : ℕ → Command

pub record View : Type 0 where
  pub registers : List ℕ
  pub stdout : Bytes

abbrev pub view_of : VmContext → View
view_of ctx = record { registers = ctx.registers; stdout = ctx.stdout }

abbrev pub put : View → ℕ → ℕ → View
put v n x = record v { registers = set v.registers n x }

abbrev pub say : View → Bytes → View
say v out = record v { stdout = v.stdout ++ out }

abbrev pub register_of : View → ℕ → ℕ
register_of v n = get_or v.registers n 0

-- The decoder reports the mode of a second operand.
abbrev pub traced : View → Operand → View
traced v src = say v (src_mode_message (mode_bits src))

abbrev pub word : (ℕ → ℕ) → ℕ → ℕ
word m a = le32 (m a) (m (a + 1)) (m (a + 2)) (m (a + 3))

-- A load: past the memory it is refused with 103, across its end it is undefined.
abbrev pub load : (ℕ → ℕ) → View → ℕ → ℕ → Outcome (View × ℕ)
load m v n a =
    if leb (a + 4) mem_size
    then ok (put v n (word m a), 0)
    else if ltb mem_size a
    then ok (v, 103)
    else fault memory_out_of_bounds

-- The bytes up to a null byte, and a line break; nothing for an address past the memory.
abbrev pub print_text : (ℕ → ℕ) → View → ℕ → Outcome (View × ℕ)
print_text m v a =
    if ltb a mem_size
    then (do text ← print_from m a (mem_size - a); ok (say v (text ++ b'\n' ∷ []), 0))
    else ok (v, 0)

abbrev pub effect : (ℕ → ℕ) → View → Command → Outcome (View × ℕ)
effect m v (mov_integer n x) = ok (put (traced v (integer x)) n x, 0)
effect m v (mov_register n k) = ok (put (traced v (register k)) n (register_of v k), 0)
effect m v (mov_address n a) = load m (traced v (address a)) n a
effect m v (mov_indirect n k) = load m (traced v (indirect k)) n (register_of v k)
effect m v (load_addr n src) = ok (traced v src, 0)
effect m v (print_chr n) = ok (say v (register_of v n % 256 ∷ []), 0)
effect m v (print_str_in n) = print_text m v (register_of v n)
effect m v (print_str_at a) = print_text m v a

-- The commands one after the other, up to one that fails.
unfoldable pub evaluate : (ℕ → ℕ) → View → List Command → Outcome (View × ℕ)
evaluate m v [] = ok (v, 0)
evaluate m v (c ∷ cs) = effect m v c >>= λ r. if r.1 == 0 then evaluate m r.0 cs else ok r

abbrev pub IsRegister : ℕ → Type 0
IsRegister n = n < 8

abbrev pub IsCommand : Command → Type 0
IsCommand (mov_integer n x) = IsRegister n × (x < u32_mod)
IsCommand (mov_register n k) = IsRegister n × IsRegister k
IsCommand (mov_address n a) = IsRegister n × (a < u32_mod)
IsCommand (mov_indirect n k) = IsRegister n × IsRegister k
IsCommand (load_addr n src) = IsRegister n
IsCommand (print_chr n) = IsRegister n
IsCommand (print_str_in n) = IsRegister n
IsCommand (print_str_at a) = a < u32_mod

-- The immediate that an operand carries.
abbrev pub immediate_of : Operand → ℕ
immediate_of (register n) = 0
immediate_of (indirect n) = 0
immediate_of (integer v) = v
immediate_of (address v) = v
immediate_of (relative v) = v
immediate_of (based n v) = v

abbrev with_source : ℕ → ℕ → Operand → Bytes
with_source opcode n src = encode opcode 0 0 (immediate_of src) (register n) src

abbrev alone : ℕ → Operand → Bytes
alone opcode dest = encode opcode 0 0 (immediate_of dest) dest (register 0)

-- The eight bytes of a command, in the documented layout.
abbrev pub assemble : Command → Bytes
assemble (mov_integer n x) = with_source op_mov n (integer x)
assemble (mov_register n k) = with_source op_mov n (register k)
assemble (mov_address n a) = with_source op_mov n (address a)
assemble (mov_indirect n k) = with_source op_mov n (indirect k)
assemble (load_addr n src) = with_source op_load_addr n src
assemble (print_chr n) = alone op_print_chr (register n)
assemble (print_str_in n) = alone op_print_str (indirect n)
assemble (print_str_at a) = alone op_print_str (address a)

abbrev pub halt_bytes : Bytes
halt_bytes = alone op_halt (register 0)

-- A program is commands with `halt` behind them.
abbrev pub image : List Command → Bytes
image [] = halt_bytes
image (c ∷ cs) = assemble c ++ image cs
