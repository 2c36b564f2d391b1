-- ===== src/Vm/Load/Valid.antt =====
-- A load of bytes keeps the machine well formed.
use bitcode.Base.{
  ℕ, ◌+◌, ◌<◌, inl, inr, sym, some, Bytes, [], ◌∷◌, All-drop, All-take, arith, u8_mod, take,
  Bool-cases, ◌==◌, length,
}
use mathlib.Core.Path.{subst}
use bitcode.Vm.Decode.Operands.{AreBytes}
use bitcode.Vm.Handlers.Ensures.{IsValid, Ensures, returns}
use bitcode.Vm.Header.{BytecodeFileHeader}
use bitcode.Vm.Header.Lengths.{parse_header-Takes}
use bitcode.Vm.Layout.{code_start}
use bitcode.Vm.Load.{refuses, load_code, load_bytecode}
use bitcode.Vm.Load.Image.{header_of}
use bitcode.Vm.State.{VmContext, store_bytes}

store_bytes-lt :
    (m : ℕ → ℕ) (a : ℕ) (bs : Bytes) (i : ℕ)
    → ((j : ℕ) → m j < u8_mod)
    → AreBytes bs
    → store_bytes m a bs i < u8_mod
store_bytes-lt m a [] i h b = h i
store_bytes-lt m a (c ∷ bs) i h b = elim (Bool-cases (i == a)) [
  | inl e ↦ rw e b.0
  | inr e ↦ rw e (store_bytes-lt m (a + 1) bs i h b.1)
]

load_code-IsValid :
    (ctx : VmContext) (h : BytecodeFileHeader) (rest : Bytes)
    → IsValid ctx
    → AreBytes rest
    → IsValid (load_code ctx h rest).0
unfolding load_code
load_code-IsValid ctx h rest valid b =
    elim (Bool-cases (length (take h.code_len rest) == h.code_len)) [
      | inl e ↦
          rw (e, load_code)
            (record {
              register_count = valid.register_count;
              registers_fit = valid.registers_fit;
              memory_bytes = stored;
              pc_fits = omega arith;
            })
      | inr e ↦
          rw (e, load_code)
            (record {
              register_count = valid.register_count;
              registers_fit = valid.registers_fit;
              memory_bytes = stored;
              pc_fits = valid.pc_fits;
            })
    ]
  where
    stored : (i : ℕ) → store_bytes ctx.memory code_start (take h.code_len rest) i < u8_mod
    stored i =
        store_bytes-lt ctx.memory code_start (take h.code_len rest) i valid.memory_bytes
          (All-take _ h.code_len rest b)

-- From a well-formed machine and a file of bytes, `load_bytecode` never ends the process; where it
-- returns, whatever its status, the machine is well formed.
pub load_bytecode-IsValid :
    (ctx : VmContext) (old : BytecodeFileHeader) (file : Bytes)
    → IsValid ctx
    → AreBytes file
    → Ensures (λ (r : VmContext × ℕ). IsValid r.0) (load_bytecode ctx old (some file))
unfolding load_bytecode
load_bytecode-IsValid ctx old file valid b = elim (parse_header-Takes old file) [
  | inr (_, e) ↦ rw (e, load_bytecode) (returns _ valid)
  | inl (_, e, dropped) ↦ elim (Bool-cases (refuses (header_of old file))) [
    | inl bad ↦ rw (e, bad, load_bytecode) (returns _ valid)
    | inr good ↦
        rw (e, good, load_bytecode)
          (returns _ (
            load_code-IsValid ctx (header_of old file) _ valid
              (subst AreBytes (sym dropped) (All-drop _ 22 file b))))
  ]
]
