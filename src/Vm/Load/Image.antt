-- ===== src/Vm/Load/Image.antt =====
-- What `load_bytecode` makes of a file.
use mathlib.Core.Bool.{true≢false}
use bitcode.Base.{
  sym, ◌∙◌, ℕ, zero, suc, ◌+◌, ◌-◌, ◌<◌, ◌≤◌, ◌≡◌, ◌⊎◌, inl, inr, refl, false, Bytes, [], ◌∷◌, some,
  ok, arith, u32, length, take, length-take, get_or, ltb, leb, ◌==◌, if◌then◌else◌, Bool-cases,
  ◌&&◌, ◌↔◌, ℕ_discrete, dec_lt, ap, length-drop,
}
use bitcode.Vm.Header.{BytecodeFileHeader, parse_header}
use bitcode.Vm.Header.Lengths.{parse_header-Takes}
use bitcode.Vm.Layout.{code_start, code_size, rodata_size, data_size, heap_start}
use bitcode.Vm.Load.{refuses, load_code, load_bytecode}
use bitcode.Vm.State.{VmContext, store_bytes}

-- A stored block is read back, and the rest of the memory is as before.
pub store_bytes-get_or :
    (m : ℕ → ℕ) (a : ℕ) (bs : Bytes) (i : ℕ)
    → store_bytes m a bs i ≡ (if leb a i && ltb i (a + length bs) then get_or bs (i - a) 0 else m i)
store_bytes-get_or m a [] i = ground arith
store_bytes-get_or m a (b ∷ bs) i = elim (ℕ_discrete i a) [
  | yes e ↦ let start : i - a ≡ zero = omega arith in rw start (ground arith)
  | no ne ↦ elim (dec_lt i a) [
    | yes below ↦ ground (arith, store_bytes-get_or m (a + 1) bs i)
    | no above ↦
        let shift : i - a ≡ suc (i - (a + 1)) = omega arith in
        rw shift (ground (arith, store_bytes-get_or m (a + 1) bs i))
  ]
]

-- The files that `load_bytecode` accepts, by the header that it reads.
pub record Accepts (h : BytecodeFileHeader) : Type 0 where
  pub code_not_empty : 0 < h.code_len
  pub code_fits : h.code_len ≤ code_size
  pub version_is : h.version_number ≡ 1
  pub data_fits : h.data_len ≤ data_size
  pub rodata_fits : h.rodata_len ≤ rodata_size

pub refuses-Accepts : (h : BytecodeFileHeader) → (refuses h ≡ false) ↔ Accepts h
unfolding refuses
refuses-Accepts h = ground arith

-- What a load leaves alone.
pub record Untouched (before after : VmContext) : Type 0 where
  pub state : after.state ≡ before.state
  pub registers : after.registers ≡ before.registers
  pub memory : (i : ℕ) → code_size ≤ i → after.memory i ≡ before.memory i
  pub flags : after.flags ≡ before.flags
  pub stdout : after.stdout ≡ before.stdout

-- A machine that is ready to run the code of `h`.
pub record Starts (h : BytecodeFileHeader) (ctx : VmContext) : Type 0 where
  pub pc : ctx.pc ≡ u32 h.entry_point
  pub sp : ctx.sp ≡ 0x540000
  pub bp : ctx.bp ≡ 0x540000
  pub hp : ctx.hp ≡ heap_start

-- A machine whose pointers are as before.
pub record Keeps (before after : VmContext) : Type 0 where
  pub pc : after.pc ≡ before.pc
  pub sp : after.sp ≡ before.sp
  pub bp : after.bp ≡ before.bp
  pub hp : after.hp ≡ before.hp

-- The header that is read from a file.
abbrev pub header_of : BytecodeFileHeader → Bytes → BytecodeFileHeader
header_of old file = (parse_header old file).out

-- Either the file is accepted, or its status is 3 and there is a reason: it is shorter than a
-- header, the header is refused, or the code segment is cut short.
abbrev pub Loads : VmContext → BytecodeFileHeader → Bytes → VmContext × ℕ → Type 0
Loads ctx old file (ctx', status) =
    Untouched ctx ctx'
    × (((status ≡ 0)
          × (Accepts (header_of old file)
              × (22 + (header_of old file).code_len ≤ length file)
              × Starts (header_of old file) ctx'))
        ⊎ ((status ≡ 3)
            × ((length file < 22)
                ⊎ (¬ Accepts (header_of old file))
                ⊎ (length file < 22 + (header_of old file).code_len))
            × Keeps ctx ctx'))

Untouched-refl : (ctx : VmContext) → Untouched ctx ctx
Untouched-refl ctx = record {
  state = refl;
  registers = refl;
  memory = λ i h. refl;
  flags = refl;
  stdout = refl;
}

Keeps-refl : (ctx : VmContext) → Keeps ctx ctx
Keeps-refl ctx = record { pc = refl; sp = refl; bp = refl; hp = refl }

-- The code segment stays below `code_size`.
stored_above :
    (m : ℕ → ℕ) (n : ℕ) (bs : Bytes) (i : ℕ)
    → n ≤ code_size
    → code_size ≤ i
    → store_bytes m code_start (take n bs) i ≡ m i
stored_above m n bs i h k = ground (arith, store_bytes-get_or m 0 (take n bs) i, length-take n bs)

module _ (ctx : VmContext) (h : BytecodeFileHeader) (rest : Bytes) (accepts : Accepts h) where
  loaded-Untouched : Untouched ctx (load_code ctx h rest).0
  unfolding load_code
  loaded-Untouched = elim (Bool-cases (length (take h.code_len rest) == h.code_len)) [
    | inl e ↦
        rw (e, load_code)
          (record {
            state = refl;
            registers = refl;
            memory = λ i. stored_above ctx.memory h.code_len rest i accepts.code_fits;
            flags = refl;
            stdout = refl;
          })
    | inr e ↦
        rw (e, load_code)
          (record {
            state = refl;
            registers = refl;
            memory = λ i. stored_above ctx.memory h.code_len rest i accepts.code_fits;
            flags = refl;
            stdout = refl;
          })
  ]

  load_code_cases :
      (((load_code ctx h rest).1 ≡ 0)
        × (h.code_len ≤ length rest)
        × Starts h (load_code ctx h rest).0)
      ⊎ (((load_code ctx h rest).1 ≡ 3)
          × (length rest < h.code_len)
          × Keeps ctx (load_code ctx h rest).0)
  unfolding load_code
  load_code_cases = elim (Bool-cases (length (take h.code_len rest) == h.code_len)) [
    | inl e ↦ inl (
      rw (e, load_code) refl,
      ground (arith, length-take h.code_len rest),
      rw (e, load_code) (record { pc = omega arith; sp = refl; bp = refl; hp = refl }),
    )
    | inr e ↦ inr (
      rw (e, load_code) refl,
      ground (arith, length-take h.code_len rest),
      rw (e, load_code) (record { pc = refl; sp = refl; bp = refl; hp = refl }),
    )
  ]

-- `load_bytecode` on a file that can be opened always returns. It never touches the state, the
-- registers, the flags, stdout or the memory from `code_size` on. Its status is 0 exactly where the
-- file has a header whose code segment is neither empty nor over `code_size`, whose version is 1,
-- whose data and rodata lengths fit their segments, and behind which the code is complete; then
-- `pc` is the entry point and `sp`, `bp`, `hp` are at their segments. Otherwise, and so for a code
-- segment over `code_size` too, the status is 3, which is VM_ERR_INVALID_BYTECODE,
-- and `pc`, `sp`, `bp`, `hp` are as before.
pub load_bytecode-Loads :
    (ctx : VmContext) (old : BytecodeFileHeader) (file : Bytes)
    → (r : VmContext × ℕ) × (load_bytecode ctx old (some file) ≡ ok r) × Loads ctx old file r
unfolding load_bytecode
load_bytecode-Loads ctx old file = elim (parse_header-Takes old file) [
  | inr (short, e) ↦ (
    (ctx, 3),
    rw (e, load_bytecode) refl,
    (Untouched-refl ctx, inr (refl, inl short, Keeps-refl ctx)),
  )
  | inl (enough, e, dropped) ↦
      let len = ap length dropped ∙ length-drop 22 file in
      elim (Bool-cases (refuses (header_of old file))) [
        | inl bad ↦ (
          (ctx, 3),
          rw (e, bad, load_bytecode) refl,
          (
            Untouched-refl ctx,
            inr (
              refl,
              inr (inl (λ a. (true≢false (sym bad ∙ (refuses-Accepts (header_of old file)).1 a)))),
              Keeps-refl ctx,
            ),
          ),
        )
        | inr good ↦
            let accepts = (refuses-Accepts (header_of old file)).0 good in
            (
              load_code ctx (header_of old file) (parse_header old file).file,
              rw (e, good, load_bytecode) refl,
              (
                loaded-Untouched ctx (header_of old file) (parse_header old file).file accepts,
                elim (load_code_cases ctx (header_of old file) (parse_header old file).file
                    accepts) [
                      | inl (z, fits, starts) ↦ inl (z, (accepts, omega arith, starts))
                      | inr (three, cut, keeps) ↦ inr (three, inr (inr (omega arith)), keeps)
                    ],
              ),
            )
      ]
]
