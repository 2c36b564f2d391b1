-- ===== src/Vm/Load/RoundTrip.antt =====
-- Files that are written in the documented layout are loaded as they say.
use bitcode.Base.{
  ℕ, ◌+◌, ◌<◌, ◌≡◌, refl, Bytes, ◌++◌, some, ok, arith, u32, u32_mod, length, take,
  take-length-append, get_or, ltb, if◌then◌else◌, ==_iff,
}
use bitcode.Vm.Header.{BytecodeFileHeader}
use bitcode.Vm.Header.RoundTrip.{encode_header, IsHeader, parse_header-encode_header}
use bitcode.Vm.Layout.{code_start, heap_start, stack_start, stack_size}
use bitcode.Vm.Load.Image.{Accepts, Starts, refuses-Accepts, store_bytes-get_or}
use bitcode.Vm.Load.{refuses, load_code, load_bytecode}
use bitcode.Vm.State.{VmContext, store_bytes}

-- The machine with the code of an accepted header.
abbrev pub loaded : VmContext → BytecodeFileHeader → Bytes → VmContext
loaded ctx h code = record ctx {
  memory = store_bytes ctx.memory code_start code;
  pc = u32 (code_start + h.entry_point);
  sp = stack_start + stack_size;
  bp = stack_start + stack_size;
  hp = heap_start;
}

pub load_bytecode-loaded :
    (ctx : VmContext) (old h : BytecodeFileHeader) (code more : Bytes)
    → IsHeader h
    → Accepts h
    → length code ≡ h.code_len
    → load_bytecode ctx old (some (encode_header h (code ++ more))) ≡ ok (loaded ctx h code, 0)
unfolding load_bytecode load_code
load_bytecode-loaded ctx old h code more fits accepts len =
    let whole : take h.code_len (code ++ more) ≡ code = rw (← len) (take-length-append code more) in
    let good = (refuses-Accepts h).1 accepts in
    let complete = (==_iff (length code) h.code_len).1 len in
    rw (parse_header-encode_header h old (code ++ more) fits, good, load_code, whole, complete) refl

-- A file written in the documented layout, with a header that is accepted and its code behind it,
-- is loaded: the code stands at the start of the memory and everything behind it is as before.
pub load_bytecode-encode_header :
    (ctx : VmContext) (old h : BytecodeFileHeader) (code more : Bytes)
    → IsHeader h
    → Accepts h
    → length code ≡ h.code_len
    → (ctx' : VmContext) × (load_bytecode ctx old (some (encode_header h (code ++ more)))
        ≡ ok (ctx', 0))
      × ((i : ℕ) → ctx'.memory i ≡ (if ltb i h.code_len then get_or code i 0 else ctx.memory i))
      × Starts h ctx'
load_bytecode-encode_header ctx old h code more fits accepts len = (
  loaded ctx h code,
  load_bytecode-loaded ctx old h code more fits accepts len,
  λ i. ground (arith, store_bytes-get_or ctx.memory 0 code i, len),
  record { pc = omega arith; sp = refl; bp = refl; hp = refl },
)

-- The magic number is not looked at: two files that differ in nothing else load alike.
pub load_bytecode_magic :
    (ctx : VmContext) (old h : BytecodeFileHeader) (magic : ℕ) (rest : Bytes)
    → IsHeader h
    → magic < u32_mod
    → load_bytecode ctx old (some (encode_header (record h { magic_number = magic }) rest))
      ≡ load_bytecode ctx old (some (encode_header h rest))
unfolding load_bytecode refuses load_code
load_bytecode_magic ctx old h magic rest fits b =
    rw
      (
        parse_header-encode_header h old rest fits,
        parse_header-encode_header (record h { magic_number = magic }) old rest
            (record {
              magic_fits = b;
              version_fits = fits.version_fits;
              code_fits = fits.code_fits;
              entry_fits = fits.entry_fits;
              rodata_fits = fits.rodata_fits;
              data_fits = fits.data_fits;
            }),
      )
      refl
