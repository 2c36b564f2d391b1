-- ===== src/Vm/Header.antt =====
-- `read_header_u16`, `read_header_u32` and `parse_header` of src/vm/vm_utils/vm_utils.c. A FILE
-- open for reading is the list of the bytes that are still to be read.
pub mod Lengths
pub mod RoundTrip
use bitcode.Base.{
  ℕ, ◌+◌, ◌*◌, ◌≡◌, List, [], ◌∷◌, ◌++◌, Bytes, ◌==◌, if◌then◌else◌, le16, le32, take, drop, length,
}
use bitcode.Vm.Layout.{vm_exit_success, vm_err_invalid_bytecode}

pub record BytecodeFileHeader : Type 0 where
  pub magic_number : ℕ
  pub version_number : ℕ
  pub code_len : ℕ
  pub entry_point : ℕ
  pub rodata_len : ℕ
  pub data_len : ℕ

-- `fread(out, 1, n, f)`: the bytes that were read, at most `n`, and the rest of the file.
abbrev pub fread : ℕ → Bytes → Bytes × Bytes
fread n f = (take n f, drop n f)

-- What a reader leaves: the file, `*out` and the status.
pub record Read {ℓ} (A : Type ℓ) : Type ℓ where
  pub file : Bytes
  pub out : A
  pub status : ℕ

-- `old` is what `*out` held before, kept on failure.
unfoldable pub read_header_u16 : Bytes → ℕ → Read ℕ
read_header_u16 (a ∷ b ∷ f) old = record { file = f; out = le16 a b; status = vm_exit_success }
read_header_u16 f old = record { file = []; out = old; status = vm_err_invalid_bytecode }

unfoldable pub read_header_u32 : Bytes → ℕ → Read ℕ
read_header_u32 (a ∷ b ∷ c ∷ d ∷ f) old = record {
  file = f;
  out = le32 a b c d;
  status = vm_exit_success;
}
read_header_u32 f old = record { file = []; out = old; status = vm_err_invalid_bytecode }

-- One field: `status = read(f, &out->field); if (status == VM_ERR_INVALID_BYTECODE) return status;`
-- and then the rest of the function.
unfoldable pub field :
    Read ℕ
    → (ℕ → BytecodeFileHeader)
    → (BytecodeFileHeader → Bytes → Read BytecodeFileHeader)
    → Read BytecodeFileHeader
field r store rest =
    if r.status == vm_err_invalid_bytecode
    then record { file = r.file; out = store r.out; status = r.status }
    else rest (store r.out) r.file

-- `parse_header` from each of its fields on, the last one first.
unfoldable pub parse_end : BytecodeFileHeader → Bytes → Read BytecodeFileHeader
parse_end out f = record { file = f; out = out; status = vm_exit_success }

unfoldable pub parse_data_len : BytecodeFileHeader → Bytes → Read BytecodeFileHeader
parse_data_len out f =
    field (read_header_u32 f out.data_len) (λ v. record out { data_len = v }) parse_end

unfoldable pub parse_rodata_len : BytecodeFileHeader → Bytes → Read BytecodeFileHeader
parse_rodata_len out f =
    field (read_header_u32 f out.rodata_len) (λ v. record out { rodata_len = v }) parse_data_len

unfoldable pub parse_entry_point : BytecodeFileHeader → Bytes → Read BytecodeFileHeader
parse_entry_point out f =
    field (read_header_u32 f out.entry_point) (λ v. record out { entry_point = v }) parse_rodata_len

unfoldable pub parse_code_len : BytecodeFileHeader → Bytes → Read BytecodeFileHeader
parse_code_len out f =
    field (read_header_u32 f out.code_len) (λ v. record out { code_len = v }) parse_entry_point

unfoldable pub parse_version : BytecodeFileHeader → Bytes → Read BytecodeFileHeader
parse_version out f =
    field (read_header_u16 f out.version_number) (λ v. record out { version_number = v })
      parse_code_len

unfoldable pub parse_header : BytecodeFileHeader → Bytes → Read BytecodeFileHeader
parse_header out f =
    field (read_header_u32 f out.magic_number) (λ v. record out { magic_number = v }) parse_version
