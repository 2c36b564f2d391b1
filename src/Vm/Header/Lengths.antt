-- ===== src/Vm/Header/Lengths.antt =====
-- `parse_header` takes exactly 22 bytes, whatever they are.
use bitcode.Base.{
  ℕ, ◌+◌, ◌<◌, ◌≤◌, ◌≡◌, ◌⊎◌, inl, inr, refl, Bytes, [], ◌∷◌, length, arith, drop, ap, length-drop,
  ◌∙◌, drop-drop,
}
use bitcode.Vm.Header.{
  BytecodeFileHeader, Read, read_header_u16, read_header_u32, parse_header, field, parse_end,
  parse_data_len, parse_rodata_len, parse_entry_point, parse_code_len, parse_version,
}

-- A reader of `n` bytes: it takes them off the file, or reports status 3 where the file is shorter.
abbrev pub Takes {ℓ} : {A : Type ℓ} → ℕ → Bytes → Read A → Type 0
Takes n f r =
    ((n ≤ length f) × (r.status ≡ 0) × (r.file ≡ drop n f)) ⊎ ((length f < n) × (r.status ≡ 3))

read_header_u16-Takes : (f : Bytes) (old : ℕ) → Takes 2 f (read_header_u16 f old)
unfolding read_header_u16
read_header_u16-Takes [] old = inr (omega arith, refl)
read_header_u16-Takes (a ∷ []) old = inr (omega arith, refl)
read_header_u16-Takes (a ∷ b ∷ f) old = inl (omega arith, refl, refl)

read_header_u32-Takes : (f : Bytes) (old : ℕ) → Takes 4 f (read_header_u32 f old)
unfolding read_header_u32
read_header_u32-Takes [] old = inr (omega arith, refl)
read_header_u32-Takes (a ∷ []) old = inr (omega arith, refl)
read_header_u32-Takes (a ∷ b ∷ []) old = inr (omega arith, refl)
read_header_u32-Takes (a ∷ b ∷ c ∷ []) old = inr (omega arith, refl)
read_header_u32-Takes (a ∷ b ∷ c ∷ d ∷ f) old = inl (omega arith, refl, refl)

-- A field of `k` bytes, and a rest that takes `n`.
field-Takes :
    (k n : ℕ) (f : Bytes) (r : Read ℕ) (store : ℕ → BytecodeFileHeader)
    (rest : BytecodeFileHeader → Bytes → Read BytecodeFileHeader)
    → Takes k f r
    → Takes n r.file (rest (store r.out) r.file)
    → Takes (k + n) f (field r store rest)
unfolding field
field-Takes k n f r store rest (inl (h, s, e)) (inl (h', s', e')) = inl (
  omega (arith, ap length e, length-drop k f),
  rw (s, field) s',
  rw (s, field) (e' ∙ ap (drop n) e ∙ drop-drop k n f),
)
field-Takes k n f r store rest (inl (h, s, e)) (inr (h', s')) =
    inr (omega (arith, ap length e, length-drop k f), rw (s, field) s')
field-Takes k n f r store rest (inr (h, s)) t = inr (omega arith, rw (s, field) refl)

parse_end-Takes : (out : BytecodeFileHeader) (f : Bytes) → Takes 0 f (parse_end out f)
unfolding parse_end
parse_end-Takes out f = inl (omega arith, refl, refl)

parse_data_len-Takes : (out : BytecodeFileHeader) (f : Bytes) → Takes 4 f (parse_data_len out f)
unfolding parse_data_len
parse_data_len-Takes out f =
    field-Takes 4 0 f _ _ _ (read_header_u32-Takes f _) (parse_end-Takes _ _)

parse_rodata_len-Takes : (out : BytecodeFileHeader) (f : Bytes) → Takes 8 f (parse_rodata_len out f)
unfolding parse_rodata_len
parse_rodata_len-Takes out f =
    field-Takes 4 4 f _ _ _ (read_header_u32-Takes f _) (parse_data_len-Takes _ _)

parse_entry_point-Takes :
    (out : BytecodeFileHeader) (f : Bytes) → Takes 12 f (parse_entry_point out f)
unfolding parse_entry_point
parse_entry_point-Takes out f =
    field-Takes 4 8 f _ _ _ (read_header_u32-Takes f _) (parse_rodata_len-Takes _ _)

parse_code_len-Takes : (out : BytecodeFileHeader) (f : Bytes) → Takes 16 f (parse_code_len out f)
unfolding parse_code_len
parse_code_len-Takes out f =
    field-Takes 4 12 f _ _ _ (read_header_u32-Takes f _) (parse_entry_point-Takes _ _)

parse_version-Takes : (out : BytecodeFileHeader) (f : Bytes) → Takes 18 f (parse_version out f)
unfolding parse_version
parse_version-Takes out f =
    field-Takes 2 16 f _ _ _ (read_header_u16-Takes f _) (parse_code_len-Takes _ _)

-- `parse_header` succeeds exactly on files of at least 22 bytes, of which it takes 22; on a
-- shorter file its status is `vm_err_invalid_bytecode`.
pub parse_header-Takes : (out : BytecodeFileHeader) (f : Bytes) → Takes 22 f (parse_header out f)
unfolding parse_header
parse_header-Takes out f =
    field-Takes 4 18 f _ _ _ (read_header_u32-Takes f _) (parse_version-Takes _ _)
