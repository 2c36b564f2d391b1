-- ===== src/Vm/Header/RoundTrip.antt =====
-- A header that is written in the documented order is read back.
use bitcode.Base.{
  ◌<◌, ◌≡◌, Bytes, ◌++◌, u16_mod, u32_mod, bytes16, bytes32, le16-bytes16, le32-bytes32,
}
use bitcode.Vm.Header.{
  BytecodeFileHeader, read_header_u16, read_header_u32, parse_header, field, parse_end,
  parse_data_len, parse_rodata_len, parse_entry_point, parse_code_len, parse_version,
}

-- The header's fields in the order of the struct, little end first.
abbrev pub encode_header : BytecodeFileHeader → Bytes → Bytes
encode_header h rest =
    bytes32 h.magic_number
    ++ (bytes16 h.version_number
        ++ (bytes32 h.code_len
            ++ (bytes32 h.entry_point ++ (bytes32 h.rodata_len ++ (bytes32 h.data_len ++ rest)))))

-- The fields have the widths of the struct.
pub record IsHeader (h : BytecodeFileHeader) : Type 0 where
  pub magic_fits : h.magic_number < u32_mod
  pub version_fits : h.version_number < u16_mod
  pub code_fits : h.code_len < u32_mod
  pub entry_fits : h.entry_point < u32_mod
  pub rodata_fits : h.rodata_len < u32_mod
  pub data_fits : h.data_len < u32_mod

-- `parse_header` gives back every header whose fields fit their types, and leaves the file at
-- what follows it, whatever the header variable held before.
pub parse_header-encode_header :
    (h old : BytecodeFileHeader) (rest : Bytes)
    → IsHeader h
    → parse_header old (encode_header h rest) ≡ record { file = rest; out = h; status = 0 }
unfolding parse_header field read_header_u16 read_header_u32 parse_end parse_data_len
    parse_rodata_len parse_entry_point parse_code_len parse_version
parse_header-encode_header h old rest f = rw (
  le32-bytes32 h.magic_number f.magic_fits,
  le16-bytes16 h.version_number f.version_fits,
  le32-bytes32 h.code_len f.code_fits,
  le32-bytes32 h.entry_point f.entry_fits,
  le32-bytes32 h.rodata_len f.rodata_fits,
  le32-bytes32 h.data_len f.data_fits,
)
