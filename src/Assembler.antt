-- ===== src/Assembler.antt =====
-- The assembler's front end: src/assembler and the utilities that it stands on.
pub mod Opcodes
pub mod Tokens
pub mod Lexer
pub mod Texts
pub mod TokenStream
pub mod DataSize
pub mod Context
pub mod Symbols
pub mod Parser
