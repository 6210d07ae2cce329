-- ===== src/Types.antt =====
-- src/symtable.h and src/parser.c: symbols, and the types that they stand for.
pub mod Symbols
pub mod Resolve
pub mod Compatible
pub mod Arithmetic
pub mod Tests
