-- ===== src/Parser.antt =====
-- src/parser: the concrete syntax tree.
pub mod Cst
