-- ===== src/Types.antt =====
-- src/types: the sets that unification joins.
pub mod Dsu
