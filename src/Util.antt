-- ===== src/Util.antt =====
-- The utilities under src/util.
pub mod Shell
