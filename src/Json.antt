-- ===== src/Json.antt =====
-- The reader and writer of JSON under src/json.
pub mod Ast
pub mod Escape
pub mod Parser
pub mod Utf8
