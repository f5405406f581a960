-- ===== src/Wcl/Doc.antt =====
-- src/wcl/doc.h and src/wcl/doc_state.h: text as a rope that carries its measures.
pub mod State
pub mod Text
pub mod Measures
pub mod Rope
pub mod Content
pub mod Builder
mod Tests
