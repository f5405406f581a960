-- ===== src/Wcl.antt =====
-- src/wcl: wake's common library.
pub mod Doc
pub mod FilePath
pub mod Trie
pub mod Diff
