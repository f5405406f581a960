-- ===== src/Cas.antt =====
-- src/cas: content hashes and the content-addressed store of blobs.
pub mod ContentHash
pub mod FileSystem
pub mod Store
