-- ===== src/Wcl/FilePath.antt =====
-- src/wcl/filepath.h: canonical paths, joined paths, the parts of a path and relative paths. A path
-- is its bytes. A position in a path is an index, or the rest of the path from there on.
pub mod Iterator
pub mod Canonical
pub mod Relative
pub mod Tokens
pub mod Places
pub mod Render
pub mod Walk
pub mod JoinPaths
pub mod Parts
pub mod Common
pub mod RelativeWalk
mod Tests
