-- ===== src/Cmt.antt =====
-- lib/concurrent-merkle-tree: a Merkle tree of which only the root, the last changes and the proof
-- of the rightmost leaf are kept.
pub mod Node
pub mod Utils
pub mod ChangeLog
pub mod Ring
pub mod Roll
pub mod Apply
pub mod Append
pub mod Api
pub mod History
pub mod Tests
