-- ===== src/Bubblegum.antt =====
-- contracts/programs/bubblegum: compressed NFTs, the leaves of a tree that gummyroll keeps.
pub mod Schema
pub mod Metadata
pub mod Program
pub mod Redeem
pub mod Decompress
pub mod Instruction
pub mod Ledger
pub mod Tests
