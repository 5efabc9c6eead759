-- ===== src/Gumball.antt =====
-- contracts/programs/gumball-machine: a machine that mints the items of a project in random order.
pub mod State
pub mod Metadata
pub mod Dispense
pub mod Manage
pub mod Shuffle
pub mod Sold
pub mod Paid
pub mod Sales
pub mod Invariant
pub mod Steps
pub mod Life
pub mod Chunks
pub mod Stuck
pub mod Stays
pub mod Tests
