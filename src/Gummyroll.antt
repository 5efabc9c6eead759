-- ===== src/Gummyroll.antt =====
-- contracts/programs/gummyroll: a roll in an account, beside a canopy of the upper nodes of its tree.
pub mod Event
pub mod Canopy
pub mod Program
