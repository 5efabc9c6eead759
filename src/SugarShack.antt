-- ===== src/SugarShack.antt =====
-- contracts/programs/sugar-shack: a marketplace. An asset is listed by a delegate that stands for its
-- price, and bought by paying the marketplace, the creators and the lister.
pub mod Market
pub mod Bought
pub mod Withdrawn
pub mod Tests
