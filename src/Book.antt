-- ===== src/Book.antt =====
-- The two order books of include/chronos/market_data and src/market_data.
pub mod PriceMap
pub mod Levels
pub mod Spec
pub mod V2
pub mod V1
pub mod Agree
pub mod Tests
