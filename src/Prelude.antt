-- ===== src/Prelude.antt =====
-- What the modules share: the library's names, signed integers, texts, maps, and results with
-- their two ways to end.
pub mod Tests
pub mod Names
pub mod Int
pub mod Text
pub mod Length
pub mod Dict
pub mod Sums
pub mod Result
pub mod Runtime
pub mod Weigh
