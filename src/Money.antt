-- ===== src/Money.antt =====
-- Exact money in integer minor units (src/money).
pub mod Currency
pub mod Digits
pub mod Trim
pub mod Decimal
pub mod Round
