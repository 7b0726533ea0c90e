-- ===== src/Airtime.antt =====
-- src/airtime: selling a mobile top-up with a margin of the country's.
pub mod Margins
pub mod Topup
pub mod Sale
pub mod Refunds
