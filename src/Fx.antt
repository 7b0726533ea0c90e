-- ===== src/Fx.antt =====
-- src/fx: the rate of each corridor, and what a transfer over it costs and pays.
pub mod Bps
pub mod Rates
pub mod Pricing
