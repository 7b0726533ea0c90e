-- ===== src/Withdrawal.antt =====
-- src/withdrawal: sending USDT to a wallet outside, behind an operator's approval.
pub mod Store
pub mod Service
pub mod Keys
pub mod Effect
pub mod Faithful
pub mod Preserve
pub mod Exclusive
