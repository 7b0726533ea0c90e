-- ===== src/Referrals.antt =====
-- src/referrals: promotion codes, and the bonus for bringing someone in.
pub mod Store
pub mod Service
pub mod Once
pub mod Codes
