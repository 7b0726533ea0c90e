-- ===== src/Cashout.antt =====
-- src/cashout: an agent's cash-out that the customer approves before any money moves.
pub mod Store
pub mod Service
pub mod Effect
pub mod Faithful
pub mod Approved
