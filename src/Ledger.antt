-- ===== src/Ledger.antt =====
-- The double-entry ledger (src/ledger).
pub mod Types
pub mod Engine
pub mod Operations
pub mod Store
pub mod Service
