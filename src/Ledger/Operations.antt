-- ===== src/Ledger/Operations.antt =====
-- src/ledger/operations.ts: pure builders that turn a business event into a journal draft. A
-- builder throws where an amount is not positive.
pub mod Accounts
pub mod Cash
pub mod Transfer
pub mod Escrow
pub mod Shape
pub mod Balanced
