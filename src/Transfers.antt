-- ===== src/Transfers.antt =====
-- src/transfers: a transfer as a saga that is taken up again wherever it stopped.
pub mod Store
pub mod Service
pub mod Resume
pub mod Ends
pub mod Again
