-- ===== src/Payouts.antt =====
-- src/payouts: the outbound leg of a transfer, from a provider's answer to the ledger.
pub mod Store
pub mod Service
pub mod Faithful
pub mod Calls
pub mod Others
pub mod Office
pub mod Settled
pub mod Machine
pub mod Refines
