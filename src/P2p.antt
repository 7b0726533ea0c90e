-- ===== src/P2p.antt =====
-- src/p2p: the marketplace where merchants sell USDT out of the ledger's escrow.
pub mod Types
pub mod Store
pub mod Service
pub mod Commission
pub mod Listing
pub mod Ordering
pub mod Pricing
pub mod Covers
pub mod Quiets
pub mod Step
pub mod Keys
pub mod Faithful
pub mod Releasing
pub mod Settled
pub mod Oversell
