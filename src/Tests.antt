-- ===== src/Tests.antt =====
-- The theorems at concrete inputs.
mod Amounts
mod Posting
mod Prices
mod Selling
mod Withdrawing
mod CashingOut
mod Trading
mod Verifying
mod PayingOut
mod Transferring
mod Promoting
