-- ===== src/Ledger/Operations/Escrow.antt =====
-- P2P escrow and USDT withdrawals (src/ledger/operations.ts).
use ticash_pay_demo.Prelude.Names.{Option, none, some, ◌++◌}
use ticash_pay_demo.Prelude.Int.{ℤ, ◌-ℤ◌}
use ticash_pay_demo.Prelude.Text.{Text}
use ticash_pay_demo.Prelude.Result.{Result, ◌>>=◌}
use ticash_pay_demo.Money.Currency.{Currency}
use ticash_pay_demo.Ledger.Types.{
  JournalDraft, settlement, fee_revenue, withdrawal_suspense, TxType, usdt_withdraw_hold,
  usdt_withdraw_settle, usdt_withdraw_refund,
}
use ticash_pay_demo.Ledger.Operations.Accounts.{
  customer_wallet, system_account, p2p_escrow_account, credit, debit, when_positive, two, one,
  truthy, plain_journal,
}

-- `p2pLock`
unfoldable pub p2p_lock : Text → Currency → ℤ → Text → Option Text → Result JournalDraft
unfolding credit debit customer_wallet p2p_escrow_account
p2p_lock merchant_id c amount key correlation = do
  ps ←
      two (debit (customer_wallet merchant_id c) amount)
        (credit (p2p_escrow_account merchant_id c) amount)
  plain_journal TxType.p2p_lock key (truthy correlation) none ps

-- `p2pRelease`
unfoldable pub p2p_release :
    Text → Text → Currency → ℤ → ℤ → Text → Option Text → Result JournalDraft
unfolding credit debit customer_wallet p2p_escrow_account system_account
p2p_release merchant_id buyer_id c amount commission key correlation = do
  let net = amount -ℤ commission
  ps ← one (debit (p2p_escrow_account merchant_id c) amount)
  delivered ← when_positive net (one (credit (customer_wallet buyer_id c) net))
  cut ← when_positive commission (one (credit (system_account fee_revenue c) commission))
  plain_journal TxType.p2p_release key (truthy correlation) none (ps ++ (delivered ++ cut))

-- `p2pUnlock`
unfoldable pub p2p_unlock : Text → Currency → ℤ → Text → Option Text → Result JournalDraft
unfolding credit debit customer_wallet p2p_escrow_account
p2p_unlock merchant_id c amount key correlation = do
  ps ←
      two (debit (p2p_escrow_account merchant_id c) amount)
        (credit (customer_wallet merchant_id c) amount)
  plain_journal TxType.p2p_unlock key (truthy correlation) none ps

-- `usdtWithdrawHold`
unfoldable pub withdraw_hold : Text → Currency → ℤ → Text → Option Text → Result JournalDraft
unfolding credit debit customer_wallet system_account
withdraw_hold customer_id c amount key correlation = do
  ps ←
      two (debit (customer_wallet customer_id c) amount)
        (credit (system_account withdrawal_suspense c) amount)
  plain_journal usdt_withdraw_hold key (truthy correlation) none ps

-- `usdtWithdrawSettle`
unfoldable pub withdraw_settle : Currency → ℤ → ℤ → Text → Text → Option Text → Result JournalDraft
unfolding credit debit system_account
withdraw_settle c amount fee key correlation external = do
  let net = amount -ℤ fee
  ps ← one (debit (system_account withdrawal_suspense c) amount)
  sent ← when_positive net (one (credit (system_account settlement c) net))
  cut ← when_positive fee (one (credit (system_account fee_revenue c) fee))
  plain_journal usdt_withdraw_settle key (some correlation) (truthy external) (ps ++ (sent ++ cut))

-- `usdtWithdrawRefund`
unfoldable pub withdraw_refund : Text → Currency → ℤ → Text → Text → Result JournalDraft
unfolding credit debit customer_wallet system_account
withdraw_refund customer_id c amount key correlation = do
  ps ←
      two (debit (system_account withdrawal_suspense c) amount)
        (credit (customer_wallet customer_id c) amount)
  plain_journal usdt_withdraw_refund key (some correlation) none ps
