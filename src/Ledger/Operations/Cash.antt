-- ===== src/Ledger/Operations/Cash.antt =====
-- Funding, referral bonuses, cash through agents, airtime (src/ledger/operations.ts).
use ticash_pay_demo.Prelude.Names.{Option, none, List, ◌++◌}
use ticash_pay_demo.Prelude.Int.{ℤ, ◌+ℤ◌}
use ticash_pay_demo.Prelude.Text.{Text}
use ticash_pay_demo.Prelude.Result.{Result, ◌>>=◌}
use ticash_pay_demo.Money.Currency.{Currency}
use ticash_pay_demo.Ledger.Types.{
  JournalDraft, PostingDraft, settlement, fee_revenue, promo_expense, TxType, cash_in, cash_out,
  float_topup, airtime, reversal,
}
use ticash_pay_demo.Ledger.Operations.Accounts.{
  customer_wallet, agent_float_account, agent_commission_account, system_account, credit, debit,
  when_positive, two, one, truthy, plain_journal,
}

-- `fundWallet`
unfoldable pub fund_wallet : Text → Currency → ℤ → Text → Option Text → Result JournalDraft
unfolding credit debit system_account customer_wallet
fund_wallet customer_id c amount key external = do
  ps ←
      two (debit (system_account settlement c) amount)
        (credit (customer_wallet customer_id c) amount)
  plain_journal TxType.fund_wallet key none (truthy external) ps

-- `referralReward`
unfoldable pub referral_reward : Text → Currency → ℤ → Text → Option Text → Result JournalDraft
unfolding credit debit system_account customer_wallet
referral_reward referrer_id c amount key external = do
  ps ←
      two (debit (system_account promo_expense c) amount)
        (credit (customer_wallet referrer_id c) amount)
  plain_journal TxType.referral_reward key none (truthy external) ps

-- The postings that cash-in and cash-out share, with and without a commission.
unfoldable pub cash_in_postings : Text → Text → Currency → ℤ → Result (List PostingDraft)
unfolding credit debit agent_float_account customer_wallet
cash_in_postings agent_id customer_id c amount =
    two (debit (agent_float_account agent_id c) amount)
      (credit (customer_wallet customer_id c) amount)

unfoldable pub cash_out_postings : Text → Text → Currency → ℤ → Result (List PostingDraft)
unfolding credit debit agent_float_account customer_wallet
cash_out_postings agent_id customer_id c amount =
    two (debit (customer_wallet customer_id c) amount)
      (credit (agent_float_account agent_id c) amount)

unfoldable pub commission_postings : Text → Currency → ℤ → Result (List PostingDraft)
unfolding credit debit system_account agent_commission_account
commission_postings agent_id c commission = when_positive commission (
    two (debit (system_account fee_revenue c) commission)
      (credit (agent_commission_account agent_id c) commission))

-- `cashIn`
unfoldable pub cash_in_journal : Text → Text → Currency → ℤ → Text → Result JournalDraft
unfolding cash_in_postings
cash_in_journal agent_id customer_id c amount key = do
  ps ← cash_in_postings agent_id customer_id c amount
  plain_journal cash_in key none none ps

-- `cashOut`
unfoldable pub cash_out_journal : Text → Text → Currency → ℤ → Text → Result JournalDraft
unfolding cash_out_postings
cash_out_journal agent_id customer_id c amount key = do
  ps ← cash_out_postings agent_id customer_id c amount
  plain_journal cash_out key none none ps

-- `agentCashIn`
unfoldable pub agent_cash_in : Text → Text → Currency → ℤ → ℤ → Text → Result JournalDraft
unfolding cash_in_postings commission_postings
agent_cash_in agent_id customer_id c amount commission key = do
  ps ← cash_in_postings agent_id customer_id c amount
  extra ← commission_postings agent_id c commission
  plain_journal cash_in key none none (ps ++ extra)

-- `agentCashOut`
unfoldable pub agent_cash_out : Text → Text → Currency → ℤ → ℤ → Text → Result JournalDraft
unfolding cash_out_postings commission_postings
agent_cash_out agent_id customer_id c amount commission key = do
  ps ← cash_out_postings agent_id customer_id c amount
  extra ← commission_postings agent_id c commission
  plain_journal cash_out key none none (ps ++ extra)

-- `floatTopup`
unfoldable pub float_topup_journal : Text → Currency → ℤ → Text → Option Text → Result JournalDraft
unfolding credit debit system_account agent_float_account
float_topup_journal agent_id c amount key external = do
  ps ←
      two (debit (system_account settlement c) amount)
        (credit (agent_float_account agent_id c) amount)
  plain_journal float_topup key none (truthy external) ps

-- `airtimeTopup`
unfoldable pub airtime_topup : Text → Currency → ℤ → ℤ → Text → Option Text → Result JournalDraft
unfolding credit debit system_account customer_wallet
airtime_topup customer_id c cost margin key external = do
  let retail = cost +ℤ margin
  ps ←
      two (debit (customer_wallet customer_id c) retail) (credit (system_account settlement c) cost)
  extra ← when_positive margin (one (credit (system_account fee_revenue c) margin))
  plain_journal airtime key none (truthy external) (ps ++ extra)

-- `reverseAirtime`
unfoldable pub reverse_airtime : Text → Currency → ℤ → ℤ → Text → Result JournalDraft
unfolding credit debit system_account customer_wallet
reverse_airtime customer_id c cost margin key = do
  let retail = cost +ℤ margin
  ps ←
      two (debit (system_account settlement c) cost) (credit (customer_wallet customer_id c) retail)
  extra ← when_positive margin (one (debit (system_account fee_revenue c) margin))
  plain_journal reversal key none none (ps ++ extra)
