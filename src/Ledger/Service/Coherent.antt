-- ===== src/Ledger/Service/Coherent.antt =====
-- What src/ledger/service.ts takes on trust in a quote or a margin, and the drafts of its methods.
use ticash_pay_demo.Prelude.Names.{◌≡◌, refl, inl, inr, true, Option, Bool-cases}
use ticash_pay_demo.Prelude.Int.{ℤ, pos, ◌+ℤ◌, ◌≤ℤ◌, leb_ℤ, int_laws}
use ticash_pay_demo.Prelude.Text.{Text, text_eq}
use ticash_pay_demo.Prelude.Dict.{or_else}
use ticash_pay_demo.Money.Currency.{Currency, currency_eq}
use ticash_pay_demo.Ledger.Types.{
  settlement, fee_revenue, fx_position, payout_suspense, promo_expense, withdrawal_suspense,
}
use ticash_pay_demo.Ledger.Operations.Accounts.{
  customer_wallet, agent_float_account, system_account, p2p_escrow_account, credit, debit,
}
use ticash_pay_demo.Ledger.Operations.Cash
use ticash_pay_demo.Ledger.Operations.Transfer.{
  TransferQuote, transfer_debit_journal, transfer_fx_journal,
}
use ticash_pay_demo.Ledger.Operations.Escrow
use ticash_pay_demo.Ledger.Operations.Shape.{credit-ok, debit-ok, when-credit, when-debit}
use ticash_pay_demo.Ledger.Operations.Balanced.{
  Balances, positive, fee_between, fee_last, fee_last_back, two_legs,
}
use ticash_pay_demo.Ledger.Service.{
  Request, fund_wallet, referral_reward, cash_in, cash_out, float_topup, agent_cash_in,
  agent_cash_out, post_transfer_debit, post_transfer_fx, airtime_topup, reverse_airtime,
  settle_payout, p2p_lock, p2p_unlock, p2p_release, usdt_withdraw_hold, usdt_withdraw_settle,
  usdt_withdraw_refund, draft,
}
use ticash_pay_demo.Ledger.Service.Drafts.{
  agent_cash_in-Balances, agent_cash_out-Balances, settle-Balances, settle_payout-Balances,
  p2p_release-Balances, withdraw_settle-Balances,
}

-- The amounts that a method takes on trust: a quote's total, a margin that is not negative.
abbrev pub IsCoherent : Request → Type 0
IsCoherent (post_transfer_debit sender q correlation key recipient) =
    (q.total_debit_minor ≡ q.send_minor +ℤ q.fee_minor) × (pos 0 ≤ℤ q.fee_minor)
IsCoherent (airtime_topup id c cost margin key ext) = pos 0 ≤ℤ margin
IsCoherent (reverse_airtime id c cost margin key) = pos 0 ≤ℤ margin
IsCoherent r = Unit

pub transfer_debit-Balances :
    (sender : Text) (q : TransferQuote) (correlation key recipient : Text)
    → q.total_debit_minor ≡ q.send_minor +ℤ q.fee_minor
    → pos 0 ≤ℤ q.fee_minor
    → Balances (transfer_debit_journal sender q correlation key recipient)
unfolding transfer_debit_journal
transfer_debit-Balances sender q correlation key recipient split low =
    elim (Bool-cases (leb_ℤ q.send_minor (pos 0))) [
      | inl bad ↦ refused bad
      | inr good ↦
          let sent = positive q.send_minor good in
          let payer = customer_wallet sender q.from_currency in
          let position = system_account fx_position q.from_currency in
          let cut = system_account fee_revenue q.from_currency in
          rw
            (
              split,
              debit-ok payer (q.send_minor +ℤ q.fee_minor) (omega int_laws),
              credit-ok position q.send_minor sent,
              when-credit cut q.fee_minor,
            )
            (fee_between q.from_currency _ payer position cut refl refl refl q.send_minor
              q.fee_minor sent low refl)
    ]
  where
    refused :
        leb_ℤ q.send_minor (pos 0) ≡ true
        → Balances (transfer_debit_journal sender q correlation key recipient)
    refused bad =
        unfold transfer_debit_journal debit credit in
        elim (Bool-cases (leb_ℤ q.total_debit_minor (pos 0))) [
          | inl none_left ↦ rw none_left tt
          | inr some_left ↦ rw (some_left, bad) tt
        ]

airtime_topup-Balances :
    (id : Text) (c : Currency) (cost margin : ℤ) (key : Text) (ext : Option Text)
    → pos 0 ≤ℤ margin
    → Balances (Cash.airtime_topup id c cost margin key ext)
unfolding Cash.airtime_topup
airtime_topup-Balances id c cost margin key ext low = elim (Bool-cases (leb_ℤ cost (pos 0))) [
  | inl bad ↦ refused bad
  | inr good ↦
      let payer = customer_wallet id c in
      let main = system_account settlement c in
      let cut = system_account fee_revenue c in
      rw
        (
          debit-ok payer (cost +ℤ margin) (omega (int_laws, positive cost good)),
          credit-ok main cost (positive cost good),
          when-credit cut margin,
        )
        (fee_last c _ payer main cut refl refl refl cost margin (positive cost good) low refl)
]
  where
    refused : leb_ℤ cost (pos 0) ≡ true → Balances (Cash.airtime_topup id c cost margin key ext)
    refused bad =
        unfold Cash.airtime_topup debit credit in
        elim (Bool-cases (leb_ℤ (cost +ℤ margin) (pos 0))) [
          | inl none_left ↦ rw none_left tt
          | inr some_left ↦ rw (some_left, bad) tt
        ]

reverse_airtime-Balances :
    (id : Text) (c : Currency) (cost margin : ℤ) (key : Text)
    → pos 0 ≤ℤ margin
    → Balances (Cash.reverse_airtime id c cost margin key)
unfolding Cash.reverse_airtime
reverse_airtime-Balances id c cost margin key low = elim (Bool-cases (leb_ℤ cost (pos 0))) [
  | inl bad ↦ refused bad
  | inr good ↦
      let payer = customer_wallet id c in
      let main = system_account settlement c in
      let cut = system_account fee_revenue c in
      rw
        (
          credit-ok payer (cost +ℤ margin) (omega (int_laws, positive cost good)),
          debit-ok main cost (positive cost good),
          when-debit cut margin,
        )
        (fee_last_back c _ main payer cut refl refl refl cost margin (positive cost good) low refl)
]
  where
    refused : leb_ℤ cost (pos 0) ≡ true → Balances (Cash.reverse_airtime id c cost margin key)
    refused bad = unfold Cash.reverse_airtime debit credit in rw bad tt

pub draft-Balances : (r : Request) → IsCoherent r → Balances (draft r)
unfolding draft Cash.fund_wallet Cash.referral_reward Cash.cash_in_journal Cash.cash_out_journal
    Cash.cash_in_postings Cash.cash_out_postings Cash.float_topup_journal transfer_fx_journal
    Escrow.p2p_lock Escrow.p2p_unlock Escrow.withdraw_hold Escrow.withdraw_refund
draft-Balances (fund_wallet id c x key ext) h =
    two_legs c (system_account settlement c) (customer_wallet id c) x _ refl refl
      (λ ps. (_, refl, refl))
draft-Balances (referral_reward id c x key ext) h =
    two_legs c (system_account promo_expense c) (customer_wallet id c) x _ refl refl
      (λ ps. (_, refl, refl))
draft-Balances (cash_in agent id c x key) h =
    two_legs c (agent_float_account agent c) (customer_wallet id c) x _ refl refl
      (λ ps. (_, refl, refl))
draft-Balances (cash_out agent id c x key) h =
    two_legs c (customer_wallet id c) (agent_float_account agent c) x _ refl refl
      (λ ps. (_, refl, refl))
draft-Balances (float_topup agent c x key ext) h =
    two_legs c (system_account settlement c) (agent_float_account agent c) x _ refl refl
      (λ ps. (_, refl, refl))
draft-Balances (agent_cash_in agent id c x y key) h = agent_cash_in-Balances agent id c x y key
draft-Balances (agent_cash_out agent id c x y key) h = agent_cash_out-Balances agent id c x y key
draft-Balances (post_transfer_debit sender q correlation key recipient) h =
    transfer_debit-Balances sender q correlation key recipient h.0 h.1
draft-Balances (post_transfer_fx q correlation key recipient) h =
    two_legs q.to_currency (system_account fx_position q.to_currency)
      (system_account payout_suspense q.to_currency) q.receive_minor _ refl refl
      (λ ps. (_, refl, refl))
draft-Balances (airtime_topup id c cost margin key ext) h =
    airtime_topup-Balances id c cost margin key ext h
draft-Balances (reverse_airtime id c cost margin key) h =
    reverse_airtime-Balances id c cost margin key h
draft-Balances (settle_payout c x correlation key ext o) h =
    settle-Balances c x (or_else o (pos 0)) _
      (settle_payout-Balances c x (or_else o (pos 0)) correlation key ext o refl)
draft-Balances (p2p_lock id c x key correlation) h =
    two_legs c (customer_wallet id c) (p2p_escrow_account id c) x _ refl refl
      (λ ps. (_, refl, refl))
draft-Balances (p2p_unlock id c x key correlation) h =
    two_legs c (p2p_escrow_account id c) (customer_wallet id c) x _ refl refl
      (λ ps. (_, refl, refl))
draft-Balances (p2p_release id buyer c x fee key correlation) h =
    settle-Balances c x fee _ (p2p_release-Balances id buyer c x fee key correlation)
draft-Balances (usdt_withdraw_hold id c x key correlation) h =
    two_legs c (customer_wallet id c) (system_account withdrawal_suspense c) x _ refl refl
      (λ ps. (_, refl, refl))
draft-Balances (usdt_withdraw_settle c x fee key correlation ext) h =
    settle-Balances c x fee _ (withdraw_settle-Balances c x fee key correlation ext)
draft-Balances (usdt_withdraw_refund id c x key correlation) h =
    two_legs c (system_account withdrawal_suspense c) (customer_wallet id c) x _ refl refl
      (λ ps. (_, refl, refl))
