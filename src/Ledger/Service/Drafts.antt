-- ===== src/Ledger/Service/Drafts.antt =====
-- The drafts of the methods of src/ledger/service.ts that split an amount or add a commission.
use ticash_pay_demo.Prelude.Names.{
  ◌≡◌, refl, inl, inr, false, Option, ◌∷◌, ◌++◌, arith, ◌||◌, Bool-cases,
}
use ticash_pay_demo.Prelude.Int.{ℤ, pos, ◌-ℤ◌, ltb_ℤ, leb_ℤ}
use ticash_pay_demo.Prelude.Text.{Text}
use ticash_pay_demo.Prelude.Dict.{or_else}
use ticash_pay_demo.Prelude.Result.{Result, ◌>>◌}
use ticash_pay_demo.Money.Currency.{Currency}
use ticash_pay_demo.Ledger.Types.{
  AccountSpec, JournalDraft, settlement, fee_revenue, payout_suspense, provider_fee,
  withdrawal_suspense,
}
use ticash_pay_demo.Ledger.Operations.Accounts.{
  customer_wallet, agent_float_account, agent_commission_account, system_account,
  p2p_escrow_account,
}
use ticash_pay_demo.Ledger.Operations.Cash
use ticash_pay_demo.Ledger.Operations.Transfer.{
  TransferQuote, transfer_debit_journal, transfer_fx_journal,
}
use ticash_pay_demo.Ledger.Operations.Transfer
use ticash_pay_demo.Ledger.Operations.Escrow
use ticash_pay_demo.Ledger.Operations.Shape.{optional, credited, debited, when-credit}
use ticash_pay_demo.Ledger.Engine.Balance.{IsBalanced}
use ticash_pay_demo.Ledger.Operations.Balanced.{Balances, positive, legs, split_legs, two_pairs}
use ticash_pay_demo.Ledger.Service.{check_fee}

pub agent_cash_in-Balances :
    (agent id : Text) (c : Currency) (x y : ℤ) (key : Text)
    → Balances (Cash.agent_cash_in agent id c x y key)
unfolding Cash.agent_cash_in
agent_cash_in-Balances agent id c x y key = elim (Bool-cases (leb_ℤ x (pos 0))) [
  | inl bad ↦ rw bad tt
  | inr good ↦ elim (Bool-cases (ltb_ℤ (pos 0) y)) [
    | inl paid ↦
        let earns : leb_ℤ y (pos 0) ≡ false = ground arith in
        rw (good, paid, earns)
          (two_pairs c _ (agent_float_account agent c) (customer_wallet id c)
            (system_account fee_revenue c) (agent_commission_account agent c) refl refl refl refl x
            y (positive x good) (positive y earns) refl)
    | inr free ↦
        rw (good, free)
          (legs c _ (agent_float_account agent c) (customer_wallet id c) (customer_wallet id c) refl
            refl x (positive x good) refl)
  ]
]

pub agent_cash_out-Balances :
    (agent id : Text) (c : Currency) (x y : ℤ) (key : Text)
    → Balances (Cash.agent_cash_out agent id c x y key)
unfolding Cash.agent_cash_out
agent_cash_out-Balances agent id c x y key = elim (Bool-cases (leb_ℤ x (pos 0))) [
  | inl bad ↦ rw bad tt
  | inr good ↦ elim (Bool-cases (ltb_ℤ (pos 0) y)) [
    | inl paid ↦
        let earns : leb_ℤ y (pos 0) ≡ false = ground arith in
        rw (good, paid, earns)
          (two_pairs c _ (customer_wallet id c) (agent_float_account agent c)
            (system_account fee_revenue c) (agent_commission_account agent c) refl refl refl refl x
            y (positive x good) (positive y earns) refl)
    | inr free ↦
        rw (good, free)
          (legs c _ (customer_wallet id c) (agent_float_account agent c) (customer_wallet id c) refl
            refl x (positive x good) refl)
  ]
]

-- A gross leg that splits into what is delivered and a fee, after the service's check of the fee.
pub split-Balances :
    (c : Currency) (a b f : AccountSpec) (x fee : ℤ) (j : JournalDraft)
    → leb_ℤ x (pos 0) ≡ false
    → (ltb_ℤ fee (pos 0) || ltb_ℤ x fee) ≡ false
    → a.currency ≡ c
    → b.currency ≡ c
    → f.currency ≡ c
    → j.postings
      ≡ debited a x ∷ (optional (credited b (x -ℤ fee)) (x -ℤ fee) ++ optional (credited f fee) fee)
    → IsBalanced j
split-Balances c a b f x fee j good fits ca cb cf ps =
    split_legs c j a b f ca cb cf x (x -ℤ fee) fee (positive x good) (ground arith) (ground arith)
      refl ps

pub settle-Balances :
    (c : Currency) (x fee : ℤ) (f : Result JournalDraft)
    → ((ltb_ℤ fee (pos 0) || ltb_ℤ x fee) ≡ false → Balances f)
    → Balances (check_fee fee x >> f)
unfolding check_fee
settle-Balances c x fee f h = elim (Bool-cases (ltb_ℤ fee (pos 0) || ltb_ℤ x fee)) [
  | inl out ↦ rw out tt
  | inr fits ↦ rw fits (h fits)
]

pub settle_payout-Balances :
    (c : Currency) (x fee : ℤ) (correlation key ext : Text) (o : Option ℤ)
    → or_else o (pos 0) ≡ fee
    → (ltb_ℤ fee (pos 0) || ltb_ℤ x fee) ≡ false
    → Balances (Transfer.settle_payout c x correlation key ext o)
unfolding Transfer.settle_payout
settle_payout-Balances c x fee correlation key ext o is_fee fits =
    elim (Bool-cases (leb_ℤ x (pos 0))) [
      | inl bad ↦ rw bad tt
      | inr good ↦
          let gross = system_account payout_suspense c in
          let main = system_account settlement c in
          let cut = system_account provider_fee c in
          rw (is_fee, good, when-credit main (x -ℤ fee), when-credit cut fee)
            (split-Balances c gross main cut x fee _ good fits refl refl refl refl)
    ]

pub p2p_release-Balances :
    (id buyer : Text) (c : Currency) (x fee : ℤ) (key : Text) (correlation : Option Text)
    → (ltb_ℤ fee (pos 0) || ltb_ℤ x fee) ≡ false
    → Balances (Escrow.p2p_release id buyer c x fee key correlation)
unfolding Escrow.p2p_release
p2p_release-Balances id buyer c x fee key correlation fits = elim (Bool-cases (leb_ℤ x (pos 0))) [
  | inl bad ↦ rw bad tt
  | inr good ↦
      let gross = p2p_escrow_account id c in
      let main = customer_wallet buyer c in
      let cut = system_account fee_revenue c in
      rw (good, when-credit main (x -ℤ fee), when-credit cut fee)
        (split-Balances c gross main cut x fee _ good fits refl refl refl refl)
]

pub withdraw_settle-Balances :
    (c : Currency) (x fee : ℤ) (key correlation : Text) (ext : Option Text)
    → (ltb_ℤ fee (pos 0) || ltb_ℤ x fee) ≡ false
    → Balances (Escrow.withdraw_settle c x fee key correlation ext)
unfolding Escrow.withdraw_settle
withdraw_settle-Balances c x fee key correlation ext fits = elim (Bool-cases (leb_ℤ x (pos 0))) [
  | inl bad ↦ rw bad tt
  | inr good ↦
      let gross = system_account withdrawal_suspense c in
      let main = system_account settlement c in
      let cut = system_account fee_revenue c in
      rw (good, when-credit main (x -ℤ fee), when-credit cut fee)
        (split-Balances c gross main cut x fee _ good fits refl refl refl refl)
]
