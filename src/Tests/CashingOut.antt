-- ===== src/Tests/CashingOut.antt =====
-- The theorems on cash-outs (src/cashout) at concrete calls.
use ticash_pay_demo.Prelude.Runtime.{Dates}
use ticash_pay_demo.Prelude.Names.{refl, none, some, [], ◌∷◌}
use ticash_pay_demo.Prelude.Int.{pos}
use ticash_pay_demo.Prelude.Text.{codes, eq_text, text_eq}
use ticash_pay_demo.Prelude.Dict.{lookup}
use ticash_pay_demo.Money.Currency.{brl}
use ticash_pay_demo.Ledger.Types.{settlement, TxType, JournalDraft}
use ticash_pay_demo.Ledger.Operations.Accounts.{customer_wallet, system_account}
use ticash_pay_demo.Ledger.Operations.Shape.{credited, debited}
use ticash_pay_demo.Ledger.Store.{empty, post}
use ticash_pay_demo.Cashout.Service.{Cashouts}
use ticash_pay_demo.Cashout.Service
use ticash_pay_demo.Cashout.Faithful
use ticash_pay_demo.Cashout.Approved.{approved_debits}
use ticash_pay_demo.Cashout.Approved

-- Ana has five reais, and approves the cash-out of three that an agent asks for.
abbrev deposit : JournalDraft
deposit = record {
  tx_type = TxType.fund_wallet;
  idempotency_key = codes "k1";
  postings =
      debited (system_account settlement brl) (pos 500)
      ∷ credited (customer_wallet (codes "ana") brl) (pos 500)
      ∷ [];
  correlation_id = none;
  external_ref = none;
  metadata = none;
}

abbrev dates : Dates
dates = record { parse = λ t. some (pos 600000); to_iso_string = λ n. codes "t" }

abbrev funded : Cashouts
funded = record { ledger = (post (codes "t1") deposit empty).1; reqs = [] }

abbrev asked : Cashouts
asked =
    (Service.request dates (pos 10) (codes "c1") (pos 0) (codes "t2") (codes "joe") (codes "ana")
      brl (pos 300) (pos 3) funded).1

abbrev paid : Cashouts
paid =
    (Service.approve dates (pos 1000) (codes "t3") (codes "t4") (codes "t5") (codes "c1")
      (codes "ana") asked).1

paid-Reach : Approved.Reach paid
unfolding lookup eq_text
paid-Reach =
    Approved.next
      (Approved.next
        (Approved.next Approved.start (Approved.other_post _ (codes "t1") deposit (λ id. refl)))
        (Approved.requested dates (pos 10) funded (codes "c1") (pos 0) (codes "t2") (codes "joe")
          (codes "ana") brl (pos 300) (pos 3) refl))
      (Approved.approved_by dates (pos 1000) asked (codes "t3") (codes "t4") (codes "t5")
        (codes "c1") (codes "ana"))

approved_debits_example : Faithful.IsFaithful paid
approved_debits_example = approved_debits paid paid-Reach
