-- ===== src/Tests/Withdrawing.antt =====
-- The theorems on withdrawals (src/withdrawal) at concrete calls.
use ticash_pay_demo.Prelude.Names.{◌≡◌, refl, false, ◌&&◌, none, some, [], ◌∷◌}
use ticash_pay_demo.Prelude.Int.{pos}
use ticash_pay_demo.Prelude.Text.{codes, eq_text, text_eq}
use ticash_pay_demo.Prelude.Dict.{lookup}
use ticash_pay_demo.Money.Currency.{usdt}
use ticash_pay_demo.Ledger.Types.{settlement, TxType, JournalDraft}
use ticash_pay_demo.Ledger.Operations.Accounts.{customer_wallet, system_account}
use ticash_pay_demo.Ledger.Operations.Shape.{credited, debited}
use ticash_pay_demo.Ledger.Store.{empty, post}
use ticash_pay_demo.Ledger.Service.Keyed.{is_posted}
use ticash_pay_demo.Withdrawal.Service.{WithdrawalConfig, Withdrawals, settle_key, refund_key}
use ticash_pay_demo.Withdrawal.Service
use ticash_pay_demo.Withdrawal.Faithful
use ticash_pay_demo.Withdrawal.Exclusive.{Reach-IsFaithful, never_both}
use ticash_pay_demo.Withdrawal.Exclusive

-- Ana has five USDT, asks to send three to a wallet outside, and an operator completes it.
abbrev deposit : JournalDraft
deposit = record {
  tx_type = TxType.fund_wallet;
  idempotency_key = codes "k1";
  postings =
      debited (system_account settlement usdt) (pos 5000000)
      ∷ credited (customer_wallet (codes "ana") usdt) (pos 5000000)
      ∷ [];
  correlation_id = none;
  external_ref = none;
  metadata = none;
}

abbrev cfg : WithdrawalConfig
cfg = record {
  asset = usdt;
  fee_minor = pos 500000;
  network = codes "TRC20";
  min_amount_minor = pos 1000000;
}

abbrev funded : Withdrawals
funded = record { ledger = (post (codes "t1") deposit empty).1; rows = [] }

abbrev asked : Withdrawals
asked =
    (Service.request cfg (codes "w1") (codes "t2") (codes "t3") (codes "ana") (pos 3000000)
      (codes " TXYZabcdefghijklmnopqrstuvwxyz1234 ") funded).1

abbrev sent : Withdrawals
sent =
    (Service.complete (codes "t4") (codes "t5") (codes "t6") (codes "w1") (some (codes "0xabc"))
      asked).1

sent-Reach : Exclusive.Reach cfg sent
unfolding lookup eq_text
sent-Reach =
    Exclusive.next
      (Exclusive.next
        (Exclusive.next Exclusive.start
          (Exclusive.other_post _ (codes "t1") deposit (λ id. (refl, refl, refl))))
        (Exclusive.requested funded (codes "w1") (codes "t2") (codes "t3") (codes "ana")
          (pos 3000000) (codes " TXYZabcdefghijklmnopqrstuvwxyz1234 ") refl))
      (Exclusive.completed_by asked (codes "t4") (codes "t5") (codes "t6") (codes "w1")
        (some (codes "0xabc")))

Reach-IsFaithful_example : Faithful.IsFaithful sent
Reach-IsFaithful_example = Reach-IsFaithful cfg sent sent-Reach

never_both_example :
    (is_posted (settle_key (codes "w1")) sent.ledger
      && is_posted (refund_key (codes "w1")) sent.ledger)
    ≡ false
never_both_example = never_both cfg sent (codes "w1") sent-Reach
