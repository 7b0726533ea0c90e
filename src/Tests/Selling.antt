-- ===== src/Tests/Selling.antt =====
-- The theorem on airtime (src/airtime) at a concrete call, whose provider fails.
use ticash_pay_demo.Prelude.Names.{refl, none, [], ◌∷◌}
use ticash_pay_demo.Prelude.Int.{pos, neg, ◌+ℤ◌}
use ticash_pay_demo.Prelude.Text.{codes, eq_text, text_eq}
use ticash_pay_demo.Prelude.Dict.{lookup, insert}
use ticash_pay_demo.Prelude.Sums.{add_at, amount_at, add_all}
use ticash_pay_demo.Prelude.Result.{err, plain_error}
use ticash_pay_demo.Money.Currency.{brl, currency_text}
use ticash_pay_demo.Ledger.Types.{
  settlement, TxType, JournalDraft, account_key, owner_type_text, kind_text, owner_id_text,
  is_non_negative,
}
use ticash_pay_demo.Ledger.Engine.{assert_balanced, assert_zero, sum_by_currency, sum_from}
use ticash_pay_demo.Ledger.Operations.Accounts.{customer_wallet, system_account}
use ticash_pay_demo.Ledger.Operations.Shape.{credited, debited}
use ticash_pay_demo.Ledger.Store.{
  Ledger, empty, commit, post_new, register, guard_deltas, guard_one, add_deltas, post, stored_as,
}
use ticash_pay_demo.Ledger.Store.Invariant.{empty-IsSound, post-IsSound}
use ticash_pay_demo.Airtime.Margins.{Margins}
use ticash_pay_demo.Airtime.Topup.{Send, Order, topup}
use ticash_pay_demo.Airtime.Refunds.{Settles, topup-Settles}

abbrev deposit : JournalDraft
deposit = record {
  tx_type = TxType.fund_wallet;
  idempotency_key = codes "k1";
  postings =
      debited (system_account settlement brl) (pos 5000)
      ∷ credited (customer_wallet (codes "ana") brl) (pos 5000)
      ∷ [];
  correlation_id = none;
  external_ref = none;
  metadata = none;
}

abbrev funded : Ledger
funded = (post (codes "t1") deposit empty).1

abbrev fails : Send
fails = λ account sku amount c ref. err plain_error

abbrev margins : Margins
margins = record { default_bps = pos 1000; by_country = [] }

abbrev order : Order
order = record {
  customer_id = codes "ana";
  currency = brl;
  country_iso = codes " HT ";
  account_number = codes "50937000000";
  sku_code = codes "HT_DC_1";
  cost_minor = pos 1000;
  idempotency_key = codes "k2";
}

topup-Settles_example :
    Settles order funded (topup fails (λ t. t) margins (codes "t2") (codes "t3") order funded)
unfolding customer_wallet system_account post assert_balanced assert_zero sum_by_currency sum_from
    neg lookup insert add_at amount_at post_new register guard_deltas guard_one add_deltas commit
    stored_as account_key owner_type_text kind_text owner_id_text is_non_negative eq_text ◌+ℤ◌
    currency_text add_all
topup-Settles_example =
    topup-Settles fails (λ t. t) margins (codes "t2") (codes "t3") order funded
      (post-IsSound (codes "t1") deposit empty empty-IsSound) refl refl
