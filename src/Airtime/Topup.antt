-- ===== src/Airtime/Topup.antt =====
-- `topup` of src/airtime/airtime-service.ts. The provider's `send` is an argument: from the
-- account's number, the product, the cost in major units, the currency and the reference to the
-- provider's reference, or an error.
use ticash_pay_demo.Prelude.Names.{none, ◌++◌}
use ticash_pay_demo.Prelude.Int.{ℤ, ◌+ℤ◌}
use ticash_pay_demo.Prelude.Text.{Text, codes}
use ticash_pay_demo.Prelude.Result.{Result, ok, err}
use ticash_pay_demo.Money.Currency.{Currency}
use ticash_pay_demo.Money.Decimal.{from_minor}
use ticash_pay_demo.Fx.Bps.{apply_bps}
use ticash_pay_demo.Ledger.Types.{PostedJournal}
use ticash_pay_demo.Ledger.Store.{Ledger}
use ticash_pay_demo.Ledger.Service.{airtime_topup, reverse_airtime, perform}
use ticash_pay_demo.Airtime.Margins.{Margins, get_margin}

abbrev pub Send : Type 0
Send = Text → Text → Text → Currency → Text → Result Text

-- The arguments of the call.
pub record Order : Type 0 where
  pub customer_id : Text
  pub currency : Currency
  pub country_iso : Text
  pub account_number : Text
  pub sku_code : Text
  pub cost_minor : ℤ
  pub idempotency_key : Text

pub record Receipt : Type 0 where
  pub provider_ref : Text
  pub transaction_uid : Text
  pub cost_minor : ℤ
  pub margin_minor : ℤ
  pub retail_minor : ℤ

-- Step 3, after the provider's answer: a failure is refunded, and thrown on unless the refund
-- itself throws.
abbrev pub refunded : Result PostedJournal × Ledger → Result Receipt → Result Receipt × Ledger
refunded (ok p, s) thrown = (thrown, s)
refunded (err e, s) thrown = (err e, s)

abbrev pub sent : Text → Order → ℤ → PostedJournal → Ledger → Result Text → Result Receipt × Ledger
sent now o margin debited s (ok ref) = (
  ok (record {
    provider_ref = ref;
    transaction_uid = debited.transaction_uid;
    cost_minor = o.cost_minor;
    margin_minor = margin;
    retail_minor = o.cost_minor +ℤ margin;
  }),
  s,
)
sent now o margin debited s (err e) =
    refunded
      (perform now
        (reverse_airtime o.customer_id o.currency o.cost_minor margin
          (o.idempotency_key ++ codes ":reverse"))
        s)
      (err e)

-- Step 2.
abbrev pub debited_then :
    Send → Text → Order → ℤ → Result PostedJournal × Ledger → Result Receipt × Ledger
debited_then send now o margin (err e, s) = (err e, s)
debited_then send now o margin (ok p, s) = sent now o margin p s (
    send o.account_number o.sku_code (from_minor o.cost_minor o.currency) o.currency
      o.idempotency_key)

-- Step 1.
abbrev pub priced : Send → Text → Text → Order → Ledger → Result ℤ → Result Receipt × Ledger
priced send now now' o s (err e) = (err e, s)
priced send now now' o s (ok margin) = debited_then send now' o margin (
    perform now (airtime_topup o.customer_id o.currency o.cost_minor margin o.idempotency_key none)
      s)

-- `topup`
unfoldable pub topup :
    Send → (Text → Text) → Margins → Text → Text → Order → Ledger → Result Receipt × Ledger
topup send to_upper_case margins now now' o s =
    priced send now now' o s
      (apply_bps o.cost_minor (get_margin to_upper_case o.country_iso margins))
