-- ===== src/Fx/Pricing.antt =====
-- src/fx/rate-service.ts: `RateService`.
pub mod Agreement
use ticash_pay_demo.Prelude.Names.{Bool, true, false, Option, none, some, if◌then◌else◌}
use ticash_pay_demo.Prelude.Int.{ℤ, pos, ◌+ℤ◌, ◌-ℤ◌}
use ticash_pay_demo.Prelude.Text.{Text, codes, text_eq}
use ticash_pay_demo.Prelude.Result.{Result, ok, err, ◌>>=◌, ◌>>◌, ledger_error, ledger_validation}
use ticash_pay_demo.Money.Currency.{Currency, eq_currency}
use ticash_pay_demo.Money.Round.{convert, floor_to_payout_unit}
use ticash_pay_demo.Fx.Bps.{assert_bps, apply_bps, margined_rate}
use ticash_pay_demo.Fx.Rates.{RateRecord, Rates, get_rate, set_rate_record}

pub record RateQuote : Type 0 where
  pub from_currency : Currency
  pub to_currency : Currency
  pub mid_rate : Text
  pub margin_bps : ℤ
  pub platform_fee_bps : ℤ
  pub provider_fee_bps : ℤ
  pub rate : Text
  pub source : Text
  pub as_of : Text

pub record TransferPricing : Type 0 where
  pub from_currency : Currency
  pub to_currency : Currency
  pub rate : Text
  pub mid_rate : Text
  pub send_minor : ℤ
  pub platform_fee_minor : ℤ
  pub total_debit_minor : ℤ
  pub gross_payout_minor : ℤ
  pub provider_fee_minor : ℤ
  pub net_to_recipient_minor : ℤ
  pub fx_margin_minor : ℤ
  pub platform_net_profit_minor : ℤ

-- `require`
unfoldable pub require_rate : Option RateRecord → Result RateRecord
require_rate none = err (ledger_error ledger_validation)
require_rate (some r) = ok r

-- `rec?.platformFeeBps ?? 0` and `rec?.providerFeeBps ?? 0`
unfoldable pub platform_bps : Option RateRecord → ℤ
platform_bps none = pos 0
platform_bps (some r) = r.platform_fee_bps

unfoldable pub provider_bps : Option RateRecord → ℤ
provider_bps none = pos 0
provider_bps (some r) = r.provider_fee_bps

-- The quote of a domestic corridor: the rate is `1`, whatever the row says.
abbrev pub quote_domestic : Currency → Currency → Option RateRecord → RateQuote
quote_domestic from to row = record {
  from_currency = from;
  to_currency = to;
  mid_rate = codes "1";
  margin_bps = pos 0;
  platform_fee_bps = platform_bps row;
  provider_fee_bps = provider_bps row;
  rate = codes "1";
  source = source_of row;
  as_of = as_of row;
}
  where
    source_of : Option RateRecord → Text
    source_of none = codes "identity"
    source_of (some r) = r.source

    as_of : Option RateRecord → Text
    as_of none = codes "2026-01-01T00:00:00.000Z"
    as_of (some r) = r.updated_at

abbrev pub quote_corridor : Currency → Currency → Option RateRecord → Result RateQuote
quote_corridor from to row = do
  r ← require_rate row
  rate ← margined_rate r.mid_rate r.margin_bps
  ok (record {
    from_currency = from;
    to_currency = to;
    mid_rate = r.mid_rate;
    margin_bps = r.margin_bps;
    platform_fee_bps = r.platform_fee_bps;
    provider_fee_bps = r.provider_fee_bps;
    rate = rate;
    source = r.source;
    as_of = r.updated_at;
  })

-- `quote`
unfoldable pub quote : Currency → Currency → Rates → Result RateQuote
unfolding require_rate platform_bps provider_bps
quote from to rates =
    if eq_currency from to
    then ok (quote_domestic from to (get_rate from to rates))
    else quote_corridor from to (get_rate from to rates)

-- The first branch of `priceTransfer`.
unfoldable pub price_domestic : Currency → Currency → ℤ → Option RateRecord → Result TransferPricing
unfolding platform_bps provider_bps
price_domestic from to send row = do
  platform_fee ← apply_bps send (platform_bps row)
  let gross = floor_to_payout_unit send to
  provider_fee ← apply_bps gross (provider_bps row)
  ok (record {
    from_currency = from;
    to_currency = to;
    rate = codes "1";
    mid_rate = codes "1";
    send_minor = send;
    platform_fee_minor = platform_fee;
    total_debit_minor = send +ℤ platform_fee;
    gross_payout_minor = gross;
    provider_fee_minor = provider_fee;
    net_to_recipient_minor = gross -ℤ provider_fee;
    fx_margin_minor = pos 0;
    platform_net_profit_minor = platform_fee -ℤ provider_fee;
  })

-- The rest of `priceTransfer`.
unfoldable pub price_corridor : Currency → Currency → ℤ → Option RateRecord → Result TransferPricing
unfolding require_rate
price_corridor from to send row = do
  r ← require_rate row
  rate ← margined_rate r.mid_rate r.margin_bps
  platform_fee ← apply_bps send r.platform_fee_bps
  converted ← convert send from to rate
  let gross = floor_to_payout_unit converted to
  gross_at_mid ← convert send from to r.mid_rate
  let fx_margin = gross_at_mid -ℤ gross
  provider_fee ← apply_bps gross r.provider_fee_bps
  platform_fee_in_dest ← convert platform_fee from to r.mid_rate
  ok (record {
    from_currency = from;
    to_currency = to;
    rate = rate;
    mid_rate = r.mid_rate;
    send_minor = send;
    platform_fee_minor = platform_fee;
    total_debit_minor = send +ℤ platform_fee;
    gross_payout_minor = gross;
    provider_fee_minor = provider_fee;
    net_to_recipient_minor = gross -ℤ provider_fee;
    fx_margin_minor = fx_margin;
    platform_net_profit_minor = fx_margin +ℤ platform_fee_in_dest -ℤ provider_fee;
  })

-- `priceTransfer`
unfoldable pub price_transfer : Currency → Currency → ℤ → Rates → Result TransferPricing
unfolding price_domestic price_corridor
price_transfer from to send rates =
    if eq_currency from to
    then price_domestic from to send (get_rate from to rates)
    else price_corridor from to send (get_rate from to rates)

-- `setRate`
unfoldable pub set_rate :
    Text → Currency → Currency → Text → ℤ → ℤ → ℤ → Text → Rates → Result Rates
set_rate now from to mid margin platform provider source rates = do
  checked ← margined_rate mid margin
  assert_bps platform
  assert_bps provider
  ok (
      set_rate_record now
        (record {
          from_currency = from;
          to_currency = to;
          mid_rate = mid;
          margin_bps = margin;
          platform_fee_bps = platform;
          provider_fee_bps = provider;
          source = source;
          updated_at = now;
        })
        rates)
