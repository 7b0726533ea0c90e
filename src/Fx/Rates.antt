-- ===== src/Fx/Rates.antt =====
-- src/fx/types.ts and the in-memory store of src/fx/rate-store.ts. The clock's answer is an
-- argument.
use ticash_pay_demo.Prelude.Names.{Option, none, some, List, [], ◌∷◌, ◌++◌}
use ticash_pay_demo.Prelude.Int.{ℤ}
use ticash_pay_demo.Prelude.Text.{Text, codes, text_eq}
use ticash_pay_demo.Prelude.Dict.{Dict, lookup, insert}
use ticash_pay_demo.Money.Currency.{Currency, currency_text, brl, htg, usd, dop, mxn}

pub record RateRecord : Type 0 where
  pub from_currency : Currency
  pub to_currency : Currency
  pub mid_rate : Text
  pub margin_bps : ℤ
  pub platform_fee_bps : ℤ
  pub provider_fee_bps : ℤ
  pub source : Text
  pub updated_at : Text

pub record RateDefaults : Type 0 where
  pub margin_bps : ℤ
  pub platform_fee_bps : ℤ
  pub provider_fee_bps : ℤ

abbrev pub Rates : Type 0
Rates = Dict Text RateRecord

-- `key`
unfoldable pub rate_key : Currency → Currency → Text
rate_key from to = currency_text from ++ codes ":" ++ currency_text to

-- `get`
unfoldable pub get_rate : Currency → Currency → Rates → Option RateRecord
unfolding rate_key
get_rate from to rates = lookup (rate_key from to) rates

-- `set`, which stamps the record.
unfoldable pub set_rate_record : Text → RateRecord → Rates → Rates
unfolding rate_key
set_rate_record now r rates =
    insert (rate_key r.from_currency r.to_currency) (record r { updated_at = now }) rates

-- `DEFAULT_MID_RATES`
abbrev pub default_mid_rates : List (Currency × Currency × Text)
default_mid_rates =
    (brl, htg, codes "24.36")
    ∷ (usd, htg, codes "132.00")
    ∷ (mxn, htg, codes "7.20")
    ∷ (dop, htg, codes "2.18")
    ∷ []

abbrev pub default_rate : Text → RateDefaults → Currency → Currency → Text → RateRecord
default_rate now d from to mid = record {
  from_currency = from;
  to_currency = to;
  mid_rate = mid;
  margin_bps = d.margin_bps;
  platform_fee_bps = d.platform_fee_bps;
  provider_fee_bps = d.provider_fee_bps;
  source = codes "config";
  updated_at = now;
}

-- The loop of the constructor.
unfoldable pub seeded : Text → RateDefaults → List (Currency × Currency × Text) → Rates → Rates
unfolding rate_key
seeded now d [] rates = rates
seeded now d ((from, to, mid) ∷ corridors) rates =
    seeded now d corridors (insert (rate_key from to) (default_rate now d from to mid) rates)

abbrev pub set_if_absent : Text → RateRecord → Option RateRecord → Rates → Rates
set_if_absent now r none rates = set_rate_record now r rates
set_if_absent now r (some old) rates = rates

-- `seedDefaultRates`
unfoldable pub seed_default_rates :
    Text → RateDefaults → List (Currency × Currency × Text) → Rates → Rates
seed_default_rates now d [] rates = rates
seed_default_rates now d ((from, to, mid) ∷ corridors) rates =
    seed_default_rates now d corridors
      (set_if_absent now (default_rate now d from to mid) (get_rate from to rates) rates)
