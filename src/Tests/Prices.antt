-- ===== src/Tests/Prices.antt =====
-- The theorems on rates and prices (src/fx) at concrete corridors.
use ticash_pay_demo.Prelude.Names.{ℕ, ◌*◌, ◌≤◌, ◌≡◌, [], arith}
use ticash_pay_demo.Prelude.Int.{pos}
use ticash_pay_demo.Prelude.Text.{codes}
use ticash_pay_demo.Prelude.Result.{ok}
use ticash_pay_demo.Money.Currency.{brl, htg}
use ticash_pay_demo.Money.Round.Bounds.{IsNearest}
use ticash_pay_demo.Fx.Bps.{apply_bps}
use ticash_pay_demo.Fx.Bps.Bounds.{apply_bps_bounds}
use ticash_pay_demo.Fx.Rates.{RateDefaults, Rates, default_mid_rates, seeded}
use ticash_pay_demo.Fx.Pricing.{price_transfer}
use ticash_pay_demo.Fx.Pricing.Agreement.{WhenPriced, price_transfer-WhenPriced}

abbrev defaults : RateDefaults
defaults = record { margin_bps = pos 200; platform_fee_bps = pos 0; provider_fee_bps = pos 500 }

abbrev rates : Rates
rates = seeded (codes "t0") defaults default_mid_rates []

apply_bps_bounds_example :
    (k : ℕ) × (apply_bps (pos 12345) (pos 500) ≡ ok (pos k))
    × IsNearest (12345 * 500) 10000 k
    × (k ≤ 12345)
apply_bps_bounds_example = apply_bps_bounds 12345 500 (omega arith)

price_transfer-WhenPriced_example :
    WhenPriced brl htg (pos 10000) (price_transfer brl htg (pos 10000) rates)
price_transfer-WhenPriced_example = price_transfer-WhenPriced brl htg (pos 10000) rates
