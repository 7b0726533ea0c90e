-- ===== src/Tests/Amounts.antt =====
-- The theorems on amounts (src/money) and account keys (src/ledger/types.ts) at concrete inputs.
use ticash_pay_demo.Prelude.Names.{◌%◌, ◌≡◌, refl, arith, ℕ}
use ticash_pay_demo.Prelude.Int.{pos, negsuc, pos_part, ◌+ℤ◌, ◌≤ℤ◌, ◌<ℤ◌, ltb_ℤ}
use ticash_pay_demo.Prelude.Text.{codes}
use ticash_pay_demo.Prelude.Result.{ok}
use ticash_pay_demo.Money.Currency.{brl, htg, usdt, payout_minor_step}
use ticash_pay_demo.Money.Decimal.{text_amount, to_minor, from_minor}
use ticash_pay_demo.Money.Decimal.RoundTrip.{to_minor-from_minor}
use ticash_pay_demo.Money.Round.{round_half_up_div, convert, floor_to_payout_unit}
use ticash_pay_demo.Money.Round.Bounds.{
  IsNearest, signed, magnitude, round_half_up_div-IsNearest, floor_to_payout_unit_bounds,
  convert_identity,
}
use ticash_pay_demo.Ledger.Types.Keys.{account_key_injective}
use ticash_pay_demo.Ledger.Operations.Accounts.{customer_wallet}

to_minor-from_minor_example :
    to_minor (text_amount (from_minor (negsuc 1234567) usdt)) usdt ≡ ok (negsuc 1234567)
to_minor-from_minor_example = to_minor-from_minor (negsuc 1234567) usdt

round_half_up_div-IsNearest_example :
    (k : ℕ) × (round_half_up_div (negsuc 6) (pos 2) ≡ ok (signed (ltb_ℤ (negsuc 6) (pos 0)) k))
    × IsNearest (magnitude (negsuc 6)) 2 k
round_half_up_div-IsNearest_example = round_half_up_div-IsNearest (negsuc 6) 2 (omega arith)

floor_to_payout_unit_bounds_example :
    (floor_to_payout_unit (pos 12345) htg ≤ℤ pos 12345)
    × (pos 12345 <ℤ floor_to_payout_unit (pos 12345) htg +ℤ payout_minor_step htg)
    × (pos_part (floor_to_payout_unit (pos 12345) htg) % pos_part (payout_minor_step htg) ≡ 0)
floor_to_payout_unit_bounds_example = floor_to_payout_unit_bounds 12345 htg

convert_identity_example : convert (pos 12345) brl brl (codes "1") ≡ ok (pos 12345)
convert_identity_example = convert_identity (pos 12345) brl

account_key_injective_example :
    customer_wallet (codes "a:b") brl ≡ customer_wallet (codes "a:b") brl
unfolding customer_wallet
account_key_injective_example =
    account_key_injective (customer_wallet (codes "a:b") brl) (customer_wallet (codes "a:b") brl)
      (λ e. cc) (λ e. cc) refl
