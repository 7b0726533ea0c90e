-- ===== src/Money/Round.antt =====
-- src/money/money.ts: rounding and conversion.
pub mod Bounds
use ticash_pay_demo.Prelude.Names.{
  ℕ, ◌+◌, ◌-◌, ◌*◌, ◌/◌, ◌%◌, ◌^◌, Option, none, some, ◌++◌, leb, if◌then◌else◌, ◌||◌,
}
use ticash_pay_demo.Prelude.Int.{ℤ, pos, neg, ◌*ℤ◌, ltb_ℤ, leb_ℤ, pos_part, neg_part}
use ticash_pay_demo.Prelude.Text.{Text}
use ticash_pay_demo.Prelude.Length.{length}
use ticash_pay_demo.Prelude.Result.{Result, ok, err, plain_error}
use ticash_pay_demo.Money.Currency.{Currency, scale_of, payout_minor_step}
use ticash_pay_demo.Money.Digits.{digits_value}
use ticash_pay_demo.Money.Trim.{trim}
use ticash_pay_demo.Money.Decimal.{match_unsigned}

-- The quotient of two magnitudes, half a unit rounded up.
unfoldable pub half_up : ℕ → ℕ → ℕ
half_up n d = let q = n / d in if leb d (n % d * 2) then q + 1 else q

-- `roundHalfUpDiv`: half away from zero.
unfoldable pub round_half_up_div : ℤ → ℤ → Result ℤ
round_half_up_div numerator denominator =
    if leb_ℤ denominator (pos 0)
    then err plain_error
    else ok (
        if ltb_ℤ numerator (pos 0)
        then neg (pos (half_up (neg_part numerator) (pos_part denominator)))
        else pos (half_up (pos_part numerator) (pos_part denominator)))

abbrev pub scaled_rate : Option (Text × Text) → Option (ℕ × ℕ)
scaled_rate none = none
scaled_rate (some (whole, frac)) = some (digits_value (whole ++ frac), length frac)

abbrev pub convert_at : ℤ → ℕ → ℕ → Option (ℕ × ℕ) → Result ℤ
convert_at amount from_scale to_scale none = err plain_error
convert_at amount from_scale to_scale (some (rate, rate_scale)) =
    round_half_up_div (amount *ℤ pos rate *ℤ pos (10 ^ to_scale))
      (pos (10 ^ from_scale * 10 ^ rate_scale))

-- `convert`
unfoldable pub convert : ℤ → Currency → Currency → Text → Result ℤ
unfolding round_half_up_div half_up
convert amount from to rate =
    convert_at amount (scale_of from) (scale_of to) (scaled_rate (match_unsigned (trim rate)))

-- `floorToPayoutUnit`
unfoldable pub floor_to_payout_unit : ℤ → Currency → ℤ
floor_to_payout_unit minor c =
    let step = payout_minor_step c in
    if leb_ℤ step (pos 1) || leb_ℤ minor (pos 0)
    then minor
    else pos (pos_part minor - pos_part minor % pos_part step)
