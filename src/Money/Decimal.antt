-- ===== src/Money/Decimal.antt =====
-- src/money/money.ts: `toMinor`, `fromMinor`.
pub mod Printed
pub mod RoundTrip
use ticash_pay_demo.Prelude.Names.{
  ℕ, zero, suc, ◌+◌, ◌*◌, ◌/◌, ◌%◌, ◌^◌, Bool, true, false, Option, none, some, List, [], ◌∷◌, ◌++◌,
  ltb, eqb, if◌then◌else◌,
}
use ticash_pay_demo.Prelude.Int.{ℤ, pos, neg, ltb_ℤ, pos_part, neg_part}
use ticash_pay_demo.Prelude.Text.{Text}
use ticash_pay_demo.Prelude.Length.{length}
use ticash_pay_demo.Prelude.Result.{Result, ok, err, plain_error}
use ticash_pay_demo.Money.Currency.{Currency, scale_of}
use ticash_pay_demo.Money.Digits.{span_digits, digits_value, to_decimal, pad_start, pad_end}
use ticash_pay_demo.Money.Trim.{trim}

abbrev pub fraction_match : Text → Bool → Text × Text → Option (Text × Text)
fraction_match whole true (d ∷ ds, []) = some (whole, d ∷ ds)
fraction_match whole dot parsed = none

-- The end of `(\d+)(?:\.(\d+))?$`, once the whole part is read.
unfoldable pub fraction_of : Text → Text → Option (Text × Text)
fraction_of whole [] = some (whole, [])
fraction_of whole (c ∷ cs) = fraction_match whole (eqb c b'.') (span_digits cs)

abbrev pub whole_match : Text × Text → Option (Text × Text)
whole_match ([], rest) = none
whole_match (d ∷ ds, rest) = fraction_of (d ∷ ds) rest

-- `/^(\d+)(?:\.(\d+))?$/.exec(t)`: the two groups, the second empty where it did not take part.
unfoldable pub match_unsigned : Text → Option (Text × Text)
unfolding fraction_of
match_unsigned t = whole_match (span_digits t)

-- `/^(-)?(\d+)(?:\.(\d+))?$/.exec(t)`, with whether the sign is there.
unfoldable pub match_signed : Text → Bool × Option (Text × Text)
unfolding match_unsigned
match_signed [] = (false, none)
match_signed (c ∷ cs) =
    if eqb c b'-' then (true, match_unsigned cs) else (false, match_unsigned (c ∷ cs))

-- The minor units of a matched amount.
unfoldable pub minor_of : ℕ → Bool → Text → Text → Result ℤ
minor_of scale negative whole frac =
    if ltb scale (length frac)
    then err plain_error
    else let minor = pos (digits_value whole * 10 ^ scale + digits_value (pad_end scale frac)) in
      ok (if negative then neg minor else minor)

abbrev pub of_match : ℕ → Bool × Option (Text × Text) → Result ℤ
of_match scale (negative, none) = err plain_error
of_match scale (negative, some (whole, frac)) = minor_of scale negative whole frac

-- What `toMinor` takes: a decimal text, or a bigint that is in minor units already. The third
-- case of the source, a number, is the text that `toString` gives for it.
pub data Amount : Type 0 where
  text_amount : Text → Amount
  minor_amount : ℤ → Amount

-- `toMinor`
unfoldable pub to_minor : Amount → Currency → Result ℤ
unfolding match_signed minor_of
to_minor (minor_amount m) c = ok m
to_minor (text_amount t) c = of_match (scale_of c) (match_signed (trim t))

-- The text of a magnitude, `scale` digits behind the point.
unfoldable pub body_text : ℕ → ℕ → Text
body_text zero n = to_decimal (n / 10 ^ 0)
body_text (suc s) n =
    to_decimal (n / 10 ^ suc s) ++ b'.' ∷ pad_start (suc s) (to_decimal (n % 10 ^ suc s))

-- `fromMinor`
unfoldable pub from_minor : ℤ → Currency → Text
unfolding body_text
from_minor m c =
    if ltb_ℤ m (pos 0)
    then b'-' ∷ body_text (scale_of c) (neg_part m)
    else body_text (scale_of c) (pos_part m)
