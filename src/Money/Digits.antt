-- ===== src/Money/Digits.antt =====
-- Decimal digits: what `BigInt(text)`, `toString`, `padStart` and `\d+` do, for src/money/money.ts.
use ticash_pay_demo.Prelude.Names.{
  ℕ, zero, suc, ◌+◌, ◌-◌, ◌*◌, ◌/◌, ◌%◌, Bool, ◌&&◌, [], ◌∷◌, ◌++◌, ltb, leb, if◌then◌else◌,
}
use ticash_pay_demo.Prelude.Text.{Text}
use ticash_pay_demo.Prelude.Length.{length}

unfoldable pub is_digit : ℕ → Bool
is_digit c = leb b'0' c && leb c b'9'

-- The digits at the front, and what follows them: `\d*`.
unfoldable pub span_digits : Text → Text × Text
unfolding is_digit
span_digits [] = ([], [])
span_digits (c ∷ cs) =
    let (ds, rest) = span_digits cs in if is_digit c then (c ∷ ds, rest) else ([], c ∷ cs)

-- `BigInt(ds)` on a text of digits, from the value so far.
unfoldable pub value_from : ℕ → Text → ℕ
value_from acc [] = acc
value_from acc (c ∷ cs) = value_from (acc * 10 + (c - b'0')) cs

unfoldable pub digits_value : Text → ℕ
unfolding value_from
digits_value ds = value_from 0 ds

-- `n.toString()`: the digits of `n` put before `acc`. The fuel is the number of digits at most.
unfoldable pub digits_before : ℕ → ℕ → Text → Text
digits_before zero n acc = acc
digits_before (suc fuel) n acc =
    let rest = digits_before fuel (n / 10) ((b'0' + n % 10) ∷ acc) in
    if ltb n 10 then (b'0' + n) ∷ acc else rest

unfoldable pub to_decimal : ℕ → Text
unfolding digits_before
to_decimal n = digits_before (suc n) n []

unfoldable pub zeros : ℕ → Text
zeros zero = []
zeros (suc n) = b'0' ∷ zeros n

-- `t.padStart(width, '0')` and `t.padEnd(width, '0')`
unfoldable pub pad_start : ℕ → Text → Text
unfolding zeros
pad_start width t = zeros (width - length t) ++ t

unfoldable pub pad_end : ℕ → Text → Text
unfolding zeros
pad_end width t = t ++ zeros (width - length t)
