-- ===== src/Money/Round/Bounds.antt =====
-- What rounding and conversion do to an amount.
use native.Mathlib.Nat.{add-zero, zero-add, mul-one, le_antisymm}
use native.Mathlib.Decide.{dec_le}
use ticash_pay_demo.Prelude.Names.{
  ℕ, suc, ◌+◌, ◌-◌, ◌*◌, ◌%◌, ◌^◌, ◌≤◌, ◌<◌, ◌≡◌, Bool, some, arith, if◌then◌else◌,
}
use ticash_pay_demo.Prelude.Int.{
  ℤ, pos, negsuc, neg, ◌+ℤ◌, ◌*ℤ◌, ◌≤ℤ◌, ◌<ℤ◌, ltb_ℤ, pos_part, neg_part, eq_of_parts,
}
use ticash_pay_demo.Prelude.Text.{codes}
use ticash_pay_demo.Prelude.Result.{ok, err, plain_error}
use ticash_pay_demo.Money.Currency.{
  Currency, brl, htg, usd, dop, mxn, usdt, scale_of, payout_minor_step,
}
use ticash_pay_demo.Money.Digits.{digits_value, span_digits}
use ticash_pay_demo.Money.Trim.{trim, is_space}
use ticash_pay_demo.Money.Decimal.{match_unsigned}
use ticash_pay_demo.Money.Round.{
  half_up, round_half_up_div, convert_at, convert, floor_to_payout_unit,
}

-- `k` is the integer nearest to n / d, the larger one where two are as near.
abbrev pub IsNearest : ℕ → ℕ → ℕ → Type 0
IsNearest n d k = (2 * n < 2 * (k * d) + d) × (2 * (k * d) ≤ 2 * n + d)

pub half_up-IsNearest : (n d : ℕ) → 0 < d → IsNearest n d (half_up n d)
unfolding half_up
half_up-IsNearest n d h = grind arith

pub nearest_mono : (n m d k l : ℕ) → n ≤ m → IsNearest n d k → IsNearest m d l → k ≤ l
nearest_mono n m d k l h a b = elim (dec_le k l) [
  | yes p ↦ p
  | no p ↦ absurd (omega (arith, mul_mono_left d (suc l) k (omega arith), a.1, b.0))
]
  where
    mul_mono_left : (d a b : ℕ) → a ≤ b → a * d ≤ b * d
    mul_mono_left d a b q = grind arith

half_up_mono : (n m d : ℕ) → 0 < d → n ≤ m → half_up n d ≤ half_up m d
half_up_mono n m d h le =
    nearest_mono n m d (half_up n d) (half_up m d) le (half_up-IsNearest n d h)
      (half_up-IsNearest m d h)

-- An amount as sign and magnitude.
abbrev pub signed : Bool → ℕ → ℤ
signed negative k = if negative then neg (pos k) else pos k

abbrev pub magnitude : ℤ → ℕ
magnitude a = pos_part a + neg_part a

-- Division by a positive number returns the nearest integer, with the sign of the numerator and
-- halves away from zero.
pub round_half_up_div-IsNearest :
    (a : ℤ) (d : ℕ)
    → 0 < d
    → (k : ℕ) × (round_half_up_div a (pos d) ≡ ok (signed (ltb_ℤ a (pos 0)) k))
      × IsNearest (magnitude a) d k
unfolding round_half_up_div
round_half_up_div-IsNearest (pos n) d h =
    (half_up n d, ground arith, rw add-zero (half_up-IsNearest n d h))
round_half_up_div-IsNearest (negsuc n) d h =
    (half_up (suc n) d, ground arith, rw zero-add (half_up-IsNearest (suc n) d h))

-- Any other divisor is refused.
pub round_half_up_div_refused : (a d : ℤ) → d ≤ℤ pos 0 → round_half_up_div a d ≡ err plain_error
unfolding round_half_up_div
round_half_up_div_refused a d h = ground arith

-- For an amount that is not negative, the payout amount never exceeds it, is a whole number of the
-- rail's units, and leaves less than one unit behind.
pub floor_to_payout_unit_bounds :
    (m : ℕ) (c : Currency)
    → let r = floor_to_payout_unit (pos m) c in
      (r ≤ℤ pos m)
      × (pos m <ℤ r +ℤ payout_minor_step c)
      × (pos_part r % pos_part (payout_minor_step c) ≡ 0)
unfolding floor_to_payout_unit payout_minor_step ◌+ℤ◌
floor_to_payout_unit_bounds m htg = ground arith
floor_to_payout_unit_bounds m other = ground arith

half_up_exact : (n d : ℕ) → 0 < d → half_up (n * d) d ≡ n
half_up_exact n d h =
    le_antisymm
      (nearest_mono (n * d) (n * d) d (half_up (n * d) d) n (omega arith)
        (half_up-IsNearest (n * d) d h) (omega arith, omega arith))
      (nearest_mono (n * d) (n * d) d n (half_up (n * d) d) (omega arith) (omega arith, omega arith)
        (half_up-IsNearest (n * d) d h))

-- A product with a natural number keeps the sign.
mul_parts :
    (a : ℤ) (d : ℕ)
    → (pos_part (a *ℤ pos d) ≡ pos_part a * d) × (neg_part (a *ℤ pos d) ≡ neg_part a * d)
unfolding ◌*ℤ◌
mul_parts (pos n) d = (grind arith, grind arith)
mul_parts (negsuc n) d = (grind arith, grind arith)

mul_one : (a : ℤ) → a *ℤ pos 1 ≡ a
mul_one a = let (p, n) = mul_parts a 1 in eq_of_parts (a *ℤ pos 1) a (omega arith)

below_product : (n d : ℕ) → 0 < d → suc (suc n * d - 1) ≡ suc n * d
below_product n d h = grind arith

round_exact : (a : ℤ) (d : ℕ) → 0 < d → round_half_up_div (a *ℤ pos d) (pos d) ≡ ok a
unfolding round_half_up_div
round_exact (pos n) d h =
    let (p, m) = mul_parts (pos n) d in
    let product : pos n *ℤ pos d ≡ pos (n * d) = eq_of_parts _ _ (omega arith) in
    rw product (ground (arith, half_up_exact n d h))
round_exact (negsuc n) d h =
    let (p, m) = mul_parts (negsuc n) d in
    let whole = below_product n d h in
    let product : negsuc n *ℤ pos d ≡ negsuc (suc n * d - 1) = eq_of_parts _ _ (omega arith) in
    rw (product, whole, half_up_exact (suc n) d h) (unfold neg in ground arith)

convert_at_one : (a : ℤ) (s : ℕ) → 0 < 10 ^ s → convert_at a s s (some (1, 0)) ≡ ok a
convert_at_one a s h = rw (mul_one a, mul-one (10 ^ s)) (round_exact a (10 ^ s) h)

-- Within one currency, the rate `1` of a domestic transfer changes no amount.
pub convert_identity : (a : ℤ) (c : Currency) → convert a c c (codes "1") ≡ ok a
unfolding convert scale_of digits_value match_unsigned span_digits trim is_space
convert_identity a brl = convert_at_one a 2 (omega arith)
convert_identity a htg = convert_at_one a 2 (omega arith)
convert_identity a usd = convert_at_one a 2 (omega arith)
convert_identity a dop = convert_at_one a 2 (omega arith)
convert_identity a mxn = convert_at_one a 2 (omega arith)
convert_identity a usdt = convert_at_one a 6 (omega arith)
