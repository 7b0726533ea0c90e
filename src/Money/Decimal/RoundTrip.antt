-- ===== src/Money/Decimal/RoundTrip.antt =====
-- `fromMinor`, then `toMinor` (src/money/money.ts).
use native.Mathlib.Nat.{div-add-mod'}
use mathlib.Core.List.{append-nil}
use ticash_pay_demo.Prelude.Names.{
  ℕ, suc, ◌-◌, ◌/◌, ◌^◌, ◌≡◌, refl, ap, ◌∙◌, Bool, true, false, some, [], ◌∷◌, arith, ltb, eqb,
  if◌then◌else◌,
}
use ticash_pay_demo.Prelude.Int.{ℤ, pos, negsuc, neg, ltb_ℤ, int_laws}
use ticash_pay_demo.Prelude.Text.{Text}
use ticash_pay_demo.Prelude.Length.{length}
use ticash_pay_demo.Prelude.Result.{ok}
use ticash_pay_demo.Money.Currency.{Currency, brl, htg, usd, dop, mxn, usdt, scale_of}
use ticash_pay_demo.Money.Digits.{is_digit, zeros, pad_end}
use ticash_pay_demo.Money.Trim.{is_space, trim, no_space, trim-no_space}
use ticash_pay_demo.Money.Decimal.{
  match_unsigned, match_signed, minor_of, of_match, text_amount, to_minor, body_text, from_minor,
}
use ticash_pay_demo.Money.Decimal.Printed.{
  all_digits, value-to_decimal, to_decimal_nonempty, no_space-digits, span_digits-point,
  span_digits-end, whole_text, frac_text, all_digits-to_decimal, all_digits-frac, value-frac,
  length-frac, frac_nonempty,
}

-- The pattern splits a printed magnitude into its two texts.
match_unsigned-body :
    (s n : ℕ) → match_unsigned (body_text (suc s) n) ≡ some (whole_text s n, frac_text s n)
unfolding match_unsigned body_text
match_unsigned-body s n =
    let (w, ws, whole) = to_decimal_nonempty (n / 10 ^ suc s) in
    let (f, fs, frac) = frac_nonempty s n in
    rw (span_digits-point (whole_text s n) (frac_text s n) (all_digits-to_decimal (n / 10 ^ suc s)))
      (rw whole (rw (span_digits-end (frac_text s n) (all_digits-frac s n)) (rw frac)))

pad_end_full : (t : Text) (width : ℕ) → length t ≡ width → pad_end width t ≡ t
unfolding pad_end
pad_end_full t width h =
    let none_left : width - length t ≡ 0 = omega arith in
    rw none_left (unfold zeros in append-nil t)

minor_of-body :
    (s n : ℕ) (negative : Bool)
    → minor_of (suc s) negative (whole_text s n) (frac_text s n)
      ≡ ok (if negative then neg (pos n) else pos n)
unfolding minor_of
minor_of-body s n negative =
    let fits : ltb (suc s) (suc s) ≡ false = ground arith in
    rw (length-frac s n, fits, pad_end_full (frac_text s n) (suc s) (length-frac s n))
      (rw (value-frac s n, value-to_decimal (n / 10 ^ suc s), div-add-mod' n (10 ^ suc s)))

match_signed-body :
    (s n : ℕ) → match_signed (body_text (suc s) n) ≡ (false, match_unsigned (body_text (suc s) n))
unfolding match_signed body_text
match_signed-body s n =
    let (w, ws, whole) = to_decimal_nonempty (n / 10 ^ suc s) in
    let digit : is_digit w ≡ true =
      first_digit w ws (rw whole at (all_digits-to_decimal (n / 10 ^ suc s))) in
    rw whole (ground (arith, no_sign w digit))
  where
    first_digit : (c : ℕ) (cs : Text) → all_digits (c ∷ cs) ≡ true → is_digit c ≡ true
    first_digit c cs h = unfold all_digits in ground arith

    no_sign : (c : ℕ) → is_digit c ≡ true → eqb c b'-' ≡ false
    no_sign c h = unfold is_digit in ground arith

no_space-body : (s n : ℕ) → no_space (body_text (suc s) n) ≡ true
unfolding body_text
no_space-body s n =
    no_space-digits (whole_text s n) (b'.' ∷ frac_text s n) (all_digits-to_decimal (n / 10 ^ suc s))
      (unfold no_space is_space in
        rw (← append-nil (frac_text s n))
          (no_space-digits (frac_text s n) [] (all_digits-frac s n) refl))

read_body : (s n : ℕ) → of_match (suc s) (match_signed (trim (body_text (suc s) n))) ≡ ok (pos n)
read_body s n =
    rw
      (
        trim-no_space (body_text (suc s) n) (no_space-body s n),
        match_signed-body s n,
        match_unsigned-body s n,
      )
      (minor_of-body s n false)

read_negative_body :
    (s n : ℕ)
    → of_match (suc s) (match_signed (trim (b'-' ∷ body_text (suc s) n))) ≡ ok (neg (pos n))
read_negative_body s n =
    rw (trim-no_space (b'-' ∷ body_text (suc s) n) (unfold no_space is_space in no_space-body s n))
      (unfold match_signed in rw (match_unsigned-body s n) (minor_of-body s n true))

read_printed :
    (s : ℕ) (c : Currency) (m : ℤ)
    → scale_of c ≡ suc s
    → to_minor (text_amount (from_minor m c)) c ≡ ok m
unfolding to_minor from_minor
read_printed s c (pos n) h =
    let signless : ltb_ℤ (pos n) (pos 0) ≡ false = ground arith in rw (h, signless) (read_body s n)
read_printed s c (negsuc n) h =
    let signed : ltb_ℤ (negsuc n) (pos 0) ≡ true = ground arith in
    rw (h, signed) (read_negative_body s (suc n) ∙ ap ok (omega int_laws))

-- An amount printed by `fromMinor` is read back by `toMinor` as the same amount, for every
-- currency and every signed amount.
pub to_minor-from_minor : (m : ℤ) (c : Currency) → to_minor (text_amount (from_minor m c)) c ≡ ok m
to_minor-from_minor m brl = read_printed 1 brl m (unfold scale_of in refl)
to_minor-from_minor m htg = read_printed 1 htg m (unfold scale_of in refl)
to_minor-from_minor m usd = read_printed 1 usd m (unfold scale_of in refl)
to_minor-from_minor m dop = read_printed 1 dop m (unfold scale_of in refl)
to_minor-from_minor m mxn = read_printed 1 mxn m (unfold scale_of in refl)
to_minor-from_minor m usdt = read_printed 5 usdt m (unfold scale_of in refl)
