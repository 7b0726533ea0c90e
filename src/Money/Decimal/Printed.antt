-- ===== src/Money/Decimal/Printed.antt =====
-- The two texts of a printed magnitude (`fromMinor` of src/money/money.ts).
use native.Mathlib.Nat.{pow-suc, mod-lt}
use ticash_pay_demo.Prelude.Names.{
  ℕ, zero, suc, ◌+◌, ◌-◌, ◌/◌, ◌%◌, ◌^◌, ◌≤◌, ◌<◌, ◌≡◌, refl, ap, ◌∙◌, inl, inr, Bool, true, false,
  [], ◌∷◌, ◌++◌, ◌&&◌, arith, ltb, Bool-cases,
}
use ticash_pay_demo.Prelude.Text.{Text}
use ticash_pay_demo.Prelude.Length.{length}
use ticash_pay_demo.Money.Digits.{
  is_digit, span_digits, digits_value, value_from, to_decimal, digits_before, zeros, pad_start,
}
use ticash_pay_demo.Money.Trim.{is_space, no_space}

unfoldable pub all_digits : Text → Bool
all_digits [] = true
all_digits (c ∷ cs) = is_digit c && all_digits cs

digits_before-all_digits :
    (fuel n : ℕ) (acc : Text) → all_digits acc ≡ true → all_digits (digits_before fuel n acc) ≡ true
unfolding digits_before all_digits is_digit
digits_before-all_digits zero n acc h = h
digits_before-all_digits (suc fuel) n acc h =
    ground (arith, digits_before-all_digits fuel (n / 10) ((b'0' + n % 10) ∷ acc))

value-digits_before :
    (fuel n : ℕ) (acc : Text)
    → n < fuel
    → value_from 0 (digits_before fuel n acc) ≡ value_from n acc
unfolding digits_before
value-digits_before zero n acc h = absurd (omega arith)
value-digits_before (suc fuel) n acc h = elim (Bool-cases (ltb n 10)) [
  | inl small ↦ rw small (unfold value_from in ap (λ (v : ℕ). value_from v acc) (omega arith))
  | inr large ↦ rw large (
      value-digits_before fuel (n / 10) ((b'0' + n % 10) ∷ acc) (ground arith)
      ∙ (unfold value_from in ap (λ (v : ℕ). value_from v acc) (omega arith)))
]

pub value-to_decimal : (n : ℕ) → digits_value (to_decimal n) ≡ n
unfolding digits_value to_decimal
value-to_decimal n = value-digits_before (suc n) n [] (omega arith)

value-zeros : (k : ℕ) (t : Text) → value_from 0 (zeros k ++ t) ≡ value_from 0 t
unfolding value_from zeros
value-zeros zero t = refl
value-zeros (suc k) t = value-zeros k t

all_digits-zeros : (k : ℕ) (t : Text) → all_digits t ≡ true → all_digits (zeros k ++ t) ≡ true
unfolding all_digits zeros is_digit
all_digits-zeros zero t h = h
all_digits-zeros (suc k) t h = all_digits-zeros k t h

length-zeros : (k : ℕ) (t : Text) → length (zeros k ++ t) ≡ k + length t
unfolding zeros
length-zeros zero t = omega arith
length-zeros (suc k) t = omega (arith, length-zeros k t)

length-digits_before :
    (fuel n s : ℕ) (acc : Text)
    → n < fuel
    → n < 10 ^ suc s
    → length (digits_before fuel n acc) ≤ suc s + length acc
unfolding digits_before
length-digits_before zero n s acc h k = absurd (omega arith)
length-digits_before (suc fuel) n zero acc h k = ground arith
length-digits_before (suc fuel) n (suc s) acc h k = elim (Bool-cases (ltb n 10)) [
  | inl small ↦ rw small (omega arith)
  | inr large ↦ rw large (
      omega (
        arith,
        length-digits_before fuel (n / 10) s ((b'0' + n % 10) ∷ acc) (ground arith)
            (omega (arith, pow-suc 10 (suc s))),
      ))
]

digits_before_nonempty :
    (fuel n d : ℕ) (ds : Text) → (c : ℕ) × (cs : Text) × (digits_before fuel n (d ∷ ds) ≡ c ∷ cs)
unfolding digits_before
digits_before_nonempty zero n d ds = (d, ds, refl)
digits_before_nonempty (suc fuel) n d ds = elim (Bool-cases (ltb n 10)) [
  | inl small ↦ (b'0' + n, d ∷ ds, rw small)
  | inr large ↦ rw large (digits_before_nonempty fuel (n / 10) (b'0' + n % 10) (d ∷ ds))
]

pub to_decimal_nonempty : (n : ℕ) → (c : ℕ) × (cs : Text) × (to_decimal n ≡ c ∷ cs)
unfolding to_decimal
to_decimal_nonempty n = elim (Bool-cases (ltb n 10)) [
  | inl small ↦ (b'0' + n, [], rw small)
  | inr large ↦ rw large (digits_before_nonempty n (n / 10) (b'0' + n % 10) [])
]

-- A digit is no white space, and neither is a point or a sign.
digit_no_space : (c : ℕ) → is_digit c ≡ true → is_space c ≡ false
unfolding is_digit is_space
digit_no_space c h = ground arith

pub no_space-digits :
    (t rest : Text) → all_digits t ≡ true → no_space rest ≡ true → no_space (t ++ rest) ≡ true
unfolding all_digits no_space
no_space-digits [] rest h k = k
no_space-digits (c ∷ t) rest h k = ground (arith, digit_no_space c, no_space-digits t rest)

pub span_digits-point :
    (t rest : Text) → all_digits t ≡ true → span_digits (t ++ b'.' ∷ rest) ≡ (t, b'.' ∷ rest)
unfolding all_digits span_digits
span_digits-point [] rest h = refl
span_digits-point (c ∷ t) rest h = ground (arith, span_digits-point t rest)

pub span_digits-end : (t : Text) → all_digits t ≡ true → span_digits t ≡ (t, [])
unfolding all_digits span_digits
span_digits-end [] h = refl
span_digits-end (c ∷ t) h = ground (arith, span_digits-end t)

pow_pos : (s : ℕ) → 0 < 10 ^ s
pow_pos zero = omega arith
pow_pos (suc s) = omega (arith, pow-suc 10 s, pow_pos s)

-- The two texts that a printed magnitude is made of.
abbrev pub whole_text : ℕ → ℕ → Text
whole_text s n = to_decimal (n / 10 ^ suc s)

abbrev pub frac_text : ℕ → ℕ → Text
frac_text s n = pad_start (suc s) (to_decimal (n % 10 ^ suc s))

pub all_digits-to_decimal : (n : ℕ) → all_digits (to_decimal n) ≡ true
unfolding to_decimal
all_digits-to_decimal n = digits_before-all_digits (suc n) n [] (unfold all_digits in refl)

pub all_digits-frac : (s n : ℕ) → all_digits (frac_text s n) ≡ true
unfolding pad_start
all_digits-frac s n =
    all_digits-zeros (suc s - length (to_decimal (n % 10 ^ suc s))) (to_decimal (n % 10 ^ suc s))
      (all_digits-to_decimal (n % 10 ^ suc s))

pub value-frac : (s n : ℕ) → digits_value (frac_text s n) ≡ n % 10 ^ suc s
unfolding digits_value pad_start
value-frac s n =
    value-zeros (suc s - length (to_decimal (n % 10 ^ suc s))) (to_decimal (n % 10 ^ suc s))
    ∙ (unfold digits_value in value-to_decimal (n % 10 ^ suc s))

pub length-frac : (s n : ℕ) → length (frac_text s n) ≡ suc s
unfolding pad_start to_decimal
length-frac s n =
    let r = n % 10 ^ suc s in
    omega (
      arith,
      length-zeros (suc s - length (digits_before (suc r) r [])) (digits_before (suc r) r []),
      length-digits_before (suc r) r s [] (omega arith) (mod-lt n (pow_pos (suc s))),
    )

pub frac_nonempty : (s n : ℕ) → (c : ℕ) × (cs : Text) × (frac_text s n ≡ c ∷ cs)
frac_nonempty s n = go (frac_text s n) (length-frac s n)
  where
    go : (t : Text) → length t ≡ suc s → (c : ℕ) × (cs : Text) × (t ≡ c ∷ cs)
    go [] h = absurd (omega arith)
    go (c ∷ cs) h = (c, cs, refl)
