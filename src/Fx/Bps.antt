-- ===== src/Fx/Bps.antt =====
-- src/fx/rate-service.ts: basis points and the customer's rate. Basis points are integers here,
-- so that the check `Number.isInteger` always passes.
pub mod Bounds
use ticash_pay_demo.Prelude.Names.{
  ℕ, suc, ◌+◌, ◌-◌, ◌*◌, zero, Bool, true, false, Option, none, some, List, [], ◌∷◌, ◌++◌, ◌||◌,
  not, eqb, if◌then◌else◌,
}
use ticash_pay_demo.Prelude.Int.{ℤ, pos, pos_part, ◌-ℤ◌, ◌*ℤ◌, ltb_ℤ, leb_ℤ}
use ticash_pay_demo.Prelude.Text.{Text, codes}
use ticash_pay_demo.Prelude.Length.{length}
use ticash_pay_demo.Prelude.Result.{
  Result, ok, err, ◌>>=◌, ◌>>◌, throw_if, ledger_error, ledger_validation,
}
use ticash_pay_demo.Money.Digits.{digits_value, to_decimal, pad_start}
use ticash_pay_demo.Money.Trim.{trim}
use ticash_pay_demo.Money.Decimal.{match_unsigned}
use ticash_pay_demo.Money.Round.{round_half_up_div}

-- `assertBps`
unfoldable pub assert_bps : ℤ → Result (Unit {0})
assert_bps bps =
    throw_if (ltb_ℤ bps (pos 0) || leb_ℤ (pos 10000) bps) (ledger_error ledger_validation)

-- `applyBps`
unfoldable pub apply_bps : ℤ → ℤ → Result ℤ
unfolding assert_bps
apply_bps amount bps = do assert_bps bps; round_half_up_div (amount *ℤ bps) (pos 10000)

-- `.replace(/0+$/, '')`
abbrev pub cons_unless_zero : Bool → ℕ → Text → Text
cons_unless_zero true c [] = []
cons_unless_zero _ c cs = c ∷ cs

unfoldable pub drop_zeros : Text → Text
drop_zeros [] = []
drop_zeros (c ∷ cs) = cons_unless_zero (eqb c b'0') c (drop_zeros cs)

-- The first `n` characters, and the others.
unfoldable pub split_at : ℕ → Text → Text × Text
split_at zero t = ([], t)
split_at (suc n) [] = ([], [])
split_at (suc n) (c ∷ cs) = let (front, back) = split_at n cs in (c ∷ front, back)

abbrev pub with_point : Text → Text → Text
with_point whole [] = whole
with_point whole (d ∷ ds) = whole ++ b'.' ∷ d ∷ ds

-- `renderScaled`
unfoldable pub render_scaled : ℕ → ℕ → Text
unfolding split_at drop_zeros
render_scaled value scale =
    let s = pad_start (scale + 1) (to_decimal value) in
    let (whole, frac) = split_at (length s - scale) s in with_point whole (drop_zeros frac)

abbrev pub margined : ℤ → Option (Text × Text) → Result Text
margined margin none = err (ledger_error ledger_validation)
margined margin (some (whole, frac)) = ok (
    render_scaled (digits_value (whole ++ frac) * pos_part (pos 10000 -ℤ margin)) (length frac + 4))

-- `marginedRate`
unfoldable pub margined_rate : Text → ℤ → Result Text
unfolding assert_bps render_scaled
margined_rate mid margin = do assert_bps margin; margined margin (match_unsigned (trim mid))
