-- ===== src/Prelude/Runtime.antt =====
-- What the services ask of the JavaScript run time, as arguments.
use ticash_pay_demo.Prelude.Names.{Bool, false, Option, none, some}
use ticash_pay_demo.Prelude.Int.{ℤ, ltb_ℤ}
use ticash_pay_demo.Prelude.Text.{Text}

-- `Date.parse`, with nothing for `NaN`, and `new Date(ms).toISOString()`.
pub record Dates : Type 0 where
  pub parse : Text → Option ℤ
  pub to_iso_string : ℤ → Text

-- A comparison `<` of a number that may be `NaN`.
abbrev pub is_before : Option ℤ → ℤ → Bool
is_before none now = false
is_before (some x) now = ltb_ℤ x now

-- `Number(t)` where it is an integer (`Number.isInteger`), and whether `Number(t) <= 0`.
pub record Numbers : Type 0 where
  pub to_integer : Text → Option ℤ
  pub is_not_positive : Text → Bool
