-- ===== src/Airtime/Margins.antt =====
-- The in-memory store of src/airtime/margin-store.ts; `toUpperCase` is an argument.
use ticash_pay_demo.Prelude.Int.{ℤ}
use ticash_pay_demo.Prelude.Text.{Text, text_eq}
use ticash_pay_demo.Prelude.Dict.{Dict, or_else, lookup, insert}
use ticash_pay_demo.Money.Trim.{trim}

pub record Margins : Type 0 where
  pub default_bps : ℤ
  pub by_country : Dict Text ℤ

-- `norm`
unfoldable pub norm : (Text → Text) → Text → Text
norm to_upper_case country = to_upper_case (trim country)

-- `get`
unfoldable pub get_margin : (Text → Text) → Text → Margins → ℤ
unfolding norm
get_margin to_upper_case country m =
    or_else (lookup (norm to_upper_case country) m.by_country) m.default_bps

-- `set`
unfoldable pub set_margin : (Text → Text) → Text → ℤ → Margins → Margins
unfolding norm
set_margin to_upper_case country bps m = record m {
  by_country = insert (norm to_upper_case country) bps m.by_country;
}
