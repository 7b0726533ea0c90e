-- ===== src/Money/Currency.antt =====
-- src/money/currency.ts: the currency catalogue.
use ticash_pay_demo.Prelude.Names.{
  ℕ, ◌^◌, ◌≡◌, refl, ap, ◌↔◌, Bool, true, false, Option, none, some, arith, if◌then◌else◌, Eq,
}
use ticash_pay_demo.Prelude.Int.{ℤ, pos}
use ticash_pay_demo.Prelude.Text.{Text, codes, eq_text}
use ticash_pay_demo.Prelude.Result.{Result, ok, err, plain_error}

pub data Currency : Type 0 where
  brl htg usd dop mxn usdt : Currency

-- The key of each entry of `CURRENCIES`.
unfoldable pub currency_text : Currency → Text
currency_text brl = codes "BRL"
currency_text htg = codes "HTG"
currency_text usd = codes "USD"
currency_text dop = codes "DOP"
currency_text mxn = codes "MXN"
currency_text usdt = codes "USDT"

-- `isCurrency`, with the entry that the key names.
unfoldable pub currency_of : Text → Option Currency
unfolding currency_text
currency_of t =
    if eq_text t (currency_text brl)
    then some brl
    else if eq_text t (currency_text htg)
    then some htg
    else if eq_text t (currency_text usd)
    then some usd
    else if eq_text t (currency_text dop)
    then some dop
    else if eq_text t (currency_text mxn)
    then some mxn
    else if eq_text t (currency_text usdt)
    then some usdt
    else none

-- `assertCurrency`
unfoldable pub assert_currency : Text → Result Currency
unfolding currency_of
assert_currency t = elim (currency_of t) [ none ↦ err plain_error | some c ↦ ok c ]

-- `scaleOf`: decimal places kept in minor units.
unfoldable pub scale_of : Currency → ℕ
scale_of brl = 2
scale_of htg = 2
scale_of usd = 2
scale_of dop = 2
scale_of mxn = 2
scale_of usdt = 6

-- `payoutMinorStep`: Haitian rails take whole gourdes only.
unfoldable pub payout_minor_step : Currency → ℤ
unfolding scale_of
payout_minor_step htg = pos (10 ^ scale_of htg)
payout_minor_step other = pos 1

unfoldable pub eq_currency : Currency → Currency → Bool
eq_currency brl brl = true
eq_currency htg htg = true
eq_currency usd usd = true
eq_currency dop dop = true
eq_currency mxn mxn = true
eq_currency usdt usdt = true
eq_currency a b = false

pub eq_currency_iff : (a b : Currency) → (eq_currency a b ≡ true) ↔ (a ≡ b)
unfolding eq_currency
eq_currency_iff a b = ground arith

instance abbrev pub currency_eq : Eq Currency
currency_eq = record { beq = eq_currency; beq_iff = eq_currency_iff }

-- Every key of the catalogue is read back as its own entry.
pub currency_of-currency_text : (c : Currency) → currency_of (currency_text c) ≡ some c
unfolding currency_of currency_text eq_text
currency_of-currency_text brl = refl
currency_of-currency_text htg = refl
currency_of-currency_text usd = refl
currency_of-currency_text dop = refl
currency_of-currency_text mxn = refl
currency_of-currency_text usdt = refl

pub currency_text_injective : (a b : Currency) → currency_text a ≡ currency_text b → a ≡ b
currency_text_injective a b h =
    cc (ap currency_of h, currency_of-currency_text a, currency_of-currency_text b)
