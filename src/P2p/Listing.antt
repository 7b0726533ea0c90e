-- ===== src/P2p/Listing.antt =====
-- `createOffer` of src/p2p/p2p-service.ts: what it asks of an offer before it locks anything.
use ticash_pay_demo.Prelude.Names.{
  Bool, true, false, not, Option, none, some, List, [], ◌∷◌, ◌||◌, if◌then◌else◌,
}
use ticash_pay_demo.Prelude.Int.{ℤ, pos, ltb_ℤ, leb_ℤ}
use ticash_pay_demo.Prelude.Text.{Text}
use ticash_pay_demo.Prelude.Runtime.{Numbers}
use ticash_pay_demo.Prelude.Dict.{has, or_else}
use ticash_pay_demo.Prelude.Result.{Result, ok, err, ◌>>=◌, ◌>>◌, throw_if, p2p_error, validation}
use ticash_pay_demo.Money.Currency.{Currency, eq_currency}
use ticash_pay_demo.Money.Trim.{trim}
use ticash_pay_demo.Money.Decimal.{match_unsigned}
use ticash_pay_demo.Money.Round.{convert}
use ticash_pay_demo.P2p.Types.{Offer, PaymentMethod}
use ticash_pay_demo.P2p.Service.{Market, list_offer}

-- The arguments; the window is absent or a number, which is `some none` when it is no integer.
pub record OfferArgs : Type 0 where
  pub merchant_id : Text
  pub fiat_currency : Currency
  pub price_per_unit : Text
  pub total_minor : ℤ
  pub min_fiat_minor : Option ℤ
  pub max_fiat_minor : Option ℤ
  pub pay_window_min : Option (Option ℤ)
  pub methods : List PaymentMethod

abbrev pub is_blank : Text → Bool
is_blank [] = true
is_blank (c ∷ cs) = false

-- Whether the loop over the methods throws.
unfoldable pub any {ℓ} : {A : Type ℓ} → (A → Bool) → List A → Bool
any p [] = false
any p (x ∷ xs) = p x || any p xs

-- `!m.type?.trim() || !m.label?.trim() || !m.account?.trim()`
unfoldable pub is_incomplete : PaymentMethod → Bool
is_incomplete m = is_blank (trim m.kind) || is_blank (trim m.label) || is_blank (trim m.account)

-- `assertRate`
unfoldable pub assert_rate : Numbers → Text → Result (Unit {0})
assert_rate numbers rate =
    throw_if (not (has (match_unsigned (trim rate))) || numbers.is_not_positive rate)
      (p2p_error validation)

-- A limit that is set and for which the test holds.
abbrev pub limit_is : (ℤ → Bool) → Option ℤ → Bool
limit_is test none = false
limit_is test (some x) = test x

abbrev pub crosses : Option ℤ → Option ℤ → Bool
crosses (some low) (some high) = ltb_ℤ high low
crosses _ _ = false

-- `DEFAULT_PAY_WINDOW_MIN`
abbrev pub default_pay_window_min : ℤ
default_pay_window_min = pos 30

abbrev pub window_of : Option (Option ℤ) → Option ℤ
window_of w = or_else w (some default_pay_window_min)

abbrev pub check_window : Option ℤ → Result ℤ
check_window none = err (p2p_error validation)
check_window (some w) =
    if ltb_ℤ w (pos 1) || ltb_ℤ (pos 1440) w then err (p2p_error validation) else ok w

-- The checks of `createOffer` in their order; the answer is the window.
unfoldable pub check_offer : Numbers → Currency → OfferArgs → Result ℤ
unfolding assert_rate any is_incomplete
check_offer numbers asset a = do
  throw_if (leb_ℤ a.total_minor (pos 0)) (p2p_error validation)
  throw_if (no_method a.methods) (p2p_error validation)
  throw_if (any is_incomplete a.methods) (p2p_error validation)
  assert_rate numbers a.price_per_unit
  throw_if (eq_currency a.fiat_currency asset) (p2p_error validation)
  throw_if (limit_is (λ x. ltb_ℤ x (pos 0)) a.min_fiat_minor) (p2p_error validation)
  throw_if (limit_is (λ x. leb_ℤ x (pos 0)) a.max_fiat_minor) (p2p_error validation)
  throw_if (crosses a.min_fiat_minor a.max_fiat_minor) (p2p_error validation)
  value ← convert a.total_minor asset a.fiat_currency a.price_per_unit
  throw_if (limit_is (λ x. ltb_ℤ value x) a.max_fiat_minor) (p2p_error validation)
  check_window (window_of a.pay_window_min)
  where
    no_method : List PaymentMethod → Bool
    no_method [] = true
    no_method (m ∷ ms) = false

abbrev pub list_checked :
    Currency → Text → Text → Text → OfferArgs → Market → Result ℤ → Result Offer × Market
list_checked asset id posted_at created_at a s (err e) = (err e, s)
list_checked asset id posted_at created_at a s (ok window) =
    list_offer posted_at created_at
      (record {
        id = id;
        merchant_id = a.merchant_id;
        asset = asset;
        fiat_currency = a.fiat_currency;
        price_per_unit = a.price_per_unit;
        total_minor = a.total_minor;
        min_fiat_minor = a.min_fiat_minor;
        max_fiat_minor = a.max_fiat_minor;
        pay_window_min = window;
        methods = a.methods;
      })
      s

-- `createOffer`
unfoldable pub create_offer :
    Numbers → Currency → Text → Text → Text → OfferArgs → Market → Result Offer × Market
unfolding check_offer
create_offer numbers asset id posted_at created_at a s =
    list_checked asset id posted_at created_at a s (check_offer numbers asset a)
