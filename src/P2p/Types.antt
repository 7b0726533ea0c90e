-- ===== src/P2p/Types.antt =====
-- src/p2p/types.ts.
use ticash_pay_demo.Prelude.Names.{Bool, true, false, Option, List, [], ◌∷◌, ◌||◌}
use ticash_pay_demo.Prelude.Int.{ℤ}
use ticash_pay_demo.Prelude.Text.{Text}
use ticash_pay_demo.Money.Currency.{Currency}

pub data OfferStatus : Type 0 where
  active closed : OfferStatus

unfoldable pub is_active : OfferStatus → Bool
is_active active = true
is_active closed = false

pub data OrderStatus : Type 0 where
  created payment_submitted released cancelled disputed : OrderStatus

unfoldable pub eq_status : OrderStatus → OrderStatus → Bool
eq_status created created = true
eq_status payment_submitted payment_submitted = true
eq_status released released = true
eq_status cancelled cancelled = true
eq_status disputed disputed = true
eq_status _ _ = false

-- `xs.has(t)` and `xs.includes(t)`
unfoldable pub includes : List OrderStatus → OrderStatus → Bool
includes [] t = false
includes (x ∷ xs) t = eq_status x t || includes xs t

-- `CANCELLABLE`
abbrev pub cancellable : List OrderStatus
cancellable = created ∷ payment_submitted ∷ disputed ∷ []

-- `ACTIVE_ORDER`
abbrev pub active_order : List OrderStatus
active_order = created ∷ payment_submitted ∷ disputed ∷ []

pub record PaymentMethod : Type 0 where
  -- `type`
  pub kind : Text
  pub label : Text
  pub account : Text

pub record Offer : Type 0 where
  pub id : Text
  pub merchant_id : Text
  pub asset : Currency
  pub fiat_currency : Currency
  pub price_per_unit : Text
  pub total_minor : ℤ
  pub remaining_minor : ℤ
  pub min_fiat_minor : Option ℤ
  pub max_fiat_minor : Option ℤ
  pub pay_window_min : ℤ
  pub methods : List PaymentMethod
  pub status : OfferStatus
  pub created_at : Text

pub record Order : Type 0 where
  pub id : Text
  pub offer_id : Text
  pub merchant_id : Text
  pub buyer_id : Text
  pub asset : Currency
  pub asset_minor : ℤ
  pub commission_minor : ℤ
  pub net_to_buyer_minor : ℤ
  pub fiat_currency : Currency
  pub fiat_minor : ℤ
  pub price_per_unit : Text
  pub method : PaymentMethod
  pub status : OrderStatus
  pub proof_ref : Option Text
  pub dispute_reason : Option Text
  pub timeout_at : Option Text
  pub created_at : Text
  pub updated_at : Text

pub record NewOffer : Type 0 where
  pub id : Text
  pub merchant_id : Text
  pub asset : Currency
  pub fiat_currency : Currency
  pub price_per_unit : Text
  pub total_minor : ℤ
  pub min_fiat_minor : Option ℤ
  pub max_fiat_minor : Option ℤ
  pub pay_window_min : ℤ
  pub methods : List PaymentMethod

pub record NewOrder : Type 0 where
  pub id : Text
  pub offer_id : Text
  pub merchant_id : Text
  pub buyer_id : Text
  pub asset : Currency
  pub asset_minor : ℤ
  pub commission_minor : ℤ
  pub net_to_buyer_minor : ℤ
  pub fiat_currency : Currency
  pub fiat_minor : ℤ
  pub price_per_unit : Text
  pub method : PaymentMethod
  pub timeout_at : Option Text

-- A field that is `none` is `undefined`; a `timeoutAt` of `null` is `some none`.
pub record OrderPatch : Type 0 where
  pub status : Option OrderStatus
  pub proof_ref : Option Text
  pub dispute_reason : Option Text
  pub timeout_at : Option (Option Text)
