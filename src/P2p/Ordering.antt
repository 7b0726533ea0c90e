-- ===== src/P2p/Ordering.antt =====
-- The buyers' side of src/p2p/p2p-service.ts: opening an order, paying it, disputing it, and the
-- sweep over the unpaid ones.
use ticash_pay_demo.Prelude.Names.{
  ℕ, suc, Bool, true, false, not, Option, none, some, List, [], ◌∷◌, ◌&&◌, if◌then◌else◌,
}
use ticash_pay_demo.Prelude.Int.{ℤ, pos, ◌+ℤ◌, ◌-ℤ◌, ◌*ℤ◌, ltb_ℤ, leb_ℤ}
use ticash_pay_demo.Prelude.Text.{Text, eq_text, text_eq}
use ticash_pay_demo.Prelude.Runtime.{Dates, is_before}
use ticash_pay_demo.Prelude.Dict.{lookup}
use ticash_pay_demo.Prelude.Result.{
  Result, ok, err, ◌>>=◌, ◌>>◌, throw_if, p2p_error, not_found, conflict, validation, forbidden,
}
use ticash_pay_demo.Money.Round.{convert}
use ticash_pay_demo.Fx.Bps.{apply_bps}
use ticash_pay_demo.P2p.Types.{
  is_active, created, payment_submitted, disputed, PaymentMethod, Offer, Order, NewOrder,
}
use ticash_pay_demo.P2p.Store.{
  Proof, Store, create_order, cas_update, cancel_order, list_orders_by_status, select, save_proof,
  get_proof,
}
use ticash_pay_demo.P2p.Listing.{limit_is}

-- `offer.methods.find((m) => m.type === kind)`
unfoldable pub find_method : Text → List PaymentMethod → Option PaymentMethod
find_method kind [] = none
find_method kind (m ∷ ms) =
    let rest = find_method kind ms in if eq_text m.kind kind then some m else rest

abbrev pub first_method : List PaymentMethod → Option PaymentMethod
first_method [] = none
first_method (m ∷ ms) = some m

-- `args.methodType ? … : offer.methods[0]`
unfoldable pub choose_method : Option Text → List PaymentMethod → Option PaymentMethod
choose_method none ms = first_method ms
choose_method (some []) ms = first_method ms
choose_method (some (c ∷ cs)) ms = find_method (c ∷ cs) ms

abbrev pub require_method : Option PaymentMethod → Result PaymentMethod
require_method none = err (p2p_error validation)
require_method (some m) = ok m

abbrev pub require_offer : Option Offer → Result Offer
require_offer none = err (p2p_error not_found)
require_offer (some o) = ok o

-- What a buyer asks for.
pub record OrderArgs : Type 0 where
  pub offer_id : Text
  pub buyer_id : Text
  pub asset_minor : ℤ
  pub method_type : Option Text

-- The order that `openOrder` asks the store to make.
abbrev pub asked_for : Dates → Text → ℤ → OrderArgs → Offer → PaymentMethod → ℤ → ℤ → NewOrder
asked_for dates id now_ms a offer method commission fiat = record {
  id = id;
  offer_id = offer.id;
  merchant_id = offer.merchant_id;
  buyer_id = a.buyer_id;
  asset = offer.asset;
  asset_minor = a.asset_minor;
  commission_minor = commission;
  net_to_buyer_minor = a.asset_minor -ℤ commission;
  fiat_currency = offer.fiat_currency;
  fiat_minor = fiat;
  price_per_unit = offer.price_per_unit;
  method = method;
  timeout_at = some (dates.to_iso_string (now_ms +ℤ offer.pay_window_min *ℤ pos 60000));
}

-- `openOrder` up to the store's call: the order that it asks the store to make. `bps` is what
-- `getCommissionBps` answers.
unfoldable pub price_order : Dates → ℤ → Text → ℤ → OrderArgs → Option Offer → Result NewOrder
unfolding choose_method
price_order dates bps id now_ms a found = do
  offer ← require_offer found
  throw_if (not (is_active offer.status)) (p2p_error conflict)
  throw_if (eq_text offer.merchant_id a.buyer_id) (p2p_error validation)
  throw_if (leb_ℤ a.asset_minor (pos 0)) (p2p_error validation)
  method ← require_method (choose_method a.method_type offer.methods)
  commission ← apply_bps a.asset_minor bps
  fiat ← convert a.asset_minor offer.asset offer.fiat_currency offer.price_per_unit
  throw_if (limit_is (λ x. ltb_ℤ fiat x) offer.min_fiat_minor) (p2p_error validation)
  throw_if (limit_is (λ x. ltb_ℤ x fiat) offer.max_fiat_minor) (p2p_error validation)
  ok (asked_for dates id now_ms a offer method commission fiat)

abbrev pub open_priced : Text → Store → Result NewOrder → Result Order × Store
open_priced created_at s (err e) = (err e, s)
open_priced created_at s (ok o) = create_order created_at o s

-- `openOrder`
unfoldable pub open_order : Dates → ℤ → Text → ℤ → Text → OrderArgs → Store → Result Order × Store
unfolding price_order
open_order dates bps id now_ms created_at a s =
    open_priced created_at s (price_order dates bps id now_ms a (lookup a.offer_id s.offers))

abbrev pub or_conflict : Option Order × Store → Result Order × Store
or_conflict (none, s) = (err (p2p_error conflict), s)
or_conflict (some o, s) = (ok o, s)

abbrev pub submit_found : Text → Text → Text → Text → Store → Option Order → Result Order × Store
submit_found now timeout buyer_id proof_ref s none = (err (p2p_error not_found), s)
submit_found now timeout buyer_id proof_ref s (some o) =
    if not (eq_text o.buyer_id buyer_id)
    then (err (p2p_error forbidden), s)
    else or_conflict (
        cas_update now o.id (created ∷ [])
          (record {
            status = some payment_submitted;
            proof_ref = some proof_ref;
            dispute_reason = none;
            timeout_at = some (some timeout);
          })
          s)

-- `submitPayment`; `confirm` is `cfg.confirmWindowMinutes`.
unfoldable pub submit_payment :
    Dates → ℤ → ℤ → Text → Text → Text → Text → Store → Result Order × Store
submit_payment dates confirm now_ms now order_id buyer_id proof_ref s =
    submit_found now (dates.to_iso_string (now_ms +ℤ confirm *ℤ pos 60000)) buyer_id proof_ref s
      (lookup order_id s.orders)

abbrev pub dispute_found : Text → Text → Text → Store → Option Order → Result Order × Store
dispute_found now by reason s none = (err (p2p_error not_found), s)
dispute_found now by reason s (some o) =
    if not (eq_text o.buyer_id by) && not (eq_text o.merchant_id by)
    then (err (p2p_error forbidden), s)
    else or_conflict (
        cas_update now o.id (payment_submitted ∷ [])
          (record {
            status = some disputed;
            proof_ref = none;
            dispute_reason = some reason;
            timeout_at = none;
          })
          s)

-- `disputeOrder`
unfoldable pub dispute_order : Text → Text → Text → Text → Store → Result Order × Store
dispute_order now order_id by reason s = dispute_found now by reason s (lookup order_id s.orders)

-- `o.timeoutAt !== null && Date.parse(o.timeoutAt) < now`
abbrev pub is_late : Dates → ℤ → Option Text → Bool
is_late dates now none = false
is_late dates now (some t) = is_before (dates.parse t) now

-- `listExpired`
unfoldable pub list_expired : Dates → ℤ → Store → List Order
list_expired dates now s =
    select (λ o. is_late dates now o.timeout_at) (list_orders_by_status payment_submitted s)

-- `Date.parse(t) >= now`, which is false of `NaN`.
abbrev pub is_not_before : Option ℤ → ℤ → Bool
is_not_before none now = false
is_not_before (some x) now = leb_ℤ now x

-- `o.timeoutAt === null || Date.parse(o.timeoutAt) >= now`
unfoldable pub may_still_pay : Dates → ℤ → Option Text → Bool
may_still_pay dates now none = true
may_still_pay dates now (some t) = is_not_before (dates.parse t) now

abbrev pub counted : ℕ → Result Order × Store → ℕ × Store
counted n (ok o, s) = (suc n, s)
counted n (err e, s) = (n, s)

-- The loop of `expireUnpaidOrders`, with the count so far; an error is passed over.
unfoldable pub expire_each : Dates → ℤ → Text → List Order → ℕ → Store → ℕ × Store
unfolding may_still_pay
expire_each dates now_ms now [] n s = (n, s)
expire_each dates now_ms now (o ∷ os) n s =
    let (m, t) =
      if may_still_pay dates now_ms o.timeout_at
      then (n, s)
      else counted n (cancel_order now o.id s) in
    expire_each dates now_ms now os m t

-- `expireUnpaidOrders`
unfoldable pub expire_unpaid_orders : Dates → ℤ → Text → Store → ℕ × Store
unfolding expire_each
expire_unpaid_orders dates now_ms now s =
    expire_each dates now_ms now (list_orders_by_status created s) 0 s

abbrev pub attach_found : Text → Proof → Store → Option Order → Result (Unit {0}) × Store
attach_found buyer_id p s none = (err (p2p_error not_found), s)
attach_found buyer_id p s (some o) =
    if not (eq_text o.buyer_id buyer_id)
    then (err (p2p_error forbidden), s)
    else (ok tt, save_proof o.id p s)

-- `attachProofImage`
unfoldable pub attach_proof_image : Text → Text → Proof → Store → Result (Unit {0}) × Store
attach_proof_image order_id buyer_id p s = attach_found buyer_id p s (lookup order_id s.orders)

abbrev pub proof_found : Text → Store → Option Order → Result (Option Proof)
proof_found requester_id s none = err (p2p_error not_found)
proof_found requester_id s (some o) =
    if not (eq_text o.buyer_id requester_id) && not (eq_text o.merchant_id requester_id)
    then err (p2p_error not_found)
    else ok (get_proof o.id s)

-- `getProofImage`
unfoldable pub get_proof_image : Text → Text → Store → Result (Option Proof)
get_proof_image order_id requester_id s = proof_found requester_id s (lookup order_id s.orders)
