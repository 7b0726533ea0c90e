-- ===== src/P2p/Store.antt =====
-- The in-memory store of src/p2p/p2p-store.ts. A row is handed out as a copy, as
-- `structuredClone` does; the clock's answers are arguments.
pub mod Covered
pub mod Cancelling
pub mod Quiet
use ticash_pay_demo.Prelude.Names.{
  Bool, not, Option, none, some, List, [], ◌∷◌, ◌&&◌, ◌||◌, if◌then◌else◌,
}
use ticash_pay_demo.Prelude.Int.{ℤ, pos, ◌+ℤ◌, ◌-ℤ◌, ltb_ℤ, leb_ℤ}
use ticash_pay_demo.Prelude.Text.{Text, eq_text, text_eq}
use ticash_pay_demo.Prelude.Dict.{Dict, lookup, insert, values, or_else}
use ticash_pay_demo.Prelude.Weigh.{some_value}
use ticash_pay_demo.Prelude.Result.{
  Result, ok, err, ◌>>◌, throw_if, p2p_error, not_found, conflict, validation,
}
use ticash_pay_demo.P2p.Types.{
  active, closed, is_active, OrderStatus, created, cancelled, eq_status, includes, cancellable,
  active_order, Offer, Order, NewOffer, NewOrder, OrderPatch,
}

pub record Proof : Type 0 where
  pub image : Text
  pub content_type : Text

pub record Store : Type 0 where
  pub offers : Dict Text Offer
  pub orders : Dict Text Order
  pub proofs : Dict Text Proof

-- `createOffer`
unfoldable pub new_offer : Text → NewOffer → Offer
new_offer now o = record {
  id = o.id;
  merchant_id = o.merchant_id;
  asset = o.asset;
  fiat_currency = o.fiat_currency;
  price_per_unit = o.price_per_unit;
  total_minor = o.total_minor;
  remaining_minor = o.total_minor;
  min_fiat_minor = o.min_fiat_minor;
  max_fiat_minor = o.max_fiat_minor;
  pay_window_min = o.pay_window_min;
  methods = o.methods;
  status = active;
  created_at = now;
}

unfoldable pub create_offer : Text → NewOffer → Store → Offer × Store
create_offer now o s =
    (new_offer now o, record s { offers = insert o.id (new_offer now o) s.offers })

abbrev pub select {ℓ} : {A : Type ℓ} → (A → Bool) → List A → List A
select p [] = []
select p (x ∷ xs) = let rest = select p xs in if p x then x ∷ rest else rest

-- `listActiveOffers`
unfoldable pub list_active_offers : Store → List Offer
list_active_offers s =
    select (λ o. is_active o.status && ltb_ℤ (pos 0) o.remaining_minor) (values s.offers)

-- `listOffersByMerchant`
unfoldable pub list_offers_by_merchant : Text → Store → List Offer
list_offers_by_merchant merchant_id s =
    select (λ o. eq_text o.merchant_id merchant_id) (values s.offers)

-- `closeOffer`
abbrev pub close_found : Text → Text → Store → Option Offer → Option Offer × Store
close_found id merchant_id s none = (none, s)
close_found id merchant_id s (some o) =
    if not (eq_text o.merchant_id merchant_id) || not (is_active o.status) then (none, s) else (
      some (record o { status = closed }),
      record s { offers = insert id (record o { status = closed }) s.offers },
    )

unfoldable pub close_offer : Text → Text → Store → Option Offer × Store
close_offer id merchant_id s = close_found id merchant_id s (lookup id s.offers)

-- `createOrder`
unfoldable pub new_order : Text → NewOrder → Order
new_order now o = record {
  id = o.id;
  offer_id = o.offer_id;
  merchant_id = o.merchant_id;
  buyer_id = o.buyer_id;
  asset = o.asset;
  asset_minor = o.asset_minor;
  commission_minor = o.commission_minor;
  net_to_buyer_minor = o.net_to_buyer_minor;
  fiat_currency = o.fiat_currency;
  fiat_minor = o.fiat_minor;
  price_per_unit = o.price_per_unit;
  method = o.method;
  status = created;
  proof_ref = none;
  dispute_reason = none;
  timeout_at = o.timeout_at;
  created_at = now;
  updated_at = now;
}

-- The offer with `x` more available.
unfoldable pub with_remaining : ℤ → Offer → Offer
with_remaining x o = record o { remaining_minor = x }

-- Its checks, in order.
unfoldable pub check_order : NewOrder → Offer → Result (Unit {0})
check_order o offer = do
  throw_if (not (is_active offer.status)) (p2p_error conflict)
  throw_if (leb_ℤ o.asset_minor (pos 0)) (p2p_error validation)
  throw_if (ltb_ℤ offer.remaining_minor o.asset_minor) (p2p_error conflict)

unfoldable pub reserve : Text → NewOrder → Offer → Store → Store
unfolding with_remaining new_order
reserve now o offer s = record s {
  offers =
      insert o.offer_id (with_remaining (offer.remaining_minor -ℤ o.asset_minor) offer) s.offers;
  orders = insert o.id (new_order now o) s.orders;
}

abbrev pub create_order_checked :
    Text → NewOrder → Offer → Store → Result (Unit {0}) → Result Order × Store
create_order_checked now o offer s (err e) = (err e, s)
create_order_checked now o offer s (ok _) = (ok (new_order now o), reserve now o offer s)

abbrev pub create_order_found : Text → NewOrder → Store → Option Offer → Result Order × Store
create_order_found now o s none = (err (p2p_error not_found), s)
create_order_found now o s (some offer) = create_order_checked now o offer s (check_order o offer)

unfoldable pub create_order : Text → NewOrder → Store → Result Order × Store
create_order now o s = create_order_found now o s (lookup o.offer_id s.offers)

-- `listOrdersByBuyer`, `listOrdersByMerchant` and `listOrdersByStatus`
unfoldable pub list_orders_by_buyer : Text → Store → List Order
list_orders_by_buyer buyer_id s = select (λ o. eq_text o.buyer_id buyer_id) (values s.orders)

unfoldable pub list_orders_by_merchant : Text → Store → List Order
list_orders_by_merchant merchant_id s =
    select (λ o. eq_text o.merchant_id merchant_id) (values s.orders)

unfoldable pub list_orders_by_status : OrderStatus → Store → List Order
list_orders_by_status status s = select (λ o. eq_status o.status status) (values s.orders)

-- `if (x !== undefined) field = x` where the field may be null.
abbrev pub set_text : Option Text → Option Text → Option Text
set_text none old = old
set_text (some x) old = some x

-- `updateOrder` and `casUpdate`: what a patch does to a row.
unfoldable pub patched : Text → OrderPatch → Order → Order
patched now p o = record o {
  status = or_else p.status o.status;
  proof_ref = set_text p.proof_ref o.proof_ref;
  dispute_reason = set_text p.dispute_reason o.dispute_reason;
  timeout_at = or_else p.timeout_at o.timeout_at;
  updated_at = now;
}

unfoldable pub put_order : Text → Order → Store → Store
put_order id o s = record s { orders = insert id o s.orders }

abbrev pub update_found : Text → Text → OrderPatch → Store → Option Order → Result Order × Store
update_found now id p s none = (err (p2p_error not_found), s)
update_found now id p s (some o) = (ok (patched now p o), put_order id (patched now p o) s)

unfoldable pub update_order : Text → Text → OrderPatch → Store → Result Order × Store
update_order now id p s = update_found now id p s (lookup id s.orders)

-- `casUpdate`
abbrev pub cas_found :
    Text → Text → List OrderStatus → OrderPatch → Store → Option Order → Option Order × Store
cas_found now id from p s none = (none, s)
cas_found now id from p s (some o) =
    if includes from o.status
    then (some (patched now p o), put_order id (patched now p o) s)
    else (none, s)

unfoldable pub cas_update :
    Text → Text → List OrderStatus → OrderPatch → Store → Option Order × Store
cas_update now id from p s = cas_found now id from p s (lookup id s.orders)

-- `cancelOrder`
unfoldable pub cancelled_order : Text → Order → Order
cancelled_order now o = record o { status = cancelled; updated_at = now }

-- `if (offer) offer.remainingMinor += o.assetMinor`
abbrev pub give_back : Text → ℤ → Option Offer → Store → Store
give_back offer_id x none s = s
give_back offer_id x (some offer) s = record s {
  offers = insert offer_id (with_remaining (offer.remaining_minor +ℤ x) offer) s.offers;
}

unfoldable pub cancel_row : Text → Text → Order → Store → Store
unfolding with_remaining cancelled_order put_order
cancel_row now id o s =
    give_back o.offer_id o.asset_minor (lookup o.offer_id s.offers)
      (put_order id (cancelled_order now o) s)

abbrev pub cancel_found : Text → Text → Store → Option Order → Result Order × Store
cancel_found now id s none = (err (p2p_error not_found), s)
cancel_found now id s (some o) =
    if includes cancellable o.status
    then (ok (cancelled_order now o), cancel_row now id o s)
    else (err (p2p_error conflict), s)

unfoldable pub cancel_order : Text → Text → Store → Result Order × Store
cancel_order now id s = cancel_found now id s (lookup id s.orders)

-- `hasActiveOrders`
unfoldable pub has_active_orders : Text → Store → Bool
has_active_orders offer_id s =
    some_value (λ o. eq_text o.offer_id offer_id && includes active_order o.status) s.orders

-- `saveProof` and `getProof`
unfoldable pub save_proof : Text → Proof → Store → Store
save_proof id p s = record s { proofs = insert id p s.proofs }

unfoldable pub get_proof : Text → Store → Option Proof
get_proof id s = lookup id s.proofs
