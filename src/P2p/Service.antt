-- ===== src/P2p/Service.antt =====
-- src/p2p/p2p-service.ts: the escrow calls. Ids (`randomUUID`), the clock and the run time's
-- parsers are arguments. The in-memory `createOffer` cannot throw, so the unlock that compensates
-- it is not here.
use ticash_pay_demo.Prelude.Names.{
  not, Option, none, some, List, [], ◌∷◌, ◌++◌, ◌&&◌, if◌then◌else◌,
}
use ticash_pay_demo.Prelude.Int.{pos, ltb_ℤ}
use ticash_pay_demo.Prelude.Text.{Text, codes, eq_text, text_eq}
use ticash_pay_demo.Prelude.Dict.{lookup}
use ticash_pay_demo.Prelude.Result.{
  Result, ok, err, ◌>>◌, throw_if, p2p_error, not_found, conflict, forbidden,
}
use ticash_pay_demo.Money.Currency.{Currency}
use ticash_pay_demo.Ledger.Types.{PostedJournal}
use ticash_pay_demo.Ledger.Store.{Ledger}
use ticash_pay_demo.Ledger.Service.{Request, p2p_lock, p2p_unlock, p2p_release, perform}
use ticash_pay_demo.P2p.Types.{
  is_active, OrderStatus, created, payment_submitted, released, disputed, eq_status, Offer, Order,
  NewOffer, OrderPatch,
}
use ticash_pay_demo.P2p.Store.{
  Store, create_offer, cas_update, has_active_orders, list_orders_by_status, select,
}
use ticash_pay_demo.P2p.Store

-- The ledger and the store that the service works on.
pub record Market : Type 0 where
  pub ledger : Ledger
  pub store : Store

abbrev pub lock_key : Text → Text
lock_key id = codes "p2p:lock:" ++ id

abbrev pub unlock_key : Text → Text
unlock_key id = codes "p2p:unlock:" ++ id

abbrev pub release_key : Text → Text
release_key id = codes "p2p:release:" ++ id

unfoldable pub lock_request : NewOffer → Request
lock_request o = p2p_lock o.merchant_id o.asset o.total_minor (lock_key o.id) (some o.id)

abbrev pub record_locked :
    Text → NewOffer → Store → Result PostedJournal × Ledger → Result Offer × Market
record_locked now o s (err e, l) = (err e, record { ledger = l; store = s })
record_locked now o s (ok p, l) =
    (ok (create_offer now o s).0, record { ledger = l; store = (create_offer now o s).1 })

-- The end of `createOffer`: lock, then show the offer.
unfoldable pub list_offer : Text → Text → NewOffer → Market → Result Offer × Market
unfolding lock_request
list_offer posted_at created_at o s =
    record_locked created_at o s.store (perform posted_at (lock_request o) s.ledger)

unfoldable pub unlock_request : Currency → Text → Offer → Request
unlock_request asset merchant_id o =
    p2p_unlock merchant_id asset o.remaining_minor (unlock_key o.id) none

-- The checks of `closeOffer`.
unfoldable pub check_close : Text → Text → Store → Offer → Result (Unit {0})
check_close offer_id merchant_id s o = do
  throw_if (not (eq_text o.merchant_id merchant_id)) (p2p_error forbidden)
  throw_if (not (is_active o.status)) (p2p_error conflict)
  throw_if (has_active_orders offer_id s) (p2p_error conflict)

abbrev pub after_unlock : Offer → Store → Result PostedJournal × Ledger → Result Offer × Market
after_unlock o s (err e, l) = (err e, record { ledger = l; store = s })
after_unlock o s (ok p, l) = (ok o, record { ledger = l; store = s })

abbrev pub unlock_closed :
    Currency → Text → Text → Ledger → Option Offer × Store → Result Offer × Market
unlock_closed asset posted_at merchant_id l (none, s) =
    (err (p2p_error conflict), record { ledger = l; store = s })
unlock_closed asset posted_at merchant_id l (some o, s) =
    if ltb_ℤ (pos 0) o.remaining_minor
    then after_unlock o s (perform posted_at (unlock_request asset merchant_id o) l)
    else (ok o, record { ledger = l; store = s })

abbrev pub close_checked :
    Currency → Text → Text → Text → Market → Result (Unit {0}) → Result Offer × Market
close_checked asset posted_at offer_id merchant_id s (err e) = (err e, s)
close_checked asset posted_at offer_id merchant_id s (ok _) =
    unlock_closed asset posted_at merchant_id s.ledger
      (Store.close_offer offer_id merchant_id s.store)

abbrev pub close_found :
    Currency → Text → Text → Text → Market → Option Offer → Result Offer × Market
close_found asset posted_at offer_id merchant_id s none = (err (p2p_error not_found), s)
close_found asset posted_at offer_id merchant_id s (some o) =
    close_checked asset posted_at offer_id merchant_id s
      (check_close offer_id merchant_id s.store o)

-- `closeOffer`; `asset` is `cfg.asset`.
unfoldable pub close_offer : Currency → Text → Text → Text → Market → Result Offer × Market
unfolding check_close unlock_request
close_offer asset posted_at offer_id merchant_id s =
    close_found asset posted_at offer_id merchant_id s (lookup offer_id s.store.offers)

-- A patch of the status alone.
abbrev pub to_status : OrderStatus → OrderPatch
to_status status = record {
  status = some status;
  proof_ref = none;
  dispute_reason = none;
  timeout_at = none;
}

unfoldable pub release_request : Order → Request
release_request o =
    p2p_release o.merchant_id o.buyer_id o.asset o.asset_minor o.commission_minor (release_key o.id)
      (some o.id)

-- What follows the ledger's answer: the claim stands, or it is taken back and the error thrown on.
abbrev pub after_release :
    Text → Order → Order → Store → Result PostedJournal × Ledger → Result Order × Market
after_release reverted_at order claimed s (ok p, l) = (ok claimed, record { ledger = l; store = s })
after_release reverted_at order claimed s (err e, l) = (
  err e,
  record {
    ledger = l;
    store = (cas_update reverted_at order.id (released ∷ []) (to_status order.status) s).1;
  },
)

abbrev pub release_claimed :
    Text → Text → Order → Ledger → Option Order × Store → Result Order × Market
release_claimed posted_at reverted_at order l (none, s) =
    (err (p2p_error conflict), record { ledger = l; store = s })
release_claimed posted_at reverted_at order l (some claimed, s) =
    after_release reverted_at order claimed s (perform posted_at (release_request order) l)

-- `doRelease`
unfoldable pub do_release :
    Text → Text → Text → Order → List OrderStatus → Market → Result Order × Market
unfolding release_request
do_release claimed_at posted_at reverted_at order from s =
    release_claimed posted_at reverted_at order s.ledger
      (cas_update claimed_at order.id from (to_status released) s.store)

abbrev pub release_found : Text → Text → Text → Text → Market → Option Order → Result Order × Market
release_found claimed_at posted_at reverted_at merchant_id s none = (err (p2p_error not_found), s)
release_found claimed_at posted_at reverted_at merchant_id s (some o) =
    if not (eq_text o.merchant_id merchant_id)
    then (err (p2p_error forbidden), s)
    else do_release claimed_at posted_at reverted_at o (payment_submitted ∷ []) s

-- `releaseOrder`
unfoldable pub release_order : Text → Text → Text → Text → Text → Market → Result Order × Market
release_order claimed_at posted_at reverted_at order_id merchant_id s =
    release_found claimed_at posted_at reverted_at merchant_id s (lookup order_id s.store.orders)

-- The store's answer, in the service's state.
abbrev pub stored : Market → Result Order × Store → Result Order × Market
stored s (r, t) = (r, record s { store = t })

abbrev pub cancel_found : Text → Text → Market → Option Order → Result Order × Market
cancel_found now by s none = (err (p2p_error not_found), s)
cancel_found now by s (some o) =
    if not (eq_text o.buyer_id by) && not (eq_text o.merchant_id by)
    then (err (p2p_error forbidden), s)
    else if not (eq_status o.status created)
    then (err (p2p_error conflict), s)
    else stored s (Store.cancel_order now o.id s.store)

-- `cancelOrder`
unfoldable pub cancel_order : Text → Text → Text → Market → Result Order × Market
cancel_order now order_id by s = cancel_found now by s (lookup order_id s.store.orders)

pub data Resolution : Type 0 where
  to_release to_cancel : Resolution

abbrev pub resolve_by : Text → Text → Text → Resolution → Order → Market → Result Order × Market
resolve_by now posted_at reverted_at to_release o s =
    do_release now posted_at reverted_at o (payment_submitted ∷ disputed ∷ []) s
resolve_by now posted_at reverted_at to_cancel o s = stored s (Store.cancel_order now o.id s.store)

abbrev pub resolve_found :
    Text → Text → Text → Resolution → Market → Option Order → Result Order × Market
resolve_found now posted_at reverted_at action s none = (err (p2p_error not_found), s)
resolve_found now posted_at reverted_at action s (some o) =
    if not (eq_status o.status disputed) && not (eq_status o.status payment_submitted)
    then (err (p2p_error conflict), s)
    else resolve_by now posted_at reverted_at action o s

-- `adminResolve`
unfoldable pub admin_resolve :
    Text → Text → Text → Text → Resolution → Market → Result Order × Market
admin_resolve now posted_at reverted_at order_id action s =
    resolve_found now posted_at reverted_at action s (lookup order_id s.store.orders)
