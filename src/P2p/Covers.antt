-- ===== src/P2p/Covers.antt =====
-- The calls of src/p2p/p2p-service.ts keep the offers covered.
pub mod Ends
use ticash_pay_demo.Prelude.Names.{
  ◌≡◌, refl, sym, ap, ◌∙◌, inl, inr, false, true, not, Option, none, some, List, [], ◌∷◌, ◌&&◌,
  arith, Bool-cases, Option-cases,
}
use ticash_pay_demo.Prelude.Int.{ℤ, pos, ◌≤ℤ◌, ltb_ℤ, leb_ℤ}
use ticash_pay_demo.Prelude.Text.{Text, eq_text, text_eq}
use ticash_pay_demo.Prelude.Runtime.{Dates, Numbers}
use ticash_pay_demo.Prelude.Dict.{lookup}
use ticash_pay_demo.Prelude.Weigh.{Every-lookup}
use ticash_pay_demo.Prelude.Result.{
  Result, ok, err, p2p_error, validation, Result-cases, WhenOk-use,
}
use ticash_pay_demo.Money.Currency.{Currency}
use ticash_pay_demo.Ledger.Types.{PostedJournal}
use ticash_pay_demo.Ledger.Store.{Ledger}
use ticash_pay_demo.Ledger.Service.{perform}
use ticash_pay_demo.P2p.Types.{
  OrderStatus, created, payment_submitted, released, cancelled, disputed, eq_status, includes,
  Offer, Order, NewOffer, NewOrder,
}
use ticash_pay_demo.P2p.Store.{Store, cas_update, save_proof, Proof}
use ticash_pay_demo.P2p.Store
use ticash_pay_demo.P2p.Store.Covered
use ticash_pay_demo.P2p.Store.Covered.{
  IsCovered, create_offer-IsCovered, create_order-IsCovered, cas_update-IsCovered, not_cancelled,
}
use ticash_pay_demo.P2p.Store.Cancelling.{cancel_order-IsCovered}
use ticash_pay_demo.P2p.Service.{
  Market, record_locked, list_offer, lock_request, check_close, after_unlock, unlock_closed,
  unlock_request, close_offer, to_status, after_release, release_claimed, release_request,
  do_release, release_order, cancel_order, Resolution, to_release, to_cancel, resolve_by,
  admin_resolve,
}
use ticash_pay_demo.P2p.Listing.{OfferArgs, check_offer}
use ticash_pay_demo.P2p.Listing
use ticash_pay_demo.P2p.Pricing.{IsPriced, price_order-IsPriced}
use ticash_pay_demo.P2p.Ordering.{
  OrderArgs, price_order, open_order, or_conflict, submit_payment, dispute_order, may_still_pay,
  counted, expire_each, attach_proof_image,
}

list_offer-IsCovered :
    (posted_at created_at : Text) (o : NewOffer) (s : Market)
    → lookup o.id s.store.offers ≡ none
    → pos 0 ≤ℤ o.total_minor
    → IsCovered s.store
    → IsCovered (list_offer posted_at created_at o s).1.store
unfolding list_offer
list_offer-IsCovered posted_at created_at o s fresh some_left c =
    recorded (perform posted_at (lock_request o) s.ledger)
  where
    recorded :
        (r : Result PostedJournal × Ledger)
        → IsCovered (record_locked created_at o s.store r).1.store
    recorded (ok p, l) = create_offer-IsCovered created_at o s.store fresh some_left c
    recorded (err e, l) = c

refuses_less :
    (numbers : Numbers) (asset : Currency) (a : OfferArgs)
    → leb_ℤ a.total_minor (pos 0) ≡ true
    → check_offer numbers asset a ≡ err (p2p_error validation)
unfolding check_offer
refuses_less numbers asset a less = rw less refl

not_less :
    (numbers : Numbers) (asset : Currency) (a : OfferArgs) (w : ℤ)
    → check_offer numbers asset a ≡ ok w
    → pos 0 ≤ℤ a.total_minor
not_less numbers asset a w fits = elim (Bool-cases (leb_ℤ a.total_minor (pos 0))) [
  | inl less ↦ cc (refuses_less numbers asset a less)
  | inr more ↦ ground (arith, more)
]

pub listed-IsCovered :
    (numbers : Numbers) (asset : Currency) (id posted_at created_at : Text) (a : OfferArgs)
    (s : Market)
    → lookup id s.store.offers ≡ none
    → IsCovered s.store
    → IsCovered (Listing.create_offer numbers asset id posted_at created_at a s).1.store
unfolding Listing.create_offer
listed-IsCovered numbers asset id posted_at created_at a s fresh c =
    elim (Result-cases (check_offer numbers asset a)) [
      | inl (w, fits) ↦
          rw fits (
            list_offer-IsCovered posted_at created_at _ s fresh (not_less numbers asset a w fits) c)
      | inr (e, bad) ↦ rw bad c
    ]

pub close_offer-IsCovered :
    (asset : Currency) (posted_at offer_id merchant_id : Text) (s : Market)
    → IsCovered s.store
    → IsCovered (close_offer asset posted_at offer_id merchant_id s).1.store
unfolding close_offer
close_offer-IsCovered asset posted_at offer_id merchant_id s c =
    elim (Option-cases (lookup offer_id s.store.offers)) [
      | inl missing ↦ rw missing c
      | inr (o, found) ↦ elim (Result-cases (check_close offer_id merchant_id s.store o)) [
        | inl (u, fits) ↦
            rw (found, fits)
              (unlocked (Store.close_offer offer_id merchant_id s.store)
                (Covered.close_offer-IsCovered offer_id merchant_id s.store c))
        | inr (e, bad) ↦ rw (found, bad) c
      ]
    ]
  where
    posted :
        (o : Offer) (t : Store) (r : Result PostedJournal × Ledger)
        → IsCovered t
        → IsCovered (after_unlock o t r).1.store
    posted o t (ok p, l) d = d
    posted o t (err e, l) d = d

    unlocked :
        (r : Option Offer × Store)
        → IsCovered r.1
        → IsCovered (unlock_closed asset posted_at merchant_id s.ledger r).1.store
    unlocked (none, t) d = d
    unlocked (some o, t) d = elim (Bool-cases (ltb_ℤ (pos 0) o.remaining_minor)) [
      | inl more ↦
          rw more (posted o t (perform posted_at (unlock_request asset merchant_id o) s.ledger) d)
      | inr less ↦ rw less d
    ]

no_order :
    (dates : Dates) (bps : ℤ) (id : Text) (now_ms : ℤ) (a : OrderArgs) (o : NewOrder)
    → price_order dates bps id now_ms a none ≡ ok o
    → o.id ≡ id
unfolding price_order
no_order dates bps id now_ms a o h = cc

pub priced_id :
    (dates : Dates) (bps : ℤ) (id : Text) (now_ms : ℤ) (a : OrderArgs) (s : Store) (o : NewOrder)
    → price_order dates bps id now_ms a (lookup a.offer_id s.offers) ≡ ok o
    → o.id ≡ id
priced_id dates bps id now_ms a s o h = elim (Option-cases (lookup a.offer_id s.offers)) [
  | inl missing ↦
      no_order dates bps id now_ms a o (ap (price_order dates bps id now_ms a) (sym missing) ∙ h)
  | inr (offer, found) ↦
      let p : IsPriced id a offer o =
        WhenOk-use (IsPriced id a offer) _ o
          (ap (price_order dates bps id now_ms a) (sym found) ∙ h)
          (price_order-IsPriced dates bps id now_ms a offer) in
      p.own
]

pub open_order-IsCovered :
    (dates : Dates) (bps : ℤ) (id : Text) (now_ms : ℤ) (created_at : Text) (a : OrderArgs)
    (s : Store)
    → lookup id s.orders ≡ none
    → IsCovered s
    → IsCovered (open_order dates bps id now_ms created_at a s).1
unfolding open_order
open_order-IsCovered dates bps id now_ms created_at a s fresh c =
    elim (Result-cases (price_order dates bps id now_ms a (lookup a.offer_id s.offers))) [
      | inl (o, priced) ↦ rw priced (
          create_order-IsCovered created_at o s
            (rw (priced_id dates bps id now_ms a s o priced) fresh) c)
      | inr (e, bad) ↦ rw bad c
    ]

module _ (now : Text) (s : Store) (c : IsCovered s) where
  answered : (r : Option Order × Store) → IsCovered r.1 → IsCovered (or_conflict r).1
  answered (none, t) d = d
  answered (some o, t) d = d

  pub submit_payment-IsCovered :
      (dates : Dates) (confirm now_ms : ℤ) (order_id buyer_id proof_ref : Text)
      → IsCovered (submit_payment dates confirm now_ms now order_id buyer_id proof_ref s).1
  unfolding submit_payment
  submit_payment-IsCovered dates confirm now_ms order_id buyer_id proof_ref =
      elim (Option-cases (lookup order_id s.orders)) [
        | inl missing ↦ rw missing c
        | inr (o, found) ↦ elim (Bool-cases (not (eq_text o.buyer_id buyer_id))) [
          | inl stranger ↦ rw (found, stranger) c
          | inr known ↦
              rw (found, known)
                (answered (cas_update now o.id (created ∷ []) _ s) (
                  cas_update-IsCovered now o.id (created ∷ []) payment_submitted _ s refl
                    (unfold includes eq_status in refl) (unfold eq_status in refl) c))
        ]
      ]

  pub dispute_order-IsCovered :
      (order_id by reason : Text) → IsCovered (dispute_order now order_id by reason s).1
  unfolding dispute_order
  dispute_order-IsCovered order_id by reason = elim (Option-cases (lookup order_id s.orders)) [
    | inl missing ↦ rw missing c
    | inr (o, found) ↦
        elim (Bool-cases (not (eq_text o.buyer_id by) && not (eq_text o.merchant_id by))) [
          | inl stranger ↦ rw (found, stranger) c
          | inr known ↦
              rw (found, known)
                (answered (cas_update now o.id (payment_submitted ∷ []) _ s) (
                  cas_update-IsCovered now o.id (payment_submitted ∷ []) disputed _ s refl
                    (unfold includes eq_status in refl) (unfold eq_status in refl) c))
        ]
  ]

  pub attach_proof_image-IsCovered :
      (order_id buyer_id : Text) (p : Proof)
      → IsCovered (attach_proof_image order_id buyer_id p s).1
  unfolding attach_proof_image save_proof
  attach_proof_image-IsCovered order_id buyer_id p =
      elim (Option-cases (lookup order_id s.orders)) [
        | inl missing ↦ rw missing c
        | inr (o, found) ↦ elim (Bool-cases (not (eq_text o.buyer_id buyer_id))) [
          | inl stranger ↦ rw (found, stranger) c
          | inr known ↦
              rw (found, known)
                (record { sold = c.sold; remains = c.remains; asks = c.asks; own = c.own })
        ]
      ]

pub expire_each-IsCovered :
    (dates : Dates) (now_ms : ℤ) (now : Text) (os : List Order) (n : _) (s : Store)
    → IsCovered s
    → IsCovered (expire_each dates now_ms now os n s).1
unfolding expire_each
expire_each-IsCovered dates now_ms now [] n s c = c
expire_each-IsCovered dates now_ms now (o ∷ os) n s c =
    elim (Bool-cases (may_still_pay dates now_ms o.timeout_at)) [
      | inl early ↦ rw (expire_each, early) (expire_each-IsCovered dates now_ms now os n s c)
      | inr late ↦
          rw (expire_each, late)
            (expire_each-IsCovered dates now_ms now os _ _ (
              counted-IsCovered (Store.cancel_order now o.id s)
                (cancel_order-IsCovered now o.id s c)))
    ]
  where
    counted-IsCovered : (r : Result Order × Store) → IsCovered r.1 → IsCovered (counted n r).1
    counted-IsCovered (ok p, t) d = d
    counted-IsCovered (err e, t) d = d
