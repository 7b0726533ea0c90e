-- ===== src/P2p/Settled.antt =====
-- The ledger and the rows of src/p2p agree, whatever is called.
use ticash_pay_demo.Prelude.Names.{
  ◌≡◌, refl, inl, inr, not, false, none, some, [], ◌∷◌, ◌&&◌, arith, Bool-cases, Option-cases,
}
use ticash_pay_demo.Prelude.Text.{Text, eq_text, text_eq}
use ticash_pay_demo.Prelude.Dict.{lookup}
use ticash_pay_demo.Prelude.Result.{Result-cases}
use ticash_pay_demo.Ledger.Service.Keyed.{is_posted, post-Registers}
use ticash_pay_demo.P2p.Types.{created, payment_submitted, disputed, eq_status, includes, Order}
use ticash_pay_demo.P2p.Store.{Store, list_orders_by_status}
use ticash_pay_demo.P2p.Store
use ticash_pay_demo.P2p.Store.Quiet.{released_at, listed_at, Quiet, cancel_order-Quiet}
use ticash_pay_demo.P2p.Store.Covered.{IsCovered}
use ticash_pay_demo.P2p.Service.{
  Market, lock_key, unlock_key, release_key, release_order, cancel_order, Resolution, to_release,
  to_cancel, resolve_by, admin_resolve,
}
use ticash_pay_demo.P2p.Listing.{check_offer}
use ticash_pay_demo.P2p.Listing
use ticash_pay_demo.P2p.Ordering.{expire_unpaid_orders}
use ticash_pay_demo.P2p.Keys.{unlock-lock, unlock-release}
use ticash_pay_demo.P2p.Step.{
  Setting, Step, listed, closed, opened, paid, disputed_by, proved, released_by, cancelled_by,
  swept, resolved, other_post, Reach, start, next,
}
use ticash_pay_demo.P2p.Covers.Ends.{found_own}
use ticash_pay_demo.P2p.Quiets.{
  open_order-Quiet, submit_payment-Quiet, dispute_order-Quiet, attach_proof_image-Quiet,
  expire_each-Quiet,
}
use ticash_pay_demo.P2p.Oversell.{Reach-IsCovered}
use ticash_pay_demo.P2p.Faithful.{
  IsFaithful, still-IsFaithful, list_offer-IsFaithful, close_offer-IsFaithful,
}
use ticash_pay_demo.P2p.Releasing.{do_release-IsFaithful}

module _ (s : Market) (f : IsFaithful s) where
  kept : (t : Store) → Quiet s.store t → IsFaithful (record s { store = t })
  kept t q =
      still-IsFaithful s s.ledger t (unlock_key []) false (λ k. ground arith) (unlock-release [])
        (unlock-lock []) q f

  listed-IsFaithful :
      (x : Setting) (id posted_at created_at : Text) (a : _)
      → lookup id s.store.offers ≡ none
      → IsFaithful (Listing.create_offer x.numbers x.asset id posted_at created_at a s).1
  unfolding Listing.create_offer
  listed-IsFaithful x id posted_at created_at a fresh =
      elim (Result-cases (check_offer x.numbers x.asset a)) [
        | inl (w, fits) ↦ rw fits (list_offer-IsFaithful posted_at created_at _ s fresh f)
        | inr (e, bad) ↦ rw bad f
      ]

  cancelled-IsFaithful : (now order_id by : Text) → IsFaithful (cancel_order now order_id by s).1
  unfolding cancel_order
  cancelled-IsFaithful now order_id by = elim (Option-cases (lookup order_id s.store.orders)) [
    | inl missing ↦ rw missing f
    | inr (o, found) ↦
        elim (Bool-cases (not (eq_text o.buyer_id by) && not (eq_text o.merchant_id by))) [
          | inl stranger ↦ rw (found, stranger) f
          | inr known ↦ elim (Bool-cases (not (eq_status o.status created))) [
            | inl late ↦ rw (found, known, late) f
            | inr early ↦
                rw (found, known, early)
                  (kept (Store.cancel_order now o.id s.store).1
                    (cancel_order-Quiet now o.id s.store))
          ]
        ]
  ]

  module _ (c : IsCovered s.store) (now posted_at reverted_at : Text) where
    release_order-IsFaithful :
        (order_id merchant_id : Text)
        → IsFaithful (release_order now posted_at reverted_at order_id merchant_id s).1
    unfolding release_order
    release_order-IsFaithful order_id merchant_id =
        elim (Option-cases (lookup order_id s.store.orders)) [
          | inl missing ↦ rw missing f
          | inr (o, found) ↦ elim (Bool-cases (not (eq_text o.merchant_id merchant_id))) [
            | inl stranger ↦ rw (found, stranger) f
            | inr known ↦
                rw (found, known)
                  (do_release-IsFaithful s o
                    (found_own now posted_at reverted_at s c order_id o found) f now posted_at
                    reverted_at (payment_submitted ∷ []) (unfold includes eq_status in refl))
          ]
        ]

    admin_resolve-IsFaithful :
        (order_id : Text) (action : Resolution)
        → IsFaithful (admin_resolve now posted_at reverted_at order_id action s).1
    unfolding admin_resolve
    admin_resolve-IsFaithful order_id action =
        elim (Option-cases (lookup order_id s.store.orders)) [
          | inl missing ↦ rw missing f
          | inr (o, found) ↦
              elim (Bool-cases
                (not (eq_status o.status disputed) && not (eq_status o.status payment_submitted))) [
                  | inl settled ↦ rw (found, settled) f
                  | inr waits ↦
                      rw (found, waits)
                        (decided o (found_own now posted_at reverted_at s c order_id o found)
                          action)
                ]
        ]
      where
        decided :
            (o : Order)
            → lookup o.id s.store.orders ≡ some o
            → (action : Resolution) → IsFaithful (resolve_by now posted_at reverted_at action o s).1
        decided o found to_release =
            do_release-IsFaithful s o found f now posted_at reverted_at
              (payment_submitted ∷ disputed ∷ []) (unfold includes eq_status in refl)
        decided o found to_cancel =
            kept (Store.cancel_order now o.id s.store).1 (cancel_order-Quiet now o.id s.store)

Step-IsFaithful :
    (x : Setting) {s t : Market} → Step x s t → IsCovered s.store → IsFaithful s → IsFaithful t
unfolding expire_unpaid_orders
Step-IsFaithful x (listed s id posted_at created_at a fresh) c f =
    listed-IsFaithful s f x id posted_at created_at a fresh
Step-IsFaithful x (closed s posted_at offer_id merchant_id) c f =
    close_offer-IsFaithful x.asset posted_at offer_id merchant_id s f
Step-IsFaithful x (opened s bps id now_ms created_at a fresh) c f =
    kept s f _ (open_order-Quiet x.dates bps id now_ms created_at a s.store fresh)
Step-IsFaithful x (paid s now_ms now order_id buyer_id proof_ref) c f =
    kept s f _
      (submit_payment-Quiet now s.store x.dates x.confirm now_ms order_id buyer_id proof_ref)
Step-IsFaithful x (disputed_by s now order_id by reason) c f =
    kept s f _ (dispute_order-Quiet now s.store order_id by reason)
Step-IsFaithful x (proved s order_id buyer_id p) c f =
    kept s f _ (attach_proof_image-Quiet order_id s.store order_id buyer_id p)
Step-IsFaithful x (released_by s now posted_at reverted_at order_id merchant_id) c f =
    release_order-IsFaithful s f c now posted_at reverted_at order_id merchant_id
Step-IsFaithful x (cancelled_by s now order_id by) c f = cancelled-IsFaithful s f now order_id by
Step-IsFaithful x (swept s now_ms now) c f =
    kept s f _
      (expire_each-Quiet x.dates now_ms now (list_orders_by_status created s.store) 0 s.store)
Step-IsFaithful x (resolved s now posted_at reverted_at order_id action) c f =
    admin_resolve-IsFaithful s f c now posted_at reverted_at order_id action
Step-IsFaithful x (other_post s now j apart) c f =
    let reg = post-Registers now j s.ledger in
    record {
      releases = λ id. rw (reg (release_key id), (apart id).2, f.releases id) (ground arith);
      locks = λ id. rw (reg (lock_key id), (apart id).0, f.locks id) (ground arith);
    }

-- In every state that the calls of the marketplace, each new offer and order with an id that no
-- row has, and posts of other parts under other keys reach from an empty start, the ledger has a
-- release journal exactly for the released orders and a lock journal exactly for the offers.
pub Market-IsFaithful : (x : Setting) (s : Market) → Reach x s → IsFaithful s
unfolding is_posted released_at listed_at lookup
Market-IsFaithful x s start = record { releases = λ id. refl; locks = λ id. refl }
Market-IsFaithful x s (next {s = before} reach step) =
    Step-IsFaithful x step (Reach-IsCovered x before reach) (Market-IsFaithful x before reach)
