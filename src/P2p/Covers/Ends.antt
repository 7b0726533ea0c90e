-- ===== src/P2p/Covers/Ends.antt =====
-- The ends of an order in src/p2p/p2p-service.ts (release, cancellation, resolution) keep the offers
-- covered.
use ticash_pay_demo.Prelude.Names.{
  ◌≡◌, refl, ap, ◌∙◌, inl, inr, false, not, Option, none, some, List, [], ◌∷◌, ◌&&◌, Bool-cases,
  Option-cases,
}
use ticash_pay_demo.Prelude.Text.{Text, eq_text, text_eq}
use ticash_pay_demo.Prelude.Dict.{lookup}
use ticash_pay_demo.Prelude.Weigh.{Every-lookup}
use ticash_pay_demo.Prelude.Result.{Result, ok, err}
use ticash_pay_demo.Ledger.Types.{PostedJournal}
use ticash_pay_demo.Ledger.Store.{Ledger}
use ticash_pay_demo.Ledger.Service.{perform}
use ticash_pay_demo.P2p.Types.{
  OrderStatus, created, payment_submitted, released, cancelled, disputed, eq_status, includes,
  Order,
}
use ticash_pay_demo.P2p.Store.{Store, cas_update}
use ticash_pay_demo.P2p.Store.Covered.{IsCovered, cas_update-IsCovered, not_cancelled}
use ticash_pay_demo.P2p.Store.Cancelling.{cancel_order-IsCovered}
use ticash_pay_demo.P2p.Service.{
  Market, to_status, after_release, release_claimed, release_request, do_release, release_order,
  cancel_order, Resolution, to_release, to_cancel, resolve_by, admin_resolve,
}

module _ (now posted_at reverted_at : Text) (s : Market) (c : IsCovered s.store) where
  released-IsCovered :
      (o : Order) (from : List OrderStatus)
      → lookup o.id s.store.orders ≡ some o
      → includes from cancelled ≡ false
      → IsCovered (do_release now posted_at reverted_at o from s).1.store
  unfolding do_release
  released-IsCovered o from found apart = elim (Bool-cases (includes from o.status)) [
    | inl claims ↦ claimed (not_cancelled from o.status claims apart)
    | inr lost ↦ unfold cas_update in rw (found, lost) c
  ]
    where
      posted :
          (q : Order) (t : Store) (r : Result PostedJournal × Ledger)
          → eq_status o.status cancelled ≡ false
          → IsCovered t
          → IsCovered (after_release reverted_at o q t r).1.store
      posted q t (ok p, l) live d = d
      posted q t (err e, l) live d =
          cas_update-IsCovered reverted_at o.id (released ∷ []) o.status (to_status o.status) t refl
            (unfold includes eq_status in refl) live d

      after :
          (r : Option Order × Store)
          → eq_status o.status cancelled ≡ false
          → IsCovered r.1
          → IsCovered (release_claimed posted_at reverted_at o s.ledger r).1.store
      after (none, t) live d = d
      after (some q, t) live d = posted q t (perform posted_at (release_request o) s.ledger) live d

      claimed :
          eq_status o.status cancelled ≡ false
          → IsCovered (do_release now posted_at reverted_at o from s).1.store
      claimed live = after (cas_update now o.id from (to_status released) s.store) live (
          cas_update-IsCovered now o.id from released (to_status released) s.store refl apart
            (unfold eq_status in refl) c)

  pub found_own :
      (id : Text) (o : Order)
      → lookup id s.store.orders ≡ some o
      → lookup o.id s.store.orders ≡ some o
  found_own id o found =
      ap (λ x. lookup x s.store.orders)
        (Every-lookup (λ id o. o.id ≡ id) id o s.store.orders c.own found)
      ∙ found

  pub release_order-IsCovered :
      (order_id merchant_id : Text)
      → IsCovered (release_order now posted_at reverted_at order_id merchant_id s).1.store
  unfolding release_order
  release_order-IsCovered order_id merchant_id =
      elim (Option-cases (lookup order_id s.store.orders)) [
        | inl missing ↦ rw missing c
        | inr (o, found) ↦ elim (Bool-cases (not (eq_text o.merchant_id merchant_id))) [
          | inl stranger ↦ rw (found, stranger) c
          | inr known ↦
              rw (found, known)
                (released-IsCovered o (payment_submitted ∷ []) (found_own order_id o found)
                  (unfold includes eq_status in refl))
        ]
      ]

  pub cancelled-IsCovered :
      (order_id by : Text) → IsCovered (cancel_order now order_id by s).1.store
  unfolding cancel_order
  cancelled-IsCovered order_id by = elim (Option-cases (lookup order_id s.store.orders)) [
    | inl missing ↦ rw missing c
    | inr (o, found) ↦
        elim (Bool-cases (not (eq_text o.buyer_id by) && not (eq_text o.merchant_id by))) [
          | inl stranger ↦ rw (found, stranger) c
          | inr known ↦ elim (Bool-cases (not (eq_status o.status created))) [
            | inl late ↦ rw (found, known, late) c
            | inr early ↦ rw (found, known, early) (cancel_order-IsCovered now o.id s.store c)
          ]
        ]
  ]

  pub admin_resolve-IsCovered :
      (order_id : Text) (action : Resolution)
      → IsCovered (admin_resolve now posted_at reverted_at order_id action s).1.store
  unfolding admin_resolve
  admin_resolve-IsCovered order_id action = elim (Option-cases (lookup order_id s.store.orders)) [
    | inl missing ↦ rw missing c
    | inr (o, found) ↦
        elim (Bool-cases
          (not (eq_status o.status disputed) && not (eq_status o.status payment_submitted))) [
            | inl settled ↦ rw (found, settled) c
            | inr waits ↦ rw (found, waits) (resolved o found action)
          ]
  ]
    where
      resolved :
          (o : Order)
          → lookup order_id s.store.orders ≡ some o
          → (action : Resolution)
          → IsCovered (resolve_by now posted_at reverted_at action o s).1.store
      resolved o found to_release =
          released-IsCovered o (payment_submitted ∷ disputed ∷ []) (found_own order_id o found)
            (unfold includes eq_status in refl)
      resolved o found to_cancel = cancel_order-IsCovered now o.id s.store c
