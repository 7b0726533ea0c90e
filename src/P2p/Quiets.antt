-- ===== src/P2p/Quiets.antt =====
-- The calls of src/p2p/p2p-service.ts that touch the store alone release no order.
use ticash_pay_demo.Prelude.Names.{
  ℕ, ◌≡◌, refl, ◌∙◌, inl, inr, not, Option, none, some, List, [], ◌∷◌, ◌&&◌, Bool-cases,
  Option-cases,
}
use ticash_pay_demo.Prelude.Int.{ℤ}
use ticash_pay_demo.Prelude.Text.{Text, eq_text, text_eq}
use ticash_pay_demo.Prelude.Runtime.{Dates}
use ticash_pay_demo.Prelude.Dict.{lookup}
use ticash_pay_demo.Prelude.Result.{Result, ok, err, Result-cases}
use ticash_pay_demo.P2p.Types.{created, payment_submitted, disputed, eq_status, includes, Order}
use ticash_pay_demo.P2p.Store.{Store, cas_update, save_proof, Proof, cancel_order}
use ticash_pay_demo.P2p.Store.Quiet.{
  released_at, listed_at, Quiet, quiet, cas_update-Quiet, create_order-Quiet, cancel_order-Quiet,
}
use ticash_pay_demo.P2p.Ordering.{
  OrderArgs, price_order, open_order, or_conflict, submit_payment, dispute_order, may_still_pay,
  counted, expire_each, attach_proof_image,
}
use ticash_pay_demo.P2p.Covers.{priced_id}

Quiet-then : (s t u : Store) → Quiet s t → Quiet t u → Quiet s u
Quiet-then s t u p q = record {
  releases = λ j. q.releases j ∙ p.releases j;
  lists = λ j. q.lists j ∙ p.lists j;
}

pub open_order-Quiet :
    (dates : Dates) (bps : ℤ) (id : Text) (now_ms : ℤ) (created_at : Text) (a : OrderArgs)
    (s : Store)
    → lookup id s.orders ≡ none
    → Quiet s (open_order dates bps id now_ms created_at a s).1
unfolding open_order
open_order-Quiet dates bps id now_ms created_at a s fresh =
    elim (Result-cases (price_order dates bps id now_ms a (lookup a.offer_id s.offers))) [
      | inl (o, priced) ↦ rw priced (
          create_order-Quiet created_at o s (rw (priced_id dates bps id now_ms a s o priced) fresh))
      | inr (e, bad) ↦ rw bad (quiet s)
    ]

module _ (now : Text) (s : Store) where
  answered : (r : Option Order × Store) → Quiet s r.1 → Quiet s (or_conflict r).1
  answered (none, t) d = d
  answered (some o, t) d = d

  pub submit_payment-Quiet :
      (dates : Dates) (confirm now_ms : ℤ) (order_id buyer_id proof_ref : Text)
      → Quiet s (submit_payment dates confirm now_ms now order_id buyer_id proof_ref s).1
  unfolding submit_payment
  submit_payment-Quiet dates confirm now_ms order_id buyer_id proof_ref =
      elim (Option-cases (lookup order_id s.orders)) [
        | inl missing ↦ rw missing (quiet s)
        | inr (o, found) ↦ elim (Bool-cases (not (eq_text o.buyer_id buyer_id))) [
          | inl stranger ↦ rw (found, stranger) (quiet s)
          | inr known ↦
              rw (found, known)
                (answered (cas_update now o.id (created ∷ []) _ s) (
                  cas_update-Quiet now o.id (created ∷ []) payment_submitted _ s refl
                    (unfold includes eq_status in refl) (unfold eq_status in refl)))
        ]
      ]

  pub dispute_order-Quiet :
      (order_id by reason : Text) → Quiet s (dispute_order now order_id by reason s).1
  unfolding dispute_order
  dispute_order-Quiet order_id by reason = elim (Option-cases (lookup order_id s.orders)) [
    | inl missing ↦ rw missing (quiet s)
    | inr (o, found) ↦
        elim (Bool-cases (not (eq_text o.buyer_id by) && not (eq_text o.merchant_id by))) [
          | inl stranger ↦ rw (found, stranger) (quiet s)
          | inr known ↦
              rw (found, known)
                (answered (cas_update now o.id (payment_submitted ∷ []) _ s) (
                  cas_update-Quiet now o.id (payment_submitted ∷ []) disputed _ s refl
                    (unfold includes eq_status in refl) (unfold eq_status in refl)))
        ]
  ]

  pub attach_proof_image-Quiet :
      (order_id buyer_id : Text) (p : Proof) → Quiet s (attach_proof_image order_id buyer_id p s).1
  unfolding attach_proof_image save_proof
  attach_proof_image-Quiet order_id buyer_id p = elim (Option-cases (lookup order_id s.orders)) [
    | inl missing ↦ rw missing (quiet s)
    | inr (o, found) ↦ elim (Bool-cases (not (eq_text o.buyer_id buyer_id))) [
      | inl stranger ↦ rw (found, stranger) (quiet s)
      | inr known ↦
          rw (found, known)
            (record {
              releases = λ j. unfold released_at in refl;
              lists = λ j. unfold listed_at in refl;
            })
    ]
  ]

pub expire_each-Quiet :
    (dates : Dates) (now_ms : ℤ) (now : Text) (os : List Order) (n : ℕ) (s : Store)
    → Quiet s (expire_each dates now_ms now os n s).1
unfolding expire_each
expire_each-Quiet dates now_ms now [] n s = quiet s
expire_each-Quiet dates now_ms now (o ∷ os) n s =
    elim (Bool-cases (may_still_pay dates now_ms o.timeout_at)) [
      | inl early ↦ rw (expire_each, early) (expire_each-Quiet dates now_ms now os n s)
      | inr late ↦
          rw (expire_each, late)
            (Quiet-then s (counted n (cancel_order now o.id s)).1 _
              (counted-Quiet (cancel_order now o.id s) (cancel_order-Quiet now o.id s))
              (expire_each-Quiet dates now_ms now os _ _))
    ]
  where
    counted-Quiet : (r : Result Order × Store) → Quiet s r.1 → Quiet s (counted n r).1
    counted-Quiet (ok p, t) q = q
    counted-Quiet (err e, t) q = q
