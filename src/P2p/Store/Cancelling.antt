-- ===== src/P2p/Store/Cancelling.antt =====
-- `cancelOrder` of the in-memory store of src/p2p/p2p-store.ts: the reservation returns.
use ticash_pay_demo.Prelude.Names.{
  ◌≡◌, ◌≢◌, refl, inl, inr, false, none, some, arith, if◌then◌else◌, Bool-cases, Option-cases,
}
use ticash_pay_demo.Prelude.Int.{ℤ, pos, ◌+ℤ◌, ◌-ℤ◌, ◌≤ℤ◌, ◌<ℤ◌, int_laws}
use ticash_pay_demo.Prelude.Text.{Text, eq_text, eq_text_iff, text_eq}
use ticash_pay_demo.Prelude.Dict.{lookup, insert, beq_refl}
use ticash_pay_demo.Prelude.Weigh.{
  weigh, weigh-insert_old, weigh-lookup, Every-insert, Every-lookup,
}
use ticash_pay_demo.P2p.Types.{cancelled, eq_status, includes, cancellable, Offer, Order}
use ticash_pay_demo.P2p.Store.{
  Store, with_remaining, put_order, cancelled_order, cancel_row, cancel_order,
}
use ticash_pay_demo.P2p.Store.Covered.{held_of, IsCovered, taken-insert, held-nonneg, not_cancelled}

too_much : (a b : ℤ) → b ≡ pos 0 → a ≤ℤ b → pos 0 <ℤ a → ⊥
too_much a b z h more = ground arith

module _ (now id : Text) (o : Order) (s : Store) (c : IsCovered s)
    (found : lookup id s.orders ≡ some o) (live : eq_status o.status cancelled ≡ false) where
  -- What the other orders hold.
  rest :
      (j : Text)
      → weigh (held_of j) (insert id (cancelled_order now o) s.orders) ≡ (
          if eq_text o.offer_id j
          then weigh (held_of j) s.orders -ℤ o.asset_minor
          else weigh (held_of j) s.orders)
  unfolding held_of cancelled_order eq_status
  rest j =
      rw (weigh-insert_old (held_of j) id (cancelled_order now o) o s.orders found)
        (elim (Bool-cases (eq_text o.offer_id j)) [
          | inl same ↦ rw (same, live) (omega int_laws)
          | inr other ↦ rw other (omega int_laws)
        ])

  holds_all : held_of o.offer_id o ≡ o.asset_minor
  unfolding held_of
  holds_all = rw (beq_refl o.offer_id, live) refl

  -- A row that holds something has its offer.
  no_offer : lookup o.offer_id s.offers ≢ none
  no_offer missing =
      too_much o.asset_minor (weigh (held_of o.offer_id) s.orders)
        (rw (← c.sold o.offer_id, missing) refl)
        (rw (← holds_all)
          (weigh-lookup (held_of o.offer_id) id o s.orders (held-nonneg o.offer_id s c.asks) found))
        (Every-lookup (λ id o. pos 0 <ℤ o.asset_minor) id o s.orders c.asks found)

  more_left :
      (offer : Offer)
      → lookup o.offer_id s.offers ≡ some offer
      → pos 0 ≤ℤ offer.remaining_minor +ℤ o.asset_minor
  more_left offer sells = omega (
    int_laws,
    Every-lookup (λ id o. pos 0 ≤ℤ o.remaining_minor) o.offer_id offer s.offers c.remains sells,
    Every-lookup (λ id o. pos 0 <ℤ o.asset_minor) id o s.orders c.asks found,
  )

  cancel_row-IsCovered : IsCovered (cancel_row now id o s)
  unfolding cancel_row put_order with_remaining
  cancel_row-IsCovered = elim (Option-cases (lookup o.offer_id s.offers)) [
    | inl missing ↦ absurd (no_offer missing)
    | inr (offer, sells) ↦ rw sells (record {
      sold = λ j.
          rw (taken-insert o.offer_id j _ s, rest j, ← c.sold j)
            (elim (Bool-cases (eq_text o.offer_id j)) [
              | inl same ↦ rw (same, ← (eq_text_iff o.offer_id j).0 same, sells) (omega int_laws)
              | inr other ↦ rw other refl
            ]);
      remains =
          Every-insert (λ id o. pos 0 ≤ℤ o.remaining_minor) o.offer_id _ s.offers
            (more_left offer sells) c.remains;
      asks =
          Every-insert (λ id o. pos 0 <ℤ o.asset_minor) id (cancelled_order now o) s.orders
            (unfold cancelled_order in
              Every-lookup (λ id o. pos 0 <ℤ o.asset_minor) id o s.orders c.asks found)
            c.asks;
      own =
          Every-insert (λ id o. o.id ≡ id) id (cancelled_order now o) s.orders
            (unfold cancelled_order in Every-lookup (λ id o. o.id ≡ id) id o s.orders c.own found)
            c.own;
    })
  ]

pub cancel_order-IsCovered :
    (now id : Text) (s : Store) → IsCovered s → IsCovered (cancel_order now id s).1
unfolding cancel_order
cancel_order-IsCovered now id s c = elim (Option-cases (lookup id s.orders)) [
  | inl missing ↦ rw missing c
  | inr (o, found) ↦ elim (Bool-cases (includes cancellable o.status)) [
    | inl live ↦
        rw (found, live)
          (cancel_row-IsCovered now id o s c found
            (not_cancelled cancellable o.status live (unfold includes eq_status in refl)))
    | inr over ↦ rw (found, over) c
  ]
]
