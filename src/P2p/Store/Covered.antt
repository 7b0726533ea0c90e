-- ===== src/P2p/Store/Covered.antt =====
-- What is reserved of an offer, in the in-memory store of src/p2p/p2p-store.ts.
use ticash_pay_demo.Prelude.Names.{
  ◌≡◌, refl, ◌∙◌, inl, inr, true, false, not, Option, none, some, List, ◌&&◌, ◌||◌, arith,
  if◌then◌else◌, Bool-cases, Option-cases,
}
use ticash_pay_demo.Prelude.Int.{ℤ, pos, ◌-ℤ◌, ◌≤ℤ◌, ◌<ℤ◌, ltb_ℤ, leb_ℤ, int_laws}
use ticash_pay_demo.Prelude.Text.{Text, eq_text, eq_text_iff, text_eq}
use ticash_pay_demo.Prelude.Dict.{lookup, insert, lookup-insert}
use ticash_pay_demo.Prelude.Weigh.{
  weigh, weigh-insert_new, weigh-insert_old, Every, Every-insert, Every-lookup, Every-map,
}
use ticash_pay_demo.P2p.Types.{
  OrderStatus, created, payment_submitted, released, disputed, cancelled, eq_status, includes,
  Offer, Order, NewOffer, NewOrder, OrderPatch, is_active,
}
use ticash_pay_demo.P2p.Store.{
  Store, new_offer, create_offer, close_offer, new_order, with_remaining, check_order, reserve,
  create_order, patched, put_order, cas_update,
}

-- What an order holds of the offer: its asset, unless it is cancelled.
unfoldable pub held_of : Text → Order → ℤ
held_of offer_id o =
    if eq_text o.offer_id offer_id && not (eq_status o.status cancelled)
    then o.asset_minor
    else pos 0

abbrev pub taken_from : Option Offer → ℤ
taken_from none = pos 0
taken_from (some o) = o.total_minor -ℤ o.remaining_minor

-- What left an offer is what its orders hold, no offer is oversold, and each order stands under
-- its own id.
pub record IsCovered (s : Store) : Type 0 where
  pub sold : (id : Text) → taken_from (lookup id s.offers) ≡ weigh (held_of id) s.orders
  pub remains : Every (λ id o. pos 0 ≤ℤ o.remaining_minor) s.offers
  pub asks : Every (λ id o. pos 0 <ℤ o.asset_minor) s.orders
  pub own : Every (λ id o. o.id ≡ id) s.orders

-- An offer takes the place of another, or of none.
pub taken-insert :
    (id j : Text) (o : Offer) (s : Store)
    → taken_from (lookup j (insert id o s.offers)) ≡ (
        if eq_text id j then o.total_minor -ℤ o.remaining_minor else taken_from (lookup j s.offers))
taken-insert id j o s =
    rw (lookup-insert id j o s.offers)
      (elim (Bool-cases (eq_text id j)) [ inl same ↦ rw same | inr other ↦ rw other ])

pub held-nonneg :
    (id : Text) (s : Store)
    → Every (λ k o. pos 0 <ℤ o.asset_minor) s.orders
    → Every (λ k o. pos 0 ≤ℤ held_of id o) s.orders
unfolding held_of
held-nonneg id s h =
    Every-map (λ k o. pos 0 <ℤ o.asset_minor) (λ k o. pos 0 ≤ℤ held_of id o) s.orders
      (λ k o more. elim (Bool-cases (eq_text o.offer_id id && not (eq_status o.status cancelled))) [
        | inl held ↦ rw held (omega arith)
        | inr free ↦ rw free (omega arith)
      ])
      h

pub create_offer-IsCovered :
    (now : Text) (o : NewOffer) (s : Store)
    → lookup o.id s.offers ≡ none
    → pos 0 ≤ℤ o.total_minor
    → IsCovered s
    → IsCovered (create_offer now o s).1
unfolding create_offer new_offer
create_offer-IsCovered now o s fresh some_left c = record {
  sold = λ j. rw (taken-insert o.id j (new_offer now o) s) (elim (Bool-cases (eq_text o.id j)) [
    | inl same ↦ rw (same, ← c.sold j, ← (eq_text_iff o.id j).0 same, fresh) (omega int_laws)
    | inr other ↦ rw other (c.sold j)
  ]);
  remains =
      Every-insert (λ id o. pos 0 ≤ℤ o.remaining_minor) o.id (new_offer now o) s.offers some_left
        c.remains;
  asks = c.asks;
  own = c.own;
}

pub close_offer-IsCovered :
    (id merchant_id : Text) (s : Store) → IsCovered s → IsCovered (close_offer id merchant_id s).1
unfolding close_offer
close_offer-IsCovered id merchant_id s c = elim (Option-cases (lookup id s.offers)) [
  | inl missing ↦ rw missing c
  | inr (o, found) ↦
      elim (Bool-cases (not (eq_text o.merchant_id merchant_id) || not (is_active o.status))) [
        | inl refused ↦ rw (found, refused) c
        | inr good ↦
            rw (found, good)
              (record {
                sold = λ j. rw (taken-insert id j _ s) (elim (Bool-cases (eq_text id j)) [
                  | inl same ↦ rw (same, ← c.sold j, ← (eq_text_iff id j).0 same, found) refl
                  | inr other ↦ rw other (c.sold j)
                ]);
                remains =
                    Every-insert (λ id o. pos 0 ≤ℤ o.remaining_minor) id _ s.offers
                      (Every-lookup (λ id o. pos 0 ≤ℤ o.remaining_minor) id o s.offers c.remains
                        found)
                      c.remains;
                asks = c.asks;
                own = c.own;
              })
      ]
]

eq_status-cancelled : (x : OrderStatus) → eq_status x cancelled ≡ true → x ≡ cancelled
unfolding eq_status
eq_status-cancelled created h = cc
eq_status-cancelled payment_submitted h = cc
eq_status-cancelled released h = cc
eq_status-cancelled cancelled h = refl
eq_status-cancelled disputed h = cc

-- A status that a list without `cancelled` has is another one.
pub not_cancelled :
    (from : List OrderStatus) (x : OrderStatus)
    → includes from x ≡ true
    → includes from cancelled ≡ false
    → eq_status x cancelled ≡ false
not_cancelled from x h apart = elim (Bool-cases (eq_status x cancelled)) [
  | inl same ↦ cc (eq_status-cancelled x same)
  | inr other ↦ other
]

-- A row that changes, with no change of what it holds.
same_hold :
    (id : Text) (o new : Order) (s : Store)
    → lookup id s.orders ≡ some o
    → ((j : Text) → held_of j new ≡ held_of j o)
    → new.asset_minor ≡ o.asset_minor
    → new.id ≡ o.id
    → IsCovered s
    → IsCovered (put_order id new s)
unfolding put_order
same_hold id o new s found same amount name c = record {
  sold = λ j.
      rw (weigh-insert_old (held_of j) id new o s.orders found, same j, c.sold j) (omega int_laws);
  remains = c.remains;
  asks =
      Every-insert (λ id o. pos 0 <ℤ o.asset_minor) id new s.orders
        (rw amount (Every-lookup (λ id o. pos 0 <ℤ o.asset_minor) id o s.orders c.asks found))
        c.asks;
  own =
      Every-insert (λ id o. o.id ≡ id) id new s.orders
        (name ∙ Every-lookup (λ id o. o.id ≡ id) id o s.orders c.own found) c.own;
}

pub cas_update-IsCovered :
    (now id : Text) (from : List OrderStatus) (to : OrderStatus) (p : OrderPatch) (s : Store)
    → p.status ≡ some to
    → includes from cancelled ≡ false
    → eq_status to cancelled ≡ false
    → IsCovered s
    → IsCovered (cas_update now id from p s).1
unfolding cas_update
cas_update-IsCovered now id from to p s sets apart stays c =
    elim (Option-cases (lookup id s.orders)) [
      | inl missing ↦ rw missing c
      | inr (o, found) ↦ elim (Bool-cases (includes from o.status)) [
        | inl claims ↦
            rw (found, claims)
              (same_hold id o (patched now p o) s found
                (λ j.
                  unfold held_of patched in
                  rw (sets, stays, not_cancelled from o.status claims apart) refl)
                (unfold patched in refl) (unfold patched in refl) c)
        | inr lost ↦ rw (found, lost) c
      ]
    ]

module _ (now : Text) (o : NewOrder) (offer : Offer) (s : Store) (c : IsCovered s)
    (found : lookup o.offer_id s.offers ≡ some offer) where
  reserve-IsCovered :
      lookup o.id s.orders ≡ none
      → pos 0 <ℤ o.asset_minor
      → o.asset_minor ≤ℤ offer.remaining_minor
      → IsCovered (reserve now o offer s)
  unfolding reserve with_remaining
  reserve-IsCovered fresh more enough = record {
    sold = λ j.
        rw
          (
            taken-insert o.offer_id j _ s,
            weigh-insert_new (held_of j) o.id (new_order now o) s.orders fresh,
            ← c.sold j,
          )
          (elim (Bool-cases (eq_text o.offer_id j)) [
            | inl same ↦
                unfold held_of new_order eq_status in
                rw (same, ← (eq_text_iff o.offer_id j).0 same, found) (omega int_laws)
            | inr other ↦ unfold held_of new_order eq_status in rw other (omega int_laws)
          ]);
    remains =
        Every-insert (λ id o. pos 0 ≤ℤ o.remaining_minor) o.offer_id _ s.offers (omega int_laws)
          c.remains;
    asks =
        Every-insert (λ id o. pos 0 <ℤ o.asset_minor) o.id (new_order now o) s.orders
          (unfold new_order in more) c.asks;
    own =
        Every-insert (λ id o. o.id ≡ id) o.id (new_order now o) s.orders (unfold new_order in refl)
          c.own;
  }

pub create_order-IsCovered :
    (now : Text) (o : NewOrder) (s : Store)
    → lookup o.id s.orders ≡ none
    → IsCovered s
    → IsCovered (create_order now o s).1
unfolding create_order check_order
create_order-IsCovered now o s fresh c = elim (Option-cases (lookup o.offer_id s.offers)) [
  | inl missing ↦ rw missing c
  | inr (offer, found) ↦ elim (Bool-cases (not (is_active offer.status))) [
    | inl over ↦ rw (found, over) c
    | inr sells ↦ elim (Bool-cases (leb_ℤ o.asset_minor (pos 0))) [
      | inl less ↦ rw (found, sells, less) c
      | inr more ↦ elim (Bool-cases (ltb_ℤ offer.remaining_minor o.asset_minor)) [
        | inl short ↦ rw (found, sells, more, short) c
        | inr enough ↦
            rw (found, sells, more, enough)
              (reserve-IsCovered now o offer s c found fresh (ground (arith, more))
                (ground (arith, enough)))
      ]
    ]
  ]
]
