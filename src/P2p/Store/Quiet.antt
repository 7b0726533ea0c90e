-- ===== src/P2p/Store/Quiet.antt =====
-- The changes of the in-memory store of src/p2p/p2p-store.ts that release no order.
use ticash_pay_demo.Prelude.Names.{
  ◌≡◌, refl, inl, inr, Bool, true, false, not, Option, none, some, List, ◌||◌, if◌then◌else◌,
  Bool-cases, Option-cases,
}
use ticash_pay_demo.Prelude.Text.{Text, eq_text, eq_text_iff, text_eq}
use ticash_pay_demo.Prelude.Dict.{has, lookup, insert, lookup-insert}
use ticash_pay_demo.Prelude.Result.{Result-cases}
use ticash_pay_demo.P2p.Types.{
  OrderStatus, created, payment_submitted, released, cancelled, disputed, eq_status, includes,
  cancellable, Offer, Order, NewOrder, OrderPatch, is_active,
}
use ticash_pay_demo.P2p.Store.{
  Store, close_offer, new_order, check_order, reserve, create_order, patched, put_order, cas_update,
  cancelled_order, cancel_row, cancel_order,
}

abbrev pub is_released : Option Order → Bool
is_released none = false
is_released (some o) = eq_status o.status released

unfoldable pub released_at : Text → Store → Bool
released_at id s = is_released (lookup id s.orders)

unfoldable pub listed_at : Text → Store → Bool
listed_at id s = has (lookup id s.offers)

-- The same orders are released and the same offers are there.
pub record Quiet (s t : Store) : Type 0 where
  pub releases : (j : Text) → released_at j t ≡ released_at j s
  pub lists : (j : Text) → listed_at j t ≡ listed_at j s

pub quiet : (s : Store) → Quiet s s
quiet s = record { releases = λ j. refl; lists = λ j. refl }

pub put-released :
    (id j : Text) (o : Order) (s : Store)
    → released_at j (put_order id o s)
      ≡ (if eq_text id j then eq_status o.status released else released_at j s)
unfolding released_at put_order
put-released id j o s =
    rw (lookup-insert id j o s.orders)
      (elim (Bool-cases (eq_text id j)) [ inl same ↦ rw same | inr other ↦ rw other ])

-- An offer that stands in the place of another.
offer-listed :
    (id j : Text) (o old : Offer) (s : Store)
    → lookup id s.offers ≡ some old
    → has (lookup j (insert id o s.offers)) ≡ has (lookup j s.offers)
offer-listed id j o old s found =
    rw (lookup-insert id j o s.offers) (elim (Bool-cases (eq_text id j)) [
      | inl same ↦ rw (same, ← (eq_text_iff id j).0 same, found) refl
      | inr other ↦ rw other
    ])

-- A row that is not released, before and after.
put-Quiet :
    (id : Text) (o new : Order) (s : Store)
    → lookup id s.orders ≡ some o
    → eq_status o.status released ≡ false
    → eq_status new.status released ≡ false
    → Quiet s (put_order id new s)
put-Quiet id o new s found was is = record {
  releases = λ j. rw (put-released id j new s) (elim (Bool-cases (eq_text id j)) [
    | inl same ↦ unfold released_at in rw (same, is, ← (eq_text_iff id j).0 same, found, was) refl
    | inr other ↦ rw other
  ]);
  lists = λ j. unfold listed_at put_order in refl;
}

eq_status-released : (x : OrderStatus) → eq_status x released ≡ true → x ≡ released
unfolding eq_status
eq_status-released created h = cc
eq_status-released payment_submitted h = cc
eq_status-released released h = refl
eq_status-released cancelled h = cc
eq_status-released disputed h = cc

pub not_released :
    (from : List OrderStatus) (x : OrderStatus)
    → includes from x ≡ true
    → includes from released ≡ false
    → eq_status x released ≡ false
not_released from x h apart = elim (Bool-cases (eq_status x released)) [
  | inl same ↦ cc (eq_status-released x same)
  | inr other ↦ other
]

pub cas_update-Quiet :
    (now id : Text) (from : List OrderStatus) (to : OrderStatus) (p : OrderPatch) (s : Store)
    → p.status ≡ some to
    → includes from released ≡ false
    → eq_status to released ≡ false
    → Quiet s (cas_update now id from p s).1
unfolding cas_update
cas_update-Quiet now id from to p s sets apart stays = elim (Option-cases (lookup id s.orders)) [
  | inl missing ↦ rw missing (quiet s)
  | inr (o, found) ↦ elim (Bool-cases (includes from o.status)) [
    | inl claims ↦
        rw (found, claims)
          (put-Quiet id o (patched now p o) s found (not_released from o.status claims apart)
            (unfold patched in rw (sets, stays) refl))
    | inr lost ↦ rw (found, lost) (quiet s)
  ]
]

pub close_offer-Quiet :
    (id merchant_id : Text) (s : Store) → Quiet s (close_offer id merchant_id s).1
unfolding close_offer
close_offer-Quiet id merchant_id s = elim (Option-cases (lookup id s.offers)) [
  | inl missing ↦ rw missing (quiet s)
  | inr (o, found) ↦
      elim (Bool-cases (not (eq_text o.merchant_id merchant_id) || not (is_active o.status))) [
        | inl refused ↦ rw (found, refused) (quiet s)
        | inr good ↦
            rw (found, good)
              (record {
                releases = λ j. unfold released_at in refl;
                lists = λ j. unfold listed_at in offer-listed id j _ o s found;
              })
      ]
]

pub create_order-Quiet :
    (now : Text) (o : NewOrder) (s : Store)
    → lookup o.id s.orders ≡ none
    → Quiet s (create_order now o s).1
unfolding create_order reserve
create_order-Quiet now o s fresh = elim (Option-cases (lookup o.offer_id s.offers)) [
  | inl missing ↦ rw missing (quiet s)
  | inr (offer, found) ↦ elim (Result-cases (check_order o offer)) [
    | inr (e, bad) ↦ rw (found, bad) (quiet s)
    | inl (u, fits) ↦
        rw (found, fits)
          (record {
            releases = λ j.
                unfold released_at in
                rw (lookup-insert o.id j (new_order now o) s.orders)
                  (elim (Bool-cases (eq_text o.id j)) [
                    | inl same ↦
                        unfold new_order eq_status in
                        rw (same, ← (eq_text_iff o.id j).0 same, fresh) refl
                    | inr other ↦ rw other
                  ]);
            lists = λ j. unfold listed_at in offer-listed o.offer_id j _ offer s found;
          })
  ]
]

pub cancel_order-Quiet : (now id : Text) (s : Store) → Quiet s (cancel_order now id s).1
unfolding cancel_order cancel_row put_order
cancel_order-Quiet now id s = elim (Option-cases (lookup id s.orders)) [
  | inl missing ↦ rw missing (quiet s)
  | inr (o, found) ↦ elim (Bool-cases (includes cancellable o.status)) [
    | inr over ↦ rw (found, over) (quiet s)
    | inl live ↦
        let q : Quiet s (put_order id (cancelled_order now o) s) =
          put-Quiet id o (cancelled_order now o) s found
            (not_released cancellable o.status live (unfold includes eq_status in refl))
            (unfold cancelled_order eq_status in refl) in
        rw (found, live)
          (elim (Option-cases (lookup o.offer_id s.offers)) [
            | inl missing ↦ rw missing q
            | inr (offer, sells) ↦ rw sells (record {
              releases = λ j. unfold released_at in unfold released_at in q.releases j;
              lists = λ j. unfold listed_at in offer-listed o.offer_id j _ offer s sells;
            })
          ])
  ]
]
