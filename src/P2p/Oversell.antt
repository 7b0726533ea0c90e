-- ===== src/P2p/Oversell.antt =====
-- No offer of src/p2p is oversold, whatever is called.
use ticash_pay_demo.Prelude.Names.{◌≡◌, refl, some}
use ticash_pay_demo.Prelude.Int.{pos, ◌-ℤ◌, ◌≤ℤ◌}
use ticash_pay_demo.Prelude.Text.{Text, text_eq}
use ticash_pay_demo.Prelude.Dict.{lookup}
use ticash_pay_demo.Prelude.Weigh.{weigh, Every-lookup}
use ticash_pay_demo.P2p.Types.{created, Offer}
use ticash_pay_demo.P2p.Store.{list_orders_by_status}
use ticash_pay_demo.P2p.Service.{Market}
use ticash_pay_demo.P2p.Store.Covered.{IsCovered, held_of}
use ticash_pay_demo.P2p.Ordering.{expire_unpaid_orders}
use ticash_pay_demo.P2p.Step.{
  Setting, Step, listed, closed, opened, paid, disputed_by, proved, released_by, cancelled_by,
  swept, resolved, other_post, Reach, start, next,
}
use ticash_pay_demo.P2p.Covers.{
  listed-IsCovered, close_offer-IsCovered, open_order-IsCovered, submit_payment-IsCovered,
  dispute_order-IsCovered, attach_proof_image-IsCovered, expire_each-IsCovered,
}
use ticash_pay_demo.P2p.Covers.Ends.{
  release_order-IsCovered, cancelled-IsCovered, admin_resolve-IsCovered,
}

Step-IsCovered : (x : Setting) {s t : Market} → Step x s t → IsCovered s.store → IsCovered t.store
unfolding expire_unpaid_orders
Step-IsCovered x (listed s id posted_at created_at a fresh) c =
    listed-IsCovered x.numbers x.asset id posted_at created_at a s fresh c
Step-IsCovered x (closed s posted_at offer_id merchant_id) c =
    close_offer-IsCovered x.asset posted_at offer_id merchant_id s c
Step-IsCovered x (opened s bps id now_ms created_at a fresh) c =
    open_order-IsCovered x.dates bps id now_ms created_at a s.store fresh c
Step-IsCovered x (paid s now_ms now order_id buyer_id proof_ref) c =
    submit_payment-IsCovered now s.store c x.dates x.confirm now_ms order_id buyer_id proof_ref
Step-IsCovered x (disputed_by s now order_id by reason) c =
    dispute_order-IsCovered now s.store c order_id by reason
Step-IsCovered x (proved s order_id buyer_id p) c =
    attach_proof_image-IsCovered order_id s.store c order_id buyer_id p
Step-IsCovered x (released_by s now posted_at reverted_at order_id merchant_id) c =
    release_order-IsCovered now posted_at reverted_at s c order_id merchant_id
Step-IsCovered x (cancelled_by s now order_id by) c =
    cancelled-IsCovered now now now s c order_id by
Step-IsCovered x (swept s now_ms now) c =
    expire_each-IsCovered x.dates now_ms now (list_orders_by_status created s.store) 0 s.store c
Step-IsCovered x (resolved s now posted_at reverted_at order_id action) c =
    admin_resolve-IsCovered now posted_at reverted_at s c order_id action
Step-IsCovered x (other_post s now j apart) c = c

pub Reach-IsCovered : (x : Setting) (s : Market) → Reach x s → IsCovered s.store
unfolding lookup weigh
Reach-IsCovered x s start = record { sold = λ id. refl; remains = tt; asks = tt; own = tt }
Reach-IsCovered x s (next reach step) = Step-IsCovered x step (Reach-IsCovered x _ reach)

-- In every state that the calls of the marketplace, each new offer and order with an id that no
-- row has, and posts of other parts under other keys reach from an empty start, what is left of
-- each offer is not negative, and what was listed less what is left is the sum over all orders of
-- what they hold of it: their asset, unless they are cancelled.
pub never_oversold :
    (x : Setting) (s : Market) (id : Text) (o : Offer)
    → Reach x s
    → lookup id s.store.offers ≡ some o
    → (pos 0 ≤ℤ o.remaining_minor)
      × (o.total_minor -ℤ o.remaining_minor ≡ weigh (held_of id) s.store.orders)
never_oversold x s id o reach found =
    let c : IsCovered s.store = Reach-IsCovered x s reach in
    (
      Every-lookup (λ id o. pos 0 ≤ℤ o.remaining_minor) id o s.store.offers c.remains found,
      rw (← c.sold id, found) refl,
    )
