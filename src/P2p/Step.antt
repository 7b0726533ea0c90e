-- ===== src/P2p/Step.antt =====
-- Every call of src/p2p/p2p-service.ts that changes something, with other posts between them.
use ticash_pay_demo.Prelude.Names.{◌≡◌, false, none, []}
use ticash_pay_demo.Prelude.Int.{ℤ}
use ticash_pay_demo.Prelude.Text.{Text, eq_text, text_eq}
use ticash_pay_demo.Prelude.Runtime.{Dates, Numbers}
use ticash_pay_demo.Prelude.Dict.{lookup}
use ticash_pay_demo.Money.Currency.{Currency}
use ticash_pay_demo.Ledger.Types.{JournalDraft}
use ticash_pay_demo.Ledger.Store.{empty, post}
use ticash_pay_demo.P2p.Store.{Store, Proof}
use ticash_pay_demo.P2p.Service.{
  Market, lock_key, unlock_key, release_key, close_offer, release_order, cancel_order, Resolution,
  admin_resolve,
}
use ticash_pay_demo.P2p.Listing.{OfferArgs, create_offer}
use ticash_pay_demo.P2p.Ordering.{
  OrderArgs, open_order, submit_payment, dispute_order, expire_unpaid_orders, attach_proof_image,
}

-- A post that has nothing to do with the marketplace.
abbrev pub IsForeign : Text → Type 0
IsForeign key =
    (id : Text)
    → (eq_text key (lock_key id) ≡ false)
      × (eq_text key (unlock_key id) ≡ false)
      × (eq_text key (release_key id) ≡ false)

abbrev pub with_store : Market → Store → Market
with_store s t = record s { store = t }

-- What stays the same: `cfg.asset`, `cfg.confirmWindowMinutes` and the run time's parsers.
pub record Setting : Type 0 where
  pub asset : Currency
  pub confirm : ℤ
  pub dates : Dates
  pub numbers : Numbers

-- One call of the service, whatever it answers, or a post by another part of the program. A new
-- offer or order draws an id that no row has.
pub data Step (x : Setting) : Market → Market → Type 0 where
  listed :
      (s : Market) (id posted_at created_at : Text) (a : OfferArgs)
      → lookup id s.store.offers ≡ none
      → Step x s (create_offer x.numbers x.asset id posted_at created_at a s).1
  closed :
      (s : Market) (posted_at offer_id merchant_id : Text)
      → Step x s (close_offer x.asset posted_at offer_id merchant_id s).1
  opened :
      (s : Market) (bps : ℤ) (id : Text) (now_ms : ℤ) (created_at : Text) (a : OrderArgs)
      → lookup id s.store.orders ≡ none
      → Step x s (with_store s (open_order x.dates bps id now_ms created_at a s.store).1)
  paid :
      (s : Market) (now_ms : ℤ) (now order_id buyer_id proof_ref : Text)
      → Step x s (
          with_store s
            (submit_payment x.dates x.confirm now_ms now order_id buyer_id proof_ref s.store).1)
  disputed_by :
      (s : Market) (now order_id by reason : Text)
      → Step x s (with_store s (dispute_order now order_id by reason s.store).1)
  proved :
      (s : Market) (order_id buyer_id : Text) (p : Proof)
      → Step x s (with_store s (attach_proof_image order_id buyer_id p s.store).1)
  released_by :
      (s : Market) (now posted_at reverted_at order_id merchant_id : Text)
      → Step x s (release_order now posted_at reverted_at order_id merchant_id s).1
  cancelled_by : (s : Market) (now order_id by : Text) → Step x s (cancel_order now order_id by s).1
  swept :
      (s : Market) (now_ms : ℤ) (now : Text)
      → Step x s (with_store s (expire_unpaid_orders x.dates now_ms now s.store).1)
  resolved :
      (s : Market) (now posted_at reverted_at order_id : Text) (action : Resolution)
      → Step x s (admin_resolve now posted_at reverted_at order_id action s).1
  other_post :
      (s : Market) (now : Text) (j : JournalDraft)
      → IsForeign j.idempotency_key
      → Step x s (record s { ledger = (post now j s.ledger).1 })

abbrev pub no_rows : Store
no_rows = record { offers = []; orders = []; proofs = [] }

pub data Reach (x : Setting) : Market → Type 0 where
  start : Reach x (record { ledger = empty; store = no_rows })
  next : {s t : Market} → Reach x s → Step x s t → Reach x t
