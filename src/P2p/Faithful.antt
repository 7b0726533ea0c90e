-- ===== src/P2p/Faithful.antt =====
-- How the ledger's keys and the rows of src/p2p correspond.
use ticash_pay_demo.Prelude.Names.{
  ◌≡◌, inl, inr, Bool, true, false, Option, none, some, [], ◌&&◌, ◌||◌, arith, Bool-cases,
  Option-cases,
}
use ticash_pay_demo.Prelude.Int.{pos, ltb_ℤ}
use ticash_pay_demo.Prelude.Text.{Text, eq_text, text_eq}
use ticash_pay_demo.Prelude.Dict.{lookup, lookup-insert}
use ticash_pay_demo.Prelude.Result.{Result, ok, err, Result-cases}
use ticash_pay_demo.Money.Currency.{Currency}
use ticash_pay_demo.Ledger.Types.{PostedJournal}
use ticash_pay_demo.Ledger.Store.{Ledger}
use ticash_pay_demo.Ledger.Service.{perform}
use ticash_pay_demo.Ledger.Service.Keyed.{is_posted, Registers}
use ticash_pay_demo.Ledger.Service.Escrowed.{lock-Registers, unlock-Registers}
use ticash_pay_demo.P2p.Types.{Offer, NewOffer}
use ticash_pay_demo.P2p.Store.{Store, new_offer, create_offer, patched, put_order, cas_update}
use ticash_pay_demo.P2p.Store
use ticash_pay_demo.P2p.Store.Quiet.{released_at, listed_at, Quiet, close_offer-Quiet}
use ticash_pay_demo.P2p.Service.{
  Market, lock_key, unlock_key, release_key, record_locked, list_offer, lock_request, check_close,
  after_unlock, unlock_closed, unlock_request, close_offer,
}
use ticash_pay_demo.P2p.Keys.{lock-lock, lock-release, unlock-lock, unlock-release}

-- The ledger has a release exactly for each released order and a lock exactly for each offer.
pub record IsFaithful (s : Market) : Type 0 where
  pub releases : (id : Text) → is_posted (release_key id) s.ledger ≡ released_at id s.store
  pub locks : (id : Text) → is_posted (lock_key id) s.ledger ≡ listed_at id s.store

-- A call that leaves the ledger alone, or posts under a key of another kind.
pub still-IsFaithful :
    (s : Market) (l : Ledger) (t : Store) (key : Text) (b : Bool)
    → ((k : Text) → is_posted k l ≡ (is_posted k s.ledger || (eq_text key k && b)))
    → ((j : Text) → eq_text key (release_key j) ≡ false)
    → ((j : Text) → eq_text key (lock_key j) ≡ false)
    → Quiet s.store t
    → IsFaithful s
    → IsFaithful (record { ledger = l; store = t })
still-IsFaithful s l t key b reg no_release no_lock q f = record {
  releases = λ j. rw (reg (release_key j), no_release j, f.releases j, q.releases j) (ground arith);
  locks = λ j. rw (reg (lock_key j), no_lock j, f.locks j, q.lists j) (ground arith);
}

pub list_offer-IsFaithful :
    (posted_at created_at : Text) (o : NewOffer) (s : Market)
    → lookup o.id s.store.offers ≡ none
    → IsFaithful s
    → IsFaithful (list_offer posted_at created_at o s).1
unfolding list_offer
list_offer-IsFaithful posted_at created_at o s fresh f =
    recorded (perform posted_at (lock_request o) s.ledger) (
      unfold lock_request in
      lock-Registers posted_at o.merchant_id o.asset o.total_minor (lock_key o.id) (some o.id)
        s.ledger)
  where
    recorded :
        (r : Result PostedJournal × Ledger)
        → Registers (lock_key o.id) s.ledger r
        → IsFaithful (record_locked created_at o s.store r).1
    recorded (ok p, l) reg = record {
      releases = λ j.
          rw (reg (release_key j), lock-release o.id j, f.releases j)
            (unfold create_offer released_at in ground arith);
      locks = λ j.
          unfold create_offer listed_at in
          rw
            (
              reg (lock_key j),
              lock-lock o.id j,
              f.locks j,
              lookup-insert o.id j (new_offer created_at o) s.store.offers,
            )
            (elim (Bool-cases (eq_text o.id j)) [
              | inl same ↦ rw same (ground arith)
              | inr other ↦ rw other (ground arith)
            ]);
    }
    recorded (err e, l) reg = record {
      releases = λ j. rw (reg (release_key j), lock-release o.id j, f.releases j) (ground arith);
      locks = λ j. rw (reg (lock_key j), f.locks j) (ground arith);
    }

pub close_offer-IsFaithful :
    (asset : Currency) (posted_at offer_id merchant_id : Text) (s : Market)
    → IsFaithful s
    → IsFaithful (close_offer asset posted_at offer_id merchant_id s).1
unfolding close_offer
close_offer-IsFaithful asset posted_at offer_id merchant_id s f =
    elim (Option-cases (lookup offer_id s.store.offers)) [
      | inl missing ↦ rw missing f
      | inr (o, found) ↦ elim (Result-cases (check_close offer_id merchant_id s.store o)) [
        | inl (u, fits) ↦
            rw (found, fits)
              (unlocked (Store.close_offer offer_id merchant_id s.store)
                (close_offer-Quiet offer_id merchant_id s.store))
        | inr (e, bad) ↦ rw (found, bad) f
      ]
    ]
  where
    kept : (t : Store) → Quiet s.store t → IsFaithful (record { ledger = s.ledger; store = t })
    kept t q =
        still-IsFaithful s s.ledger t (unlock_key []) false (λ k. ground arith) (unlock-release [])
          (unlock-lock []) q f

    posted :
        (o : Offer) (t : Store) (r : Result PostedJournal × Ledger)
        → Registers (unlock_key o.id) s.ledger r
        → Quiet s.store t
        → IsFaithful (after_unlock o t r).1
    posted o t (ok p, l) reg q =
        still-IsFaithful s l t (unlock_key o.id) true reg (unlock-release o.id) (unlock-lock o.id) q
          f
    posted o t (err e, l) reg q =
        still-IsFaithful s l t (unlock_key o.id) false reg (unlock-release o.id) (unlock-lock o.id)
          q f

    unlocked :
        (r : Option Offer × Store)
        → Quiet s.store r.1
        → IsFaithful (unlock_closed asset posted_at merchant_id s.ledger r).1
    unlocked (none, t) q = kept t q
    unlocked (some o, t) q = elim (Bool-cases (ltb_ℤ (pos 0) o.remaining_minor)) [
      | inl more ↦ rw more (
          posted o t (perform posted_at (unlock_request asset merchant_id o) s.ledger)
            (unfold unlock_request in
              unlock-Registers posted_at merchant_id asset o.remaining_minor (unlock_key o.id) none
                s.ledger)
            q)
      | inr less ↦ rw less (kept t q)
    ]
