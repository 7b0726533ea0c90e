-- ===== src/P2p/Releasing.antt =====
-- `doRelease` of src/p2p/p2p-service.ts: the claim and the post stand or fall together.
use ticash_pay_demo.Prelude.Names.{
  ◌≡◌, refl, ◌∙◌, inl, inr, false, some, List, [], ◌∷◌, arith, Bool-cases,
}
use ticash_pay_demo.Prelude.Text.{Text, eq_text, eq_text_iff, text_eq}
use ticash_pay_demo.Prelude.Dict.{lookup, lookup-insert_self}
use ticash_pay_demo.Prelude.Result.{Result, ok, err}
use ticash_pay_demo.Ledger.Types.{PostedJournal}
use ticash_pay_demo.Ledger.Store.{Ledger}
use ticash_pay_demo.Ledger.Service.{perform}
use ticash_pay_demo.Ledger.Service.Keyed.{Registers}
use ticash_pay_demo.Ledger.Service.Escrowed.{release-Registers}
use ticash_pay_demo.P2p.Types.{OrderStatus, released, eq_status, includes, Order}
use ticash_pay_demo.P2p.Store.{Store, patched, put_order, cas_update}
use ticash_pay_demo.P2p.Store.Quiet.{released_at, listed_at, Quiet, put-released, not_released}
use ticash_pay_demo.P2p.Service.{
  Market, lock_key, release_key, to_status, after_release, release_request, do_release,
}
use ticash_pay_demo.P2p.Keys.{release-release, release-lock}
use ticash_pay_demo.P2p.Faithful.{IsFaithful}

module _ (s : Market) (o : Order) (found : lookup o.id s.store.orders ≡ some o) (f : IsFaithful s)
    (now posted_at reverted_at : Text) where
  abbrev claimed : Order
  claimed = patched now (to_status released) o

  abbrev taken : Store
  taken = put_order o.id claimed s.store

  -- The claim taken back.
  given_back :
      (cas_update reverted_at o.id (released ∷ []) (to_status o.status) taken).1
      ≡ put_order o.id (patched reverted_at (to_status o.status) claimed) taken
  unfolding cas_update put_order patched includes eq_status
  given_back = rw (lookup-insert_self o.id claimed s.store.orders) refl

  lists_same : (t : Store) (p : Order) (j : Text) → listed_at j (put_order o.id p t) ≡ listed_at j t
  unfolding listed_at put_order
  lists_same t p j = refl

  back-Quiet :
      eq_status o.status released ≡ false
      → Quiet s.store (cas_update reverted_at o.id (released ∷ []) (to_status o.status) taken).1
  back-Quiet live = rw given_back (record {
    releases = λ j.
        rw
          (
            put-released o.id j (patched reverted_at (to_status o.status) claimed) taken,
            put-released o.id j claimed s.store,
          )
          (elim (Bool-cases (eq_text o.id j)) [
            | inl same ↦
                unfold released_at patched in
                rw (same, live, ← (eq_text_iff o.id j).0 same, found, live) refl
            | inr other ↦ rw other
          ]);
    lists = λ j.
        lists_same taken (patched reverted_at (to_status o.status) claimed) j
        ∙ lists_same s.store claimed j;
  })

  answered :
      (r : Result PostedJournal × Ledger)
      → eq_status o.status released ≡ false
      → Registers (release_key o.id) s.ledger r
      → IsFaithful (after_release reverted_at o claimed taken r).1
  answered (ok p, l) live reg = record {
    releases = λ j.
        rw
          (
            reg (release_key j),
            release-release o.id j,
            f.releases j,
            put-released o.id j claimed s.store,
          )
          (elim (Bool-cases (eq_text o.id j)) [
            | inl same ↦ unfold patched eq_status in rw same (ground arith)
            | inr other ↦ rw other (ground arith)
          ]);
    locks = λ j.
        rw (reg (lock_key j), release-lock o.id j, f.locks j, lists_same s.store claimed j)
          (ground arith);
  }
  answered (err e, l) live reg =
      let q : Quiet s.store
          (cas_update reverted_at o.id (released ∷ []) (to_status o.status) taken).1 =
        back-Quiet live in
      record {
        releases = λ j. rw (reg (release_key j), q.releases j, f.releases j) (ground arith);
        locks = λ j. rw (reg (lock_key j), q.lists j, f.locks j) (ground arith);
      }

  pub do_release-IsFaithful :
      (from : List OrderStatus)
      → includes from released ≡ false
      → IsFaithful (do_release now posted_at reverted_at o from s).1
  unfolding do_release cas_update
  do_release-IsFaithful from apart = elim (Bool-cases (includes from o.status)) [
    | inl claims ↦
        rw (found, claims)
          (answered (perform posted_at (release_request o) s.ledger)
            (not_released from o.status claims apart)
            (unfold release_request in
              release-Registers posted_at o.merchant_id o.asset o.asset_minor (release_key o.id)
                (some o.id) s.ledger o.buyer_id o.commission_minor))
    | inr lost ↦ rw (found, lost) f
  ]
