-- ===== src/Payouts/Refines.antt =====
-- The calls of src/payouts/payout-service.ts against the state machine that it documents.
use mathlib.Core.Path.{subst}
use ticash_pay_demo.Prelude.Names.{
  ◌≡◌, refl, ap, ◌∙◌, inl, inr, Bool, true, false, not, Option, none, some, [], ◌∷◌, Bool-cases,
  Option-cases,
}
use ticash_pay_demo.Prelude.Int.{ℤ}
use ticash_pay_demo.Prelude.Text.{Text, text_eq}
use ticash_pay_demo.Prelude.Dict.{lookup, insert, lookup-insert_self}
use ticash_pay_demo.Prelude.Weigh.{Every-lookup}
use ticash_pay_demo.Ledger.Operations.Transfer.{TransferQuote}
use ticash_pay_demo.Payouts.Store.{
  PayoutStatus, created, submitted, settled, reversed, eq_status, PayoutRecord, create, new_payout,
  patched, update,
}
use ticash_pay_demo.Payouts.Service.{
  PayoutDesk, payout_for, create_for_transfer, settle, Sent, accepted, failed_with, submit_patch,
  submit_ends, with_ref, release_with, release_manually, fail_manually,
}
use ticash_pay_demo.Payouts.Faithful.{IsFaithful}
use ticash_pay_demo.Payouts.Calls.{IsOpen, own_row, with_new_ref}
use ticash_pay_demo.Payouts.Settled.{PayoutDesk-IsFaithful, Office-IsSteady, waiting-Holds}
use ticash_pay_demo.Payouts.Office.{
  Office, to_send, to_check, Step, made, submit_asks, submit_told, sync_asks, sync_told,
  released_by, failed_by, other_post, Reach,
}
use ticash_pay_demo.Payouts.Machine.{
  status_of, Moves, stays, is_made, is_sent, AllMove, none_move, insert-AllMove, put-AllMove,
  same_status, settle-AllMove, reverse-AllMove, advance-AllMove,
}

was_created : (x : PayoutStatus) → not (eq_status x created) ≡ false → x ≡ created
unfolding eq_status
was_created created h = refl
was_created submitted h = cc
was_created settled h = cc
was_created reversed h = cc

was_submitted : (x : PayoutStatus) → not (eq_status x submitted) ≡ false → x ≡ submitted
unfolding eq_status
was_submitted created h = cc
was_submitted submitted h = refl
was_submitted settled h = cc
was_submitted reversed h = cc

module _ (s : PayoutDesk) (f : IsFaithful s) where
  made-AllMove :
      (port : Option Text) (now id recipient sender_id : Text) (q : TransferQuote) (fee : Option ℤ)
      → AllMove false s.rows (create_for_transfer port now id recipient q sender_id fee s.rows).1
  unfolding create_for_transfer create payout_for
  made-AllMove port now id recipient sender_id q fee = elim (Option-cases (lookup id s.rows)) [
    | inr (p, found) ↦ rw found (none_move s.rows)
    | inl missing ↦
        rw missing (insert-AllMove id _ s.rows (unfold status_of new_payout in rw missing is_made))
  ]

  told-AllMove :
      (now id : Text) (p : PayoutRecord) (answer : Sent)
      → lookup id s.rows ≡ some p
      → not (eq_status p.status created) ≡ false
      → AllMove false s.rows (submit_ends now id p answer s.rows).1
  unfolding submit_ends update
  told-AllMove now id p (accepted ref) found early = rw found (
      put-AllMove id p _ s.rows found
        (unfold patched submit_patch in rw (was_created p.status early) is_sent))
  told-AllMove now id p (failed_with message) found early =
      rw found (put-AllMove id p _ s.rows found (unfold patched submit_patch in stays))

  fail_manually-AllMove :
      (posted_at posted_at' now id : Text)
      → AllMove true s.rows (fail_manually posted_at posted_at' now id s).1.rows
  unfolding fail_manually
  fail_manually-AllMove posted_at posted_at' now id = elim (Option-cases (lookup id s.rows)) [
    | inl missing ↦ rw missing (none_move s.rows)
    | inr (p, found) ↦ elim (Bool-cases (eq_status p.status reversed)) [
      | inl done ↦ rw (found, done) (none_move s.rows)
      | inr kept ↦ elim (Bool-cases (eq_status p.status settled)) [
        | inl over ↦ rw (found, kept, over) (none_move s.rows)
        | inr unsettled ↦
            rw (found, kept, unsettled)
              (reverse-AllMove true p s (own_row s f id p found) (unsettled, kept) posted_at
                posted_at' now)
      ]
    ]
  ]

  release_manually-AllMove :
      (noted_at posted_at now id : Text) (ref : Option Text)
      → AllMove true s.rows (release_manually noted_at posted_at now id ref s).1.rows
  unfolding release_manually patched with_ref settle
  release_manually-AllMove noted_at posted_at now id ref = elim (Option-cases (lookup id s.rows)) [
    | inl missing ↦ rw missing (none_move s.rows)
    | inr (p, found) ↦ elim (Bool-cases (eq_status p.status settled)) [
      | inl done ↦ rw (found, done) (none_move s.rows)
      | inr unsettled ↦ elim (Bool-cases (eq_status p.status reversed)) [
        | inl over ↦ rw (found, unsettled, over) (none_move s.rows)
        | inr kept ↦ rw (found, unsettled, kept) (noted p found (unsettled, kept) ref)
      ]
    ]
  ]
    where
      rewritten :
          (p : PayoutRecord)
          → lookup id s.rows ≡ some p
          → IsOpen p.status
          → (ref : Text)
          → AllMove true s.rows
              (settle posted_at now
                (with_new_ref noted_at ref p)
                (record s { rows = insert id (with_new_ref noted_at ref p) s.rows })).1.rows
      rewritten p found h ref j =
          let new : PayoutRecord = with_new_ref noted_at ref p in
          let name : p.correlation_id ≡ id =
            Every-lookup (λ id p. p.correlation_id ≡ id) id p s.rows f.own found in
          subst
            (λ z. Moves true z (
              status_of j
                (settle posted_at now new (record s { rows = insert id new s.rows })).1.rows))
            (same_status id p new s.rows found refl j)
            (settle-AllMove true new (record s { rows = insert id new s.rows })
              (ap (λ x. lookup x (insert id new s.rows)) name ∙ lookup-insert_self id new s.rows) h
              posted_at now j)

      noted :
          (p : PayoutRecord)
          → lookup id s.rows ≡ some p
          → IsOpen p.status
          → (ref : Option Text)
          → AllMove true s.rows
              (release_with posted_at now s.ledger (with_ref noted_at p ref id s.rows)).1.rows
      noted p found h none = settle-AllMove true p s (own_row s f id p found) h posted_at now
      noted p found h (some []) = settle-AllMove true p s (own_row s f id p found) h posted_at now
      noted p found h (some (c ∷ cs)) = unfold update in rw found (rewritten p found h (c ∷ cs))

-- Whether a step is a call by hand.
unfoldable pub by_hand : {port : Option Text} {o u : Office} → Step port o u → Bool
by_hand (released_by o noted_at posted_at now id ref idle) = true
by_hand (failed_by o posted_at posted_at' now id idle) = true
by_hand _ = false

-- In every state that the payout service reaches, where no call on a payout begins while another one
-- waits on the same payout, every further step moves each payout as the documented diagram says: it
-- stays as it is, or it is made, or a made one is sent, or a sent one is settled or reversed. Only
-- the two calls by hand may also settle or reverse one that is made and not sent yet, and they
-- neither make nor send one.
pub Step-Moves :
    {port : Option Text} {o u : Office} (id : Text)
    → Reach port o
    → (step : Step port o u)
    → Moves (by_hand step) (status_of id o.desk.rows) (status_of id u.desk.rows)
unfolding by_hand
Step-Moves {port} {o} id reach (made _ now key recipient sender_id q fee idle) =
    made-AllMove o.desk (PayoutDesk-IsFaithful port o reach) port now key recipient sender_id q fee
      id
Step-Moves id reach (submit_asks o key p idle asks) = stays
Step-Moves {port} {o} id reach (submit_told _ now key p answer waits) =
    let steady = Office-IsSteady port o reach in
    let read = waiting-Holds o key (to_send p) waits steady in
    told-AllMove o.desk steady.faithful now key p answer read.0 read.1 id
Step-Moves id reach (sync_asks o key p idle asks) = stays
Step-Moves {port} {o} id reach (sync_told _ posted_at posted_at' now key p answer waits) =
    let steady = Office-IsSteady port o reach in
    let read = waiting-Holds o key (to_check p) waits steady in
    advance-AllMove false p o.desk (own_row o.desk steady.faithful key p read.0)
      (was_submitted p.status read.1) posted_at posted_at' now answer id
Step-Moves {port} {o} id reach (released_by _ noted_at posted_at now key ref idle) =
    release_manually-AllMove o.desk (PayoutDesk-IsFaithful port o reach) noted_at posted_at now key
      ref id
Step-Moves {port} {o} id reach (failed_by _ posted_at posted_at' now key idle) =
    fail_manually-AllMove o.desk (PayoutDesk-IsFaithful port o reach) posted_at posted_at' now key
      id
Step-Moves id reach (other_post o now j apart) = stays
