-- ===== src/Payouts/Others.antt =====
-- A call of src/payouts/payout-service.ts on one payout leaves the rows of the others.
use ticash_pay_demo.Prelude.Names.{
  ◌≡◌, refl, ◌∙◌, inl, inr, false, Option, none, some, [], ◌∷◌, Bool-cases, Option-cases,
}
use ticash_pay_demo.Prelude.Int.{ℤ}
use ticash_pay_demo.Prelude.Text.{Text, eq_text, text_eq}
use ticash_pay_demo.Prelude.Dict.{lookup, insert, lookup-insert}
use ticash_pay_demo.Prelude.Result.{Result, ok, err}
use ticash_pay_demo.Ledger.Types.{PostedJournal}
use ticash_pay_demo.Ledger.Store.{Ledger}
use ticash_pay_demo.Ledger.Operations.Transfer.{TransferQuote}
use ticash_pay_demo.Ledger.Service.{perform, BothLegs, reverse_transfer}
use ticash_pay_demo.Payouts.Store.{
  settled, reversed, eq_status, PayoutRecord, Payouts, PayoutPatch, create, update, patched,
}
use ticash_pay_demo.Payouts.Service.{
  PayoutDesk, payout_for, create_for_transfer, Sent, submit_ends, settle_request, settled_by,
  settle, reversal_quote, reversed_by, reverse, reversal_fx_key, reversal_debit_key, ProviderState,
  pending, success, failed, unreachable, advance, with_ref, release_with, release_manually,
  fail_manually,
}
use ticash_pay_demo.Payouts.Calls.{with_new_ref}

module _ (id j : Text) (apart : eq_text id j ≡ false) where
  insert-others : (p : PayoutRecord) (rows : Payouts) → lookup j (insert id p rows) ≡ lookup j rows
  insert-others p rows = rw (lookup-insert id j p rows, apart) refl

  update-others :
      (now : Text) (p : PayoutPatch) (rows : Payouts)
      → lookup j (update now id p rows).1 ≡ lookup j rows
  unfolding update
  update-others now p rows = elim (Option-cases (lookup id rows)) [
    | inl missing ↦ rw missing refl
    | inr (r, found) ↦ rw found (insert-others (patched now p r) rows)
  ]

  pub create-others :
      (port : Option Text) (now recipient sender_id : Text) (q : TransferQuote) (fee : Option ℤ)
      (rows : Payouts)
      → lookup j (create_for_transfer port now id recipient q sender_id fee rows).1 ≡ lookup j rows
  unfolding create_for_transfer create payout_for
  create-others port now recipient sender_id q fee rows = elim (Option-cases (lookup id rows)) [
    | inl missing ↦ rw missing (insert-others _ rows)
    | inr (r, found) ↦ rw found refl
  ]

  pub submit-others :
      (now : Text) (p : PayoutRecord) (answer : Sent) (rows : Payouts)
      → lookup j (submit_ends now id p answer rows).1 ≡ lookup j rows
  unfolding submit_ends
  submit-others now p answer rows = update-others now _ rows

  module _ (p : PayoutRecord) (own : p.correlation_id ≡ id) (s : PayoutDesk) where
    settle-others :
        (posted_at now : Text) → lookup j (settle posted_at now p s).1.rows ≡ lookup j s.rows
    unfolding settle
    settle-others posted_at now = answered (perform posted_at (settle_request p) s.ledger)
      where
        answered :
            (r : Result PostedJournal × Ledger)
            → lookup j (settled_by now p s.rows r).1.rows ≡ lookup j s.rows
        answered (err e, l) = refl
        answered (ok q, l) = rw own (update-others now _ s.rows)

    reverse-others :
        (posted_at posted_at' now : Text)
        → lookup j (reverse posted_at posted_at' now p s).1.rows ≡ lookup j s.rows
    unfolding reverse
    reverse-others posted_at posted_at' now = answered (
        reverse_transfer posted_at posted_at' p.context.sender_id (reversal_quote p.context)
          p.correlation_id (reversal_fx_key p.correlation_id) (reversal_debit_key p.correlation_id)
          s.ledger)
      where
        answered :
            (r : Result BothLegs × Ledger)
            → lookup j (reversed_by now p s.rows r).1.rows ≡ lookup j s.rows
        answered (err e, l) = refl
        answered (ok q, l) = rw own (update-others now _ s.rows)

    pub advance-others :
        (posted_at posted_at' now : Text) (answer : ProviderState)
        → lookup j (advance posted_at posted_at' now p s answer).1.rows ≡ lookup j s.rows
    advance-others posted_at posted_at' now pending = refl
    advance-others posted_at posted_at' now success = settle-others posted_at now
    advance-others posted_at posted_at' now failed = reverse-others posted_at posted_at' now
    advance-others posted_at posted_at' now unreachable = refl

  noted-others :
      (p : PayoutRecord) (s : PayoutDesk) (noted_at posted_at now : Text) (ref : Option Text)
      → p.correlation_id ≡ id
      → lookup id s.rows ≡ some p
      → lookup j (release_with posted_at now s.ledger (with_ref noted_at p ref id s.rows)).1.rows
        ≡ lookup j s.rows
  unfolding with_ref
  noted-others p s noted_at posted_at now none own found = settle-others p own s posted_at now
  noted-others p s noted_at posted_at now (some []) own found = settle-others p own s posted_at now
  noted-others p s noted_at posted_at now (some (c ∷ cs)) own found =
      let new : PayoutRecord = with_new_ref noted_at (c ∷ cs) p in
      unfold update in
      rw found (
        settle-others new (unfold patched in own) (record s { rows = insert id new s.rows })
          posted_at now
        ∙ insert-others new s.rows)

  module _ (s : PayoutDesk)
      (own : (p : PayoutRecord) → lookup id s.rows ≡ some p → p.correlation_id ≡ id) where
    pub release_manually-others :
        (noted_at posted_at now : Text) (ref : Option Text)
        → lookup j (release_manually noted_at posted_at now id ref s).1.rows ≡ lookup j s.rows
    unfolding release_manually
    release_manually-others noted_at posted_at now ref = elim (Option-cases (lookup id s.rows)) [
      | inl missing ↦ rw missing refl
      | inr (p, found) ↦ elim (Bool-cases (eq_status p.status settled)) [
        | inl done ↦ rw (found, done) refl
        | inr unsettled ↦ elim (Bool-cases (eq_status p.status reversed)) [
          | inl over ↦ rw (found, unsettled, over) refl
          | inr kept ↦
              rw (found, unsettled, kept)
                (noted-others p s noted_at posted_at now ref (own p found) found)
        ]
      ]
    ]

    pub fail_manually-others :
        (posted_at posted_at' now : Text)
        → lookup j (fail_manually posted_at posted_at' now id s).1.rows ≡ lookup j s.rows
    unfolding fail_manually
    fail_manually-others posted_at posted_at' now = elim (Option-cases (lookup id s.rows)) [
      | inl missing ↦ rw missing refl
      | inr (p, found) ↦ elim (Bool-cases (eq_status p.status reversed)) [
        | inl done ↦ rw (found, done) refl
        | inr kept ↦ elim (Bool-cases (eq_status p.status settled)) [
          | inl over ↦ rw (found, kept, over) refl
          | inr unsettled ↦
              rw (found, kept, unsettled)
                (reverse-others p (own p found) s posted_at posted_at' now)
        ]
      ]
    ]
