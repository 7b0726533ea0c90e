-- ===== src/Payouts/Machine.antt =====
-- The state machine that src/payouts/payout-service.ts documents, and the service against it.
use ticash_pay_demo.Prelude.Names.{
  ◌≡◌, Bool, true, false, refl, sym, ap, inl, inr, Option, none, some, Bool-cases,
}
use ticash_pay_demo.Prelude.Text.{Text, eq_text, eq_text_iff, text_eq}
use ticash_pay_demo.Prelude.Dict.{lookup, insert, lookup-insert}
use ticash_pay_demo.Prelude.Result.{Result, ok, err}
use ticash_pay_demo.Ledger.Types.{PostedJournal}
use ticash_pay_demo.Ledger.Store.{Ledger}
use ticash_pay_demo.Ledger.Service.{perform, BothLegs, reverse_transfer}
use ticash_pay_demo.Payouts.Store.{
  PayoutStatus, created, submitted, settled, reversed, PayoutRecord, Payouts, patched, update,
}
use ticash_pay_demo.Payouts.Service.{
  PayoutDesk, settle_request, settled_by, settle, reversal_quote, reversed_by, reverse,
  ProviderState, pending, success, failed, unreachable, advance, reversal_fx_key,
  reversal_debit_key,
}
use ticash_pay_demo.Payouts.Calls.{IsOpen}

abbrev pub status_in : Option PayoutRecord → Option PayoutStatus
status_in none = none
status_in (some p) = some p.status

unfoldable pub status_of : Text → Payouts → Option PayoutStatus
status_of id rows = status_in (lookup id rows)

-- Where a payout ends: the calls by hand end one that has not ended, all others only a sent one.
abbrev pub MayEnd : Bool → PayoutStatus → Type 0
MayEnd false x = x ≡ submitted
MayEnd true x = IsOpen x

-- The machine, for calls that are made by hand (`true`) and for the others: a payout is made, sent,
-- and ends settled or reversed, once.
pub data Moves : Bool → Option PayoutStatus → Option PayoutStatus → Type 0 where
  stays : {m : Bool} {x : Option PayoutStatus} → Moves m x x
  is_made : Moves false none (some created)
  is_sent : Moves false (some created) (some submitted)
  is_paid : {m : Bool} (x : PayoutStatus) → MayEnd m x → Moves m (some x) (some settled)
  is_undone : {m : Bool} (x : PayoutStatus) → MayEnd m x → Moves m (some x) (some reversed)

abbrev pub AllMove : Bool → Payouts → Payouts → Type 0
AllMove m rows rows' = (j : Text) → Moves m (status_of j rows) (status_of j rows')

pub none_move : {m : Bool} (rows : Payouts) → AllMove m rows rows
none_move rows j = stays

pub insert-AllMove :
    {m : Bool} (id : Text) (new : PayoutRecord) (rows : Payouts)
    → Moves m (status_of id rows) (some new.status)
    → AllMove m rows (insert id new rows)
unfolding status_of
insert-AllMove id new rows m j =
    rw (lookup-insert id j new rows) (elim (Bool-cases (eq_text id j)) [
      | inl same ↦ rw (same, sym ((eq_text_iff id j).0 same)) m
      | inr other ↦ rw other stays
    ])

pub put-AllMove :
    {m : Bool} (id : Text) (p new : PayoutRecord) (rows : Payouts)
    → lookup id rows ≡ some p
    → Moves m (some p.status) (some new.status)
    → AllMove m rows (insert id new rows)
unfolding status_of
put-AllMove id p new rows found m = insert-AllMove id new rows (rw found m)

-- A row that keeps its status.
pub same_status :
    (id : Text) (p new : PayoutRecord) (rows : Payouts)
    → lookup id rows ≡ some p
    → new.status ≡ p.status
    → (j : Text) → status_of j (insert id new rows) ≡ status_of j rows
unfolding status_of
same_status id p new rows found kept j =
    rw (lookup-insert id j new rows) (elim (Bool-cases (eq_text id j)) [
      | inl same ↦ rw (same, sym ((eq_text_iff id j).0 same), found) (ap some kept)
      | inr other ↦ rw other refl
    ])

module _ (m : Bool) (p : PayoutRecord) (s : PayoutDesk)
    (found : lookup p.correlation_id s.rows ≡ some p) (h : MayEnd m p.status) where
  pub settle-AllMove : (posted_at now : Text) → AllMove m s.rows (settle posted_at now p s).1.rows
  unfolding settle
  settle-AllMove posted_at now = answered (perform posted_at (settle_request p) s.ledger)
    where
      answered :
          (r : Result PostedJournal × Ledger) → AllMove m s.rows (settled_by now p s.rows r).1.rows
      answered (err e, l) = none_move s.rows
      answered (ok q, l) =
          unfold update in
          rw found
            (put-AllMove p.correlation_id p _ s.rows found (unfold patched in is_paid p.status h))

  pub reverse-AllMove :
      (posted_at posted_at' now : Text)
      → AllMove m s.rows (reverse posted_at posted_at' now p s).1.rows
  unfolding reverse
  reverse-AllMove posted_at posted_at' now = answered (
      reverse_transfer posted_at posted_at' p.context.sender_id (reversal_quote p.context)
        p.correlation_id (reversal_fx_key p.correlation_id) (reversal_debit_key p.correlation_id)
        s.ledger)
    where
      answered :
          (r : Result BothLegs × Ledger) → AllMove m s.rows (reversed_by now p s.rows r).1.rows
      answered (err e, l) = none_move s.rows
      answered (ok q, l) =
          unfold update in
          rw found
            (put-AllMove p.correlation_id p _ s.rows found (unfold patched in is_undone p.status h))

  pub advance-AllMove :
      (posted_at posted_at' now : Text) (answer : ProviderState)
      → AllMove m s.rows (advance posted_at posted_at' now p s answer).1.rows
  advance-AllMove posted_at posted_at' now pending = none_move s.rows
  advance-AllMove posted_at posted_at' now success = settle-AllMove posted_at now
  advance-AllMove posted_at posted_at' now failed = reverse-AllMove posted_at posted_at' now
  advance-AllMove posted_at posted_at' now unreachable = none_move s.rows
