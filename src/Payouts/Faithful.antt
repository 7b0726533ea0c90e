-- ===== src/Payouts/Faithful.antt =====
-- How the ledger's keys and the rows of src/payouts correspond.
use ticash_pay_demo.Prelude.Names.{
  ◌≡◌, refl, inl, inr, Bool, false, Option, none, some, ◌&&◌, ◌||◌, arith, if◌then◌else◌,
  Bool-cases,
}
use ticash_pay_demo.Prelude.Text.{Text, eq_text, eq_text_iff, text_eq}
use ticash_pay_demo.Prelude.Dict.{lookup, insert, lookup-insert}
use ticash_pay_demo.Prelude.Weigh.{Every, Every-insert}
use ticash_pay_demo.Prelude.Dict.{or_else}
use ticash_pay_demo.Prelude.Result.{Result, ok, err}
use ticash_pay_demo.Ledger.Types.{PostedJournal}
use ticash_pay_demo.Ledger.Store.{Ledger}
use ticash_pay_demo.Ledger.Service.{perform, BothLegs}
use ticash_pay_demo.Ledger.Service.Keyed.{is_posted, Registers}
use ticash_pay_demo.Ledger.Service.Both.{payout-Registers, RegistersLast, reverse-RegistersLast}
use ticash_pay_demo.Payouts.Store.{
  PayoutStatus, created, submitted, settled, reversed, eq_status, PayoutRecord, Payouts, patched,
  update,
}
use ticash_pay_demo.Payouts.Service.{
  PayoutDesk, payout_settle_key, reversal_fx_key, reversal_debit_key, settle_request, settled_by,
  settle, reversal_quote, reversed_by, reverse,
}

abbrev pub has_status : PayoutStatus → Option PayoutRecord → Bool
has_status x none = false
has_status x (some p) = eq_status p.status x

unfoldable pub is_at : PayoutStatus → Text → Payouts → Bool
is_at x id rows = has_status x (lookup id rows)

-- The ledger has a settlement exactly for each settled payout and a whole refund exactly for each
-- reversed one, and each row stands under its own id.
pub record IsFaithful (s : PayoutDesk) : Type 0 where
  pub settles : (id : Text) → is_posted (payout_settle_key id) s.ledger ≡ is_at settled id s.rows
  pub refunds : (id : Text) → is_posted (reversal_debit_key id) s.ledger ≡ is_at reversed id s.rows
  pub own : Every (λ id p. p.correlation_id ≡ id) s.rows

pub at-insert :
    (x : PayoutStatus) (id j : Text) (p : PayoutRecord) (rows : Payouts)
    → is_at x j (insert id p rows) ≡ (if eq_text id j then eq_status p.status x else is_at x j rows)
unfolding is_at
at-insert x id j p rows =
    rw (lookup-insert id j p rows)
      (elim (Bool-cases (eq_text id j)) [ inl same ↦ rw same | inr other ↦ rw other ])

pub at-found :
    (x : PayoutStatus) (id : Text) (p : PayoutRecord) (rows : Payouts)
    → lookup id rows ≡ some p
    → is_at x id rows ≡ eq_status p.status x
unfolding is_at
at-found x id p rows found = rw found refl

module _ (i j : Text) where
  settle-settle : eq_text (payout_settle_key i) (payout_settle_key j) ≡ eq_text i j
  unfolding eq_text
  settle-settle = refl

  settle-refund : eq_text (payout_settle_key i) (reversal_debit_key j) ≡ false
  unfolding eq_text
  settle-refund = refl

  refund-settle : eq_text (reversal_debit_key i) (payout_settle_key j) ≡ false
  unfolding eq_text
  refund-settle = refl

  refund-refund : eq_text (reversal_debit_key i) (reversal_debit_key j) ≡ eq_text i j
  unfolding eq_text
  refund-refund = refl

  fx-settle : eq_text (reversal_fx_key i) (payout_settle_key j) ≡ false
  unfolding eq_text
  fx-settle = refl

  fx-refund : eq_text (reversal_fx_key i) (reversal_debit_key j) ≡ false
  unfolding eq_text
  fx-refund = refl

-- A row that keeps its end.
pub note-IsFaithful :
    (id : Text) (p new : PayoutRecord) (s : PayoutDesk)
    → lookup id s.rows ≡ some p
    → new.correlation_id ≡ id
    → ((x : PayoutStatus)
        → eq_status x created ≡ false
        → eq_status x submitted ≡ false
        → eq_status new.status x ≡ eq_status p.status x)
    → IsFaithful s
    → IsFaithful (record s { rows = insert id new s.rows })
note-IsFaithful id p new s found name same f = record {
  settles = λ j.
      rw (f.settles j, at-insert settled id j new s.rows)
        (elim (Bool-cases (eq_text id j)) [
          | inl e ↦
              rw
                (
                  e,
                  same settled (unfold eq_status in refl) (unfold eq_status in refl),
                  ← (eq_text_iff id j).0 e,
                )
                (at-found settled id p s.rows found)
          | inr e ↦ rw e refl
        ]);
  refunds = λ j.
      rw (f.refunds j, at-insert reversed id j new s.rows)
        (elim (Bool-cases (eq_text id j)) [
          | inl e ↦
              rw
                (
                  e,
                  same reversed (unfold eq_status in refl) (unfold eq_status in refl),
                  ← (eq_text_iff id j).0 e,
                )
                (at-found reversed id p s.rows found)
          | inr e ↦ rw e refl
        ]);
  own = Every-insert (λ id p. p.correlation_id ≡ id) id new s.rows name f.own;
}

module _ (p : PayoutRecord) (s : PayoutDesk) (found : lookup p.correlation_id s.rows ≡ some p)
    (f : IsFaithful s) (unsettled : eq_status p.status settled ≡ false)
    (kept : eq_status p.status reversed ≡ false) where
  -- A row that reaches an end together with its journal.
  ended-IsFaithful :
      (l : Ledger) (new : PayoutRecord)
      → new.correlation_id ≡ p.correlation_id
      → ((j : Text)
          → is_posted (payout_settle_key j) l ≡ (
              is_posted (payout_settle_key j) s.ledger
              || (eq_text p.correlation_id j && eq_status new.status settled)))
      → ((j : Text)
          → is_posted (reversal_debit_key j) l ≡ (
              is_posted (reversal_debit_key j) s.ledger
              || (eq_text p.correlation_id j && eq_status new.status reversed)))
      → IsFaithful (record { ledger = l; rows = insert p.correlation_id new s.rows })
  ended-IsFaithful l new name pays undoes = record {
    settles = λ j.
        rw (pays j, f.settles j, at-insert settled p.correlation_id j new s.rows)
          (elim (Bool-cases (eq_text p.correlation_id j)) [
            | inl e ↦
                rw
                  (
                    e,
                    ← (eq_text_iff p.correlation_id j).0 e,
                    at-found settled p.correlation_id p s.rows found,
                    unsettled,
                  )
                  (ground arith)
            | inr e ↦ rw e (ground arith)
          ]);
    refunds = λ j.
        rw (undoes j, f.refunds j, at-insert reversed p.correlation_id j new s.rows)
          (elim (Bool-cases (eq_text p.correlation_id j)) [
            | inl e ↦
                rw
                  (
                    e,
                    ← (eq_text_iff p.correlation_id j).0 e,
                    at-found reversed p.correlation_id p s.rows found,
                    kept,
                  )
                  (ground arith)
            | inr e ↦ rw e (ground arith)
          ]);
    own = Every-insert (λ id p. p.correlation_id ≡ id) p.correlation_id new s.rows name f.own;
  }

  -- A call that throws before the row changes.
  refused-IsFaithful :
      (l : Ledger)
      → ((j : Text)
          → is_posted (payout_settle_key j) l ≡ (is_posted (payout_settle_key j) s.ledger || false))
      → ((j : Text)
          → is_posted (reversal_debit_key j) l
            ≡ (is_posted (reversal_debit_key j) s.ledger || false))
      → IsFaithful (record { ledger = l; rows = s.rows })
  refused-IsFaithful l pays undoes = record {
    settles = λ j. rw (pays j, f.settles j) (ground arith);
    refunds = λ j. rw (undoes j, f.refunds j) (ground arith);
    own = f.own;
  }

  pub settle-IsFaithful : (posted_at now : Text) → IsFaithful (settle posted_at now p s).1
  unfolding settle
  settle-IsFaithful posted_at now = answered (perform posted_at (settle_request p) s.ledger) (
      unfold settle_request in
      payout-Registers posted_at p.currency p.amount_minor p.correlation_id
        (payout_settle_key p.correlation_id) (or_else p.provider_ref p.correlation_id)
        (some p.provider_fee_minor) s.ledger)
    where
      answered :
          (r : Result PostedJournal × Ledger)
          → Registers (payout_settle_key p.correlation_id) s.ledger r
          → IsFaithful (settled_by now p s.rows r).1
      answered (err e, l) reg =
          refused-IsFaithful l (λ j. rw (reg (payout_settle_key j)) (ground arith))
            (λ j. rw (reg (reversal_debit_key j)) (ground arith))
      answered (ok q, l) reg =
          unfold update in
          rw found (
            ended-IsFaithful l _ (unfold patched in refl)
              (λ j.
                unfold patched eq_status in
                rw (reg (payout_settle_key j), settle-settle p.correlation_id j) (ground arith))
              (λ j.
                unfold patched eq_status in
                rw (reg (reversal_debit_key j), settle-refund p.correlation_id j) (ground arith)))

  pub reverse-IsFaithful :
      (posted_at posted_at' now : Text) → IsFaithful (reverse posted_at posted_at' now p s).1
  unfolding reverse
  reverse-IsFaithful posted_at posted_at' now = answered _ (
      reverse-RegistersLast posted_at posted_at' p.context.sender_id (reversal_quote p.context)
        p.correlation_id (reversal_fx_key p.correlation_id) (reversal_debit_key p.correlation_id)
        s.ledger)
    where
      answered :
          (r : Result BothLegs × Ledger)
          → RegistersLast
              (reversal_fx_key p.correlation_id)
              (reversal_debit_key p.correlation_id)
              s.ledger
              r
          → IsFaithful (reversed_by now p s.rows r).1
      answered (err e, l) reg =
          refused-IsFaithful l
            (λ j. rw (reg (payout_settle_key j) (fx-settle p.correlation_id j)) (ground arith))
            (λ j. rw (reg (reversal_debit_key j) (fx-refund p.correlation_id j)) (ground arith))
      answered (ok q, l) reg =
          unfold update in
          rw found (
            ended-IsFaithful l _ (unfold patched in refl)
              (λ j.
                unfold patched eq_status in
                rw
                  (
                    reg (payout_settle_key j) (fx-settle p.correlation_id j),
                    refund-settle p.correlation_id j,
                  )
                  (ground arith))
              (λ j.
                unfold patched eq_status in
                rw
                  (
                    reg (reversal_debit_key j) (fx-refund p.correlation_id j),
                    refund-refund p.correlation_id j,
                  )
                  (ground arith)))
