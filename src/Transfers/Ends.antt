-- ===== src/Transfers/Ends.antt =====
-- How a run of src/transfers/transfer-service.ts can end.
use mathlib.Core.Path.{subst}
use ticash_pay_demo.Prelude.Names.{◌≡◌, refl, ◌⊎◌, inl, inr, true, false, some, Bool-cases}
use ticash_pay_demo.Prelude.Text.{Text, text_eq}
use ticash_pay_demo.Prelude.Dict.{lookup, lookup-insert_self}
use ticash_pay_demo.Prelude.Result.{Result, ok, err}
use ticash_pay_demo.Ledger.Types.{PostedJournal}
use ticash_pay_demo.Ledger.Store.{Ledger}
use ticash_pay_demo.Ledger.Operations.Transfer.{TransferQuote}
use ticash_pay_demo.Ledger.Service.{perform}
use ticash_pay_demo.Transfers.Store.{
  TransferStatus, pending, debited, fx_booked, completed, eq_status, TransferRecord, with_status,
  set_status,
}
use ticash_pay_demo.Transfers.Service.{
  Saga, Wiring, Answers, quote_from, debit_request, fx_request, Ran, and_next, stored, advance,
  debit_step, fx_step, hand_off, auto_on, payout_step, run,
}

-- The row of `id` after a step: the status it has when the step returned, and when it threw, and
-- the quote that it keeps.
abbrev pub Leaves :
    Text → TransferQuote → (TransferStatus → Type 0) → (TransferStatus → Type 0) → Ran → Type 0
Leaves id q P Q (ok t, u) = (lookup id u.rows ≡ some t) × (quote_from t ≡ q) × P t.status
Leaves id q P Q (err e, u) =
    (t : TransferRecord) × (lookup id u.rows ≡ some t) × (quote_from t ≡ q) × Q t.status

-- A transfer that a later run takes up.
abbrev pub CanResume : TransferStatus → Type 0
CanResume x = (x ≡ pending) ⊎ (x ≡ debited)

abbrev PastDebit : TransferStatus → Type 0
PastDebit x = eq_status x pending ≡ false

abbrev PastFx : TransferStatus → Type 0
PastFx x = (eq_status x pending ≡ false) × (eq_status x debited ≡ false)

is_pending : (x : TransferStatus) → eq_status x pending ≡ true → x ≡ pending
unfolding eq_status
is_pending pending h = refl
is_pending debited h = cc
is_pending fx_booked h = cc
is_pending completed h = cc

is_debited : (x : TransferStatus) → eq_status x debited ≡ true → x ≡ debited
unfolding eq_status
is_debited pending h = cc
is_debited debited h = refl
is_debited fx_booked h = cc
is_debited completed h = cc

is_completed : (x : TransferStatus) → PastFx x → eq_status x fx_booked ≡ false → x ≡ completed
unfolding eq_status
is_completed pending h g = cc
is_completed debited h g = cc
is_completed fx_booked h g = cc
is_completed completed h g = refl

module _ (id now : Text) (to : TransferStatus) (t : TransferRecord) (s : Saga)
    (found : lookup id s.rows ≡ some t) where
  set-Leaves :
      (P Q : TransferStatus → Type 0) (l : Ledger)
      → P to
      → Leaves id
          (quote_from t)
          P
          Q
          (stored (record s { ledger = l }) (set_status now id to s.rows))
  unfolding set_status with_status quote_from
  set-Leaves P Q l there =
      rw found (lookup-insert_self id (with_status now to t) s.rows, refl, there)

  advance-Leaves :
      (P Q : TransferStatus → Type 0) (r : Result PostedJournal × Ledger)
      → P to
      → Q t.status
      → Leaves id (quote_from t) P Q (advance now id to s r)
  advance-Leaves P Q (ok p, l) there here = set-Leaves P Q l there
  advance-Leaves P Q (err e, l) there here = (t, found, refl, here)

module _ (w : Wiring) (a : Answers) (id : Text) where
  debit_step-Leaves :
      (t : TransferRecord) (s : Saga)
      → lookup id s.rows ≡ some t
      → Leaves id (quote_from t) PastDebit CanResume (debit_step a id t s)
  unfolding debit_step
  debit_step-Leaves t s found = elim (Bool-cases (eq_status t.status pending)) [
    | inl waits ↦ rw waits (
        advance-Leaves id a.debited_at debited t s found PastDebit CanResume
          (perform a.debit_posted_at (debit_request id t) s.ledger) (unfold eq_status in refl)
          (inl (is_pending t.status waits)))
    | inr past ↦ rw past (found, refl, past)
  ]

  fx_step-Leaves :
      (q : TransferQuote) (t : TransferRecord) (s : Saga)
      → lookup id s.rows ≡ some t
      → PastDebit t.status
      → Leaves id (quote_from t) PastFx CanResume (fx_step a id q t s)
  unfolding fx_step
  fx_step-Leaves q t s found past = elim (Bool-cases (eq_status t.status debited)) [
    | inl waits ↦ rw waits (
        advance-Leaves id a.booked_at fx_booked t s found PastFx CanResume
          (perform a.fx_posted_at (fx_request id q t) s.ledger) (unfold eq_status in (refl, refl))
          (inr (is_debited t.status waits)))
    | inr other ↦ rw other (found, refl, (past, other))
  ]

  -- The hand-off to the payouts leaves the transfers alone.
  hand_off-rows :
      (q : TransferQuote) (t : TransferRecord) (s : Saga) → (hand_off w a id q t s).rows ≡ s.rows
  unfolding hand_off
  hand_off-rows q t s = elim (Bool-cases (auto_on w t.payout_rail)) [
    | inl auto ↦ rw auto refl
    | inr manual ↦ rw manual refl
  ]

  payout_step-Leaves :
      (q : TransferQuote) (t : TransferRecord) (s : Saga)
      → lookup id s.rows ≡ some t
      → PastFx t.status
      → Leaves id (quote_from t) (λ x. x ≡ completed) CanResume (payout_step w a id q t s)
  unfolding payout_step
  payout_step-Leaves q t s found past = elim (Bool-cases (eq_status t.status fx_booked)) [
    | inr other ↦ rw other (found, refl, is_completed t.status past other)
    | inl waits ↦ elim (Bool-cases w.has_payouts) [
      | inl yes_payouts ↦
          rw (waits, yes_payouts)
            (set-Leaves id a.completed_at completed t (hand_off w a id q t s)
              (rw (hand_off-rows q t s) found) (λ x. x ≡ completed) CanResume
              (hand_off w a id q t s).ledger refl)
      | inr no_payouts ↦
          rw (waits, no_payouts)
            (set-Leaves id a.completed_at completed t s found (λ x. x ≡ completed) CanResume
              s.ledger refl)
    ]
  ]

  pub run-Leaves :
      (t : TransferRecord) (s : Saga)
      → lookup id s.rows ≡ some t
      → Leaves id (quote_from t) (λ x. x ≡ completed) CanResume (run w a id s)
  unfolding run
  run-Leaves t s found = rw found (
      third (and_next (debit_step a id t s) (fx_step a id (quote_from t)))
        (second (debit_step a id t s) (debit_step-Leaves t s found)))
    where
      second :
          (r : Ran)
          → Leaves id (quote_from t) PastDebit CanResume r
          → Leaves id (quote_from t) PastFx CanResume (and_next r (fx_step a id (quote_from t)))
      second (err e, u) h = h
      second (ok t', u) h =
          subst (λ z. Leaves id z PastFx CanResume (fx_step a id (quote_from t) t' u)) (h.1)
            (fx_step-Leaves (quote_from t) t' u h.0 h.2)

      third :
          (r : Ran)
          → Leaves id (quote_from t) PastFx CanResume r
          → Leaves id
              (quote_from t)
              (λ x. x ≡ completed)
              CanResume
              (and_next r (payout_step w a id (quote_from t)))
      third (err e, u) h = h
      third (ok t', u) h =
          subst
            (λ z.
              Leaves id z (λ x. x ≡ completed) CanResume (payout_step w a id (quote_from t) t' u))
            (h.1) (payout_step-Leaves (quote_from t) t' u h.0 h.2)

  -- What a run that threw stopped at: the debit of a pending transfer, or the FX leg of a debited
  -- one. The error is the ledger's, and the rows are those from before the refused step.
  abbrev pub Stops : TransferRecord → Saga → Ran → Type 0
  Stops t s (ok t', u) = Unit
  Stops t s (err e, u) =
      ((t.status ≡ pending)
        × (perform a.debit_posted_at (debit_request id t) s.ledger ≡ (err e, u.ledger))
        × (u.rows ≡ s.rows))
      ⊎ ((t' : TransferRecord) × (s' : Saga) × (debit_step a id t s ≡ (ok t', s'))
          × (t'.status ≡ debited)
          × (perform a.fx_posted_at (fx_request id (quote_from t) t') s'.ledger ≡ (err e, u.ledger))
          × (u.rows ≡ s'.rows))

  debit_step-Stops :
      (t : TransferRecord) (s : Saga) → lookup id s.rows ≡ some t → Stops t s (debit_step a id t s)
  unfolding debit_step
  debit_step-Stops t s found = elim (Bool-cases (eq_status t.status pending)) [
    | inl waits ↦
        rw waits (answered waits (perform a.debit_posted_at (debit_request id t) s.ledger) refl)
    | inr past ↦ rw past tt
  ]
    where
      answered :
          eq_status t.status pending ≡ true
          → (r : Result PostedJournal × Ledger)
          → perform a.debit_posted_at (debit_request id t) s.ledger ≡ r
          → Stops t s (advance a.debited_at id debited s r)
      answered waits (ok p, l) h = unfold set_status in rw found tt
      answered waits (err e, l) h = inl (is_pending t.status waits, h, refl)

  module _ (t : TransferRecord) (s : Saga) where
    fx_step-Stops :
        (t' : TransferRecord) (s' : Saga)
        → lookup id s'.rows ≡ some t'
        → debit_step a id t s ≡ (ok t', s')
        → Stops t s (fx_step a id (quote_from t) t' s')
    unfolding fx_step
    fx_step-Stops t' s' found before = elim (Bool-cases (eq_status t'.status debited)) [
      | inl waits ↦
          rw waits (
            answered waits (perform a.fx_posted_at (fx_request id (quote_from t) t') s'.ledger)
              refl)
      | inr past ↦ rw past tt
    ]
      where
        answered :
            eq_status t'.status debited ≡ true
            → (r : Result PostedJournal × Ledger)
            → perform a.fx_posted_at (fx_request id (quote_from t) t') s'.ledger ≡ r
            → Stops t s (advance a.booked_at id fx_booked s' r)
        answered waits (ok p, l) h = unfold set_status in rw found tt
        answered waits (err e, l) h = inr (t', s', before, is_debited t'.status waits, h, refl)

    payout_step-Stops :
        (q : TransferQuote) (t' : TransferRecord) (s' : Saga)
        → lookup id s'.rows ≡ some t'
        → Stops t s (payout_step w a id q t' s')
    unfolding payout_step set_status
    payout_step-Stops q t' s' found = elim (Bool-cases (eq_status t'.status fx_booked)) [
      | inr other ↦ rw other tt
      | inl waits ↦ elim (Bool-cases w.has_payouts) [
        | inl yes_payouts ↦ rw (waits, yes_payouts, hand_off-rows q t' s', found) tt
        | inr no_payouts ↦ rw (waits, no_payouts, found) tt
      ]
    ]

    run-Stops : lookup id s.rows ≡ some t → Stops t s (run w a id s)
    unfolding run
    run-Stops found = rw found (
        second (debit_step a id t s) refl (debit_step-Leaves t s found)
          (debit_step-Stops t s found))
      where
        third :
            (v : TransferQuote) (r : Ran)
            → Leaves id v PastFx CanResume r
            → Stops t s r
            → Stops t s (and_next r (payout_step w a id (quote_from t)))
        third v (err e, u) h stops = stops
        third v (ok t', u) h stops = payout_step-Stops (quote_from t) t' u (h.0)

        second :
            (r : Ran)
            → debit_step a id t s ≡ r
            → Leaves id (quote_from t) PastDebit CanResume r
            → Stops t s r
            → Stops t s (
                and_next
                  (and_next r (fx_step a id (quote_from t)))
                  (payout_step w a id (quote_from t)))
        second (err e, u) before h stops = stops
        second (ok t', u) before h stops =
            third (quote_from t') (fx_step a id (quote_from t) t' u)
              (fx_step-Leaves (quote_from t) t' u (h.0) (h.2)) (fx_step-Stops t' u (h.0) before)

  -- A run of a transfer that is there ends in one of three ways. It returns: the transfer is stored
  -- as completed. The ledger refuses the debit of a pending transfer, or the FX leg of a debited
  -- one: the run throws the ledger's error and the rows are those from before that step, so that the
  -- transfer waits as pending, or as debited. It keeps its quote in all three.
  pub run-Ends :
      (t : TransferRecord) (s : Saga)
      → lookup id s.rows ≡ some t
      → Leaves id (quote_from t) (λ x. x ≡ completed) CanResume (run w a id s)
        × Stops t s (run w a id s)
  run-Ends t s found = (run-Leaves t s found, run-Stops t s found)
