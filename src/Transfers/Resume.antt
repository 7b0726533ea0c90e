-- ===== src/Transfers/Resume.antt =====
-- `run` of src/transfers/transfer-service.ts: it ends, and it takes up what it finds.
use ticash_pay_demo.Prelude.Names.{◌≡◌, refl, sym, true, false, some}
use ticash_pay_demo.Prelude.Int.{pos, ◌≤ℤ◌}
use ticash_pay_demo.Prelude.Text.{Text, text_eq}
use ticash_pay_demo.Prelude.Dict.{lookup}
use ticash_pay_demo.Prelude.Result.{Result, ok, err}
use ticash_pay_demo.Ledger.Types.{PostedJournal}
use ticash_pay_demo.Ledger.Store.{Ledger}
use ticash_pay_demo.Ledger.Service.{perform}
use ticash_pay_demo.Ledger.Service.Again.{perform_again}
use ticash_pay_demo.Transfers.Store.{
  TransferStatus, pending, debited, fx_booked, completed, eq_status, TransferRecord, set_status,
}
use ticash_pay_demo.Transfers.Service.{
  Saga, Wiring, Answers, quote_from, debit_request, fx_request, stored, advance, debit_step,
  fx_step, payout_step, run,
}

-- A post that returned: the status is set in the ledger that it left.
advance-ok :
    (now id : Text) (status : TransferStatus) (s : Saga) (p : PostedJournal)
    (r : Result PostedJournal × Ledger)
    → r.0 ≡ ok p
    → advance now id status s r
      ≡ stored (record s { ledger = r.1 }) (set_status now id status s.rows)
advance-ok now id status s p (ok q, l) h = refl
advance-ok now id status s p (err e, l) h = cc

module _ (w : Wiring) (a : Answers) (id : Text) (t : TransferRecord) (s : Saga)
    (found : lookup id s.rows ≡ some t) where
  -- Running a completed transfer again, whatever is configured and whatever the provider would
  -- answer, returns it and changes nothing.
  pub run-completed : t.status ≡ completed → run w a id s ≡ (ok t, s)
  unfolding run debit_step fx_step payout_step
  run-completed h =
      let one : eq_status t.status pending ≡ false = rw h (unfold eq_status in refl) in
      let two : eq_status t.status debited ≡ false = rw h (unfold eq_status in refl) in
      let three : eq_status t.status fx_booked ≡ false = rw h (unfold eq_status in refl) in
      rw (found, one, two, three) refl

  -- The ledger after the debit was posted, with the row as it was.
  abbrev pub crashed : Saga
  crashed = record s { ledger = (perform a.debit_posted_at (debit_request id t) s.ledger).1 }

  debit_again :
      (p : PostedJournal)
      → eq_status t.status pending ≡ true
      → pos 0 ≤ℤ t.fee_minor
      → (perform a.debit_posted_at (debit_request id t) s.ledger).0 ≡ ok p
      → debit_step a id t crashed ≡ debit_step a id t s
  unfolding debit_step debit_request
  debit_again p waits fee done =
      let l : Ledger = (perform a.debit_posted_at (debit_request id t) s.ledger).1 in
      let again : perform a.debit_posted_at (debit_request id t) l ≡ (ok p, l) =
        perform_again a.debit_posted_at a.debit_posted_at (debit_request id t) s.ledger p done
          (unfold debit_request quote_from in (refl, fee)) in
      rw (waits, again)
        (sym (
          advance-ok a.debited_at id debited s p
            (perform a.debit_posted_at (debit_request id t) s.ledger) done))

  -- Where a run stopped after it posted the debit and before it noted it, a later run does what
  -- it would have done without the stop: the debit is not posted again, and the other steps
  -- follow. The transfer's fee is not negative.
  pub run-after_debit :
      (p : PostedJournal)
      → t.status ≡ pending
      → pos 0 ≤ℤ t.fee_minor
      → (perform a.debit_posted_at (debit_request id t) s.ledger).0 ≡ ok p
      → run w a id crashed ≡ run w a id s
  unfolding run
  run-after_debit p waits fee done =
      rw (found, debit_again p (rw waits (unfold eq_status in refl)) fee done) refl

  abbrev pub crashed_later : Saga
  crashed_later = record s {
    ledger = (perform a.fx_posted_at (fx_request id (quote_from t) t) s.ledger).1;
  }

  -- The same for a stop between the conversion's post and its note.
  pub run-after_fx :
      (p : PostedJournal)
      → t.status ≡ debited
      → (perform a.fx_posted_at (fx_request id (quote_from t) t) s.ledger).0 ≡ ok p
      → run w a id crashed_later ≡ run w a id s
  unfolding run debit_step fx_step
  run-after_fx p waits done =
      let l : Ledger = (perform a.fx_posted_at (fx_request id (quote_from t) t) s.ledger).1 in
      let again : perform a.fx_posted_at (fx_request id (quote_from t) t) l ≡ (ok p, l) =
        perform_again a.fx_posted_at a.fx_posted_at (fx_request id (quote_from t) t) s.ledger p done
          (unfold fx_request in tt) in
      let one : eq_status t.status pending ≡ false = rw waits (unfold eq_status in refl) in
      let two : eq_status t.status debited ≡ true = rw waits (unfold eq_status in refl) in
      rw (found, one, two, again)
        (rw
          (advance-ok a.booked_at id fx_booked s p
            (perform a.fx_posted_at (fx_request id (quote_from t) t) s.ledger) done)
          refl)
