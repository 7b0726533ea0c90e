-- ===== src/Tests/Transferring.antt =====
-- The theorems on transfers (src/transfers) at concrete calls.
use ticash_pay_demo.Prelude.Names.{◌≡◌, refl, false, none, some, [], ◌∷◌, arith}
use ticash_pay_demo.Prelude.Int.{pos, neg, ◌+ℤ◌, ◌*ℤ◌}
use ticash_pay_demo.Prelude.Text.{codes, eq_text, text_eq}
use ticash_pay_demo.Prelude.Dict.{lookup, insert}
use ticash_pay_demo.Prelude.Sums.{add_at, amount_at, add_all}
use ticash_pay_demo.Prelude.Result.{Result, ok, err}
use ticash_pay_demo.Money.Currency.{brl, htg, scale_of, currency_text, payout_minor_step}
use ticash_pay_demo.Money.Trim.{trim, trim_start, trim_end, is_space}
use ticash_pay_demo.Money.Digits.{span_digits, is_digit, digits_value, value_from}
use ticash_pay_demo.Money.Decimal.{match_unsigned, fraction_of}
use ticash_pay_demo.Money.Round.{convert, round_half_up_div, half_up, floor_to_payout_unit}
use ticash_pay_demo.Ledger.Engine.{assert_balanced, assert_zero, sum_by_currency, sum_from}
use ticash_pay_demo.Ledger.Types.{
  settlement, TxType, JournalDraft, PostedJournal, account_key, owner_type_text, kind_text,
  owner_id_text, is_non_negative,
}
use ticash_pay_demo.Ledger.Operations.Accounts.{
  customer_wallet, system_account, credit, debit, assert_positive_magnitude,
}
use ticash_pay_demo.Ledger.Operations.Shape.{credited, debited}
use ticash_pay_demo.Ledger.Operations.Transfer.{
  quote_transfer, transfer_debit_journal, transfer_fx_journal,
}
use ticash_pay_demo.Ledger.Store.{
  Ledger, empty, commit, post_new, register, guard_deltas, guard_one, add_deltas, post, stored_as,
  to_posted,
}
use ticash_pay_demo.Ledger.Service.{perform, draft, slice, derive_uuid}
use ticash_pay_demo.Transfers.Store.{
  TransferRecord, NewTransfer, pending, completed, new_transfer, create, set_status, with_status,
  eq_status,
}
use ticash_pay_demo.Transfers.Service.{
  Saga, Wiring, Answers, quote_from, debit_request, fx_request, debit_step, fx_step, payout_step,
  run, TransferArgs, locked, intent, Initiated, initiate,
}
use ticash_pay_demo.Transfers.Resume.{run-after_debit, crashed}
use ticash_pay_demo.Transfers.Ends.{Leaves, CanResume, Stops, run-Ends}
use ticash_pay_demo.Transfers.Again.{initiate_again}

-- Ana has fifty reais and sends ten to Haiti at a fee of fifty cents.
abbrev deposit : JournalDraft
deposit = record {
  tx_type = TxType.fund_wallet;
  idempotency_key = codes "k1";
  postings =
      debited (system_account settlement brl) (pos 5000)
      ∷ credited (customer_wallet (codes "ana") brl) (pos 5000)
      ∷ [];
  correlation_id = none;
  external_ref = none;
  metadata = none;
}

abbrev funded : Ledger
funded = (post (codes "t1") deposit empty).1

abbrev wiring : Wiring
wiring = record { has_payouts = false; port = none; rates = none; settings = none }

abbrev clock : Answers
clock = record {
  debit_posted_at = codes "t2";
  debited_at = codes "t3";
  fx_posted_at = codes "t4";
  booked_at = codes "t5";
  payout_at = codes "t6";
  submitted_at = codes "t6";
  sent = none;
  settled_at = codes "t7";
  refunded_at = codes "t7";
  ended_at = codes "t7";
  provider = none;
  completed_at = codes "t8";
}

abbrev args : TransferArgs
args = record {
  sender_id = codes "ana";
  recipient_ref = codes "509";
  recipient_name = none;
  payout_rail = none;
  from_currency = brl;
  to_currency = htg;
  send_minor = pos 1000;
  fee_minor = some (pos 50);
  rate = some (codes "24.36");
  idempotency_key = codes "x1";
}

-- The same key with another amount.
abbrev other_args : TransferArgs
other_args = record args { send_minor = pos 2000; rate = some (codes "25") }

abbrev row : TransferRecord
row = record {
  correlation_id = codes "x1";
  base_idempotency_key = codes "x1";
  sender_id = codes "ana";
  recipient_ref = codes "509";
  recipient_name = none;
  payout_rail = none;
  from_currency = brl;
  to_currency = htg;
  send_minor = pos 1000;
  fee_minor = pos 50;
  rate = codes "24.36";
  receive_minor = pos 24300;
  status = pending;
  created_at = codes "t0";
  updated_at = codes "t0";
}

abbrev begun : Saga
begun = record { ledger = funded; rows = (codes "x1", row) ∷ []; payouts = [] }

begun-row : lookup (codes "x1") begun.rows ≡ some row
unfolding lookup eq_text
begun-row = refl

-- The journal of a call, where it returned.
abbrev journal_of : PostedJournal → Result PostedJournal → PostedJournal
journal_of p (ok q) = q
journal_of p (err e) = p

abbrev no_journal : PostedJournal
no_journal = to_posted (stored_as [] deposit 0)

abbrev debit_journal : PostedJournal
debit_journal =
    journal_of no_journal (perform (codes "t2") (debit_request (codes "x1") row) funded).0

debit_returns : (perform (codes "t2") (debit_request (codes "x1") row) funded).0 ≡ ok debit_journal
unfolding debit_request quote_from perform draft transfer_debit_journal post commit post_new
    register guard_deltas guard_one add_deltas assert_balanced assert_zero sum_by_currency sum_from
    neg lookup insert add_at customer_wallet system_account account_key owner_type_text kind_text
    owner_id_text is_non_negative eq_text amount_at ◌+ℤ◌ currency_text add_all credit debit
    assert_positive_magnitude
debit_returns = refl

run-after_debit_example :
    run wiring clock (codes "x1") (crashed wiring clock (codes "x1") row begun begun-row)
    ≡ run wiring clock (codes "x1") begun
run-after_debit_example =
    run-after_debit wiring clock (codes "x1") row begun begun-row debit_journal refl (omega arith)
      debit_returns

-- Without money the debit is refused, and the transfer waits as pending.
abbrev unfunded : Saga
unfunded = record begun { ledger = empty }

run-Ends_example :
    Leaves
      (codes "x1")
      (quote_from row)
      (λ x. x ≡ completed)
      CanResume
      (run wiring clock (codes "x1") unfunded)
    × Stops wiring clock (codes "x1") row unfunded (run wiring clock (codes "x1") unfunded)
run-Ends_example = run-Ends wiring clock (codes "x1") row unfunded begun-row

abbrev before : Saga
before = record { ledger = funded; rows = []; payouts = [] }

abbrev answer : Initiated
answer = record { correlation_id = codes "x1--4-8-"; agreed = quote_from row; status = completed }

initiate_returns : (initiate [] (λ k. k) wiring clock (codes "t0") args before).0 ≡ ok answer
unfolding derive_uuid slice initiate intent locked quote_transfer convert round_half_up_div half_up
    scale_of trim trim_start trim_end is_space match_unsigned fraction_of span_digits is_digit
    digits_value value_from ◌*ℤ◌ floor_to_payout_unit payout_minor_step run debit_step fx_step
    payout_step debit_request fx_request quote_from perform draft transfer_debit_journal
    transfer_fx_journal post commit post_new register guard_deltas guard_one add_deltas
    assert_balanced assert_zero sum_by_currency sum_from neg lookup insert add_at customer_wallet
    system_account account_key owner_type_text kind_text owner_id_text is_non_negative eq_text
    amount_at ◌+ℤ◌ currency_text add_all credit debit assert_positive_magnitude create new_transfer
    set_status with_status eq_status
initiate_returns = refl

abbrev other_intent : NewTransfer
other_intent = record {
  correlation_id = codes "x1--4-8-";
  base_idempotency_key = codes "x1";
  sender_id = codes "ana";
  recipient_ref = codes "509";
  recipient_name = none;
  payout_rail = none;
  from_currency = brl;
  to_currency = htg;
  send_minor = pos 2000;
  fee_minor = pos 50;
  rate = codes "25";
  receive_minor = pos 50000;
}

other_priced : intent (codes "r") (λ k. k) wiring other_args ≡ ok other_intent
unfolding derive_uuid slice intent locked quote_transfer convert round_half_up_div half_up scale_of
    trim trim_start trim_end is_space match_unsigned fraction_of span_digits is_digit digits_value
    value_from ◌*ℤ◌ floor_to_payout_unit payout_minor_step
other_priced = refl

initiate_again_example :
    initiate
      (codes "r")
      (λ k. k)
      wiring
      clock
      (codes "t9")
      other_args
      (initiate [] (λ k. k) wiring clock (codes "t0") args before).1
    ≡ (ok answer, (initiate [] (λ k. k) wiring clock (codes "t0") args before).1)
initiate_again_example =
    initiate_again [] (codes "r") (λ k. k) wiring wiring clock clock (codes "t0") (codes "t9") args
      other_args before answer other_intent (λ e. cc) refl initiate_returns other_priced
