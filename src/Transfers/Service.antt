-- ===== src/Transfers/Service.antt =====
-- src/transfers/transfer-service.ts. SHA-256, `randomUUID()`, the clock and the provider's answers
-- are arguments.
use ticash_pay_demo.Prelude.Names.{
  ℕ, suc, Bool, false, Option, none, some, List, [], ◌∷◌, ◌++◌, ◌&&◌, if◌then◌else◌,
}
use ticash_pay_demo.Prelude.Int.{ℤ, pos, ◌+ℤ◌}
use ticash_pay_demo.Prelude.Text.{Text, codes, eq_text, text_eq}
use ticash_pay_demo.Prelude.Dict.{Dict, lookup}
use ticash_pay_demo.Prelude.Result.{
  Result, ok, err, ◌>>=◌, plain_error, ledger_error, ledger_validation,
}
use ticash_pay_demo.Money.Currency.{Currency}
use ticash_pay_demo.Fx.Rates.{Rates}
use ticash_pay_demo.Fx.Bps.{apply_bps}
use ticash_pay_demo.Fx.Pricing.{TransferPricing, quote, price_transfer}
use ticash_pay_demo.Ledger.Types.{PostedJournal}
use ticash_pay_demo.Ledger.Operations.Transfer.{TransferQuote, quote_transfer}
use ticash_pay_demo.Ledger.Store.{Ledger}
use ticash_pay_demo.Ledger.Service.{
  Request, post_transfer_debit, post_transfer_fx, perform, derive_uuid,
}
use ticash_pay_demo.Payouts.Store.{PayoutRecord, Payouts, submitted}
use ticash_pay_demo.Payouts.Store
use ticash_pay_demo.Payouts.Service.{
  PayoutDesk, create_for_transfer, Sent, submit, ProviderState, sync,
}
use ticash_pay_demo.Transfers.Store.{
  TransferStatus, pending, debited, fx_booked, completed, eq_status, PayoutRail, moncash, natcash,
  TransferRecord, NewTransfer, Transfers, create, set_status, list_incomplete,
}

-- The ledger and the two stores that the service works on.
pub record Saga : Type 0 where
  pub ledger : Ledger
  pub rows : Transfers
  pub payouts : Payouts

-- What the service is built with: `payouts` may be absent, and so may its port, the rates and the
-- settings.
pub record Wiring : Type 0 where
  pub has_payouts : Bool
  pub port : Option Text
  pub rates : Option Rates
  pub settings : Option (Dict Text Text)

-- What the clock and the provider answer during one run.
pub record Answers : Type 0 where
  pub debit_posted_at : Text
  pub debited_at : Text
  pub fx_posted_at : Text
  pub booked_at : Text
  pub payout_at : Text
  pub submitted_at : Text
  pub sent : Option Sent
  pub settled_at : Text
  pub refunded_at : Text
  pub ended_at : Text
  pub provider : Option ProviderState
  pub completed_at : Text

-- `quoteFrom`
unfoldable pub quote_from : TransferRecord → TransferQuote
quote_from t = record {
  send_minor = t.send_minor;
  fee_minor = t.fee_minor;
  total_debit_minor = t.send_minor +ℤ t.fee_minor;
  rate = t.rate;
  receive_minor = t.receive_minor;
  from_currency = t.from_currency;
  to_currency = t.to_currency;
}

abbrev pub debit_key : Text → Text
debit_key base = base ++ codes ":debit"

abbrev pub fx_key : Text → Text
fx_key base = base ++ codes ":fx"

unfoldable pub debit_request : Text → TransferRecord → Request
unfolding quote_from
debit_request id t =
    post_transfer_debit t.sender_id (quote_from t) id (debit_key t.base_idempotency_key)
      t.recipient_ref

unfoldable pub fx_request : Text → TransferQuote → TransferRecord → Request
fx_request id q t = post_transfer_fx q id (fx_key t.base_idempotency_key) t.recipient_ref

abbrev pub Ran : Type 0
Ran = Result TransferRecord × Saga

-- What follows a step that returned.
abbrev pub and_next : Ran → (TransferRecord → Saga → Ran) → Ran
and_next (err e, s) next = (err e, s)
and_next (ok t, s) next = next t s

abbrev pub stored : Saga → Result TransferRecord × Transfers → Ran
stored s (r, rows) = (r, record s { rows = rows })

abbrev pub advance : Text → Text → TransferStatus → Saga → Result PostedJournal × Ledger → Ran
advance now id status s (err e, l) = (err e, record s { ledger = l })
advance now id status s (ok p, l) =
    stored (record s { ledger = l }) (set_status now id status s.rows)

-- The first step of `run`.
unfoldable pub debit_step : Answers → Text → TransferRecord → Saga → Ran
unfolding debit_request
debit_step a id t s =
    if eq_status t.status pending
    then advance a.debited_at id debited s (perform a.debit_posted_at (debit_request id t) s.ledger)
    else (ok t, s)

-- The second step.
unfoldable pub fx_step : Answers → Text → TransferQuote → TransferRecord → Saga → Ran
unfolding fx_request
fx_step a id q t s =
    if eq_status t.status debited
    then advance a.booked_at id fx_booked s (perform a.fx_posted_at (fx_request id q t) s.ledger)
    else (ok t, s)

abbrev pub or_zero : Result ℤ → ℤ
or_zero (ok x) = x
or_zero (err e) = pos 0

abbrev pub provider_fee_in : Currency → Currency → ℤ → Option Rates → ℤ
provider_fee_in from to gross none = pos 0
provider_fee_in from to gross (some rates) =
    or_zero (quote from to rates >>= λ q. apply_bps gross q.provider_fee_bps)

-- `resolveProviderFee`
unfoldable pub resolve_provider_fee : Wiring → Currency → Currency → ℤ → ℤ
resolve_provider_fee w from to gross = provider_fee_in from to gross w.rates

abbrev pub rail_text : PayoutRail → Text
rail_text moncash = codes "moncash"
rail_text natcash = codes "natcash"

-- `autoDisburseKey`
abbrev pub auto_disburse_key : Text → Text
auto_disburse_key rail = codes "payout.auto." ++ rail

abbrev pub is_text : Text → Option Text → Bool
is_text x none = false
is_text x (some y) = eq_text x y

abbrev pub setting : Text → Option (Dict Text Text) → Option Text
setting key none = none
setting key (some settings) = lookup key settings

-- `autoOn`
unfoldable pub auto_on : Wiring → Option PayoutRail → Bool
auto_on w none = false
auto_on w (some rail) =
    is_text (rail_text rail) w.port
    && is_text (codes "1") (setting (auto_disburse_key (rail_text rail)) w.settings)

abbrev pub synced : Answers → Text → Ledger → Result PayoutRecord × Payouts → PayoutDesk
synced a id l (err e, rows) = record { ledger = l; rows = rows }
synced a id l (ok p, rows) =
    if Store.eq_status p.status submitted
    then (sync a.settled_at a.refunded_at a.ended_at id a.provider
        (record { ledger = l; rows = rows })).1
    else record { ledger = l; rows = rows }

-- The `try` around `submit` and `sync`: what they changed stays, what they threw is passed over.
unfoldable pub auto_disburse : Answers → Text → PayoutDesk → PayoutDesk
auto_disburse a id d = synced a id d.ledger (submit a.submitted_at id a.sent d.rows)

abbrev pub with_desk : Saga → PayoutDesk → Saga
with_desk s d = record s { ledger = d.ledger; payouts = d.rows }

-- The payout's row is made, and paid out at once where that is switched on.
unfoldable pub hand_off : Wiring → Answers → Text → TransferQuote → TransferRecord → Saga → Saga
unfolding resolve_provider_fee auto_on auto_disburse
hand_off w a id q t s =
    let fee = resolve_provider_fee w t.from_currency t.to_currency q.receive_minor in
    let rows =
      (create_for_transfer w.port a.payout_at id t.recipient_ref q t.sender_id (some fee)
        s.payouts).1 in
    if auto_on w t.payout_rail
    then with_desk s (auto_disburse a id (record { ledger = s.ledger; rows = rows }))
    else record s { payouts = rows }

abbrev pub finish : Answers → Text → Saga → Ran
finish a id s = stored s (set_status a.completed_at id completed s.rows)

-- The third step.
unfoldable pub payout_step : Wiring → Answers → Text → TransferQuote → TransferRecord → Saga → Ran
unfolding hand_off
payout_step w a id q t s =
    if eq_status t.status fx_booked
    then finish a id (if w.has_payouts then hand_off w a id q t s else s)
    else (ok t, s)

abbrev pub run_found : Wiring → Answers → Text → Saga → Option TransferRecord → Ran
run_found w a id s none = (err plain_error, s)
run_found w a id s (some t) =
    and_next (and_next (debit_step a id t s) (fx_step a id (quote_from t)))
      (payout_step w a id (quote_from t))

-- `run`
unfoldable pub run : Wiring → Answers → Text → Saga → Ran
unfolding debit_step fx_step payout_step
run w a id s = run_found w a id s (lookup id s.rows)

-- The arguments of `initiate`.
pub record TransferArgs : Type 0 where
  pub sender_id : Text
  pub recipient_ref : Text
  pub recipient_name : Option Text
  pub payout_rail : Option PayoutRail
  pub from_currency : Currency
  pub to_currency : Currency
  pub send_minor : ℤ
  pub fee_minor : Option ℤ
  pub rate : Option Text
  pub idempotency_key : Text

abbrev pub priced_by : Currency → Currency → ℤ → Option Rates → Result TransferPricing
priced_by from to send none = err (ledger_error ledger_validation)
priced_by from to send (some rates) = price_transfer from to send rates

abbrev pub lock_with : Option Text → Option ℤ → Result TransferPricing → Result (Text × ℤ)
lock_with (some rate) (some fee) priced = ok (rate, fee)
lock_with (some rate) none priced = priced >>= λ x. ok (rate, x.platform_fee_minor)
lock_with none (some fee) priced = priced >>= λ x. ok (x.rate, fee)
lock_with none none priced = priced >>= λ x. ok (x.rate, x.platform_fee_minor)

-- The rate and the fee that `initiate` locks: the caller's, else the corridor's.
unfoldable pub locked : Wiring → TransferArgs → Result (Text × ℤ)
locked w a =
    lock_with a.rate a.fee_minor (priced_by a.from_currency a.to_currency a.send_minor w.rates)

-- The intent that `initiate` stores.
unfoldable pub intent : Text → (Text → Text) → Wiring → TransferArgs → Result NewTransfer
unfolding locked derive_uuid
intent random sha256_hex w a = locked w a >>= λ lock.
    quote_transfer a.from_currency a.to_currency a.send_minor lock.1 lock.0 >>= λ q. ok (record {
      correlation_id = derive_uuid random sha256_hex a.idempotency_key;
      base_idempotency_key = a.idempotency_key;
      sender_id = a.sender_id;
      recipient_ref = a.recipient_ref;
      recipient_name = a.recipient_name;
      payout_rail = a.payout_rail;
      from_currency = a.from_currency;
      to_currency = a.to_currency;
      send_minor = a.send_minor;
      fee_minor = lock.1;
      rate = lock.0;
      receive_minor = q.receive_minor;
    })

-- What `initiate` answers.
pub record Initiated : Type 0 where
  pub correlation_id : Text
  pub agreed : TransferQuote
  pub status : TransferStatus

abbrev pub answer_of : Text → TransferRecord → Ran → Result Initiated × Saga
answer_of id made (err e, s) = (err e, s)
answer_of id made (ok t, s) =
    (ok (record { correlation_id = id; agreed = quote_from made; status = t.status }), s)

abbrev pub start_saga :
    Wiring → Answers → Text → Saga → Result NewTransfer → Result Initiated × Saga
start_saga w a now s (err e) = (err e, s)
start_saga w a now s (ok i) =
    let made = create now i s.rows in
    answer_of i.correlation_id made.0 (run w a i.correlation_id (record s { rows = made.1 }))

-- `initiate`
unfoldable pub initiate :
    Text → (Text → Text) → Wiring → Answers → Text → TransferArgs → Saga → Result Initiated × Saga
unfolding intent
initiate random sha256_hex w a now args s = start_saga w a now s (intent random sha256_hex w args)

abbrev pub counted : ℕ → Ran → ℕ × Saga
counted n (ok t, s) = (suc n, s)
counted n (err e, s) = (n, s)

-- The loop of `recover`, with the count so far; an error is passed over. The answers are those of
-- each transfer's run.
unfoldable pub recover_each : Wiring → (Text → Answers) → List TransferRecord → ℕ → Saga → ℕ × Saga
recover_each w a [] n s = (n, s)
recover_each w a (t ∷ ts) n s =
    let (m, u) = counted n (run w (a t.correlation_id) t.correlation_id s) in
    recover_each w a ts m u

-- `recover`
unfoldable pub recover :
    (List TransferRecord → List TransferRecord) → Wiring → (Text → Answers) → Saga → ℕ × Saga
unfolding recover_each
recover arrange w a s = recover_each w a (list_incomplete arrange s.rows) 0 s
