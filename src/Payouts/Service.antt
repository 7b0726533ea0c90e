-- ===== src/Payouts/Service.antt =====
-- src/payouts/payout-service.ts. What the provider answers (`PayoutPort`, src/payouts/types.ts)
-- and the clock's answers are arguments.
use ticash_pay_demo.Prelude.Names.{
  ℕ, suc, Bool, true, false, not, Option, none, some, [], ◌∷◌, ◌++◌, ◌||◌, if◌then◌else◌,
}
use ticash_pay_demo.Prelude.Int.{ℤ, ◌+ℤ◌}
use ticash_pay_demo.Prelude.Text.{Text, codes, text_eq}
use ticash_pay_demo.Prelude.Dict.{lookup, or_else}
use ticash_pay_demo.Prelude.Result.{Result, ok, err, plain_error}
use ticash_pay_demo.Ledger.Types.{PostedJournal}
use ticash_pay_demo.Ledger.Operations.Transfer.{TransferQuote}
use ticash_pay_demo.Ledger.Store.{Ledger}
use ticash_pay_demo.Ledger.Service.{Request, settle_payout, perform, BothLegs, reverse_transfer}
use ticash_pay_demo.Payouts.Store.{
  created, submitted, settled, reversed, eq_status, PayoutReversalContext, PayoutRecord, NewPayout,
  Payouts, create, PayoutPatch, update,
}

-- The ledger and the store that the service works on.
pub record PayoutDesk : Type 0 where
  pub ledger : Ledger
  pub rows : Payouts

abbrev pub payout_settle_key : Text → Text
payout_settle_key id = codes "payout-settle:" ++ id

abbrev pub reversal_fx_key : Text → Text
reversal_fx_key id = codes "reversal-fx:" ++ id

abbrev pub reversal_debit_key : Text → Text
reversal_debit_key id = codes "reversal-debit:" ++ id

-- `createForTransfer`; `provider` is `port?.name ?? 'manual'`.
unfoldable pub payout_for : Text → Text → Text → TransferQuote → Text → Option ℤ → NewPayout
payout_for provider id recipient q sender_id fee = record {
  correlation_id = id;
  provider = provider;
  recipient_ref = recipient;
  currency = q.to_currency;
  amount_minor = q.receive_minor;
  provider_fee_minor = fee;
  context = record {
    sender_id = sender_id;
    from_currency = q.from_currency;
    to_currency = q.to_currency;
    send_minor = q.send_minor;
    fee_minor = q.fee_minor;
    receive_minor = q.receive_minor;
    rate = q.rate;
  };
}

abbrev pub provider_of : Option Text → Text
provider_of port = or_else port (codes "manual")

unfoldable pub create_for_transfer :
    Option Text
    → Text
    → Text
    → Text
    → TransferQuote
    → Text
    → Option ℤ
    → Payouts
    → PayoutRecord × Payouts
unfolding payout_for
create_for_transfer port now id recipient q sender_id fee rows =
    create now (payout_for (provider_of port) id recipient q sender_id fee) rows

-- What `sendPayout` answers: a reference, or the message of the error that it throws.
pub data Sent : Type 0 where
  accepted failed_with : Text → Sent

unfoldable pub submit_patch : ℕ → Sent → PayoutPatch
submit_patch attempts (accepted ref) = record {
  status = some submitted;
  provider_ref = some ref;
  attempts = some (suc attempts);
  last_error = some none;
}
submit_patch attempts (failed_with message) = record {
  status = none;
  provider_ref = none;
  attempts = some (suc attempts);
  last_error = some (some message);
}

-- What a call has come to when it has read the row: an answer, or a question to the provider, which
-- it waits for with the row as it read it.
pub data Turn : Type 0 where
  answers : Result PayoutRecord → Turn
  waits : PayoutRecord → Turn

abbrev pub start_found : Bool → Option PayoutRecord → Turn
start_found has_port none = answers (err plain_error)
start_found has_port (some p) =
    if not (eq_status p.status created)
    then answers (ok p)
    else if has_port
    then waits p
    else answers (err plain_error)

-- `submit` up to its `await` of the provider.
unfoldable pub submit_starts : Bool → Text → Payouts → Turn
submit_starts has_port id rows = start_found has_port (lookup id rows)

-- `submit` from the provider's answer on; `p` is the row from before, `rows` are those of now.
unfoldable pub submit_ends :
    Text → Text → PayoutRecord → Sent → Payouts → Result PayoutRecord × Payouts
unfolding submit_patch
submit_ends now id p answer rows = update now id (submit_patch p.attempts answer) rows

abbrev pub is_given {ℓ} : {A : Type ℓ} → Option A → Bool
is_given none = false
is_given (some x) = true

abbrev pub submit_on : Text → Text → Payouts → Option Sent → Turn → Result PayoutRecord × Payouts
submit_on now id rows answer (answers r) = (r, rows)
submit_on now id rows none (waits p) = (err plain_error, rows)
submit_on now id rows (some answer) (waits p) = submit_ends now id p answer rows

-- `submit`, where nothing else runs while it waits; the answer is `none` where no port is wired.
unfoldable pub submit : Text → Text → Option Sent → Payouts → Result PayoutRecord × Payouts
unfolding submit_starts submit_ends
submit now id answer rows = submit_on now id rows answer (submit_starts (is_given answer) id rows)

unfoldable pub settle_request : PayoutRecord → Request
settle_request p =
    settle_payout p.currency p.amount_minor p.correlation_id (payout_settle_key p.correlation_id)
      (or_else p.provider_ref p.correlation_id) (some p.provider_fee_minor)

abbrev pub ended : Ledger → Result PayoutRecord × Payouts → Result PayoutRecord × PayoutDesk
ended l (r, rows) = (r, record { ledger = l; rows = rows })

abbrev pub settled_by :
    Text → PayoutRecord → Payouts → Result PostedJournal × Ledger → Result PayoutRecord × PayoutDesk
settled_by now p rows (err e, l) = (err e, record { ledger = l; rows = rows })
settled_by now p rows (ok j, l) = ended l (
    update now p.correlation_id
      (record {
        status = some settled;
        provider_ref = none;
        attempts = none;
        last_error = some none;
      })
      rows)

-- `settle`
unfoldable pub settle : Text → Text → PayoutRecord → PayoutDesk → Result PayoutRecord × PayoutDesk
unfolding settle_request
settle posted_at now p s = settled_by now p s.rows (perform posted_at (settle_request p) s.ledger)

unfoldable pub reversal_quote : PayoutReversalContext → TransferQuote
reversal_quote r = record {
  send_minor = r.send_minor;
  fee_minor = r.fee_minor;
  total_debit_minor = r.send_minor +ℤ r.fee_minor;
  rate = r.rate;
  receive_minor = r.receive_minor;
  from_currency = r.from_currency;
  to_currency = r.to_currency;
}

abbrev pub reversed_by :
    Text → PayoutRecord → Payouts → Result BothLegs × Ledger → Result PayoutRecord × PayoutDesk
reversed_by now p rows (err e, l) = (err e, record { ledger = l; rows = rows })
reversed_by now p rows (ok j, l) = ended l (
    update now p.correlation_id
      (record {
        status = some reversed;
        provider_ref = none;
        attempts = none;
        last_error = some (some (codes "payout failed; reversed"));
      })
      rows)

-- `reverse`; the ledger stamps its two journals.
unfoldable pub reverse :
    Text → Text → Text → PayoutRecord → PayoutDesk → Result PayoutRecord × PayoutDesk
unfolding reversal_quote
reverse posted_at posted_at' now p s = reversed_by now p s.rows (
    reverse_transfer posted_at posted_at' p.context.sender_id (reversal_quote p.context)
      p.correlation_id (reversal_fx_key p.correlation_id) (reversal_debit_key p.correlation_id)
      s.ledger)

-- What `getStatus` answers, an error included.
pub data ProviderState : Type 0 where
  pending success failed unreachable : ProviderState

-- `sync` from the provider's answer on; `p` is the row from before, `s` is the state of now.
abbrev pub advance :
    Text
    → Text
    → Text
    → PayoutRecord
    → PayoutDesk
    → ProviderState
    → Result PayoutRecord × PayoutDesk
advance posted_at posted_at' now p s pending = (ok p, s)
advance posted_at posted_at' now p s success = settle posted_at now p s
advance posted_at posted_at' now p s failed = reverse posted_at posted_at' now p s
advance posted_at posted_at' now p s unreachable = (err plain_error, s)

abbrev pub is_set : Option Text → Bool
is_set none = false
is_set (some []) = false
is_set (some (c ∷ cs)) = true

abbrev pub check_found : Bool → Option PayoutRecord → Turn
check_found has_port none = answers (err plain_error)
check_found has_port (some p) =
    if not (eq_status p.status submitted) || not (is_set p.provider_ref) || not has_port
    then answers (ok p)
    else waits p

-- `sync` up to its `await` of the provider; what follows it is `advance`.
unfoldable pub sync_starts : Bool → Text → Payouts → Turn
sync_starts has_port id rows = check_found has_port (lookup id rows)

abbrev pub sync_on :
    Text → Text → Text → PayoutDesk → Option ProviderState → Turn → Result PayoutRecord × PayoutDesk
sync_on posted_at posted_at' now s answer (answers r) = (r, s)
sync_on posted_at posted_at' now s none (waits p) = (ok p, s)
sync_on posted_at posted_at' now s (some answer) (waits p) =
    advance posted_at posted_at' now p s answer

-- `sync`, where nothing else runs while it waits; the answer is `none` where no port is wired.
unfoldable pub sync :
    Text → Text → Text → Text → Option ProviderState → PayoutDesk → Result PayoutRecord × PayoutDesk
unfolding sync_starts
sync posted_at posted_at' now id answer s =
    sync_on posted_at posted_at' now s answer (sync_starts (is_given answer) id s.rows)

abbrev pub release_with :
    Text → Text → Ledger → Result PayoutRecord × Payouts → Result PayoutRecord × PayoutDesk
release_with posted_at now l (err e, rows) = (err e, record { ledger = l; rows = rows })
release_with posted_at now l (ok p, rows) =
    settle posted_at now p (record { ledger = l; rows = rows })

-- `providerRef ? await this.store.update(…) : p`
unfoldable pub with_ref :
    Text → PayoutRecord → Option Text → Text → Payouts → Result PayoutRecord × Payouts
with_ref now p none id rows = (ok p, rows)
with_ref now p (some []) id rows = (ok p, rows)
with_ref now p (some (c ∷ cs)) id rows =
    update now id
      (record { status = none; provider_ref = some (c ∷ cs); attempts = none; last_error = none })
      rows

abbrev pub release_found :
    Text
    → Text
    → Text
    → Text
    → Option Text
    → PayoutDesk
    → Option PayoutRecord
    → Result PayoutRecord × PayoutDesk
release_found noted_at posted_at now id ref s none = (err plain_error, s)
release_found noted_at posted_at now id ref s (some p) =
    if eq_status p.status settled
    then (ok p, s)
    else if eq_status p.status reversed
    then (err plain_error, s)
    else release_with posted_at now s.ledger (with_ref noted_at p ref id s.rows)

-- `releaseManually`
unfoldable pub release_manually :
    Text → Text → Text → Text → Option Text → PayoutDesk → Result PayoutRecord × PayoutDesk
release_manually noted_at posted_at now id ref s =
    release_found noted_at posted_at now id ref s (lookup id s.rows)

abbrev pub fail_found :
    Text → Text → Text → PayoutDesk → Option PayoutRecord → Result PayoutRecord × PayoutDesk
fail_found posted_at posted_at' now s none = (err plain_error, s)
fail_found posted_at posted_at' now s (some p) =
    if eq_status p.status reversed
    then (ok p, s)
    else if eq_status p.status settled
    then (err plain_error, s)
    else reverse posted_at posted_at' now p s

-- `failManually`
unfoldable pub fail_manually :
    Text → Text → Text → Text → PayoutDesk → Result PayoutRecord × PayoutDesk
fail_manually posted_at posted_at' now id s =
    fail_found posted_at posted_at' now s (lookup id s.rows)
