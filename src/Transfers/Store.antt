-- ===== src/Transfers/Store.antt =====
-- The in-memory store of src/transfers/transfer-store.ts. The clock's answer is an argument.
use ticash_pay_demo.Prelude.Names.{
  Bool, true, false, Option, none, some, List, [], ◌∷◌, if◌then◌else◌,
}
use ticash_pay_demo.Prelude.Int.{ℤ}
use ticash_pay_demo.Prelude.Text.{Text, text_eq}
use ticash_pay_demo.Prelude.Dict.{Dict, lookup, insert, values}
use ticash_pay_demo.Prelude.Result.{Result, ok, err, plain_error}
use ticash_pay_demo.Money.Currency.{Currency}

pub data TransferStatus : Type 0 where
  pending debited fx_booked completed : TransferStatus

unfoldable pub eq_status : TransferStatus → TransferStatus → Bool
eq_status pending pending = true
eq_status debited debited = true
eq_status fx_booked fx_booked = true
eq_status completed completed = true
eq_status _ _ = false

pub data PayoutRail : Type 0 where
  moncash natcash : PayoutRail

pub record TransferRecord : Type 0 where
  pub correlation_id : Text
  pub base_idempotency_key : Text
  pub sender_id : Text
  pub recipient_ref : Text
  pub recipient_name : Option Text
  pub payout_rail : Option PayoutRail
  pub from_currency : Currency
  pub to_currency : Currency
  pub send_minor : ℤ
  pub fee_minor : ℤ
  pub rate : Text
  pub receive_minor : ℤ
  pub status : TransferStatus
  pub created_at : Text
  pub updated_at : Text

pub record NewTransfer : Type 0 where
  pub correlation_id : Text
  pub base_idempotency_key : Text
  pub sender_id : Text
  pub recipient_ref : Text
  pub recipient_name : Option Text
  pub payout_rail : Option PayoutRail
  pub from_currency : Currency
  pub to_currency : Currency
  pub send_minor : ℤ
  pub fee_minor : ℤ
  pub rate : Text
  pub receive_minor : ℤ

abbrev pub Transfers : Type 0
Transfers = Dict Text TransferRecord

-- `create`
unfoldable pub new_transfer : Text → NewTransfer → TransferRecord
new_transfer now t = record {
  correlation_id = t.correlation_id;
  base_idempotency_key = t.base_idempotency_key;
  sender_id = t.sender_id;
  recipient_ref = t.recipient_ref;
  recipient_name = t.recipient_name;
  payout_rail = t.payout_rail;
  from_currency = t.from_currency;
  to_currency = t.to_currency;
  send_minor = t.send_minor;
  fee_minor = t.fee_minor;
  rate = t.rate;
  receive_minor = t.receive_minor;
  status = pending;
  created_at = now;
  updated_at = now;
}

abbrev pub create_unless :
    Text → NewTransfer → Transfers → Option TransferRecord → TransferRecord × Transfers
create_unless now t rows (some existing) = (existing, rows)
create_unless now t rows none =
    (new_transfer now t, insert t.correlation_id (new_transfer now t) rows)

unfoldable pub create : Text → NewTransfer → Transfers → TransferRecord × Transfers
create now t rows = create_unless now t rows (lookup t.correlation_id rows)

unfoldable pub with_status : Text → TransferStatus → TransferRecord → TransferRecord
with_status now status t = record t { status = status; updated_at = now }

abbrev pub set_found :
    Text
    → Text
    → TransferStatus
    → Transfers
    → Option TransferRecord
    → Result TransferRecord × Transfers
set_found now id status rows none = (err plain_error, rows)
set_found now id status rows (some t) =
    (ok (with_status now status t), insert id (with_status now status t) rows)

-- `setStatus`
unfoldable pub set_status :
    Text → Text → TransferStatus → Transfers → Result TransferRecord × Transfers
set_status now id status rows = set_found now id status rows (lookup id rows)

unfoldable pub incomplete : List TransferRecord → List TransferRecord
incomplete [] = []
incomplete (t ∷ ts) =
    let rest = incomplete ts in if eq_status t.status completed then rest else t ∷ rest

-- `listIncomplete`; `arrange` is the sort by the time of creation.
unfoldable pub list_incomplete :
    (List TransferRecord → List TransferRecord) → Transfers → List TransferRecord
unfolding incomplete
list_incomplete arrange rows = arrange (incomplete (values rows))
