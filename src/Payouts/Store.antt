-- ===== src/Payouts/Store.antt =====
-- The in-memory store of src/payouts/payout-store.ts. The clock's answer is an argument.
use ticash_pay_demo.Prelude.Names.{ℕ, Bool, true, false, Option, none, some}
use ticash_pay_demo.Prelude.Int.{ℤ, pos}
use ticash_pay_demo.Prelude.Text.{Text, text_eq}
use ticash_pay_demo.Prelude.Dict.{Dict, lookup, insert, or_else}
use ticash_pay_demo.Prelude.Result.{Result, ok, err, plain_error}
use ticash_pay_demo.Money.Currency.{Currency}

pub data PayoutStatus : Type 0 where
  created submitted settled reversed : PayoutStatus

unfoldable pub eq_status : PayoutStatus → PayoutStatus → Bool
eq_status created created = true
eq_status submitted submitted = true
eq_status settled settled = true
eq_status reversed reversed = true
eq_status _ _ = false

pub record PayoutReversalContext : Type 0 where
  pub sender_id : Text
  pub from_currency : Currency
  pub to_currency : Currency
  pub send_minor : ℤ
  pub fee_minor : ℤ
  pub receive_minor : ℤ
  pub rate : Text

pub record PayoutRecord : Type 0 where
  pub correlation_id : Text
  pub provider : Text
  pub provider_ref : Option Text
  pub recipient_ref : Text
  pub currency : Currency
  pub amount_minor : ℤ
  pub provider_fee_minor : ℤ
  pub status : PayoutStatus
  pub attempts : ℕ
  pub last_error : Option Text
  -- `reversal`
  pub context : PayoutReversalContext
  pub created_at : Text
  pub updated_at : Text

pub record NewPayout : Type 0 where
  pub correlation_id : Text
  pub provider : Text
  pub recipient_ref : Text
  pub currency : Currency
  pub amount_minor : ℤ
  pub provider_fee_minor : Option ℤ
  pub context : PayoutReversalContext

abbrev pub Payouts : Type 0
Payouts = Dict Text PayoutRecord

-- `create`
unfoldable pub new_payout : Text → NewPayout → PayoutRecord
new_payout now r = record {
  correlation_id = r.correlation_id;
  provider = r.provider;
  provider_ref = none;
  recipient_ref = r.recipient_ref;
  currency = r.currency;
  amount_minor = r.amount_minor;
  provider_fee_minor = or_else r.provider_fee_minor (pos 0);
  status = created;
  attempts = 0;
  last_error = none;
  context = r.context;
  created_at = now;
  updated_at = now;
}

abbrev pub create_unless : Text → NewPayout → Payouts → Option PayoutRecord → PayoutRecord × Payouts
create_unless now r rows (some existing) = (existing, rows)
create_unless now r rows none = (new_payout now r, insert r.correlation_id (new_payout now r) rows)

unfoldable pub create : Text → NewPayout → Payouts → PayoutRecord × Payouts
create now r rows = create_unless now r rows (lookup r.correlation_id rows)

-- The fields of a patch that the service writes; `none` is a field that is not there.
pub record PayoutPatch : Type 0 where
  pub status : Option PayoutStatus
  pub provider_ref : Option Text
  pub attempts : Option ℕ
  pub last_error : Option (Option Text)

abbrev pub newer : Option Text → Option Text → Option Text
newer none old = old
newer (some x) old = some x

-- `{ ...cur, ...patch, updatedAt: this.clock() }`
unfoldable pub patched : Text → PayoutPatch → PayoutRecord → PayoutRecord
patched now p r = record r {
  status = or_else p.status r.status;
  provider_ref = newer p.provider_ref r.provider_ref;
  attempts = or_else p.attempts r.attempts;
  last_error = or_else p.last_error r.last_error;
  updated_at = now;
}

abbrev pub update_found :
    Text → Text → PayoutPatch → Payouts → Option PayoutRecord → Result PayoutRecord × Payouts
update_found now id p rows none = (err plain_error, rows)
update_found now id p rows (some r) = (ok (patched now p r), insert id (patched now p r) rows)

-- `update`
unfoldable pub update : Text → Text → PayoutPatch → Payouts → Result PayoutRecord × Payouts
update now id p rows = update_found now id p rows (lookup id rows)
