-- ===== src/Withdrawal/Store.antt =====
-- src/withdrawal/types.ts and the in-memory store of src/withdrawal/withdrawal-store.ts. A row
-- is handed out as a copy, as `structuredClone` does.
use ticash_pay_demo.Prelude.Names.{
  Bool, true, false, Option, none, some, List, [], ◌∷◌, ◌||◌, if◌then◌else◌,
}
use ticash_pay_demo.Prelude.Int.{ℤ}
use ticash_pay_demo.Prelude.Text.{Text, text_eq}
use ticash_pay_demo.Prelude.Dict.{Dict, lookup, insert}
use ticash_pay_demo.Money.Currency.{Currency}

pub data WithdrawalStatus : Type 0 where
  pending completed rejected : WithdrawalStatus

unfoldable pub eq_status : WithdrawalStatus → WithdrawalStatus → Bool
eq_status pending pending = true
eq_status completed completed = true
eq_status rejected rejected = true
eq_status _ _ = false

pub record WithdrawalRequest : Type 0 where
  pub id : Text
  pub customer_id : Text
  pub currency : Currency
  pub amount_minor : ℤ
  pub fee_minor : ℤ
  pub address : Text
  pub network : Text
  pub status : WithdrawalStatus
  pub provider_ref : Option Text
  pub created_at : Text
  pub updated_at : Text

pub record NewWithdrawal : Type 0 where
  pub id : Text
  pub customer_id : Text
  pub currency : Currency
  pub amount_minor : ℤ
  pub fee_minor : ℤ
  pub address : Text
  pub network : Text

abbrev pub Rows : Type 0
Rows = Dict Text WithdrawalRequest

-- `create`
unfoldable pub new_row : Text → NewWithdrawal → WithdrawalRequest
new_row now w = record {
  id = w.id;
  customer_id = w.customer_id;
  currency = w.currency;
  amount_minor = w.amount_minor;
  fee_minor = w.fee_minor;
  address = w.address;
  network = w.network;
  status = pending;
  provider_ref = none;
  created_at = now;
  updated_at = now;
}

unfoldable pub create : Text → NewWithdrawal → Rows → WithdrawalRequest × Rows
create now w rows = (new_row now w, insert w.id (new_row now w) rows)

-- `from.includes(r.status)`
unfoldable pub includes : List WithdrawalStatus → WithdrawalStatus → Bool
includes [] t = false
includes (x ∷ xs) t = eq_status x t || includes xs t

abbrev pub newer : Option Text → Option Text → Option Text
newer (some x) old = some x
newer none old = old

unfoldable pub moved_to :
    Text → WithdrawalStatus → Option Text → WithdrawalRequest → WithdrawalRequest
moved_to now to ref r = record r {
  status = to;
  provider_ref = newer ref r.provider_ref;
  updated_at = now;
}

abbrev pub claim_found :
    Text
    → Text
    → List WithdrawalStatus
    → WithdrawalStatus
    → Option Text
    → Rows
    → Option WithdrawalRequest
    → Option WithdrawalRequest × Rows
claim_found now id from to ref rows none = (none, rows)
claim_found now id from to ref rows (some r) =
    if includes from r.status
    then (some (moved_to now to ref r), insert id (moved_to now to ref r) rows)
    else (none, rows)

-- `claim`
unfoldable pub claim :
    Text
    → Text
    → List WithdrawalStatus
    → WithdrawalStatus
    → Option Text
    → Rows
    → Option WithdrawalRequest × Rows
claim now id from to ref rows = claim_found now id from to ref rows (lookup id rows)
