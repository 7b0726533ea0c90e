-- ===== src/Cashout/Store.antt =====
-- src/cashout/types.ts and the in-memory store of src/cashout/cashout-store.ts.
use ticash_pay_demo.Prelude.Names.{
  Bool, true, false, Option, none, some, List, [], ◌∷◌, ◌||◌, if◌then◌else◌,
}
use ticash_pay_demo.Prelude.Int.{ℤ}
use ticash_pay_demo.Prelude.Text.{Text, text_eq}
use ticash_pay_demo.Prelude.Dict.{Dict, lookup, insert}
use ticash_pay_demo.Money.Currency.{Currency}

pub data CashoutStatus : Type 0 where
  pending approved rejected cancelled expired : CashoutStatus

unfoldable pub eq_status : CashoutStatus → CashoutStatus → Bool
eq_status pending pending = true
eq_status approved approved = true
eq_status rejected rejected = true
eq_status cancelled cancelled = true
eq_status expired expired = true
eq_status _ _ = false

pub record CashoutRequest : Type 0 where
  pub id : Text
  pub agent_id : Text
  pub customer_id : Text
  pub currency : Currency
  pub amount_minor : ℤ
  pub commission_minor : ℤ
  pub status : CashoutStatus
  pub expires_at : Option Text
  pub created_at : Text
  pub updated_at : Text

pub record NewCashoutRequest : Type 0 where
  pub id : Text
  pub agent_id : Text
  pub customer_id : Text
  pub currency : Currency
  pub amount_minor : ℤ
  pub commission_minor : ℤ
  pub expires_at : Option Text

abbrev pub Requests : Type 0
Requests = Dict Text CashoutRequest

-- `create`
unfoldable pub new_request : Text → NewCashoutRequest → CashoutRequest
new_request now r = record {
  id = r.id;
  agent_id = r.agent_id;
  customer_id = r.customer_id;
  currency = r.currency;
  amount_minor = r.amount_minor;
  commission_minor = r.commission_minor;
  status = pending;
  expires_at = r.expires_at;
  created_at = now;
  updated_at = now;
}

unfoldable pub create : Text → NewCashoutRequest → Requests → CashoutRequest × Requests
create now r reqs = (new_request now r, insert r.id (new_request now r) reqs)

-- `from.includes(r.status)`
unfoldable pub includes : List CashoutStatus → CashoutStatus → Bool
includes [] t = false
includes (x ∷ xs) t = eq_status x t || includes xs t

unfoldable pub moved_to : Text → CashoutStatus → CashoutRequest → CashoutRequest
moved_to now to r = record r { status = to; updated_at = now }

abbrev pub claim_found :
    Text
    → Text
    → List CashoutStatus
    → CashoutStatus
    → Requests
    → Option CashoutRequest
    → Option CashoutRequest × Requests
claim_found now id from to reqs none = (none, reqs)
claim_found now id from to reqs (some r) =
    if includes from r.status
    then (some (moved_to now to r), insert id (moved_to now to r) reqs)
    else (none, reqs)

-- `claim`
unfoldable pub claim :
    Text → Text → List CashoutStatus → CashoutStatus → Requests → Option CashoutRequest × Requests
claim now id from to reqs = claim_found now id from to reqs (lookup id reqs)
