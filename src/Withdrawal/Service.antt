-- ===== src/Withdrawal/Service.antt =====
-- src/withdrawal/withdrawal-service.ts. The id (`randomUUID`) and the answers of the clock are
-- arguments. The in-memory `create` cannot throw, so the refund that compensates it is not here.
use ticash_pay_demo.Prelude.Names.{
  Bool, false, Option, none, some, [], ◌∷◌, ◌++◌, ◌||◌, not, ltb, if◌then◌else◌,
}
use ticash_pay_demo.Prelude.Int.{ℤ, ltb_ℤ, leb_ℤ}
use ticash_pay_demo.Prelude.Text.{Text, codes, eq_text, text_eq}
use ticash_pay_demo.Prelude.Length.{length}
use ticash_pay_demo.Prelude.Dict.{lookup}
use ticash_pay_demo.Prelude.Result.{
  Result, ok, err, ◌>>◌, throw_if, withdrawal_error, not_found, conflict, validation, forbidden,
}
use ticash_pay_demo.Money.Currency.{Currency}
use ticash_pay_demo.Money.Trim.{trim}
use ticash_pay_demo.Ledger.Types.{PostedJournal}
use ticash_pay_demo.Ledger.Operations.Accounts.{truthy}
use ticash_pay_demo.Ledger.Store.{Ledger}
use ticash_pay_demo.Ledger.Service.{
  Request, usdt_withdraw_hold, usdt_withdraw_settle, usdt_withdraw_refund, perform,
}
use ticash_pay_demo.Withdrawal.Store.{
  WithdrawalStatus, pending, completed, rejected, eq_status, WithdrawalRequest, NewWithdrawal, Rows,
  create, claim,
}

pub record WithdrawalConfig : Type 0 where
  pub asset : Currency
  pub fee_minor : ℤ
  pub network : Text
  pub min_amount_minor : ℤ

-- The ledger and the store that the service works on.
pub record Withdrawals : Type 0 where
  pub ledger : Ledger
  pub rows : Rows

abbrev pub hold_key : Text → Text
hold_key id = codes "wd:hold:" ++ id

abbrev pub settle_key : Text → Text
settle_key id = codes "wd:settle:" ++ id

abbrev pub refund_key : Text → Text
refund_key id = codes "wd:refund:" ++ id

-- The checks at the start of `request`, on the trimmed address.
unfoldable pub check_request : WithdrawalConfig → ℤ → Text → Result (Unit {0})
check_request cfg amount address = do
  throw_if (ltb (length address) 20 || ltb 120 (length address)) (withdrawal_error validation)
  throw_if (ltb_ℤ amount cfg.min_amount_minor) (withdrawal_error validation)
  throw_if (leb_ℤ amount cfg.fee_minor) (withdrawal_error validation)

abbrev pub record_held :
    Text
    → NewWithdrawal
    → Rows
    → Result PostedJournal × Ledger
    → Result WithdrawalRequest × Withdrawals
record_held now w rows (err e, l) = (err e, record { ledger = l; rows = rows })
record_held now w rows (ok p, l) =
    (ok (create now w rows).0, record { ledger = l; rows = (create now w rows).1 })

unfoldable pub hold_request : Currency → Text → Text → ℤ → Request
hold_request c id customer_id amount =
    usdt_withdraw_hold customer_id c amount (hold_key id) (some id)

abbrev pub request_checked :
    WithdrawalConfig
    → Text
    → Text
    → Text
    → Text
    → ℤ
    → Text
    → Withdrawals
    → Result (Unit {0})
    → Result WithdrawalRequest × Withdrawals
request_checked cfg id posted_at created_at customer_id amount address s (err e) = (err e, s)
request_checked cfg id posted_at created_at customer_id amount address s (ok _) =
    record_held created_at
      (record {
        id = id;
        customer_id = customer_id;
        currency = cfg.asset;
        amount_minor = amount;
        fee_minor = cfg.fee_minor;
        address = address;
        network = cfg.network;
      })
      s.rows (perform posted_at (hold_request cfg.asset id customer_id amount) s.ledger)

-- `request`
unfoldable pub request :
    WithdrawalConfig
    → Text
    → Text
    → Text
    → Text
    → ℤ
    → Text
    → Withdrawals
    → Result WithdrawalRequest × Withdrawals
request cfg id posted_at created_at customer_id amount address s =
    request_checked cfg id posted_at created_at customer_id amount (trim address) s
      (check_request cfg amount (trim address))

-- What follows the ledger's answer: the claim stands, or it is taken back and the error thrown on.
abbrev pub after_post :
    Text
    → Text
    → WithdrawalRequest
    → WithdrawalStatus
    → Rows
    → Result PostedJournal × Ledger
    → Result WithdrawalRequest × Withdrawals
after_post reverted_at id claimed to rows (ok p, l) =
    (ok claimed, record { ledger = l; rows = rows })
after_post reverted_at id claimed to rows (err e, l) =
    (err e, record { ledger = l; rows = (claim reverted_at id (to ∷ []) pending none rows).1 })

abbrev pub post_claimed :
    Text
    → Text
    → Text
    → WithdrawalStatus
    → Request
    → Withdrawals
    → Option WithdrawalRequest × Rows
    → Result WithdrawalRequest × Withdrawals
post_claimed posted_at reverted_at id to r s (none, rows) =
    (err (withdrawal_error conflict), record { ledger = s.ledger; rows = rows })
post_claimed posted_at reverted_at id to r s (some claimed, rows) =
    after_post reverted_at id claimed to rows (perform posted_at r s.ledger)

-- Claim, post, and take the claim back when the post fails: the common end of both handlers.
abbrev pub claim_and_post :
    Text
    → Text
    → Text
    → WithdrawalStatus
    → Option Text
    → Request
    → Withdrawals
    → WithdrawalRequest
    → Result WithdrawalRequest × Withdrawals
claim_and_post claimed_at posted_at reverted_at to ref r s w =
    if eq_status w.status pending
    then post_claimed posted_at reverted_at w.id to r s
        (claim claimed_at w.id (pending ∷ []) to ref s.rows)
    else (err (withdrawal_error conflict), s)

unfoldable pub settle_request : WithdrawalRequest → Option Text → Request
settle_request w ref =
    usdt_withdraw_settle w.currency w.amount_minor w.fee_minor (settle_key w.id) w.id (truthy ref)

unfoldable pub refund_request : WithdrawalRequest → Request
refund_request w =
    usdt_withdraw_refund w.customer_id w.currency w.amount_minor (refund_key w.id) w.id

abbrev pub complete_found :
    Text
    → Text
    → Text
    → Option Text
    → Withdrawals
    → Option WithdrawalRequest
    → Result WithdrawalRequest × Withdrawals
complete_found claimed_at posted_at reverted_at ref s none = (err (withdrawal_error not_found), s)
complete_found claimed_at posted_at reverted_at ref s (some w) =
    claim_and_post claimed_at posted_at reverted_at completed ref (settle_request w ref) s w

-- `complete`
unfoldable pub complete :
    Text → Text → Text → Text → Option Text → Withdrawals → Result WithdrawalRequest × Withdrawals
complete claimed_at posted_at reverted_at id ref s =
    complete_found claimed_at posted_at reverted_at ref s (lookup id s.rows)

-- `args.byCustomerId && w.customerId !== args.byCustomerId`
unfoldable pub is_stranger : Option Text → WithdrawalRequest → Bool
is_stranger none w = false
is_stranger (some []) w = false
is_stranger (some (c ∷ cs)) w = not (eq_text w.customer_id (c ∷ cs))

abbrev pub reject_found :
    Text
    → Text
    → Text
    → Option Text
    → Withdrawals
    → Option WithdrawalRequest
    → Result WithdrawalRequest × Withdrawals
reject_found claimed_at posted_at reverted_at by s none = (err (withdrawal_error not_found), s)
reject_found claimed_at posted_at reverted_at by s (some w) =
    if is_stranger by w
    then (err (withdrawal_error forbidden), s)
    else claim_and_post claimed_at posted_at reverted_at rejected none (refund_request w) s w

-- `reject`
unfoldable pub reject :
    Text → Text → Text → Text → Option Text → Withdrawals → Result WithdrawalRequest × Withdrawals
reject claimed_at posted_at reverted_at id by s =
    reject_found claimed_at posted_at reverted_at by s (lookup id s.rows)
