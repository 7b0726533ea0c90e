-- ===== src/Cashout/Service.antt =====
-- src/cashout/cashout-service.ts. The id (`randomUUID`), the clock, `Date.parse` and
-- `toISOString` are arguments; a date that does not parse is `none`, and is before nothing.
use ticash_pay_demo.Prelude.Names.{
  Bool, false, Option, none, some, [], ◌∷◌, ◌++◌, not, if◌then◌else◌,
}
use ticash_pay_demo.Prelude.Int.{ℤ, pos, ◌+ℤ◌, ◌*ℤ◌, leb_ℤ}
use ticash_pay_demo.Prelude.Text.{Text, codes, eq_text, text_eq}
use ticash_pay_demo.Prelude.Runtime.{Dates, is_before}
use ticash_pay_demo.Prelude.Dict.{lookup}
use ticash_pay_demo.Prelude.Result.{
  Result, ok, err, throw_if, cashout_error, not_found, conflict, validation, forbidden,
}
use ticash_pay_demo.Money.Currency.{Currency}
use ticash_pay_demo.Ledger.Types.{PostedJournal}
use ticash_pay_demo.Ledger.Store.{Ledger}
use ticash_pay_demo.Ledger.Service.{Request, agent_cash_out, perform}
use ticash_pay_demo.Cashout.Store.{
  CashoutStatus, pending, approved, rejected, cancelled, expired, eq_status, CashoutRequest,
  NewCashoutRequest, Requests, create, claim,
}

-- The ledger and the store that the service works on.
pub record Cashouts : Type 0 where
  pub ledger : Ledger
  pub reqs : Requests

abbrev pub cashout_key : Text → Text
cashout_key id = codes "cashout:" ++ id

abbrev pub create_checked :
    Text → NewCashoutRequest → Cashouts → Result (Unit {0}) → Result CashoutRequest × Cashouts
create_checked now r s (err e) = (err e, s)
create_checked now r s (ok _) =
    (ok (create now r s.reqs).0, record { ledger = s.ledger; reqs = (create now r s.reqs).1 })

-- `request`; `expiry` is `cfg.expiryMinutes`.
unfoldable pub request :
    Dates
    → ℤ
    → Text
    → ℤ
    → Text
    → Text
    → Text
    → Currency
    → ℤ
    → ℤ
    → Cashouts
    → Result CashoutRequest × Cashouts
request dates expiry id now_ms created_at agent_id customer_id c amount commission s =
    create_checked created_at
      (record {
        id = id;
        agent_id = agent_id;
        customer_id = customer_id;
        currency = c;
        amount_minor = amount;
        commission_minor = commission;
        expires_at = some (dates.to_iso_string (now_ms +ℤ expiry *ℤ pos 60000));
      })
      s (throw_if (leb_ℤ amount (pos 0)) (cashout_error validation))

-- `req.expiresAt && Date.parse(req.expiresAt) < Date.now()`
unfoldable pub is_over : Dates → ℤ → Option Text → Bool
is_over dates now none = false
is_over dates now (some []) = false
is_over dates now (some (c ∷ cs)) = is_before (dates.parse (c ∷ cs)) now

unfoldable pub cash_out_request : CashoutRequest → Request
cash_out_request r =
    agent_cash_out r.agent_id r.customer_id r.currency r.amount_minor r.commission_minor
      (cashout_key r.id)

-- What follows the ledger's answer: the claim stands, or it is taken back and the error thrown on.
abbrev pub after_post :
    Text
    → Text
    → CashoutRequest
    → Requests
    → Result PostedJournal × Ledger
    → Result CashoutRequest × Cashouts
after_post reverted_at id claimed reqs (ok p, l) = (ok claimed, record { ledger = l; reqs = reqs })
after_post reverted_at id claimed reqs (err e, l) =
    (err e, record { ledger = l; reqs = (claim reverted_at id (approved ∷ []) pending reqs).1 })

abbrev pub post_claimed :
    Text
    → Text
    → CashoutRequest
    → Cashouts
    → Option CashoutRequest × Requests
    → Result CashoutRequest × Cashouts
post_claimed posted_at reverted_at r s (none, reqs) =
    (err (cashout_error conflict), record { ledger = s.ledger; reqs = reqs })
post_claimed posted_at reverted_at r s (some claimed, reqs) =
    after_post reverted_at r.id claimed reqs (perform posted_at (cash_out_request r) s.ledger)

-- The three guards of `approve`, then the claim and the debit.
abbrev pub approve_found :
    Dates
    → ℤ
    → Text
    → Text
    → Text
    → Text
    → Cashouts
    → Option CashoutRequest
    → Result CashoutRequest × Cashouts
approve_found dates now claimed_at posted_at reverted_at customer_id s none =
    (err (cashout_error not_found), s)
approve_found dates now claimed_at posted_at reverted_at customer_id s (some r) =
    if not (eq_text r.customer_id customer_id)
    then (err (cashout_error forbidden), s)
    else if not (eq_status r.status pending)
    then (err (cashout_error conflict), s)
    else if is_over dates now r.expires_at
    then (
      err (cashout_error conflict),
      record { ledger = s.ledger; reqs = (claim claimed_at r.id (pending ∷ []) expired s.reqs).1 },
    )
    else post_claimed posted_at reverted_at r s
        (claim claimed_at r.id (pending ∷ []) approved s.reqs)

-- `approve`
unfoldable pub approve :
    Dates → ℤ → Text → Text → Text → Text → Text → Cashouts → Result CashoutRequest × Cashouts
approve dates now claimed_at posted_at reverted_at id customer_id s =
    approve_found dates now claimed_at posted_at reverted_at customer_id s (lookup id s.reqs)

abbrev pub updated : Cashouts → Option CashoutRequest × Requests → Result CashoutRequest × Cashouts
updated s (none, reqs) = (err (cashout_error conflict), record { ledger = s.ledger; reqs = reqs })
updated s (some r, reqs) = (ok r, record { ledger = s.ledger; reqs = reqs })

-- `reject` by the customer and `cancel` by the agent: the owner's check, then the claim.
abbrev pub close_found :
    (CashoutRequest → Text)
    → CashoutStatus
    → Text
    → Text
    → Cashouts
    → Option CashoutRequest
    → Result CashoutRequest × Cashouts
close_found owner to claimed_at caller s none = (err (cashout_error not_found), s)
close_found owner to claimed_at caller s (some r) =
    if not (eq_text (owner r) caller)
    then (err (cashout_error forbidden), s)
    else updated s (claim claimed_at r.id (pending ∷ []) to s.reqs)

-- `reject`
unfoldable pub reject : Text → Text → Text → Cashouts → Result CashoutRequest × Cashouts
reject claimed_at id customer_id s =
    close_found (λ r. r.customer_id) rejected claimed_at customer_id s (lookup id s.reqs)

-- `cancel`
unfoldable pub cancel : Text → Text → Text → Cashouts → Result CashoutRequest × Cashouts
cancel claimed_at id agent_id s =
    close_found (λ r. r.agent_id) cancelled claimed_at agent_id s (lookup id s.reqs)
