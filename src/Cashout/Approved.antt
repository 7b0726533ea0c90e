-- ===== src/Cashout/Approved.antt =====
-- Every sequence of calls, with other posts to the same ledger between them.
use ticash_pay_demo.Prelude.Runtime.{Dates}
use ticash_pay_demo.Prelude.Names.{
  ◌≡◌, refl, ap, ◌∙◌, inl, inr, false, none, [], arith, Option-cases,
}
use ticash_pay_demo.Prelude.Int.{ℤ}
use ticash_pay_demo.Prelude.Text.{Text, eq_text, text_eq}
use ticash_pay_demo.Prelude.Dict.{lookup}
use ticash_pay_demo.Money.Currency.{Currency}
use ticash_pay_demo.Ledger.Types.{JournalDraft}
use ticash_pay_demo.Ledger.Store.{empty, post}
use ticash_pay_demo.Ledger.Service.Keyed.{is_posted, post-Registers}
use ticash_pay_demo.Cashout.Store.{
  CashoutStatus, approved, rejected, cancelled, eq_status, CashoutRequest,
}
use ticash_pay_demo.Cashout.Service.{
  Cashouts, cashout_key, request, approve, close_found, reject, cancel,
}
use ticash_pay_demo.Cashout.Effect.{status_at}
use ticash_pay_demo.Cashout.Faithful.{
  IsFaithful, request-IsFaithful, approve_found-IsFaithful, close_found-IsFaithful,
}

-- One call of the service, whatever it answers, or a post by another part of the program. A new
-- request draws an id that no request has.
pub data Step : Cashouts → Cashouts → Type 0 where
  requested :
      (dates : Dates) (expiry : ℤ) (s : Cashouts) (id : Text) (now_ms : ℤ)
      (created_at agent_id customer_id : Text) (c : Currency) (amount commission : ℤ)
      → lookup id s.reqs ≡ none
      → Step s
          (request dates expiry id now_ms created_at agent_id customer_id c amount commission s).1
  approved_by :
      (dates : Dates) (now : ℤ) (s : Cashouts) (at posted_at back_at id customer_id : Text)
      → Step s (approve dates now at posted_at back_at id customer_id s).1
  rejected_by : (s : Cashouts) (at id customer_id : Text) → Step s (reject at id customer_id s).1
  cancelled_by : (s : Cashouts) (at id agent_id : Text) → Step s (cancel at id agent_id s).1
  other_post :
      (s : Cashouts) (now : Text) (j : JournalDraft)
      → ((id : Text) → eq_text j.idempotency_key (cashout_key id) ≡ false)
      → Step s (record s { ledger = (post now j s.ledger).1 })

pub data Reach : Cashouts → Type 0 where
  start : Reach (record { ledger = empty; reqs = [] })
  next : {s t : Cashouts} → Reach s → Step s t → Reach t

approve-IsFaithful :
    (dates : Dates) (now : ℤ) (at posted_at back_at id customer_id : Text) (s : Cashouts)
    → IsFaithful s
    → IsFaithful (approve dates now at posted_at back_at id customer_id s).1
unfolding approve
approve-IsFaithful dates now at posted_at back_at id customer_id s f =
    elim (Option-cases (lookup id s.reqs)) [
      | inl missing ↦ rw missing f
      | inr (r, found) ↦ rw found (
          approve_found-IsFaithful s f at r
            (ap (λ x. lookup x s.reqs) (f.indexed id r found) ∙ found) dates now posted_at back_at
            customer_id)
    ]

close-IsFaithful :
    (owner : CashoutRequest → Text) (to : CashoutStatus) (at id caller : Text) (s : Cashouts)
    → eq_status approved to ≡ false
    → IsFaithful s
    → IsFaithful (close_found owner to at caller s (lookup id s.reqs)).1
close-IsFaithful owner to at id caller s no_debit f = elim (Option-cases (lookup id s.reqs)) [
  | inl missing ↦ rw missing f
  | inr (r, found) ↦ rw found (
      close_found-IsFaithful s f at r (ap (λ x. lookup x s.reqs) (f.indexed id r found) ∙ found)
        owner to caller no_debit)
]

Step-IsFaithful : {s t : Cashouts} → Step s t → IsFaithful s → IsFaithful t
unfolding reject cancel
Step-IsFaithful
      (requested dates expiry s id now_ms created_at agent_id customer_id c amount commission fresh)
      f =
    request-IsFaithful dates expiry id now_ms created_at agent_id customer_id c amount commission s
      f fresh
Step-IsFaithful (approved_by dates now s at posted_at back_at id customer_id) f =
    approve-IsFaithful dates now at posted_at back_at id customer_id s f
Step-IsFaithful (rejected_by s at id customer_id) f =
    close-IsFaithful (λ r. r.customer_id) rejected at id customer_id s (unfold eq_status in refl) f
Step-IsFaithful (cancelled_by s at id agent_id) f =
    close-IsFaithful (λ r. r.agent_id) cancelled at id agent_id s (unfold eq_status in refl) f
Step-IsFaithful (other_post s now j apart) f = record {
  indexed = f.indexed;
  debited = λ id.
      rw (post-Registers now j s.ledger (cashout_key id), apart id, f.debited id) (ground arith);
}

-- In every state that calls of `request`, each with an id that no request has, of `approve`, of
-- `reject` and of `cancel`, and posts by other parts under other keys, reach from an empty start:
-- each request stands under its own id, and the ledger has a
-- cash-out exactly for the approved requests.
pub approved_debits : (s : Cashouts) → Reach s → IsFaithful s
unfolding is_posted status_at lookup
approved_debits s start = record { indexed = λ id r found. cc; debited = λ id. refl }
approved_debits s (next reach step) = Step-IsFaithful step (approved_debits _ reach)
