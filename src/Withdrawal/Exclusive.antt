-- ===== src/Withdrawal/Exclusive.antt =====
-- Every sequence of calls, with other posts to the same ledger between them.
use ticash_pay_demo.Prelude.Names.{◌≡◌, refl, false, Option, none, some, [], ◌&&◌, arith}
use ticash_pay_demo.Prelude.Int.{ℤ}
use ticash_pay_demo.Prelude.Text.{Text, eq_text, text_eq}
use ticash_pay_demo.Prelude.Dict.{lookup}
use ticash_pay_demo.Ledger.Types.{JournalDraft}
use ticash_pay_demo.Ledger.Store.{empty, post}
use ticash_pay_demo.Ledger.Service.Keyed.{is_posted, post-Registers}
use ticash_pay_demo.Withdrawal.Store.{WithdrawalStatus, pending, completed, rejected, eq_status}
use ticash_pay_demo.Withdrawal.Service.{
  WithdrawalConfig, Withdrawals, hold_key, settle_key, refund_key, request, complete, reject,
}
use ticash_pay_demo.Withdrawal.Effect.{status_at, is_in}
use ticash_pay_demo.Withdrawal.Faithful.{IsFaithful}
use ticash_pay_demo.Withdrawal.Preserve.{request-IsFaithful, complete-IsFaithful, reject-IsFaithful}

-- A post that has nothing to do with withdrawals.
abbrev pub IsForeign : Text → Type 0
IsForeign key =
    (id : Text)
    → (eq_text key (hold_key id) ≡ false)
      × (eq_text key (settle_key id) ≡ false)
      × (eq_text key (refund_key id) ≡ false)

-- One call of the service, whatever it answers, or a post by another part of the program. A new
-- request draws an id that no row has.
pub data Step (cfg : WithdrawalConfig) : Withdrawals → Withdrawals → Type 0 where
  requested :
      (s : Withdrawals) (id posted_at created_at customer_id : Text) (amount : ℤ) (address : Text)
      → lookup id s.rows ≡ none
      → Step cfg s (request cfg id posted_at created_at customer_id amount address s).1
  completed_by :
      (s : Withdrawals) (at posted_at back_at id : Text) (ref : Option Text)
      → Step cfg s (complete at posted_at back_at id ref s).1
  rejected_by :
      (s : Withdrawals) (at posted_at back_at id : Text) (by : Option Text)
      → Step cfg s (reject at posted_at back_at id by s).1
  other_post :
      (s : Withdrawals) (now : Text) (j : JournalDraft)
      → IsForeign j.idempotency_key
      → Step cfg s (record s { ledger = (post now j s.ledger).1 })

pub data Reach (cfg : WithdrawalConfig) : Withdrawals → Type 0 where
  start : Reach cfg (record { ledger = empty; rows = [] })
  next : {s t : Withdrawals} → Reach cfg s → Step cfg s t → Reach cfg t

Step-IsFaithful :
    (cfg : WithdrawalConfig) {s t : Withdrawals} → Step cfg s t → IsFaithful s → IsFaithful t
Step-IsFaithful cfg (requested s id posted_at created_at customer_id amount address fresh) f =
    request-IsFaithful cfg id posted_at created_at customer_id amount address s f fresh
Step-IsFaithful cfg (completed_by s at posted_at back_at id ref) f =
    complete-IsFaithful s f at posted_at back_at id ref
Step-IsFaithful cfg (rejected_by s at posted_at back_at id by) f =
    reject-IsFaithful s f at posted_at back_at id by
Step-IsFaithful cfg (other_post s now j apart) f =
    let reg = post-Registers now j s.ledger in
    record {
      indexed = f.indexed;
      held = λ id. rw (reg (hold_key id), (apart id).0, f.held id) (ground arith);
      settled = λ id. rw (reg (settle_key id), (apart id).1, f.settled id) (ground arith);
      refunded = λ id. rw (reg (refund_key id), (apart id).2, f.refunded id) (ground arith);
    }

-- In every state that calls of `request`, each with an id that no row has, of `complete` and of
-- `reject`, and posts by other parts under other keys, reach from an empty start: each row stands under its own id, the ledger has a hold exactly for the ids
-- that have a row, a settlement exactly for the completed ones and a refund exactly for the
-- rejected ones.
pub Reach-IsFaithful : (cfg : WithdrawalConfig) (s : Withdrawals) → Reach cfg s → IsFaithful s
unfolding is_posted status_at lookup
Reach-IsFaithful cfg s start = record {
  indexed = λ id w found. cc;
  held = λ id. refl;
  settled = λ id. refl;
  refunded = λ id. refl;
}
Reach-IsFaithful cfg s (next reach step) = Step-IsFaithful cfg step (Reach-IsFaithful cfg _ reach)

exclusive : (o : Option WithdrawalStatus) → (is_in completed o && is_in rejected o) ≡ false
unfolding eq_status
exclusive none = refl
exclusive (some pending) = refl
exclusive (some completed) = refl
exclusive (some rejected) = refl

-- In every state that calls of `request`, each with an id that no row has, of `complete` and of
-- `reject`, and posts by other parts under other keys, reach from an empty start, no withdrawal is both settled and refunded in the ledger.
pub never_both :
    (cfg : WithdrawalConfig) (s : Withdrawals) (id : Text)
    → Reach cfg s
    → (is_posted (settle_key id) s.ledger && is_posted (refund_key id) s.ledger) ≡ false
never_both cfg s id reach =
    let f = Reach-IsFaithful cfg s reach in
    rw (f.settled id, f.refunded id) (exclusive (status_at id s.rows))
