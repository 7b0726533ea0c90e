-- ===== src/Withdrawal/Preserve.antt =====
-- The calls of src/withdrawal/withdrawal-service.ts and that correspondence.
use ticash_pay_demo.Prelude.Names.{
  ◌≡◌, refl, ap, ◌∙◌, inl, inr, Bool, true, false, Option, none, some, [], ◌∷◌, ◌&&◌, arith,
  if◌then◌else◌, Bool-cases, Option-cases,
}
use ticash_pay_demo.Prelude.Int.{ℤ}
use ticash_pay_demo.Prelude.Text.{Text, eq_text, text_eq}
use ticash_pay_demo.Prelude.Dict.{lookup, insert, lookup-insert_self}
use ticash_pay_demo.Prelude.Result.{Result, ok, err, Result-cases}
use ticash_pay_demo.Money.Trim.{trim}
use ticash_pay_demo.Ledger.Types.{PostedJournal}
use ticash_pay_demo.Ledger.Operations.Accounts.{truthy}
use ticash_pay_demo.Ledger.Store.{Ledger}
use ticash_pay_demo.Ledger.Service.{Request, perform}
use ticash_pay_demo.Ledger.Service.Keyed.{
  Registers, hold-Registers, settle-Registers, refund-Registers,
}
use ticash_pay_demo.Withdrawal.Store.{
  WithdrawalStatus, pending, completed, rejected, eq_status, WithdrawalRequest, NewWithdrawal, Rows,
  new_row, create, moved_to, claim,
}
use ticash_pay_demo.Withdrawal.Service.{
  WithdrawalConfig, Withdrawals, hold_key, settle_key, refund_key, check_request, record_held,
  hold_request, request, after_post, claim_and_post, settle_request, refund_request, complete,
  is_stranger, reject,
}
use ticash_pay_demo.Withdrawal.Keys.{
  hold-hold, hold-settle, hold-refund, settle-settle, settle-hold, settle-refund, refund-refund,
  refund-hold, refund-settle,
}
use ticash_pay_demo.Withdrawal.Effect.{
  status_at, IsIndexed, status_at-insert, IsIndexed-insert, claim-held,
}
use ticash_pay_demo.Withdrawal.Faithful.{IsFaithful, move-IsFaithful}

module _ (s : Withdrawals) (w : WithdrawalRequest) (found : lookup w.id s.rows ≡ some w)
    (waits : w.status ≡ pending) (f : IsFaithful s) where
  was_pending : status_at w.id s.rows ≡ some pending
  unfolding status_at
  was_pending = rw (found, waits) refl

  module _ (key at back_at : Text) (to : WithdrawalStatus) (ref : Option Text) where
    taken : Rows
    taken = insert w.id (moved_to at to ref w) s.rows

    taken-IsIndexed : IsIndexed taken
    unfolding taken moved_to
    taken-IsIndexed = IsIndexed-insert w.id (moved_to at to ref w) s.rows refl f.indexed

    given_back :
        (claim back_at w.id (to ∷ []) pending none taken).1
        ≡ insert w.id (moved_to back_at pending none (moved_to at to ref w)) taken
    unfolding taken
    given_back =
        rw
          (claim-held back_at w.id pending none (moved_to at to ref w) taken
            (lookup-insert_self w.id (moved_to at to ref w) s.rows) to (unfold moved_to in refl))
          refl

    twice :
        (j : Text) (b : Bool)
        → eq_text w.id j ≡ b
        → status_at j (insert w.id (moved_to back_at pending none (moved_to at to ref w)) taken)
          ≡ (if b then some pending else status_at j s.rows)
    unfolding taken moved_to
    twice j b e =
        rw
          (
            status_at-insert w.id j (moved_to back_at pending none (moved_to at to ref w)) taken,
            status_at-insert w.id j (moved_to at to ref w) s.rows,
            e,
          )
          (elim (Bool-cases b) [ inl same ↦ rw same refl | inr other ↦ rw other refl ])

    after_post-IsFaithful :
        (r : Result PostedJournal × Ledger)
        → Registers key s.ledger r
        → ((j : Text) → eq_text key (hold_key j) ≡ false)
        → ((j : Text) → eq_text key (settle_key j) ≡ (eq_text w.id j && eq_status completed to))
        → ((j : Text) → eq_text key (refund_key j) ≡ (eq_text w.id j && eq_status rejected to))
        → IsFaithful (after_post back_at w.id (moved_to at to ref w) to taken r).1
    after_post-IsFaithful (ok p, l) reg no_hold settles refunds =
        move-IsFaithful s (record { ledger = l; rows = taken }) w.id key true false (some pending)
          to
          (record {
            was = was_pending;
            becomes =
                λ j. unfold taken moved_to in status_at-insert w.id j (moved_to at to ref w) s.rows;
            registers = reg;
            holds = λ j. rw (no_hold j) (ground arith);
            settles = λ j. rw (settles j) (ground arith);
            refunds = λ j. rw (refunds j) (ground arith);
            is_held = refl;
            not_completed = unfold eq_status in refl;
            not_rejected = unfold eq_status in refl;
          })
          f taken-IsIndexed
    after_post-IsFaithful (err e, l) reg no_hold settles refunds = rw given_back (
        move-IsFaithful s
          (record {
            ledger = l;
            rows = insert w.id (moved_to back_at pending none (moved_to at to ref w)) taken;
          })
          w.id key false false (some pending) pending
          (record {
            was = was_pending;
            becomes = λ j. twice j (eq_text w.id j) refl;
            registers = reg;
            holds = λ j. ground arith;
            settles = λ j. unfold eq_status in ground arith;
            refunds = λ j. unfold eq_status in ground arith;
            is_held = refl;
            not_completed = unfold eq_status in refl;
            not_rejected = unfold eq_status in refl;
          })
          f (IsIndexed-insert w.id _ taken (unfold moved_to in refl) taken-IsIndexed))

  claim_and_post-IsFaithful :
      (at posted_at back_at key : Text) (to : WithdrawalStatus) (ref : Option Text) (r : Request)
      → Registers key s.ledger (perform posted_at r s.ledger)
      → ((j : Text) → eq_text key (hold_key j) ≡ false)
      → ((j : Text) → eq_text key (settle_key j) ≡ (eq_text w.id j && eq_status completed to))
      → ((j : Text) → eq_text key (refund_key j) ≡ (eq_text w.id j && eq_status rejected to))
      → IsFaithful (claim_and_post at posted_at back_at to ref r s w).1
  claim_and_post-IsFaithful at posted_at back_at key to ref r reg no_hold settles refunds =
      rw (waits, claim-held at w.id to ref w s.rows found pending waits)
        (unfold eq_status taken in
          after_post-IsFaithful key at back_at to ref (perform posted_at r s.ledger) reg no_hold
            settles refunds)

is_pending : (x : WithdrawalStatus) → eq_status x pending ≡ true → x ≡ pending
unfolding eq_status
is_pending pending h = refl
is_pending completed h = cc
is_pending rejected h = cc

module _ (s : Withdrawals) (f : IsFaithful s) (at posted_at back_at : Text) where
  attempt :
      (w : WithdrawalRequest) (key : Text) (to : WithdrawalStatus) (ref : Option Text) (r : Request)
      → lookup w.id s.rows ≡ some w
      → Registers key s.ledger (perform posted_at r s.ledger)
      → ((j : Text) → eq_text key (hold_key j) ≡ false)
      → ((j : Text) → eq_text key (settle_key j) ≡ (eq_text w.id j && eq_status completed to))
      → ((j : Text) → eq_text key (refund_key j) ≡ (eq_text w.id j && eq_status rejected to))
      → IsFaithful (claim_and_post at posted_at back_at to ref r s w).1
  attempt w key to ref r found reg no_hold settles refunds =
      elim (Bool-cases (eq_status w.status pending)) [
        | inl waits ↦
            claim_and_post-IsFaithful s w found (is_pending w.status waits) f at posted_at back_at
              key to ref r reg no_hold settles refunds
        | inr over ↦ rw over f
      ]

  pub complete-IsFaithful :
      (id : Text) (ref : Option Text) → IsFaithful (complete at posted_at back_at id ref s).1
  unfolding complete
  complete-IsFaithful id ref = elim (Option-cases (lookup id s.rows)) [
    | inl missing ↦ rw missing f
    | inr (w, found) ↦ rw found (
        attempt w (settle_key w.id) completed ref (settle_request w ref)
          (ap (λ x. lookup x s.rows) (f.indexed id w found) ∙ found)
          (unfold settle_request in
            settle-Registers posted_at w.currency w.amount_minor w.fee_minor (settle_key w.id) w.id
              (truthy ref) s.ledger)
          (settle-hold w.id) (λ j. rw (settle-settle w.id j) (unfold eq_status in ground arith))
          (λ j. rw (settle-refund w.id j) (unfold eq_status in ground arith)))
  ]

  pub reject-IsFaithful :
      (id : Text) (by : Option Text) → IsFaithful (reject at posted_at back_at id by s).1
  unfolding reject
  reject-IsFaithful id by = elim (Option-cases (lookup id s.rows)) [
    | inl missing ↦ rw missing f
    | inr (w, found) ↦ elim (Bool-cases (is_stranger by w)) [
      | inl stranger ↦ rw (found, stranger) f
      | inr known ↦
          rw (found, known)
            (attempt w (refund_key w.id) rejected none (refund_request w)
              (ap (λ x. lookup x s.rows) (f.indexed id w found) ∙ found)
              (unfold refund_request in
                refund-Registers posted_at w.customer_id w.currency w.amount_minor (refund_key w.id)
                  w.id s.ledger)
              (refund-hold w.id) (λ j. rw (refund-settle w.id j) (unfold eq_status in ground arith))
              (λ j. rw (refund-refund w.id j) (unfold eq_status in ground arith)))
    ]
  ]

module _ (s : Withdrawals) (f : IsFaithful s) (now : Text) (w : NewWithdrawal)
    (fresh : lookup w.id s.rows ≡ none) where
  record_held-IsFaithful :
      (r : Result PostedJournal × Ledger)
      → Registers (hold_key w.id) s.ledger r
      → IsFaithful (record_held now w s.rows r).1
  record_held-IsFaithful (ok p, l) reg =
      move-IsFaithful s (record { ledger = l; rows = (create now w s.rows).1 }) w.id (hold_key w.id)
        true true none pending
        (record {
          was = unfold status_at in rw fresh;
          becomes = λ j. unfold create new_row in status_at-insert w.id j (new_row now w) s.rows;
          registers = reg;
          holds = λ j. rw (hold-hold w.id j) (ground arith);
          settles = λ j. rw (hold-settle w.id j) (unfold eq_status in ground arith);
          refunds = λ j. rw (hold-refund w.id j) (unfold eq_status in ground arith);
          is_held = refl;
          not_completed = refl;
          not_rejected = refl;
        })
        f (unfold create new_row in IsIndexed-insert w.id (new_row now w) s.rows refl f.indexed)
  record_held-IsFaithful (err e, l) reg = record {
    indexed = f.indexed;
    held = λ j. rw (reg (hold_key j), f.held j) (ground arith);
    settled = λ j. rw (reg (settle_key j), f.settled j) (ground arith);
    refunded = λ j. rw (reg (refund_key j), f.refunded j) (ground arith);
  }

pub request-IsFaithful :
    (cfg : WithdrawalConfig) (id posted_at created_at customer_id : Text) (amount : ℤ)
    (address : Text) (s : Withdrawals)
    → IsFaithful s
    → lookup id s.rows ≡ none
    → IsFaithful (request cfg id posted_at created_at customer_id amount address s).1
unfolding request
request-IsFaithful cfg id posted_at created_at customer_id amount address s f fresh =
    elim (Result-cases (check_request cfg amount (trim address))) [
      | inl (u, fits) ↦
          let reg : Registers (hold_key id) s.ledger
              (perform posted_at (hold_request cfg.asset id customer_id amount) s.ledger) =
            unfold hold_request in
            hold-Registers posted_at customer_id cfg.asset amount (hold_key id) (some id)
              s.ledger in
          rw fits (record_held-IsFaithful s f created_at _ fresh _ reg)
      | inr (e, bad) ↦ rw bad f
    ]
