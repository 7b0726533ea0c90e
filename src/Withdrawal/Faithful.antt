-- ===== src/Withdrawal/Faithful.antt =====
-- How the ledger's keys and the statuses of src/withdrawal's rows correspond.
use ticash_pay_demo.Prelude.Names.{
  ◌≡◌, refl, sym, inl, inr, Bool, true, false, Option, some, ◌||◌, ◌&&◌, arith, if◌then◌else◌,
  Bool-cases,
}
use ticash_pay_demo.Prelude.Text.{Text, eq_text, eq_text_iff, text_eq}
use ticash_pay_demo.Prelude.Dict.{has}
use ticash_pay_demo.Ledger.Service.Keyed.{is_posted}
use ticash_pay_demo.Withdrawal.Store.{WithdrawalStatus, completed, rejected, eq_status}
use ticash_pay_demo.Withdrawal.Service.{Withdrawals, hold_key, settle_key, refund_key}
use ticash_pay_demo.Withdrawal.Effect.{status_at, is_in, IsIndexed}

-- The ledger tells what the rows tell: a hold for each row, a settlement for each completed one, a
-- refund for each rejected one, and no other.
pub record IsFaithful (s : Withdrawals) : Type 0 where
  pub indexed : IsIndexed s.rows
  pub held : (id : Text) → is_posted (hold_key id) s.ledger ≡ has (status_at id s.rows)
  pub settled :
      (id : Text) → is_posted (settle_key id) s.ledger ≡ is_in completed (status_at id s.rows)
  pub refunded :
      (id : Text) → is_posted (refund_key id) s.ledger ≡ is_in rejected (status_at id s.rows)

-- One id goes from `old` to `x` while one key is tried.
pub record Move (s t : Withdrawals) (id key : Text) (b h : Bool) (old : Option WithdrawalStatus)
    (x : WithdrawalStatus) : Type 0 where
  pub was : status_at id s.rows ≡ old
  pub becomes :
      (j : Text) → status_at j t.rows ≡ (if eq_text id j then some x else status_at j s.rows)
  pub registers : (k : Text) → is_posted k t.ledger ≡ (is_posted k s.ledger || (eq_text key k && b))
  pub holds : (j : Text) → (eq_text key (hold_key j) && b) ≡ (eq_text id j && h)
  pub settles :
      (j : Text) → (eq_text key (settle_key j) && b) ≡ (eq_text id j && eq_status completed x)
  pub refunds :
      (j : Text) → (eq_text key (refund_key j) && b) ≡ (eq_text id j && eq_status rejected x)
  pub is_held : (has old || h) ≡ true
  pub not_completed : is_in completed old ≡ false
  pub not_rejected : is_in rejected old ≡ false

module _ (s t : Withdrawals) (id key : Text) (b h : Bool) (old : Option WithdrawalStatus)
    (x : WithdrawalStatus) (m : Move s t id key b h old x) (f : IsFaithful s) where
  move-held : (j : Text) → is_posted (hold_key j) t.ledger ≡ has (status_at j t.rows)
  move-held j =
      rw (m.registers (hold_key j), m.holds j, f.held j, m.becomes j)
        (elim (Bool-cases (eq_text id j)) [
          | inl same ↦ rw (same, sym ((eq_text_iff id j).0 same), m.was) (m.is_held)
          | inr other ↦ rw other (ground arith)
        ])

  move-settled :
      (j : Text) → is_posted (settle_key j) t.ledger ≡ is_in completed (status_at j t.rows)
  move-settled j =
      rw (m.registers (settle_key j), m.settles j, f.settled j, m.becomes j)
        (elim (Bool-cases (eq_text id j)) [
          | inl same ↦ rw (same, sym ((eq_text_iff id j).0 same), m.was, m.not_completed) refl
          | inr other ↦ rw other (ground arith)
        ])

  move-refunded :
      (j : Text) → is_posted (refund_key j) t.ledger ≡ is_in rejected (status_at j t.rows)
  move-refunded j =
      rw (m.registers (refund_key j), m.refunds j, f.refunded j, m.becomes j)
        (elim (Bool-cases (eq_text id j)) [
          | inl same ↦ rw (same, sym ((eq_text_iff id j).0 same), m.was, m.not_rejected) refl
          | inr other ↦ rw other (ground arith)
        ])

  pub move-IsFaithful : IsIndexed t.rows → IsFaithful t
  move-IsFaithful i = record {
    indexed = i;
    held = move-held;
    settled = move-settled;
    refunded = move-refunded;
  }
