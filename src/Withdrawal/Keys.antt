-- ===== src/Withdrawal/Keys.antt =====
-- The three ledger keys of a withdrawal.
use ticash_pay_demo.Prelude.Names.{◌≡◌, refl, false}
use ticash_pay_demo.Prelude.Text.{Text, eq_text}
use ticash_pay_demo.Withdrawal.Service.{hold_key, settle_key, refund_key}

module _ (i j : Text) where
  pub hold-hold : eq_text (hold_key i) (hold_key j) ≡ eq_text i j
  unfolding eq_text
  hold-hold = refl

  pub settle-settle : eq_text (settle_key i) (settle_key j) ≡ eq_text i j
  unfolding eq_text
  settle-settle = refl

  pub refund-refund : eq_text (refund_key i) (refund_key j) ≡ eq_text i j
  unfolding eq_text
  refund-refund = refl

  pub hold-settle : eq_text (hold_key i) (settle_key j) ≡ false
  unfolding eq_text
  hold-settle = refl

  pub hold-refund : eq_text (hold_key i) (refund_key j) ≡ false
  unfolding eq_text
  hold-refund = refl

  pub settle-hold : eq_text (settle_key i) (hold_key j) ≡ false
  unfolding eq_text
  settle-hold = refl

  pub settle-refund : eq_text (settle_key i) (refund_key j) ≡ false
  unfolding eq_text
  settle-refund = refl

  pub refund-hold : eq_text (refund_key i) (hold_key j) ≡ false
  unfolding eq_text
  refund-hold = refl

  pub refund-settle : eq_text (refund_key i) (settle_key j) ≡ false
  unfolding eq_text
  refund-settle = refl
