-- ===== src/P2p/Keys.antt =====
-- The ledger keys of the marketplace.
use ticash_pay_demo.Prelude.Names.{◌≡◌, refl, false}
use ticash_pay_demo.Prelude.Text.{Text, eq_text}
use ticash_pay_demo.P2p.Service.{lock_key, unlock_key, release_key}

module _ (i j : Text) where
  pub lock-lock : eq_text (lock_key i) (lock_key j) ≡ eq_text i j
  unfolding eq_text
  lock-lock = refl

  pub release-release : eq_text (release_key i) (release_key j) ≡ eq_text i j
  unfolding eq_text
  release-release = refl

  pub lock-release : eq_text (lock_key i) (release_key j) ≡ false
  unfolding eq_text
  lock-release = refl

  pub unlock-lock : eq_text (unlock_key i) (lock_key j) ≡ false
  unfolding eq_text
  unlock-lock = refl

  pub unlock-release : eq_text (unlock_key i) (release_key j) ≡ false
  unfolding eq_text
  unlock-release = refl

  pub release-lock : eq_text (release_key i) (lock_key j) ≡ false
  unfolding eq_text
  release-lock = refl
