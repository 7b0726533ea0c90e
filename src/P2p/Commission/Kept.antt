-- ===== src/P2p/Commission/Kept.antt =====
-- `setCommissionBps` and `getCommissionBps` of src/p2p/p2p-service.ts together.
use ticash_pay_demo.Prelude.Names.{◌≡◌, refl, inl, inr, ◌||◌, Option, none, some, arith, Bool-cases}
use ticash_pay_demo.Prelude.Int.{ℤ, pos, ◌≤ℤ◌, ltb_ℤ}
use ticash_pay_demo.Prelude.Text.{Text, text_eq}
use ticash_pay_demo.Prelude.Runtime.{Numbers}
use ticash_pay_demo.Prelude.Dict.{lookup-insert_self}
use ticash_pay_demo.Prelude.Result.{Result, ok, err}
use ticash_pay_demo.P2p.Commission.{
  Settings, P2pConfig, CommissionState, commission_key, get_commission_bps, write_bps,
  set_commission_bps,
}

-- What a call that answers `r` leaves of the state `s`.
abbrev pub Keeps : Numbers → CommissionState → Result ℤ × CommissionState → Type 0
Keeps numbers s (ok n, t) = (pos 0 ≤ℤ n) × (n ≤ℤ pos 2000) × (get_commission_bps numbers t ≡ n)
Keeps numbers s (err e, t) = t ≡ s

module _ (numbers : Numbers) (print : ℤ → Text)
    (reads : (n : ℤ) → pos 0 ≤ℤ n → n ≤ℤ pos 2000 → numbers.to_integer (print n) ≡ some n) where
  written :
      (n : ℤ) (cfg : P2pConfig) (settings : Option Settings)
      → pos 0 ≤ℤ n
      → n ≤ℤ pos 2000
      → get_commission_bps numbers (write_bps n (print n) cfg settings) ≡ n
  unfolding get_commission_bps
  written n cfg none low high = refl
  written n cfg (some settings) low high =
      rw (lookup-insert_self commission_key (print n) settings, reads n low high) (ground arith)

  -- Where `Number` reads back what `String` prints of 0 to 2000: a call of `setCommissionBps`
  -- either throws and changes nothing, or its rate is between 0 and 2000 and is what
  -- `getCommissionBps` answers from then on, with a settings store and without.
  pub set_commission_bps-Keeps :
      (bps : Option ℤ) (s : CommissionState) → Keeps numbers s (set_commission_bps print bps s)
  unfolding set_commission_bps
  set_commission_bps-Keeps none s = refl
  set_commission_bps-Keeps (some n) s = elim (Bool-cases (ltb_ℤ n (pos 0) || ltb_ℤ (pos 2000) n)) [
    | inl bad ↦ rw bad refl
    | inr good ↦
        let low : pos 0 ≤ℤ n = ground (arith, good) in
        let high : n ≤ℤ pos 2000 = ground (arith, good) in
        rw good (low, high, written n s.cfg s.settings low high)
  ]
