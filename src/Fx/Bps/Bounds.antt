-- ===== src/Fx/Bps/Bounds.antt =====
-- Fees in basis points (`applyBps` of src/fx/rate-service.ts) against their amounts.
use ticash_pay_demo.Prelude.Names.{
  ℕ, ◌+◌, ◌*◌, ◌≤◌, ◌<◌, ◌≡◌, refl, arith, ltb, leb, true, false, ◌||◌, inl, inr, Bool-cases,
}
use ticash_pay_demo.Prelude.Int.{ℤ, pos, negsuc, ◌*ℤ◌, ◌≤ℤ◌, ltb_ℤ, leb_ℤ}
use ticash_pay_demo.Prelude.Result.{ok, WhenOk}
use ticash_pay_demo.Money.Round.{half_up, round_half_up_div}
use ticash_pay_demo.Money.Round.Bounds.{IsNearest, half_up-IsNearest, nearest_mono}
use ticash_pay_demo.Fx.Bps.{assert_bps, apply_bps}

product : (n b : ℕ) → pos n *ℤ pos b ≡ pos (n * b)
unfolding ◌*ℤ◌
product n b = ground arith

rounded : (m : ℕ) → round_half_up_div (pos m) (pos 10000) ≡ ok (pos (half_up m 10000))
unfolding round_half_up_div
rounded m = ground arith

scaled_up : (n a b : ℕ) → a ≤ b → n * a ≤ n * b
scaled_up n a b q = grind arith

within : (n b k : ℕ) → b < 10000 → IsNearest (n * b) 10000 k → k ≤ n
within n b k h near =
    nearest_mono (n * b) (n * 10000) 10000 k n (scaled_up n b 10000 (omega arith)) near
      (omega arith, omega arith)

charged : (n b : ℕ) → b < 10000 → apply_bps (pos n) (pos b) ≡ ok (pos (half_up (n * b) 10000))
unfolding apply_bps assert_bps
charged n b h =
    let valid : leb 10000 (b + 0) ≡ false = ground arith in
    let counted : ltb (b + 0) 0 ≡ false = ground arith in
    rw (valid, counted, product n b, rounded (n * b)) refl

-- The fee on an amount that is not negative, at less than ten thousand basis points, is that
-- share of the amount rounded to the nearest unit, and never more than the amount.
pub apply_bps_bounds :
    (n b : ℕ)
    → b < 10000
    → (k : ℕ) × (apply_bps (pos n) (pos b) ≡ ok (pos k)) × IsNearest (n * b) 10000 k × (k ≤ n)
apply_bps_bounds n b h =
    let near = half_up-IsNearest (n * b) 10000 (omega arith) in
    (half_up (n * b) 10000, charged n b h, near, within n b (half_up (n * b) 10000) h near)

-- A cut in basis points is part of the amount.
abbrev pub IsPart : ℤ → ℤ → Type 0
IsPart x k = (pos 0 ≤ℤ k) × (k ≤ℤ x)

refused-bps :
    (x b : ℤ) → ltb_ℤ b (pos 0) || leb_ℤ (pos 10000) b ≡ true → WhenOk (IsPart x) (apply_bps x b)
unfolding apply_bps assert_bps
refused-bps x b bad = rw bad tt

pub apply_bps-IsPart : (x b : ℤ) → pos 0 ≤ℤ x → WhenOk (IsPart x) (apply_bps x b)
apply_bps-IsPart (negsuc n) b h = refused-bps (negsuc n) b (ground arith)
apply_bps-IsPart (pos n) (negsuc m) h = refused-bps (pos n) (negsuc m) (ground arith)
apply_bps-IsPart (pos n) (pos m) h = elim (Bool-cases (leb 10000 m)) [
  | inl big ↦ refused-bps (pos n) (pos m) (ground arith)
  | inr small ↦
      let cut = apply_bps_bounds n m (ground (arith, small)) in
      rw (cut.1) (omega arith, omega (arith, cut.3))
]
