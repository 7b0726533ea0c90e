-- ===== src/Ledger/Service/Escrowed.antt =====
-- The keys under which src/ledger/service.ts posts the escrow's journals.
use ticash_pay_demo.Prelude.Names.{refl, inl, inr, Option}
use ticash_pay_demo.Prelude.Int.{ℤ, ◌-ℤ◌}
use ticash_pay_demo.Prelude.Text.{Text}
use ticash_pay_demo.Prelude.Result.{Result-cases}
use ticash_pay_demo.Money.Currency.{Currency}
use ticash_pay_demo.Ledger.Types.{fee_revenue}
use ticash_pay_demo.Ledger.Operations.Accounts.{
  credit, debit, customer_wallet, system_account, p2p_escrow_account,
}
use ticash_pay_demo.Ledger.Operations.Shape.{when-credit}
use ticash_pay_demo.Ledger.Operations.Escrow
use ticash_pay_demo.Ledger.Store.{Ledger}
use ticash_pay_demo.Ledger.Service.{check_fee, draft, perform, p2p_lock, p2p_unlock, p2p_release}
use ticash_pay_demo.Ledger.Service.Keyed.{Registers, perform-Registers}

module _ (now id : Text) (c : Currency) (x : ℤ) (key : Text) (correlation : Option Text)
    (s : Ledger) where
  pub lock-Registers : Registers key s (perform now (p2p_lock id c x key correlation) s)
  unfolding draft Escrow.p2p_lock
  lock-Registers =
      perform-Registers key now (p2p_lock id c x key correlation) s
        (elim (Result-cases (debit (customer_wallet id c) x)) [
          | inl (p, made) ↦ elim (Result-cases (credit (p2p_escrow_account id c) x)) [
            | inl (q, done) ↦ rw (made, done) refl
            | inr (e, failed) ↦ rw (made, failed) tt
          ]
          | inr (e, failed) ↦ rw failed tt
        ])

  pub unlock-Registers : Registers key s (perform now (p2p_unlock id c x key correlation) s)
  unfolding draft Escrow.p2p_unlock
  unlock-Registers =
      perform-Registers key now (p2p_unlock id c x key correlation) s
        (elim (Result-cases (debit (p2p_escrow_account id c) x)) [
          | inl (p, made) ↦ elim (Result-cases (credit (customer_wallet id c) x)) [
            | inl (q, done) ↦ rw (made, done) refl
            | inr (e, failed) ↦ rw (made, failed) tt
          ]
          | inr (e, failed) ↦ rw failed tt
        ])

  pub release-Registers :
      (buyer : Text) (cut : ℤ)
      → Registers key s (perform now (p2p_release id buyer c x cut key correlation) s)
  unfolding draft Escrow.p2p_release
  release-Registers buyer cut =
      perform-Registers key now (p2p_release id buyer c x cut key correlation) s
        (elim (Result-cases (check_fee cut x)) [
          | inl (u, fits) ↦ elim (Result-cases (debit (p2p_escrow_account id c) x)) [
            | inl (p, made) ↦
                rw
                  (
                    fits,
                    made,
                    when-credit (customer_wallet buyer c) (x -ℤ cut),
                    when-credit (system_account fee_revenue c) cut,
                  )
                  refl
            | inr (e, failed) ↦ rw (fits, failed) tt
          ]
          | inr (e, failed) ↦ rw failed tt
        ])
