-- ===== src/Ledger/Service/Both.antt =====
-- The keys under which src/ledger/service.ts posts a transfer's legs, its reversal and its payout.
use mathlib.Core.Path.{subst}
use ticash_pay_demo.Prelude.Names.{
  ◌≡◌, refl, sym, inl, inr, false, true, Option, [], ◌||◌, ◌&&◌, arith,
}
use ticash_pay_demo.Prelude.Int.{ℤ, pos, ◌-ℤ◌}
use ticash_pay_demo.Prelude.Text.{Text, eq_text, text_eq}
use ticash_pay_demo.Prelude.Dict.{or_else}
use ticash_pay_demo.Prelude.Result.{Result, ok, err, is_ok, Result-cases}
use ticash_pay_demo.Money.Currency.{Currency}
use ticash_pay_demo.Ledger.Types.{
  JournalDraft, PostedJournal, settlement, provider_fee, payout_suspense, fx_position, fee_revenue,
}
use ticash_pay_demo.Ledger.Operations.Accounts.{credit, debit, customer_wallet, system_account}
use ticash_pay_demo.Ledger.Operations.Shape.{when-credit, when-debit}
use ticash_pay_demo.Ledger.Operations.Transfer.{
  TransferQuote, transfer_debit_journal, transfer_fx_journal, reverse_fx_journal,
  reverse_debit_journal,
}
use ticash_pay_demo.Ledger.Operations.Transfer
use ticash_pay_demo.Ledger.Store.{Ledger, post}
use ticash_pay_demo.Ledger.Service.{
  check_fee, draft, perform, settle_payout, post_transfer_debit, post_transfer_fx, BothLegs,
  both_answer, second_leg, post_both, reverse_transfer,
}
use ticash_pay_demo.Ledger.Service.Keyed.{
  is_posted, Registers, Keyed, post-Registers, perform-Registers,
}

pub payout-Registers :
    (now : Text) (c : Currency) (x : ℤ) (correlation key ext : Text) (fee : Option ℤ) (s : Ledger)
    → Registers key s (perform now (settle_payout c x correlation key ext fee) s)
unfolding draft Transfer.settle_payout
payout-Registers now c x correlation key ext fee s =
    perform-Registers key now (settle_payout c x correlation key ext fee) s
      (elim (Result-cases (check_fee (or_else fee (pos 0)) x)) [
        | inl (u, fits) ↦ elim (Result-cases (debit (system_account payout_suspense c) x)) [
          | inl (p, made) ↦
              rw
                (
                  fits,
                  made,
                  when-credit (system_account settlement c) (x -ℤ or_else fee (pos 0)),
                  when-credit (system_account provider_fee c) (or_else fee (pos 0)),
                )
                refl
          | inr (e, failed) ↦ rw (fits, failed) tt
        ]
        | inr (e, failed) ↦ rw failed tt
      ])

module _ (q : TransferQuote) (correlation key recipient : Text) where
  debit_leg-Keyed :
      (sender : Text) → Keyed key (transfer_debit_journal sender q correlation key recipient)
  unfolding transfer_debit_journal
  debit_leg-Keyed sender =
      elim (Result-cases (debit (customer_wallet sender q.from_currency) q.total_debit_minor)) [
        | inl (p, made) ↦
            elim (Result-cases (credit (system_account fx_position q.from_currency) q.send_minor)) [
              | inl (r, done) ↦
                  rw
                    (
                      made,
                      done,
                      when-credit (system_account fee_revenue q.from_currency) q.fee_minor,
                    )
                    refl
              | inr (e, failed) ↦ rw (made, failed) tt
            ]
        | inr (e, failed) ↦ rw failed tt
      ]

  fx_leg-Keyed : Keyed key (transfer_fx_journal q correlation key recipient)
  unfolding transfer_fx_journal
  fx_leg-Keyed =
      elim (Result-cases (debit (system_account fx_position q.to_currency) q.receive_minor)) [
        | inl (p, made) ↦
            elim (Result-cases
              (credit (system_account payout_suspense q.to_currency) q.receive_minor)) [
                | inl (r, done) ↦ rw (made, done) refl
                | inr (e, failed) ↦ rw (made, failed) tt
              ]
        | inr (e, failed) ↦ rw failed tt
      ]

  pub debit_leg-Registers :
      (now sender : Text) (s : Ledger)
      → Registers key s (perform now (post_transfer_debit sender q correlation key recipient) s)
  unfolding draft
  debit_leg-Registers now sender s =
      perform-Registers key now (post_transfer_debit sender q correlation key recipient) s
        (debit_leg-Keyed sender)

  pub fx_leg-Registers :
      (now : Text) (s : Ledger)
      → Registers key s (perform now (post_transfer_fx q correlation key recipient) s)
  unfolding draft
  fx_leg-Registers now s =
      perform-Registers key now (post_transfer_fx q correlation key recipient) s fx_leg-Keyed

  undo_fx-Keyed : Keyed key (reverse_fx_journal q correlation key)
  unfolding reverse_fx_journal
  undo_fx-Keyed =
      elim (Result-cases (debit (system_account payout_suspense q.to_currency) q.receive_minor)) [
        | inl (p, made) ↦
            elim (Result-cases
              (credit (system_account fx_position q.to_currency) q.receive_minor)) [
                | inl (r, done) ↦ rw (made, done) refl
                | inr (e, failed) ↦ rw (made, failed) tt
              ]
        | inr (e, failed) ↦ rw failed tt
      ]

  undo_debit-Keyed : (sender : Text) → Keyed key (reverse_debit_journal sender q correlation key)
  unfolding reverse_debit_journal
  undo_debit-Keyed sender =
      elim (Result-cases (debit (system_account fx_position q.from_currency) q.send_minor)) [
        | inl (p, made) ↦
            elim (Result-cases
              (credit (customer_wallet sender q.from_currency) q.total_debit_minor)) [
                | inl (r, done) ↦
                    rw
                      (
                        made,
                        done,
                        when-debit (system_account fee_revenue q.from_currency) q.fee_minor,
                      )
                      refl
                | inr (e, failed) ↦ rw (made, failed) tt
              ]
        | inr (e, failed) ↦ rw failed tt
      ]

-- A pair of posts tells nothing of a key that is not the first one's, but what the second does.
abbrev pub RegistersLast : Text → Text → Ledger → Result BothLegs × Ledger → Type 0
RegistersLast first last s r =
    (k : Text)
    → eq_text first k ≡ false
    → is_posted k r.1 ≡ (is_posted k s || (eq_text last k && is_ok r.0))

post_both-RegistersLast :
    (now now' : Text) (i j : JournalDraft) (s : Ledger)
    → RegistersLast i.idempotency_key j.idempotency_key s (post_both now now' s (ok (i, j)))
post_both-RegistersLast now now' i j s = led (post now i s) (post-Registers now i s)
  where
    ended :
        (p : PostedJournal) (t : Ledger) (r : Result PostedJournal × Ledger)
        → ((k : Text) → is_posted k t ≡ (is_posted k s || (eq_text i.idempotency_key k && true)))
        → Registers j.idempotency_key t r
        → RegistersLast i.idempotency_key j.idempotency_key s (both_answer p r)
    ended p t (ok q, u) one two k apart = rw (two k, one k, apart) (ground arith)
    ended p t (err e, u) one two k apart = rw (two k, one k, apart) (ground arith)

    led :
        (r : Result PostedJournal × Ledger)
        → Registers i.idempotency_key s r
        → RegistersLast i.idempotency_key j.idempotency_key s (second_leg now' j r)
    led (ok p, t) one k apart = ended p t (post now' j t) one (post-Registers now' j t) k apart
    led (err e, t) one k apart = rw (one k) (ground arith)

pub reverse-RegistersLast :
    (now now' sender : Text) (q : TransferQuote) (correlation key_fx key_debit : Text) (s : Ledger)
    → RegistersLast key_fx key_debit s
        (reverse_transfer now now' sender q correlation key_fx key_debit s)
unfolding reverse_transfer
reverse-RegistersLast now now' sender q correlation key_fx key_debit s =
    elim (Result-cases (reverse_fx_journal q correlation key_fx)) [
      | inr (e, bad) ↦ rw bad (λ k apart. ground arith)
      | inl (i, made) ↦ elim (Result-cases (reverse_debit_journal sender q correlation key_debit)) [
        | inr (e, bad) ↦ rw (made, bad) (λ k apart. ground arith)
        | inl (j, done) ↦
            let one : i.idempotency_key ≡ key_fx =
              subst (Keyed key_fx) made (undo_fx-Keyed q correlation key_fx []) in
            let two : j.idempotency_key ≡ key_debit =
              subst (Keyed key_debit) done (undo_debit-Keyed q correlation key_debit [] sender) in
            rw (made, done, sym one, sym two) (post_both-RegistersLast now now' i j s)
      ]
    ]
