-- ===== src/Ledger/Service/Keyed.antt =====
-- The idempotency key under which a method posts, and what a call does to the ledger's keys.
use ticash_pay_demo.Prelude.Names.{
  ◌≡◌, refl, sym, inl, inr, Bool, ◌&&◌, ◌||◌, Option, some, [], arith, Bool-cases, Option-cases,
}
use ticash_pay_demo.Prelude.Int.{ℤ, ◌-ℤ◌}
use ticash_pay_demo.Prelude.Text.{Text, eq_text, eq_text_iff, text_eq}
use ticash_pay_demo.Prelude.Dict.{Dict, has, lookup, lookup-insert}
use ticash_pay_demo.Prelude.Result.{Failure, Result, ok, err, is_ok, Result-cases}
use ticash_pay_demo.Money.Currency.{Currency, currency_eq}
use ticash_pay_demo.Ledger.Operations.Accounts.{credit, debit, customer_wallet, system_account}
use ticash_pay_demo.Ledger.Operations.Shape.{when-credit}
use ticash_pay_demo.Ledger.Types.{
  withdrawal_suspense, settlement, fee_revenue, JournalDraft, PostedJournal, AccountSpec,
}
use ticash_pay_demo.Ledger.Operations.Cash
use ticash_pay_demo.Ledger.Operations.Escrow
use ticash_pay_demo.Ledger.Engine.{assert_balanced}
use ticash_pay_demo.Ledger.Store.{
  Ledger, StoredJournal, commit, finish, post_new, replay_or_post, post_checked, post, add_deltas,
}
use ticash_pay_demo.Ledger.Service.{
  Request, check_fee, draft, post_draft, perform, agent_cash_out, usdt_withdraw_hold,
  usdt_withdraw_settle, usdt_withdraw_refund,
}

-- A journal of the key `k` was stored.
unfoldable pub is_posted : Text → Ledger → Bool
is_posted k s = has (lookup k s.by_idempotency_key)

-- What a call that answers `r` does to the known keys when it posts under `key`.
abbrev pub Registers : Text → Ledger → Result PostedJournal × Ledger → Type 0
Registers key s r = (k : Text) → is_posted k r.1 ≡ (is_posted k s || (eq_text key k && is_ok r.0))

-- A refusal registers nothing.
refused-Registers :
    (key : Text) (s t : Ledger) (e : Failure)
    → t.by_idempotency_key ≡ s.by_idempotency_key
    → Registers key s (err e, t)
unfolding is_posted
refused-Registers key s t e same k = rw same (ground arith)

finish-Registers :
    (now : Text) (j : JournalDraft) (s : Ledger) (accounts : Dict Text AccountSpec)
    (r : Result (Unit {0}))
    → Registers j.idempotency_key s
        (finish now j (add_deltas [] j.postings) (record s { accounts = accounts }) r)
unfolding is_posted commit
finish-Registers now j s accounts (err e) k = ground arith
finish-Registers now j s accounts (ok _) k =
    rw (lookup-insert j.idempotency_key k _ s.by_idempotency_key)
      (elim (Bool-cases (eq_text j.idempotency_key k)) [
        | inl same ↦ rw same (ground arith)
        | inr other ↦ rw other (ground arith)
      ])

pub post-Registers :
    (now : Text) (j : JournalDraft) (s : Ledger) → Registers j.idempotency_key s (post now j s)
unfolding post post_new
post-Registers now j s = checked (assert_balanced j)
  where
    known :
        (t : StoredJournal)
        → lookup j.idempotency_key s.by_idempotency_key ≡ some t
        → Registers j.idempotency_key s (replay_or_post now j s (some t))
    known t found k =
        unfold is_posted in
        elim (Bool-cases (eq_text j.idempotency_key k)) [
          | inl same ↦ rw (sym ((eq_text_iff j.idempotency_key k).0 same), found) (ground arith)
          | inr other ↦ rw other (ground arith)
        ]

    checked : (r : Result (Unit {0})) → Registers j.idempotency_key s (post_checked now j s r)
    checked (err e) = refused-Registers j.idempotency_key s s e refl
    checked (ok _) = elim (Option-cases (lookup j.idempotency_key s.by_idempotency_key)) [
      | inl fresh ↦ rw fresh (finish-Registers now j s _ _)
      | inr (t, found) ↦ rw found (known t found)
    ]

-- A builder that returns has kept the key it was given.
abbrev pub Keyed : Text → Result JournalDraft → Type 0
Keyed key (ok j) = j.idempotency_key ≡ key
Keyed key (err e) = Unit

pub perform-Registers :
    (key now : Text) (r : Request) (s : Ledger)
    → Keyed key (draft r)
    → Registers key s (perform now r s)
unfolding perform
perform-Registers key now r s = drafted (draft r)
  where
    drafted : (d : Result JournalDraft) → Keyed key d → Registers key s (post_draft now s d)
    drafted (err e) h = refused-Registers key s s e refl
    drafted (ok j) h = rw (sym h) (post-Registers now j s)

pub hold-Registers :
    (now id : Text) (c : Currency) (x : ℤ) (key : Text) (correlation : Option Text) (s : Ledger)
    → Registers key s (perform now (usdt_withdraw_hold id c x key correlation) s)
unfolding draft Escrow.withdraw_hold
hold-Registers now id c x key correlation s =
    perform-Registers key now (usdt_withdraw_hold id c x key correlation) s
      (elim (Result-cases (debit (customer_wallet id c) x)) [
        | inl (p, made) ↦ elim (Result-cases (credit (system_account withdrawal_suspense c) x)) [
          | inl (q, done) ↦ rw (made, done) refl
          | inr (e, failed) ↦ rw (made, failed) tt
        ]
        | inr (e, failed) ↦ rw failed tt
      ])

pub refund-Registers :
    (now id : Text) (c : Currency) (x : ℤ) (key correlation : Text) (s : Ledger)
    → Registers key s (perform now (usdt_withdraw_refund id c x key correlation) s)
unfolding draft Escrow.withdraw_refund
refund-Registers now id c x key correlation s =
    perform-Registers key now (usdt_withdraw_refund id c x key correlation) s
      (elim (Result-cases (debit (system_account withdrawal_suspense c) x)) [
        | inl (p, made) ↦ elim (Result-cases (credit (customer_wallet id c) x)) [
          | inl (q, done) ↦ rw (made, done) refl
          | inr (e, failed) ↦ rw (made, failed) tt
        ]
        | inr (e, failed) ↦ rw failed tt
      ])

pub settle-Registers :
    (now : Text) (c : Currency) (x fee : ℤ) (key correlation : Text) (ext : Option Text)
    (s : Ledger)
    → Registers key s (perform now (usdt_withdraw_settle c x fee key correlation ext) s)
unfolding draft Escrow.withdraw_settle
settle-Registers now c x fee key correlation ext s =
    perform-Registers key now (usdt_withdraw_settle c x fee key correlation ext) s
      (elim (Result-cases (check_fee fee x)) [
        | inl (u, fits) ↦ elim (Result-cases (debit (system_account withdrawal_suspense c) x)) [
          | inl (p, made) ↦
              rw
                (
                  fits,
                  made,
                  when-credit (system_account settlement c) (x -ℤ fee),
                  when-credit (system_account fee_revenue c) fee,
                )
                refl
          | inr (e, failed) ↦ rw (fits, failed) tt
        ]
        | inr (e, failed) ↦ rw failed tt
      ])

pub agent_cash_out-Registers :
    (now agent id : Text) (c : Currency) (x commission : ℤ) (key : Text) (s : Ledger)
    → Registers key s (perform now (agent_cash_out agent id c x commission key) s)
unfolding draft Cash.agent_cash_out
agent_cash_out-Registers now agent id c x commission key s =
    perform-Registers key now (agent_cash_out agent id c x commission key) s
      (elim (Result-cases (Cash.cash_out_postings agent id c x)) [
        | inl (ps, made) ↦ elim (Result-cases (Cash.commission_postings agent c commission)) [
          | inl (extra, done) ↦ rw (made, done) refl
          | inr (e, failed) ↦ rw (made, failed) tt
        ]
        | inr (e, failed) ↦ rw failed tt
      ])
