-- ===== src/Ledger/Store/Acceptance.antt =====
-- When `post` (src/ledger/in-memory-store.ts) takes a new balanced journal.
use ticash_pay_demo.Prelude.Names.{
  suc, ◌≡◌, ◌≢◌, refl, sym, ap, ◌∙◌, ◌⊎◌, inl, inr, true, false, none, some, List, [], ◌∷◌, arith,
  Bool-cases, Option-cases,
}
use ticash_pay_demo.Prelude.Int.{ℤ, pos, ◌+ℤ◌, ◌≤ℤ◌, ◌<ℤ◌, zero-+ℤ}
use ticash_pay_demo.Prelude.Text.{Text, eq_text, eq_text_iff, text_eq}
use ticash_pay_demo.Prelude.Dict.{
  Dict, lookup, lookup-insert, lookup-cons_eq, lookup-cons_ne, beq_refl,
}
use ticash_pay_demo.Prelude.Sums.{amount_at, add_at, IsMap, amount_at-some, amount_at-nil}
use ticash_pay_demo.Prelude.Result.{
  Result, ok, err, Failure, ledger_error, insufficient_funds, Result-cases,
}
use ticash_pay_demo.Ledger.Types.{
  AccountSpec, PostingDraft, JournalDraft, PostedJournal, account_key, is_non_negative,
}
use ticash_pay_demo.Ledger.Engine.Balance.{IsBalanced, assert_balanced_iff}
use ticash_pay_demo.Ledger.Store.{
  and_then, Ledger, to_posted, add_deltas, register, guard_one, guard_deltas, stored_as, finish,
  post_new, post,
}
use ticash_pay_demo.Ledger.Store.Effect.{
  posted_to, amount_at-add_deltas, add_deltas-IsMap, AllKnown, IsKnown, register-AllKnown,
}
use ticash_pay_demo.Ledger.Store.Invariant.{
  IsSound, balance-commit, covered-commit, register-IsSound,
}

-- No user-facing account would be left below zero.
abbrev pub Affords : Ledger → JournalDraft → Type 0
Affords s j =
    (k : Text) (a : AccountSpec)
    → lookup k (register s.accounts j.postings) ≡ some a
    → is_non_negative a.kind ≡ true
    → pos 0 ≤ℤ amount_at k s.balances +ℤ posted_to k j.postings

unfoldable pub AllDeltasKnown : Dict Text AccountSpec → Dict Text ℤ → Type 0
AllDeltasKnown accounts deltas = (k : Text) → lookup k deltas ≢ none → IsKnown accounts k

add_deltas-known :
    (ps : List PostingDraft) (deltas : Dict Text ℤ) (accounts : Dict Text AccountSpec)
    → AllKnown accounts ps
    → AllDeltasKnown accounts deltas
    → AllDeltasKnown accounts (add_deltas deltas ps)
unfolding add_deltas AllDeltasKnown
add_deltas-known [] deltas accounts known h = h
add_deltas-known (p ∷ ps) deltas accounts known h =
    add_deltas-known ps (add_at (account_key p.account) p.amount_minor deltas) accounts known.1
      (λ k there. elim (Bool-cases (eq_text (account_key p.account) k)) [
        | inl same ↦ rw (← (eq_text_iff (account_key p.account) k).0 same) known.0
        | inr other ↦ h k (λ e. there (unfold add_at in rw (lookup-insert, other) e))
      ])

guard_one-some :
    (a : AccountSpec) (next : ℤ)
    → (is_non_negative a.kind ≡ true → pos 0 ≤ℤ next)
    → guard_one (some a) next ≡ ok tt
unfolding guard_one
guard_one-some a next h = elim (Bool-cases (is_non_negative a.kind)) [
  | inl guarded ↦ ground (arith, h guarded)
  | inr free ↦ rw free
]

guard_deltas_complete :
    (deltas balances : Dict Text ℤ) (accounts : Dict Text AccountSpec)
    → IsMap deltas
    → ((k : Text) (x : ℤ)
        → lookup k deltas ≡ some x
        → guard_one (lookup k accounts) (amount_at k balances +ℤ x) ≡ ok tt)
    → guard_deltas balances accounts deltas ≡ ok tt
unfolding guard_deltas
guard_deltas_complete [] balances accounts m h = refl
guard_deltas_complete ((k, x) ∷ deltas) balances accounts m h =
    rw (h k x (lookup-cons_eq k k x deltas (beq_refl k))) (
      guard_deltas_complete deltas balances accounts m.1
        (λ j y there. h j y (lookup-cons_ne k j x deltas (apart j y there) ∙ there)))
  where
    apart : (j : Text) (y : ℤ) → lookup j deltas ≡ some y → eq_text k j ≡ false
    apart j y there = elim (Bool-cases (eq_text k j)) [
      | inl same ↦ let gone : lookup j deltas ≡ none = rw (← (eq_text_iff k j).0 same) m.0 in cc
      | inr other ↦ other
    ]

tail_none :
    (j k : Text) (x : ℤ) (deltas : Dict Text ℤ)
    → lookup j ((k, x) ∷ deltas) ≡ none
    → lookup j deltas ≡ none
unfolding lookup
tail_none j k x deltas h = ground arith

guard_one-error :
    (a : AccountSpec) (next : ℤ) (rest : Result (Unit {0})) (e : Failure)
    → and_then (guard_one (some a) next) rest ≡ err e
    → (e ≡ ledger_error insufficient_funds) ⊎ (rest ≡ err e)
unfolding guard_one
guard_one-error a next rest e h = ground arith

pub guard_deltas_error :
    (deltas balances : Dict Text ℤ) (accounts : Dict Text AccountSpec) (e : Failure)
    → AllDeltasKnown accounts deltas
    → guard_deltas balances accounts deltas ≡ err e
    → e ≡ ledger_error insufficient_funds
unfolding guard_deltas AllDeltasKnown
guard_deltas_error [] balances accounts e known h = cc
guard_deltas_error ((k, x) ∷ deltas) balances accounts e known h =
    elim (Option-cases (lookup k accounts)) [
      | inl unknown ↦ absurd (known k (λ n. cc (lookup-cons_eq k k x deltas (beq_refl k))) unknown)
      | inr (a, found) ↦
          elim (guard_one-error a (amount_at k balances +ℤ x)
            (guard_deltas balances accounts deltas) e (rw found at h)) [
              | inl short ↦ short
              | inr later ↦
                  guard_deltas_error deltas balances accounts e
                    (λ j there. known j (λ n. there (tail_none j k x deltas n))) later
            ]
    ]

module _ (now : Text) (j : JournalDraft) (s : Ledger) where
  abbrev pub accounts : Dict Text AccountSpec
  accounts = register s.accounts j.postings

  abbrev pub deltas : Dict Text ℤ
  deltas = add_deltas [] j.postings

  pub deltas-known : AllDeltasKnown accounts deltas
  deltas-known =
      add_deltas-known j.postings [] accounts (register-AllKnown j.postings s.accounts)
        (unfold AllDeltasKnown lookup in λ k there. absurd (there refl))

  delta-posted : (k : Text) (x : ℤ) → lookup k deltas ≡ some x → posted_to k j.postings ≡ x
  delta-posted k x h =
      sym (zero-+ℤ (posted_to k j.postings))
      ∙ sym (rw (amount_at-nil k) at (amount_at-add_deltas k j.postings []))
      ∙ amount_at-some k x deltas h

  pub guard-Affords : Affords s j → guard_deltas s.balances accounts deltas ≡ ok tt
  guard-Affords h =
      guard_deltas_complete deltas s.balances accounts (add_deltas-IsMap j.postings [] tt)
        (λ k x there. elim (Option-cases (lookup k accounts)) [
          | inl unknown ↦ absurd (unfold AllDeltasKnown in deltas-known k (λ n. cc) unknown)
          | inr (a, found) ↦ rw found (
              guard_one-some a (amount_at k s.balances +ℤ x)
                (λ guarded. rw (delta-posted k x there) at (h k a found guarded)))
        ])

-- A call of `post` with a balanced journal of a new key returns, whenever no account of a kind
-- that must not go below zero would be left with a negative balance.
pub post_accepts :
    (now : Text) (j : JournalDraft) (s : Ledger)
    → IsBalanced j
    → lookup j.idempotency_key s.by_idempotency_key ≡ none
    → Affords s j
    → (p : PostedJournal) × ((post now j s).0 ≡ ok p)
unfolding post post_new
post_accepts now j s b fresh h = (
  to_posted (stored_as now j (suc s.seq)),
  rw ((assert_balanced_iff j).1 b, fresh, guard-Affords now j s h),
)

finish-error :
    (now : Text) (j : JournalDraft) (s : Ledger) (deltas : Dict Text ℤ) (r : Result (Unit {0}))
    (e : Failure)
    → r ≡ err e
    → (finish now j deltas s r).0 ≡ err e
finish-error now j s deltas r e h = rw h

-- In a ledger that keeps its invariant, a balanced journal of a new key that would leave an
-- account of a kind that must not go below zero with a negative balance is refused for lack of
-- funds.
pub post_refuses :
    (now : Text) (j : JournalDraft) (s : Ledger) (k : Text) (a : AccountSpec)
    → IsSound s
    → IsBalanced j
    → lookup j.idempotency_key s.by_idempotency_key ≡ none
    → lookup k (register s.accounts j.postings) ≡ some a
    → is_non_negative a.kind ≡ true
    → amount_at k s.balances +ℤ posted_to k j.postings <ℤ pos 0
    → (post now j s).0 ≡ err (ledger_error insufficient_funds)
unfolding post post_new
post_refuses now j s k a h b fresh found guarded short =
    let checked =
      guard_deltas s.balances (register s.accounts j.postings) (add_deltas [] j.postings) in
    rw ((assert_balanced_iff j).1 b, fresh)
      (finish-error now j (record s { accounts = register s.accounts j.postings })
        (add_deltas [] j.postings) checked (ledger_error insufficient_funds)
        (elim (Result-cases checked) [
          | inl (u, passed) ↦ absurd (in_the_red (covered_after passed) short)
          | inr (e, failed) ↦
              failed
              ∙ ap err (
                  guard_deltas_error (add_deltas [] j.postings) s.balances
                    (register s.accounts j.postings) e (deltas-known now j s) failed)
        ]))
  where
    covered_after :
        guard_deltas s.balances (register s.accounts j.postings) (add_deltas [] j.postings) ≡ ok tt
        → pos 0 ≤ℤ amount_at k s.balances +ℤ posted_to k j.postings
    covered_after passed = rw (balance-commit j s.balances k) at (
        covered-commit now j (record s { accounts = register s.accounts j.postings })
          (register-IsSound s j.postings h) passed k a found guarded)

    in_the_red :
        pos 0 ≤ℤ amount_at k s.balances +ℤ posted_to k j.postings
        → amount_at k s.balances +ℤ posted_to k j.postings <ℤ pos 0
        → ⊥
    in_the_red p q = omega arith
