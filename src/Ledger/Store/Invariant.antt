-- ===== src/Ledger/Store/Invariant.antt =====
-- The invariant of the in-memory ledger, and posting.
use ticash_pay_demo.Prelude.Names.{
  suc, ◌≡◌, refl, sym, ◌∙◌, inl, inr, true, Option, none, some, List, [], ◌∷◌, ◌++◌, arith,
  Option-cases,
}
use ticash_pay_demo.Prelude.Int.{ℤ, pos, ◌+ℤ◌, ◌≤ℤ◌, int_laws, +ℤ-zero, zero-+ℤ}
use ticash_pay_demo.Prelude.Text.{Text, eq_text_iff, text_eq}
use ticash_pay_demo.Prelude.Dict.{Dict, lookup, insert, lookup-insert, lookup-insert_self}
use ticash_pay_demo.Prelude.Length.{All, All-append, All-map, length, length-append}
use ticash_pay_demo.Prelude.Sums.{
  amount_at, add_all, amount_at-add_all, amount_at-nil, amount_at-none, amount_at-some,
}
use ticash_pay_demo.Prelude.Result.{Result, ok, err}
use ticash_pay_demo.Ledger.Types.{
  AccountSpec, PostingDraft, JournalDraft, account_key, is_non_negative,
}
use ticash_pay_demo.Ledger.Types.Keys.{account_key-SameAccount}
use ticash_pay_demo.Ledger.Engine.{assert_balanced}
use ticash_pay_demo.Ledger.Engine.Balance.{IsBalanced, assert_balanced_iff}
use ticash_pay_demo.Ledger.Store.{
  StoredJournal, Ledger, empty, add_deltas, register, guard_deltas, stored_as, commit, finish,
  post_new, replay_or_post, post_checked, post,
}
use ticash_pay_demo.Ledger.Store.Effect.{
  posted_to, amount_at-add_deltas, add_deltas-IsMap, IsRegistry, register-IsRegistry, AllKnown,
  register-IsKnown, register-AllKnown, posted_to-unknown, guard_deltas-ok,
}
use ticash_pay_demo.Ledger.Store.Totals.{history}

pub record IsSound (s : Ledger) : Type 0 where
  pub registry : IsRegistry s.accounts
  pub known : All (λ t. AllKnown s.accounts t.journal.postings) s.journals
  pub balanced : All (λ t. IsBalanced t.journal) s.journals
  pub cached : (k : Text) → amount_at k s.balances ≡ history k s.journals
  pub covered :
      (k : Text) (a : AccountSpec)
      → lookup k s.accounts ≡ some a
      → is_non_negative a.kind ≡ true
      → pos 0 ≤ℤ amount_at k s.balances
  pub indexed : All (λ t. lookup t.journal.idempotency_key s.by_idempotency_key ≡ some t) s.journals
  pub counted : length s.journals ≡ s.seq

history-append :
    (k : Text) (js : List StoredJournal) (t : StoredJournal)
    → history k (js ++ t ∷ []) ≡ history k js +ℤ posted_to k t.journal.postings
unfolding history
history-append k [] t = omega int_laws
history-append k (j ∷ js) t = rw (history-append k js t) (omega int_laws)

history-unknown :
    (k : Text) (js : List StoredJournal) (accounts : Dict Text AccountSpec)
    → All (λ t. AllKnown accounts t.journal.postings) js
    → lookup k accounts ≡ none
    → history k js ≡ pos 0
unfolding history
history-unknown k [] accounts h e = refl
history-unknown k (j ∷ js) accounts h e =
    rw (posted_to-unknown k j.journal.postings accounts h.0 e, history-unknown k js accounts h.1 e)
      (omega int_laws)

register-covered :
    (s : Ledger) (ps : List PostingDraft) (k : Text) (a : AccountSpec)
    → IsSound s
    → lookup k (register s.accounts ps) ≡ some a
    → is_non_negative a.kind ≡ true
    → pos 0 ≤ℤ amount_at k s.balances
register-covered s ps k a h found guarded = elim (Option-cases (lookup k s.accounts)) [
  | inl unknown ↦
      rw (h.cached k, history-unknown k s.journals s.accounts h.known unknown) (omega arith)
  | inr (b, old) ↦
      let same = account_key-SameAccount a b (
        (register-IsRegistry ps s.accounts h.registry).own_key k a found
        ∙ sym (h.registry.own_key k b old)) in
      h.covered k b old (rw (← same.same_kind) guarded)
]

pub register-IsSound :
    (s : Ledger) (ps : List PostingDraft)
    → IsSound s
    → IsSound (record s { accounts = register s.accounts ps })
register-IsSound s ps h = record {
  registry = register-IsRegistry ps s.accounts h.registry;
  known =
      All-map s.journals
        (λ t.
          All-map t.journal.postings (λ p. register-IsKnown ps s.accounts (account_key p.account)))
        h.known;
  balanced = h.balanced;
  cached = h.cached;
  covered = λ k a. register-covered s ps k a h;
  indexed = h.indexed;
  counted = h.counted;
}

pub balance-commit :
    (j : JournalDraft) (balances : Dict Text ℤ) (k : Text)
    → amount_at k (add_all (add_deltas [] j.postings) balances)
      ≡ amount_at k balances +ℤ posted_to k j.postings
balance-commit j balances k = rw (
  amount_at-add_all k (add_deltas [] j.postings) balances (add_deltas-IsMap j.postings [] tt),
  amount_at-add_deltas k j.postings [],
  amount_at-nil k,
  zero-+ℤ,
)

module _ (now : Text) (j : JournalDraft) (s : Ledger) (h : IsSound s) where
  abbrev pub deltas : Dict Text ℤ
  deltas = add_deltas [] j.postings

  pub covered-commit :
      guard_deltas s.balances s.accounts deltas ≡ ok tt
      → (k : Text) (a : AccountSpec) → lookup k s.accounts ≡ some a
      → is_non_negative a.kind ≡ true
      → pos 0 ≤ℤ amount_at k (add_all deltas s.balances)
  covered-commit guarded k a found kind =
      rw (amount_at-add_all k deltas s.balances (add_deltas-IsMap j.postings [] tt))
        (elim (Option-cases (lookup k deltas)) [
          | inl untouched ↦
              rw (amount_at-none k deltas untouched, +ℤ-zero) (h.covered k a found kind)
          | inr (x, changed) ↦
              rw (amount_at-some k x deltas changed)
                (guard_deltas-ok deltas s.balances s.accounts k a x guarded changed found kind)
        ])

  -- The key is new, so every older journal is still found under its own key.
  indexed-commit :
      lookup j.idempotency_key s.by_idempotency_key ≡ none
      → (t u : StoredJournal) → lookup t.journal.idempotency_key s.by_idempotency_key ≡ some t
      → lookup t.journal.idempotency_key (insert j.idempotency_key u s.by_idempotency_key) ≡ some t
  indexed-commit fresh t u old = ground (
    arith,
    lookup-insert j.idempotency_key t.journal.idempotency_key u s.by_idempotency_key,
    eq_text_iff j.idempotency_key t.journal.idempotency_key,
  )

  commit-IsSound :
      IsBalanced j
      → AllKnown s.accounts j.postings
      → lookup j.idempotency_key s.by_idempotency_key ≡ none
      → guard_deltas s.balances s.accounts deltas ≡ ok tt
      → IsSound (commit now j deltas s)
  unfolding commit
  commit-IsSound b known fresh guarded = record {
    registry = h.registry;
    known =
        All-append _ s.journals (stored_as now j (suc s.seq) ∷ []) h.known
          (unfold stored_as in (known, tt));
    balanced =
        All-append _ s.journals (stored_as now j (suc s.seq) ∷ []) h.balanced
          (unfold stored_as in (b, tt));
    cached = λ k.
        rw
          (
            balance-commit j s.balances k,
            h.cached k,
            history-append k s.journals (stored_as now j (suc s.seq)),
          )
          (unfold stored_as in refl);
    covered = covered-commit guarded;
    indexed =
        All-append _ s.journals (stored_as now j (suc s.seq) ∷ [])
          (All-map s.journals (λ t. indexed-commit fresh t (stored_as now j (suc s.seq))) h.indexed)
          (unfold stored_as in
            (
              lookup-insert_self j.idempotency_key (stored_as now j (suc s.seq))
                  s.by_idempotency_key,
              tt,
            ));
    counted = omega (arith, length-append s.journals (stored_as now j (suc s.seq) ∷ []), h.counted);
  }

finish-IsSound :
    (now : Text) (j : JournalDraft) (s : Ledger)
    → IsSound s
    → IsBalanced j
    → AllKnown s.accounts j.postings
    → lookup j.idempotency_key s.by_idempotency_key ≡ none
    → (r : Result (Unit {0})) → guard_deltas s.balances s.accounts (add_deltas [] j.postings) ≡ r
    → IsSound (finish now j (add_deltas [] j.postings) s r).1
finish-IsSound now j s h b known fresh (ok _) e = commit-IsSound now j s h b known fresh e
finish-IsSound now j s h b known fresh (err x) e = h

post_new-IsSound :
    (now : Text) (j : JournalDraft) (s : Ledger)
    → IsSound s
    → IsBalanced j
    → lookup j.idempotency_key s.by_idempotency_key ≡ none
    → IsSound (post_new now j s).1
unfolding post_new
post_new-IsSound now j s h b fresh =
    finish-IsSound now j (record s { accounts = register s.accounts j.postings })
      (register-IsSound s j.postings h) b (register-AllKnown j.postings s.accounts) fresh _ refl

post_checked-IsSound :
    (now : Text) (j : JournalDraft) (s : Ledger)
    → IsSound s
    → (r : Result (Unit {0})) → assert_balanced j ≡ r
    → IsSound (post_checked now j s r).1
post_checked-IsSound now j s h (err e) checked = h
post_checked-IsSound now j s h (ok _) checked =
    go (lookup j.idempotency_key s.by_idempotency_key) refl
  where
    go :
        (o : Option StoredJournal)
        → lookup j.idempotency_key s.by_idempotency_key ≡ o
        → IsSound (replay_or_post now j s o).1
    go none fresh = post_new-IsSound now j s h ((assert_balanced_iff j).0 checked) fresh
    go (some t) old = h

-- Posting any journal, balanced or not, whether it is stored, replayed or refused, keeps the
-- invariant of the ledger.
pub post-IsSound :
    (now : Text) (j : JournalDraft) (s : Ledger) → IsSound s → IsSound (post now j s).1
unfolding post
post-IsSound now j s h = post_checked-IsSound now j s h (assert_balanced j) refl

pub empty-IsSound : IsSound empty
unfolding lookup history amount_at
empty-IsSound = record {
  registry = record { keyed_once = tt; own_key = λ k a e. cc };
  known = tt;
  balanced = tt;
  cached = λ k. refl;
  covered = λ k a e n. cc;
  indexed = tt;
  counted = refl;
}
