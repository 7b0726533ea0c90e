-- ===== src/Ledger/Store/Outcome.antt =====
-- The ways in which a call of `post` can end.
use ticash_pay_demo.Prelude.Names.{
  suc, ◌≡◌, ◌⊎◌, refl, ◌∙◌, inl, inr, Option, none, some, [], ◌∷◌, ◌++◌, if◌then◌else◌,
}
use ticash_pay_demo.Prelude.Int.{◌+ℤ◌}
use ticash_pay_demo.Prelude.Text.{Text, eq_text, text_eq}
use ticash_pay_demo.Prelude.Dict.{lookup, lookup-insert, lookup-insert_self}
use ticash_pay_demo.Prelude.Sums.{amount_at}
use ticash_pay_demo.Prelude.Result.{Result, ok, err, Failure, ledger_error, insufficient_funds}
use ticash_pay_demo.Ledger.Types.{JournalDraft, PostedJournal}
use ticash_pay_demo.Ledger.Engine.{assert_balanced}
use ticash_pay_demo.Ledger.Engine.Balance.{IsBalanced, assert_balanced_iff}
use ticash_pay_demo.Ledger.Store.{
  StoredJournal, Ledger, to_posted, register, guard_deltas, stored_as, commit, finish, post_new,
  replay_or_post, post_checked, post,
}
use ticash_pay_demo.Ledger.Store.Effect.{posted_to}
use ticash_pay_demo.Ledger.Store.Invariant.{balance-commit}
use ticash_pay_demo.Ledger.Store.Acceptance.{
  Affords, accounts, deltas, deltas-known, guard-Affords, guard_deltas_error,
}

-- A new journal that passed every check.
pub record IsCommitted (now : Text) (j : JournalDraft) (s t : Ledger) (p : PostedJournal)
    : Type 0 where
  pub was_new : lookup j.idempotency_key s.by_idempotency_key ≡ none
  pub is_indexed :
      lookup j.idempotency_key t.by_idempotency_key ≡ some (stored_as now j (suc s.seq))
  pub keys :
      (k : Text)
      → lookup k t.by_idempotency_key ≡ (
          if eq_text j.idempotency_key k
          then some (stored_as now j (suc s.seq))
          else lookup k s.by_idempotency_key)
  pub reply : p ≡ to_posted (stored_as now j (suc s.seq))
  pub is_appended : t.journals ≡ s.journals ++ stored_as now j (suc s.seq) ∷ []
  pub counted : t.seq ≡ suc s.seq
  pub registered : t.accounts ≡ register s.accounts j.postings
  pub moved : (k : Text) → amount_at k t.balances ≡ amount_at k s.balances +ℤ posted_to k j.postings

-- A journal whose key was posted before: the first one's answer, and nothing changes.
pub record IsReplayed (j : JournalDraft) (s t : Ledger) (p : PostedJournal) : Type 0 where
  pub first : StoredJournal
  pub was_known : lookup j.idempotency_key s.by_idempotency_key ≡ some first
  pub reply : p ≡ to_posted first
  pub unchanged : t ≡ s

-- Why a call is refused: the journal is not balanced, and nothing changes; or its key is new and a
-- user-facing account would be left below zero, and its accounts are registered.
abbrev pub Refusal : JournalDraft → Ledger → Ledger → Failure → Type 0
Refusal j s t e =
    ((assert_balanced j ≡ err e) × ¬ IsBalanced j × (t.accounts ≡ s.accounts))
    ⊎ ((lookup j.idempotency_key s.by_idempotency_key ≡ none)
        × IsBalanced j
        × ¬ Affords s j
        × (e ≡ ledger_error insufficient_funds)
        × (t.accounts ≡ register s.accounts j.postings))

-- A refusal, and what it leaves as it was.
pub record IsRefused (j : JournalDraft) (s t : Ledger) (e : Failure) : Type 0 where
  pub cause : Refusal j s t e
  pub same_balances : t.balances ≡ s.balances
  pub same_journals : t.journals ≡ s.journals
  pub same_keys : t.by_idempotency_key ≡ s.by_idempotency_key
  pub same_seq : t.seq ≡ s.seq

abbrev pub Outcome : Text → JournalDraft → Ledger → Result PostedJournal × Ledger → Type 0
Outcome now j s (ok p, t) = IsCommitted now j s t p ⊎ IsReplayed j s t p
Outcome now j s (err e, t) = IsRefused j s t e

module _ (now : Text) (j : JournalDraft) (s : Ledger) where
  finish-Outcome :
      IsBalanced j
      → lookup j.idempotency_key s.by_idempotency_key ≡ none
      → (r : Result (Unit {0})) → guard_deltas s.balances (accounts now j s) (deltas now j s) ≡ r
      → Outcome now j s (finish now j (deltas now j s) (record s { accounts = accounts now j s }) r)
  unfolding commit
  finish-Outcome b fresh (err e) checked = record {
    cause = inr (
      fresh,
      b,
      λ affords. cc (guard-Affords now j s affords, checked),
      guard_deltas_error (deltas now j s) s.balances (accounts now j s) e (deltas-known now j s)
          checked,
      refl,
    );
    same_balances = refl;
    same_journals = refl;
    same_keys = refl;
    same_seq = refl;
  }
  finish-Outcome b fresh (ok _) checked = inl (record {
    was_new = fresh;
    is_indexed =
        lookup-insert_self j.idempotency_key (stored_as now j (suc s.seq)) s.by_idempotency_key;
    keys =
        λ k. lookup-insert j.idempotency_key k (stored_as now j (suc s.seq)) s.by_idempotency_key;
    reply = refl;
    is_appended = refl;
    counted = refl;
    registered = refl;
    moved = balance-commit j s.balances;
  })

  post_checked-Outcome :
      (r : Result (Unit {0})) → assert_balanced j ≡ r → Outcome now j s (post_checked now j s r)
  unfolding post_new
  post_checked-Outcome (err e) checked = record {
    cause = inl (checked, λ b. cc ((assert_balanced_iff j).1 b, checked), refl);
    same_balances = refl;
    same_journals = refl;
    same_keys = refl;
    same_seq = refl;
  }
  post_checked-Outcome (ok _) checked = go (lookup j.idempotency_key s.by_idempotency_key) refl
    where
      go :
          (o : Option StoredJournal)
          → lookup j.idempotency_key s.by_idempotency_key ≡ o
          → Outcome now j s (replay_or_post now j s o)
      go (some t) known =
          inr (record { first = t; was_known = known; reply = refl; unchanged = refl })
      go none fresh = finish-Outcome ((assert_balanced_iff j).0 checked) fresh _ refl

-- A call of `post` ends in one of four ways. The key is new: the journal is appended and found under
-- its key, no other key changes, its accounts are registered, the sequence number goes up by one,
-- and every account's balance moves by exactly what the journal posts to it. The key is known: the
-- answer is the journal stored first under it, and nothing changes. The journal is not balanced: the
-- error is that of the balance check, and nothing changes. The key is new and the journal balanced,
-- but a user-facing account would be left below zero: the error is INSUFFICIENT_FUNDS, and nothing
-- changes but that the journal's accounts are registered.
pub post-Outcome : (now : Text) (j : JournalDraft) (s : Ledger) → Outcome now j s (post now j s)
unfolding post
post-Outcome now j s = post_checked-Outcome now j s (assert_balanced j) refl

replay_known :
    (now : Text) (j : JournalDraft) (s : Ledger) (t : StoredJournal)
    → IsBalanced j
    → lookup j.idempotency_key s.by_idempotency_key ≡ some t
    → post now j s ≡ (ok (to_posted t), s)
unfolding post
replay_known now j s t b known = rw ((assert_balanced_iff j).1 b, known)

-- After a call of `post` that returned, a second one with any balanced journal of the same key,
-- at any time, gives the same answer and leaves the ledger as it is.
pub post_again :
    (now now' : Text) (j j' : JournalDraft) (s : Ledger) (p : PostedJournal)
    → (post now j s).0 ≡ ok p
    → IsBalanced j'
    → j'.idempotency_key ≡ j.idempotency_key
    → post now' j' (post now j s).1 ≡ (ok p, (post now j s).1)
post_again now now' j j' s p done b same = go (post now j s) done (post-Outcome now j s)
  where
    go :
        (r : Result PostedJournal × Ledger)
        → r.0 ≡ ok p
        → Outcome now j s r
        → post now' j' r.1 ≡ (ok p, r.1)
    go (err e, t) is_p o = cc
    go (ok q, t) is_p (inl c) =
        replay_known now' j' t (stored_as now j (suc s.seq)) b (rw same c.is_indexed) ∙ cc (c.reply)
    go (ok q, t) is_p (inr r) =
        replay_known now' j' t r.first b (rw (same, r.unchanged) r.was_known) ∙ cc (r.reply)
