-- ===== src/Ledger/Store.antt =====
-- src/ledger/in-memory-store.ts: the ledger's state, posting a journal, and reconciliation.
-- `post` is one atomic step there, as it is here; the clock's answer is an argument.
pub mod Reads
pub mod Feed
pub mod Effect
pub mod Totals
pub mod Invariant
pub mod Audit
pub mod Outcome
pub mod Acceptance
use ticash_pay_demo.Prelude.Names.{
  ℕ, suc, Bool, true, false, ◌&&◌, Option, none, some, List, [], ◌∷◌, ◌++◌, map, if◌then◌else◌,
}
use ticash_pay_demo.Prelude.Int.{ℤ, pos, ◌+ℤ◌, ltb_ℤ}
use ticash_pay_demo.Prelude.Text.{Text, codes, text_eq}
use ticash_pay_demo.Prelude.Dict.{Dict, lookup, insert}
use ticash_pay_demo.Prelude.Sums.{amount_at, add_at, add_all}
use ticash_pay_demo.Prelude.Result.{Result, ok, err, plain_error, ledger_error, insufficient_funds}
use ticash_pay_demo.Money.Digits.{to_decimal}
use ticash_pay_demo.Ledger.Types.{
  AccountSpec, is_non_negative, account_key, PostingDraft, JournalDraft, PostedPosting,
  PostedJournal,
}
use ticash_pay_demo.Ledger.Engine.{assert_balanced}

pub record StoredJournal : Type 0 where
  pub transaction_uid : Text
  pub seq : ℕ
  pub journal : JournalDraft
  pub created_at : Text

-- `InMemoryLedgerStore`
pub record Ledger : Type 0 where
  pub journals : List StoredJournal
  pub by_idempotency_key : Dict Text StoredJournal
  pub balances : Dict Text ℤ
  pub accounts : Dict Text AccountSpec
  pub seq : ℕ

abbrev pub empty : Ledger
empty = record { journals = []; by_idempotency_key = []; balances = []; accounts = []; seq = 0 }

abbrev pub posted_posting : PostingDraft → PostedPosting
posted_posting p = record {
  key = account_key p.account;
  currency = p.currency;
  amount_minor = p.amount_minor;
}

-- `toPosted`
unfoldable pub to_posted : StoredJournal → PostedJournal
to_posted s = record {
  transaction_uid = s.transaction_uid;
  tx_type = s.journal.tx_type;
  idempotency_key = s.journal.idempotency_key;
  correlation_id = s.journal.correlation_id;
  external_ref = s.journal.external_ref;
  postings = map posted_posting s.journal.postings;
  created_at = s.created_at;
}

-- The first loop of step 3: the change of each account's balance.
unfoldable pub add_deltas : Dict Text ℤ → List PostingDraft → Dict Text ℤ
add_deltas deltas [] = deltas
add_deltas deltas (p ∷ ps) = add_deltas (add_at (account_key p.account) p.amount_minor deltas) ps

-- The same loop's writes to `accounts`, which stay when the guard throws.
unfoldable pub register : Dict Text AccountSpec → List PostingDraft → Dict Text AccountSpec
register accounts [] = accounts
register accounts (p ∷ ps) = register (insert (account_key p.account) p.account accounts) ps

-- One round of the overdraft guard. An unregistered key would be a `TypeError` at run time.
unfoldable pub guard_one : Option AccountSpec → ℤ → Result (Unit {0})
guard_one none next = err plain_error
guard_one (some spec) next =
    if is_non_negative spec.kind && ltb_ℤ next (pos 0)
    then err (ledger_error insufficient_funds)
    else ok tt

abbrev pub and_then : Result (Unit {0}) → Result (Unit {0}) → Result (Unit {0})
and_then (ok _) rest = rest
and_then (err e) rest = err e

-- The second loop of step 3.
unfoldable pub guard_deltas : Dict Text ℤ → Dict Text AccountSpec → Dict Text ℤ → Result (Unit {0})
guard_deltas balances accounts [] = ok tt
guard_deltas balances accounts ((key, delta) ∷ deltas) =
    and_then (guard_one (lookup key accounts) (amount_at key balances +ℤ delta))
      (guard_deltas balances accounts deltas)

unfoldable pub stored_as : Text → JournalDraft → ℕ → StoredJournal
stored_as now j n = record {
  transaction_uid = codes "tx_" ++ to_decimal n;
  seq = n;
  journal = j;
  created_at = now;
}

-- Step 4, the commit.
unfoldable pub commit : Text → JournalDraft → Dict Text ℤ → Ledger → Ledger
commit now j deltas s = record {
  journals = s.journals ++ stored_as now j (suc s.seq) ∷ [];
  by_idempotency_key = insert j.idempotency_key (stored_as now j (suc s.seq)) s.by_idempotency_key;
  balances = add_all deltas s.balances;
  accounts = s.accounts;
  seq = suc s.seq;
}

abbrev pub finish :
    Text → JournalDraft → Dict Text ℤ → Ledger → Result (Unit {0}) → Result PostedJournal × Ledger
finish now j deltas s (err e) = (err e, s)
finish now j deltas s (ok _) = (ok (to_posted (stored_as now j (suc s.seq))), commit now j deltas s)

-- Steps 3 and 4, for a journal whose key is new.
unfoldable pub post_new : Text → JournalDraft → Ledger → Result PostedJournal × Ledger
post_new now j s =
    let registered = register s.accounts j.postings in
    let deltas = add_deltas [] j.postings in
    finish now j deltas (record s { accounts = registered })
      (guard_deltas s.balances registered deltas)

-- Step 2, the idempotency check.
abbrev pub replay_or_post :
    Text → JournalDraft → Ledger → Option StoredJournal → Result PostedJournal × Ledger
replay_or_post now j s (some existing) = (ok (to_posted existing), s)
replay_or_post now j s none = post_new now j s

abbrev pub post_checked :
    Text → JournalDraft → Ledger → Result (Unit {0}) → Result PostedJournal × Ledger
post_checked now j s (err e) = (err e, s)
post_checked now j s (ok _) = replay_or_post now j s (lookup j.idempotency_key s.by_idempotency_key)

-- `post`
unfoldable pub post : Text → JournalDraft → Ledger → Result PostedJournal × Ledger
post now j s = post_checked now j s (assert_balanced j)
