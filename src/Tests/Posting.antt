-- ===== src/Tests/Posting.antt =====
-- The theorems on posting (src/ledger) at concrete journals.
use ticash_pay_demo.Prelude.Names.{
  ◌≡◌, ◌↔◌, refl, inl, inr, true, false, none, some, List, [], ◌∷◌, arith, Bool-cases,
}
use ticash_pay_demo.Prelude.Int.{pos, neg, ◌+ℤ◌, ◌≤ℤ◌, ◌<ℤ◌, zero-+ℤ}
use ticash_pay_demo.Prelude.Text.{Text, codes, eq_text, text_eq}
use ticash_pay_demo.Prelude.Dict.{lookup, insert, lookup-insert}
use ticash_pay_demo.Prelude.Sums.{amount_at, add_at, add_all}
use ticash_pay_demo.Prelude.Result.{ok, err, ledger_error, insufficient_funds}
use ticash_pay_demo.Money.Currency.{currency_text, brl, htg, currency_eq}
use ticash_pay_demo.Ledger.Types.{
  AccountSpec, is_non_negative, account_key, owner_type_text, kind_text, owner_id_text, settlement,
  TxType, JournalDraft, PostedJournal,
}
use ticash_pay_demo.Ledger.Engine.{assert_balanced, assert_zero, sum_from, sum_by_currency}
use ticash_pay_demo.Ledger.Engine.Balance.{IsBalanced, assert_balanced_iff}
use ticash_pay_demo.Ledger.Operations.Accounts.{customer_wallet, system_account}
use ticash_pay_demo.Ledger.Operations.Shape.{credited, debited}
use ticash_pay_demo.Ledger.Operations.Transfer.{TransferQuote}
use ticash_pay_demo.Ledger.Store.{
  empty, to_posted, stored_as, register, guard_deltas, guard_one, add_deltas, commit, post,
  post_new,
}
use ticash_pay_demo.Ledger.Store.Feed.{feed_total, get_feed, get_feed_total}
use ticash_pay_demo.Ledger.Store.Reads.{reconcile}
use ticash_pay_demo.Ledger.Store.Effect.{posted_to}
use ticash_pay_demo.Ledger.Store.Invariant.{IsSound, empty-IsSound, post-IsSound}
use ticash_pay_demo.Ledger.Store.Audit.{
  post_all, reconcile_sound, reconcile_after_posts, never_overdrawn,
}
use ticash_pay_demo.Ledger.Service.Methods.{Method, drafts, drafts-Balances}
use ticash_pay_demo.Ledger.Service.Methods
use ticash_pay_demo.Prelude.Length.{All}
use ticash_pay_demo.Prelude.Result.{WhenOk}
use ticash_pay_demo.Ledger.Engine.Balance.{IsBalanced}
use ticash_pay_demo.Ledger.Store.Outcome.{Outcome, post-Outcome, post_again}
use ticash_pay_demo.Ledger.Store.Acceptance.{Affords, post_accepts, post_refuses}

abbrev wallet_of_ana : AccountSpec
unfolding customer_wallet
wallet_of_ana = customer_wallet (codes "ana") brl

abbrev bank : AccountSpec
unfolding system_account
bank = system_account settlement brl

-- Ana receives five reais, and pays them out.
abbrev deposit : JournalDraft
deposit = record {
  tx_type = TxType.fund_wallet;
  idempotency_key = codes "k1";
  postings = debited bank (pos 500) ∷ credited wallet_of_ana (pos 500) ∷ [];
  correlation_id = none;
  external_ref = none;
  metadata = none;
}

abbrev payment : JournalDraft
payment = record {
  tx_type = TxType.cash_out;
  idempotency_key = codes "k2";
  postings = debited wallet_of_ana (pos 500) ∷ credited bank (pos 500) ∷ [];
  correlation_id = none;
  external_ref = none;
  metadata = none;
}

abbrev calls : List (Text × JournalDraft)
calls = (codes "t1", deposit) ∷ (codes "t2", payment) ∷ (codes "t3", payment) ∷ []

deposit-checked : assert_balanced deposit ≡ ok tt
unfolding assert_balanced assert_zero sum_by_currency sum_from neg lookup insert add_at
    customer_wallet system_account ◌+ℤ◌
deposit-checked = refl

deposit-IsBalanced : IsBalanced deposit
deposit-IsBalanced = (assert_balanced_iff deposit).0 deposit-checked

payment-checked : assert_balanced payment ≡ ok tt
unfolding assert_balanced assert_zero sum_by_currency sum_from neg lookup insert add_at
    customer_wallet system_account ◌+ℤ◌
payment-checked = refl

payment-IsBalanced : IsBalanced payment
payment-IsBalanced = (assert_balanced_iff payment).0 payment-checked

assert_balanced_iff_example : (assert_balanced deposit ≡ ok tt) ↔ IsBalanced deposit
assert_balanced_iff_example = assert_balanced_iff deposit

post-IsSound_example : IsSound (post (codes "t1") deposit empty).1
post-IsSound_example = post-IsSound (codes "t1") deposit empty empty-IsSound

post-Outcome_example : Outcome (codes "t1") deposit empty (post (codes "t1") deposit empty)
post-Outcome_example = post-Outcome (codes "t1") deposit empty

reconcile_sound_example :
    ((reconcile (post (codes "t1") deposit empty).1).balanced ≡ true)
    × ((reconcile (post (codes "t1") deposit empty).1).consistent ≡ true)
    × ((reconcile (post (codes "t1") deposit empty).1).cache_divergences ≡ [])
reconcile_sound_example =
    reconcile_sound (post (codes "t1") deposit empty).1
      (post-IsSound (codes "t1") deposit empty empty-IsSound)

reconcile_after_posts_example :
    ((reconcile (post_all calls empty)).balanced ≡ true)
    × ((reconcile (post_all calls empty)).consistent ≡ true)
    × ((reconcile (post_all calls empty)).cache_divergences ≡ [])
reconcile_after_posts_example = reconcile_after_posts calls

deposit_returns :
    (post (codes "t1") deposit empty).0 ≡ ok (to_posted (stored_as (codes "t1") deposit 1))
unfolding post post_new register guard_deltas guard_one add_deltas assert_balanced assert_zero
    sum_by_currency sum_from neg lookup insert add_at customer_wallet system_account account_key
    owner_type_text kind_text owner_id_text is_non_negative eq_text amount_at ◌+ℤ◌ currency_text
deposit_returns = refl

post_again_example :
    post (codes "t9") deposit (post (codes "t1") deposit empty).1
    ≡ (ok (to_posted (stored_as (codes "t1") deposit 1)), (post (codes "t1") deposit empty).1)
post_again_example =
    post_again (codes "t1") (codes "t9") deposit deposit empty
      (to_posted (stored_as (codes "t1") deposit 1)) deposit_returns deposit-IsBalanced refl

ana_is_known :
    lookup (account_key wallet_of_ana) (post_all calls empty).accounts ≡ some wallet_of_ana
unfolding post_all commit post post_new register guard_deltas guard_one add_deltas assert_balanced
    assert_zero sum_by_currency sum_from neg lookup insert add_at customer_wallet system_account
    account_key owner_type_text kind_text owner_id_text is_non_negative eq_text amount_at ◌+ℤ◌
    currency_text add_all
ana_is_known = refl

never_overdrawn_example :
    pos 0 ≤ℤ amount_at (account_key wallet_of_ana) (post_all calls empty).balances
never_overdrawn_example =
    never_overdrawn calls (account_key wallet_of_ana) wallet_of_ana ana_is_known
      (unfold is_non_negative customer_wallet in refl)

payment_short :
    amount_at (account_key wallet_of_ana) empty.balances
      +ℤ posted_to (account_key wallet_of_ana) payment.postings
    <ℤ pos 0
unfolding posted_to account_key owner_type_text kind_text owner_id_text eq_text amount_at lookup neg
    customer_wallet system_account ◌+ℤ◌ currency_text
payment_short = omega arith

post_refuses_example : (post (codes "t1") payment empty).0 ≡ err (ledger_error insufficient_funds)
unfolding currency_text
post_refuses_example =
    post_refuses (codes "t1") payment empty (account_key wallet_of_ana) wallet_of_ana empty-IsSound
      payment-IsBalanced (unfold lookup in refl)
      (unfold register lookup insert account_key owner_type_text kind_text owner_id_text eq_text
          customer_wallet system_account in
        refl)
      (unfold is_non_negative customer_wallet in refl) payment_short

bank_may_owe : is_non_negative bank.kind ≡ false
unfolding is_non_negative system_account
bank_may_owe = refl

ana_or_bank :
    (k : Text) (a : AccountSpec)
    → lookup k (register [] deposit.postings) ≡ some a
    → is_non_negative a.kind ≡ true
    → pos 0 ≤ℤ posted_to k deposit.postings
unfolding register posted_to neg ◌+ℤ◌
ana_or_bank k a found guarded = elim (Bool-cases (eq_text (account_key wallet_of_ana) k)) [
  | inl hers ↦ elim (Bool-cases (eq_text (account_key bank) k)) [
    | inl both ↦ rw (hers, both) (omega arith)
    | inr only ↦ rw (hers, only) (omega arith)
  ]
  | inr other ↦ elim (Bool-cases (eq_text (account_key bank) k)) [
    | inl its ↦
        let is_bank : lookup k (register [] deposit.postings) ≡ some bank =
          rw
            (
              lookup-insert (account_key wallet_of_ana) k wallet_of_ana
                  (insert (account_key bank) bank []),
              other,
              lookup-insert (account_key bank) k bank [],
              its,
            )
            refl in
        let owes = bank_may_owe in cc
    | inr neither ↦ rw (other, neither) (omega arith)
  ]
]

deposit-Affords : Affords empty deposit
unfolding amount_at lookup
deposit-Affords k a found guarded = rw (zero-+ℤ) (ana_or_bank k a found guarded)

post_accepts_example : (p : PostedJournal) × ((post (codes "t1") deposit empty).0 ≡ ok p)
post_accepts_example =
    post_accepts (codes "t1") deposit empty deposit-IsBalanced (unfold lookup in refl)
      deposit-Affords

-- A transfer of one real with a fee of ten cents.
abbrev quote : TransferQuote
quote = record {
  send_minor = pos 100;
  fee_minor = pos 10;
  total_debit_minor = pos 110;
  rate = codes "25";
  receive_minor = pos 2500;
  from_currency = brl;
  to_currency = htg;
}

-- The transfer of that quote is undone.
abbrev undo_quote : Method
undo_quote = Methods.reverse (codes "ana") quote (codes "c1") (codes "k4") (codes "k5")

drafts-Balances_example : WhenOk (All IsBalanced) (drafts undo_quote)
unfolding ◌+ℤ◌
drafts-Balances_example = drafts-Balances undo_quote (refl, omega arith)

get_feed_total_example :
    feed_total (
      get_feed
        (record { limit = none; wanted = none; key = some (codes "customer:ana:wallet:BRL") })
        (post (codes "t1") deposit empty).1)
    ≡ amount_at (codes "customer:ana:wallet:BRL") (post (codes "t1") deposit empty).1.balances
get_feed_total_example =
    get_feed_total b'c' (codes "ustomer:ana:wallet:BRL") (post (codes "t1") deposit empty).1
      (post-IsSound (codes "t1") deposit empty empty-IsSound)
