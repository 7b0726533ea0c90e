-- ===== src/Ledger/Store/Feed.antt =====
-- src/ledger/in-memory-store.ts: `getFeed`, the postings from the newest journal back.
use ticash_pay_demo.Prelude.Names.{
  ℕ, zero, suc, ◌≡◌, refl, inl, inr, Bool, true, false, ◌&&◌, not, Option, none, some, List, [],
  ◌∷◌, ◌++◌, leb, if◌then◌else◌, Bool-cases,
}
use ticash_pay_demo.Prelude.Int.{ℤ, pos, ◌+ℤ◌, int_laws}
use ticash_pay_demo.Prelude.Text.{Text, eq_text, text_eq}
use ticash_pay_demo.Prelude.Length.{length}
use ticash_pay_demo.Prelude.Sums.{amount_at}
use ticash_pay_demo.Money.Currency.{Currency}
use ticash_pay_demo.Ledger.Types.{
  TxType, fund_wallet, cash_in, cash_out, float_topup, transfer, payout, airtime, p2p_lock,
  p2p_release, p2p_unlock, usdt_withdraw_hold, usdt_withdraw_settle, usdt_withdraw_refund,
  referral_reward, reversal, PostingDraft, account_key,
}
use ticash_pay_demo.Ledger.Store.{StoredJournal, Ledger}
use ticash_pay_demo.Ledger.Store.Effect.{posted_to}
use ticash_pay_demo.Ledger.Store.Totals.{history}
use ticash_pay_demo.Ledger.Store.Invariant.{IsSound}

-- The place of a type in the list of types; two types are the same when their places are.
unfoldable tx_code : TxType → ℕ
tx_code fund_wallet = 0
tx_code cash_in = 1
tx_code cash_out = 2
tx_code float_topup = 3
tx_code transfer = 4
tx_code payout = 5
tx_code airtime = 6
tx_code p2p_lock = 7
tx_code p2p_release = 8
tx_code p2p_unlock = 9
tx_code usdt_withdraw_hold = 10
tx_code usdt_withdraw_settle = 11
tx_code usdt_withdraw_refund = 12
tx_code referral_reward = 13
tx_code reversal = 14

-- A limit is a natural number; the limit 0 is no limit, as in the source.
pub record FeedFilter : Type 0 where
  pub limit : Option ℕ
  pub wanted : Option TxType
  pub key : Option Text

pub record FeedRow : Type 0 where
  pub transaction_uid : Text
  pub tx_type : TxType
  pub external_ref : Option Text
  pub correlation_id : Option Text
  pub created_at : Text
  pub key : Text
  pub currency : Currency
  pub amount_minor : ℤ

-- `filter.type && j.journal.type !== filter.type`
unfoldable skips_type : Option TxType → TxType → Bool
unfolding tx_code
skips_type none t = false
skips_type (some x) t = not (leb (tx_code x) (tx_code t) && leb (tx_code t) (tx_code x))

-- `filter.accountKey && key !== filter.accountKey`: the empty text filters nothing.
unfoldable skips_key : Option Text → Text → Bool
skips_key none k = false
skips_key (some []) k = false
skips_key (some (c ∷ cs)) k = not (eq_text k (c ∷ cs))

unfoldable feed_row : StoredJournal → PostingDraft → FeedRow
feed_row j p = record {
  transaction_uid = j.transaction_uid;
  tx_type = j.journal.tx_type;
  external_ref = j.journal.external_ref;
  correlation_id = j.journal.correlation_id;
  created_at = j.created_at;
  key = account_key p.account;
  currency = p.currency;
  amount_minor = p.amount_minor;
}

-- The rows that one journal adds.
unfoldable journal_rows : Option Text → StoredJournal → List PostingDraft → List FeedRow
unfolding skips_key
journal_rows key j [] = []
journal_rows key j (p ∷ ps) =
    let rest = journal_rows key j ps in
    if skips_key key (account_key p.account) then rest else feed_row j p ∷ rest

-- `filter.limit && rows.length >= filter.limit`
unfoldable is_full : Option ℕ → List FeedRow → Bool
is_full none rows = false
is_full (some zero) rows = false
is_full (some (suc n)) rows = leb (suc n) (length rows)

unfoldable feed_from : FeedFilter → List FeedRow → List StoredJournal → List FeedRow
unfolding skips_type journal_rows is_full
feed_from filter rows [] = rows
feed_from filter rows (j ∷ js) = elim (skips_type filter.wanted j.journal.tx_type) [
  | true ↦ feed_from filter rows js
  | false ↦
      let more = rows ++ journal_rows filter.key j j.journal.postings in
      elim (is_full filter.limit more) [ true ↦ more | false ↦ feed_from filter more js ]
]

unfoldable newest_first : List StoredJournal → List StoredJournal
newest_first [] = []
newest_first (j ∷ js) = newest_first js ++ j ∷ []

unfoldable take : ℕ → List FeedRow → List FeedRow
take zero rows = []
take (suc n) [] = []
take (suc n) (row ∷ rows) = row ∷ take n rows

-- `filter.limit ? rows.slice(0, filter.limit) : rows`
unfoldable cut_feed : Option ℕ → List FeedRow → List FeedRow
unfolding take
cut_feed none rows = rows
cut_feed (some zero) rows = rows
cut_feed (some (suc n)) rows = take (suc n) rows

-- `getFeed`
unfoldable pub get_feed : FeedFilter → Ledger → List FeedRow
unfolding feed_from newest_first cut_feed feed_row
get_feed filter s = cut_feed filter.limit (feed_from filter [] (newest_first s.journals))

abbrev pub feed_total : List FeedRow → ℤ
feed_total [] = pos 0
feed_total (row ∷ rows) = row.amount_minor +ℤ feed_total rows

feed_total-append : (xs ys : List FeedRow) → feed_total (xs ++ ys) ≡ feed_total xs +ℤ feed_total ys
feed_total-append [] ys = omega int_laws
feed_total-append (x ∷ xs) ys = rw (feed_total-append xs ys) (omega int_laws)

module _ (c : ℕ) (cs : Text) where
  abbrev statement : FeedFilter
  statement = record { limit = none; wanted = none; key = some (c ∷ cs) }

  journal_rows-total :
      (j : StoredJournal) (ps : List PostingDraft)
      → feed_total (journal_rows (some (c ∷ cs)) j ps) ≡ posted_to (c ∷ cs) ps
  unfolding journal_rows posted_to skips_key feed_row
  journal_rows-total j [] = refl
  journal_rows-total j (p ∷ ps) = elim (Bool-cases (eq_text (account_key p.account) (c ∷ cs))) [
    | inl same ↦ rw same (rw (journal_rows-total j ps) refl)
    | inr other ↦ rw other (rw (journal_rows-total j ps) (omega int_laws))
  ]

  feed_from-total :
      (rows : List FeedRow) (js : List StoredJournal)
      → feed_total (feed_from statement rows js) ≡ feed_total rows +ℤ history (c ∷ cs) js
  unfolding feed_from history skips_type is_full
  feed_from-total rows [] = omega int_laws
  feed_from-total rows (j ∷ js) =
      rw
        (
          feed_from-total (rows ++ journal_rows (some (c ∷ cs)) j j.journal.postings) js,
          feed_total-append rows (journal_rows (some (c ∷ cs)) j j.journal.postings),
          journal_rows-total j j.journal.postings,
        )
        (omega int_laws)

history-append :
    (k : Text) (xs ys : List StoredJournal) → history k (xs ++ ys) ≡ history k xs +ℤ history k ys
unfolding history
history-append k [] ys = omega int_laws
history-append k (x ∷ xs) ys = rw (history-append k xs ys) (omega int_laws)

history-newest_first :
    (k : Text) (js : List StoredJournal) → history k (newest_first js) ≡ history k js
unfolding history newest_first
history-newest_first k [] = refl
history-newest_first k (j ∷ js) =
    rw (history-append k (newest_first js) (j ∷ []), history-newest_first k js)
      (unfold history in omega int_laws)

-- In a ledger that keeps its invariant, the amounts of the feed of one account, with no limit and
-- for all types, add up to the balance of that account.
pub get_feed_total :
    (c : ℕ) (cs : Text) (s : Ledger)
    → IsSound s
    → feed_total (get_feed (record { limit = none; wanted = none; key = some (c ∷ cs) }) s)
      ≡ amount_at (c ∷ cs) s.balances
unfolding get_feed cut_feed
get_feed_total c cs s h =
    rw
      (
        feed_from-total c cs [] (newest_first s.journals),
        history-newest_first (c ∷ cs) s.journals,
        h.cached (c ∷ cs),
      )
      (omega int_laws)
