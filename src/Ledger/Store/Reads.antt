-- ===== src/Ledger/Store/Reads.antt =====
-- The reading methods of src/ledger/in-memory-store.ts.
use ticash_pay_demo.Prelude.Names.{Bool, true, ◌&&◌, List, [], ◌∷◌, eqb, if◌then◌else◌}
use ticash_pay_demo.Prelude.Int.{ℤ, pos, eqb_ℤ}
use ticash_pay_demo.Prelude.Text.{Text, text_eq}
use ticash_pay_demo.Prelude.Length.{length}
use ticash_pay_demo.Prelude.Dict.{Dict}
use ticash_pay_demo.Prelude.Sums.{amount_at, add_at}
use ticash_pay_demo.Money.Currency.{Currency, currency_eq}
use ticash_pay_demo.Ledger.Types.{AccountSpec, account_key, PostingDraft}
use ticash_pay_demo.Ledger.Store.{StoredJournal, Ledger}

-- `getBalance`
unfoldable pub get_balance : AccountSpec → Ledger → ℤ
get_balance spec s = amount_at (account_key spec) s.balances

pub record BalanceRow : Type 0 where
  pub key : Text
  pub account : AccountSpec
  pub balance_minor : ℤ

-- `listBalances`, in the order of registration: its last step, a sort for display by
-- `localeCompare`, is the run-time's collation.
unfoldable pub balance_rows : Dict Text ℤ → Dict Text AccountSpec → List BalanceRow
balance_rows balances [] = []
balance_rows balances ((k, spec) ∷ accounts) =
    record { key = k; account = spec; balance_minor = amount_at k balances }
    ∷ balance_rows balances accounts

-- The loop of `reconcile` over the accounts: the sum of the balances of each currency.
unfoldable pub per_currency :
    Dict Text ℤ → Dict Text AccountSpec → Dict Currency ℤ → Dict Currency ℤ
per_currency balances [] totals = totals
per_currency balances ((k, spec) ∷ accounts) totals =
    per_currency balances accounts (add_at spec.currency (amount_at k balances) totals)

-- The loops over the postings: every balance computed anew.
unfoldable pub recompute_journal : List PostingDraft → Dict Text ℤ → Dict Text ℤ
recompute_journal [] computed = computed
recompute_journal (p ∷ ps) computed =
    recompute_journal ps (add_at (account_key p.account) p.amount_minor computed)

unfoldable pub recompute : List StoredJournal → Dict Text ℤ → Dict Text ℤ
unfolding recompute_journal
recompute [] computed = computed
recompute (j ∷ js) computed = recompute js (recompute_journal j.journal.postings computed)

pub record Divergence : Type 0 where
  pub key : Text
  pub cached : ℤ
  pub computed : ℤ

-- The accounts whose cached balance is not the sum of their postings.
unfoldable pub divergences : Dict Text ℤ → Dict Text ℤ → Dict Text AccountSpec → List Divergence
divergences balances computed [] = []
divergences balances computed ((k, spec) ∷ accounts) =
    let rest = divergences balances computed accounts in
    if eqb_ℤ (amount_at k balances) (amount_at k computed)
    then rest
    else record { key = k; cached = amount_at k balances; computed = amount_at k computed } ∷ rest

unfoldable pub all_zero : Dict Currency ℤ → Bool
all_zero [] = true
all_zero ((c, total) ∷ totals) = eqb_ℤ total (pos 0) && all_zero totals

-- `ReconResult`, its amounts as numbers.
pub record ReconResult : Type 0 where
  pub per_currency_totals : Dict Currency ℤ
  pub cache_divergences : List Divergence
  pub balanced : Bool
  pub consistent : Bool

-- `reconcile`
unfoldable pub reconcile : Ledger → ReconResult
unfolding per_currency recompute divergences all_zero
reconcile s =
    let totals = per_currency s.balances s.accounts [] in
    let diverging = divergences s.balances (recompute s.journals []) s.accounts in
    record {
      per_currency_totals = totals;
      cache_divergences = diverging;
      balanced = all_zero totals;
      consistent = eqb (length diverging) 0;
    }
