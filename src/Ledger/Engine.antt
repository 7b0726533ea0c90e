-- ===== src/Ledger/Engine.antt =====
-- src/ledger/engine.ts: the structural check of a journal.
pub mod Balance
use ticash_pay_demo.Prelude.Names.{not, List, [], ◌∷◌, ltb, if◌then◌else◌}
use ticash_pay_demo.Prelude.Int.{ℤ, pos, eqb_ℤ}
use ticash_pay_demo.Prelude.Dict.{Dict}
use ticash_pay_demo.Prelude.Sums.{add_at}
use ticash_pay_demo.Prelude.Result.{
  Result, ok, err, ◌>>=◌, ◌>>◌, throw_if, ledger_error, unbalanced, ledger_validation,
}
use ticash_pay_demo.Prelude.Length.{length}
use ticash_pay_demo.Money.Currency.{Currency, eq_currency, currency_eq}
use ticash_pay_demo.Ledger.Types.{PostingDraft, JournalDraft}

-- The loop of `sumByCurrency`, from the totals so far.
unfoldable pub sum_from : Dict Currency ℤ → List PostingDraft → Result (Dict Currency ℤ)
unfolding eq_currency
sum_from totals [] = ok totals
sum_from totals (p ∷ ps) =
    let rest = sum_from (add_at p.currency p.amount_minor totals) ps in
    if not (eq_currency p.currency p.account.currency)
    then err (ledger_error ledger_validation)
    else if eqb_ℤ p.amount_minor (pos 0)
    then err (ledger_error ledger_validation)
    else rest

-- `sumByCurrency`
unfoldable pub sum_by_currency : List PostingDraft → Result (Dict Currency ℤ)
unfolding sum_from
sum_by_currency ps = sum_from [] ps

-- `for (const [currency, total] of totals) if (total !== 0n) throw`
unfoldable pub assert_zero : Dict Currency ℤ → Result (Unit {0})
assert_zero [] = ok tt
assert_zero ((c, total) ∷ totals) =
    if eqb_ℤ total (pos 0) then assert_zero totals else err (ledger_error unbalanced)

-- `assertBalanced`
unfoldable pub assert_balanced : JournalDraft → Result (Unit {0})
unfolding sum_by_currency assert_zero
assert_balanced j = do
  throw_if (ltb (length j.postings) 2) (ledger_error ledger_validation)
  totals ← sum_by_currency j.postings
  assert_zero totals
