-- ===== src/Ledger/Engine/Balance.antt =====
-- A definition of balance of its own, to compare `assertBalanced` (src/ledger/engine.ts) with.
use ticash_pay_demo.Prelude.Names.{
  ◌≤◌, ◌≡◌, ◌≢◌, ◌↔◌, refl, sym, ◌∙◌, none, List, [], ◌∷◌, arith, if◌then◌else◌, ltb,
}
use ticash_pay_demo.Prelude.Int.{ℤ, pos, ◌+ℤ◌, int_laws, eqb_ℤ_iff}
use ticash_pay_demo.Prelude.Dict.{Dict, lookup}
use ticash_pay_demo.Prelude.Sums.{
  amount_at, add_at, IsMap, add_at-IsMap, amount_at-add_at, amount_at-cons, amount_at-head,
  amount_at-if,
}
use ticash_pay_demo.Prelude.Length.{length, All}
use ticash_pay_demo.Prelude.Result.{ok, Failure, ledger_error, ledger_validation, throw_if, >>=-ok}
use ticash_pay_demo.Money.Currency.{Currency, currency_eq, eq_currency, eq_currency_iff}
use ticash_pay_demo.Ledger.Types.{PostingDraft, JournalDraft}
use ticash_pay_demo.Ledger.Engine.{sum_from, sum_by_currency, assert_zero, assert_balanced}

-- A posting that the loop accepts.
abbrev pub IsWellFormed : PostingDraft → Type 0
IsWellFormed p = (p.currency ≡ p.account.currency) × (p.amount_minor ≢ pos 0)

-- The signed sum of the postings in one currency: the reference for `sumByCurrency`.
unfoldable pub net : Currency → List PostingDraft → ℤ
net c [] = pos 0
net c (p ∷ ps) = (if eq_currency p.currency c then p.amount_minor else pos 0) +ℤ net c ps

pub record IsBalanced (j : JournalDraft) : Type 0 where
  pub two_postings : 2 ≤ length j.postings
  pub well_formed : All IsWellFormed j.postings
  pub nets_zero : (c : Currency) → net c j.postings ≡ pos 0

sum_from-ok :
    (ps : List PostingDraft) (totals : Dict Currency ℤ)
    → All IsWellFormed ps
    → IsMap totals
    → (r : Dict Currency ℤ) × (sum_from totals ps ≡ ok r)
      × IsMap r
      × ((c : Currency) → amount_at c r ≡ amount_at c totals +ℤ net c ps)
unfolding sum_from net
sum_from-ok [] totals h m = (totals, refl, m, λ c. omega int_laws)
sum_from-ok (p ∷ ps) totals h m =
    let (r, done, fresh, sums) =
      sum_from-ok ps (add_at p.currency p.amount_minor totals) h.1
        (add_at-IsMap p.currency p.amount_minor totals m) in
    (
      r,
      ground
          (arith, eq_currency_iff p.currency p.account.currency, eqb_ℤ_iff p.amount_minor (pos 0)),
      fresh,
      λ c. rw (sums c, amount_at-add_at) (omega int_laws),
    )

sum_from_inv :
    (ps : List PostingDraft) (totals r : Dict Currency ℤ)
    → sum_from totals ps ≡ ok r
    → All IsWellFormed ps
unfolding sum_from
sum_from_inv [] totals r h = tt
sum_from_inv (p ∷ ps) totals r h = ground (
  arith,
  eq_currency_iff p.currency p.account.currency,
  eqb_ℤ_iff p.amount_minor (pos 0),
  sum_from_inv ps (add_at p.currency p.amount_minor totals) r,
)

pub rest_zero :
    (k c : Currency) (x : ℤ) (totals : Dict Currency ℤ)
    → x ≡ pos 0
    → lookup c totals ≡ none
    → amount_at k ((c, x) ∷ totals) ≡ pos 0
    → amount_at k totals ≡ pos 0
rest_zero k c x totals z fresh h = grind (int_laws, amount_at-cons k c x totals fresh)

assert_zero-ok :
    (totals : Dict Currency ℤ)
    → IsMap totals
    → ((c : Currency) → amount_at c totals ≡ pos 0)
    → assert_zero totals ≡ ok tt
unfolding assert_zero
assert_zero-ok [] m h = refl
assert_zero-ok ((c, x) ∷ totals) m h =
    let zero_here : x ≡ pos 0 = sym (amount_at-head c x totals) ∙ h c in
    ground (
      arith,
      eqb_ℤ_iff x (pos 0),
      assert_zero-ok totals m.1 (λ k. rest_zero k c x totals zero_here m.0 (h k)),
    )

assert_zero_inv :
    (totals : Dict Currency ℤ)
    → assert_zero totals ≡ ok tt
    → (c : Currency) → amount_at c totals ≡ pos 0
unfolding assert_zero
assert_zero_inv [] h c = unfold amount_at lookup in refl
assert_zero_inv ((k, x) ∷ totals) h c =
    ground (arith, eqb_ℤ_iff x (pos 0), amount_at-if c k x totals, assert_zero_inv totals _ c)

assert_balanced-ok : (j : JournalDraft) → IsBalanced j → assert_balanced j ≡ ok tt
unfolding assert_balanced sum_by_currency
assert_balanced-ok j b =
    let (r, done, fresh, sums) = sum_from-ok j.postings [] b.well_formed tt in
    let zeros : (c : Currency) → amount_at c r ≡ pos 0 =
      λ c. sums c ∙ (rw (b.nets_zero c) (unfold amount_at lookup in omega int_laws)) in
    ground (arith, b.two_postings, done, assert_zero-ok r fresh zeros)

zero_net :
    (c : Currency) (r : Dict Currency ℤ) (ps : List PostingDraft)
    → amount_at c r ≡ amount_at {K = Currency} c [] +ℤ net c ps
    → amount_at c r ≡ pos 0
    → net c ps ≡ pos 0
unfolding amount_at lookup
zero_net c r ps h z = grind int_laws

assert_balanced_inv : (j : JournalDraft) → assert_balanced j ≡ ok tt → IsBalanced j
unfolding assert_balanced sum_by_currency
assert_balanced_inv j h =
    let (u, enough, then_sums) = >>=-ok (throw_if (ltb (length j.postings) 2) short) _ h in
    let (r, summed, zero) = >>=-ok (sum_from [] j.postings) assert_zero then_sums in
    let formed = sum_from_inv j.postings [] r summed in
    let (r', summed', fresh, sums) = sum_from-ok j.postings [] formed tt in
    let same : r' ≡ r = cc in
    record {
      two_postings = ground arith;
      well_formed = formed;
      nets_zero = λ c. zero_net c r' j.postings (sums c) (rw same (assert_zero_inv r zero c));
    }
  where
    short : Failure
    short = ledger_error ledger_validation

-- `assertBalanced` returns exactly for the journals of two or more postings, each in the currency
-- of its account and none of them zero, whose amounts add up to zero in every currency.
pub assert_balanced_iff : (j : JournalDraft) → (assert_balanced j ≡ ok tt) ↔ IsBalanced j
assert_balanced_iff j = (assert_balanced_inv j, assert_balanced-ok j)
