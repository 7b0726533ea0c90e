-- ===== src/Ledger/Store/Totals.antt =====
-- The sum of the balances of one currency over a registry.
use mathlib.Core.Path.{fun_ext}
use ticash_pay_demo.Prelude.Names.{
  ◌≡◌, refl, sym, ap, ◌∙◌, inl, inr, none, some, List, [], ◌∷◌, if◌then◌else◌, if_same, Bool-cases,
  Option-cases,
}
use ticash_pay_demo.Prelude.Int.{ℤ, pos, ◌+ℤ◌, int_laws, zero-+ℤ}
use ticash_pay_demo.Prelude.Text.{Text, eq_text, eq_text_iff, eq_text_comm, text_eq}
use ticash_pay_demo.Prelude.Dict.{Dict, lookup, lookup-cons_eq, lookup-cons_ne}
use ticash_pay_demo.Prelude.Length.{All}
use ticash_pay_demo.Prelude.Sums.{IsMap}
use ticash_pay_demo.Money.Currency.{Currency, eq_currency}
use ticash_pay_demo.Ledger.Types.{AccountSpec, PostingDraft, account_key}
use ticash_pay_demo.Ledger.Types.Keys.{account_key-SameAccount}
use ticash_pay_demo.Ledger.Engine.Balance.{net, IsWellFormed, IsBalanced}
use ticash_pay_demo.Ledger.Store.{StoredJournal}
use ticash_pay_demo.Ledger.Store.Effect.{posted_to, IsRegistry, AllKnown}

-- The amounts `f` of the registered accounts of currency `c`, added up.
unfoldable pub total_by : Currency → (Text → ℤ) → Dict Text AccountSpec → ℤ
total_by c f [] = pos 0
total_by c f ((k, a) ∷ accounts) =
    (if eq_currency a.currency c then f k else pos 0) +ℤ total_by c f accounts

pub total_by-ext :
    (c : Currency) (f g : Text → ℤ) (accounts : Dict Text AccountSpec)
    → ((k : Text) → f k ≡ g k)
    → total_by c f accounts ≡ total_by c g accounts
total_by-ext c f g accounts h = ap (λ (x : Text → ℤ). total_by c x accounts) (fun_ext h)

total_by-add :
    (c : Currency) (f g : Text → ℤ) (accounts : Dict Text AccountSpec)
    → total_by c (λ k. f k +ℤ g k) accounts ≡ total_by c f accounts +ℤ total_by c g accounts
unfolding total_by
total_by-add c f g [] = omega int_laws
total_by-add c f g ((k, a) ∷ accounts) =
    rw (total_by-add c f g accounts) (elim (Bool-cases (eq_currency a.currency c)) [
      | inl same ↦ rw same (omega int_laws)
      | inr other ↦ rw other (omega int_laws)
    ])

total_by-zero :
    (c : Currency) (accounts : Dict Text AccountSpec) → total_by c (λ k. pos 0) accounts ≡ pos 0
unfolding total_by
total_by-zero c [] = refl
total_by-zero c ((k, a) ∷ accounts) =
    rw (total_by-zero c accounts) (elim (Bool-cases (eq_currency a.currency c)) [
      | inl same ↦ rw same (omega int_laws)
      | inr other ↦ rw other (omega int_laws)
    ])

-- The change that one posting makes to the amount at each key.
abbrev pub change : Text → ℤ → Text → ℤ
change j x k = if eq_text j k then x else pos 0

total_by-change_unknown :
    (c : Currency) (j : Text) (x : ℤ) (accounts : Dict Text AccountSpec)
    → lookup j accounts ≡ none
    → total_by c (change j x) accounts ≡ pos 0
unfolding total_by
total_by-change_unknown c j x [] h = refl
total_by-change_unknown c j x ((k, a) ∷ accounts) h = elim (Bool-cases (eq_text k j)) [
  | inl same ↦ cc (lookup-cons_eq k j a accounts same)
  | inr other ↦
      rw
        (
          sym (eq_text_comm k j) ∙ other,
          total_by-change_unknown c j x accounts (sym (lookup-cons_ne k j a accounts other) ∙ h),
          if_same,
        )
        (omega int_laws)
]

total_by-change :
    (c : Currency) (j : Text) (x : ℤ) (accounts : Dict Text AccountSpec) (a : AccountSpec)
    → IsMap accounts
    → lookup j accounts ≡ some a
    → total_by c (change j x) accounts ≡ (if eq_currency a.currency c then x else pos 0)
unfolding total_by
total_by-change c j x [] a m h = unfold lookup in cc
total_by-change c j x ((k, b) ∷ accounts) a m h = elim (Bool-cases (eq_text k j)) [
  | inl same ↦
      let b_is_a : b ≡ a = cc (lookup-cons_eq k j b accounts same) in
      let fresh : lookup j accounts ≡ none = rw (← (eq_text_iff k j).0 same) m.0 in
      rw (sym (eq_text_comm k j) ∙ same, total_by-change_unknown c j x accounts fresh, b_is_a)
        (omega int_laws)
  | inr other ↦
      rw
        (
          sym (eq_text_comm k j) ∙ other,
          total_by-change c j x accounts a m.1 (sym (lookup-cons_ne k j b accounts other) ∙ h),
          if_same,
        )
        (zero-+ℤ (if eq_currency a.currency c then x else pos 0))
]

-- A history of journals: what all of them post to one account.
unfoldable pub history : Text → List StoredJournal → ℤ
history k [] = pos 0
history k (j ∷ js) = posted_to k j.journal.postings +ℤ history k js

-- Over a registry that knows their accounts, postings in the currencies of their accounts add up
-- to their net amount in every currency.
total_by-posted_to :
    (c : Currency) (ps : List PostingDraft) (accounts : Dict Text AccountSpec)
    → IsRegistry accounts
    → AllKnown accounts ps
    → All IsWellFormed ps
    → total_by c (λ k. posted_to k ps) accounts ≡ net c ps
unfolding posted_to net
total_by-posted_to c [] accounts r known formed = total_by-zero c accounts
total_by-posted_to c (p ∷ ps) accounts r known formed =
    rw
      (
        total_by-add c (change (account_key p.account) p.amount_minor) (λ k. posted_to k ps)
            accounts,
        total_by-posted_to c ps accounts r known.1 formed.1,
      )
      (elim (Option-cases (lookup (account_key p.account) accounts)) [
        | inl unknown ↦ absurd (known.0 unknown)
        | inr (a, found) ↦
            let same =
              account_key-SameAccount a p.account (r.own_key (account_key p.account) a found) in
            rw (
              total_by-change c (account_key p.account) p.amount_minor accounts a r.keyed_once
                  found,
              same.same_currency,
              formed.0.0,
            )
      ])

pub total_by-history :
    (c : Currency) (js : List StoredJournal) (accounts : Dict Text AccountSpec)
    → IsRegistry accounts
    → All (λ s. AllKnown accounts s.journal.postings) js
    → All (λ s. IsBalanced s.journal) js
    → total_by c (λ k. history k js) accounts ≡ pos 0
unfolding history
total_by-history c [] accounts r known balanced = total_by-zero c accounts
total_by-history c (s ∷ js) accounts r known balanced =
    rw
      (
        total_by-add c (λ k. posted_to k s.journal.postings) (λ k. history k js) accounts,
        total_by-history c js accounts r known.1 balanced.1,
        total_by-posted_to c s.journal.postings accounts r known.0 balanced.0.well_formed,
        balanced.0.nets_zero c,
      )
      (omega int_laws)
