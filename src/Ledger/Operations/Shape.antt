-- ===== src/Ledger/Operations/Shape.antt =====
-- Postings in one currency, and when a list of them makes a balanced journal.
use ticash_pay_demo.Prelude.Names.{
  ◌≤◌, ◌≡◌, ◌≢◌, inl, inr, List, [], ◌∷◌, ◌++◌, arith, if◌then◌else◌, Bool-cases,
}
use ticash_pay_demo.Prelude.Int.{ℤ, pos, neg, ◌+ℤ◌, ◌≤ℤ◌, ◌<ℤ◌, ltb_ℤ, int_laws}
use ticash_pay_demo.Prelude.Length.{All, length}
use ticash_pay_demo.Prelude.Result.{ok}
use ticash_pay_demo.Money.Currency.{Currency, eq_currency}
use ticash_pay_demo.Ledger.Types.{AccountSpec, PostingDraft, JournalDraft}
use ticash_pay_demo.Ledger.Engine.Balance.{net, IsBalanced, IsWellFormed}
use ticash_pay_demo.Ledger.Operations.Accounts.{credit, debit, when_positive, one}

abbrev pub total : List PostingDraft → ℤ
total [] = pos 0
total (p ∷ ps) = p.amount_minor +ℤ total ps

pub total-append : (ps qs : List PostingDraft) → total (ps ++ qs) ≡ total ps +ℤ total qs
total-append [] qs = omega int_laws
total-append (p ∷ ps) qs = rw (total-append ps qs) (omega int_laws)

-- A posting that moves something in the currency `c`.
abbrev pub IsIn : Currency → PostingDraft → Type 0
IsIn c p = (p.currency ≡ c) × (p.account.currency ≡ c) × (p.amount_minor ≢ pos 0)

net-total :
    (c k : Currency) (ps : List PostingDraft)
    → All (IsIn c) ps
    → net k ps ≡ (if eq_currency c k then total ps else pos 0)
unfolding net
net-total c k [] h = ground arith
net-total c k (p ∷ ps) h =
    rw (h.0.0, net-total c k ps h.1)
      (elim (Bool-cases (eq_currency c k)) [
        | inl same ↦ rw same
        | inr other ↦ rw other (omega int_laws)
      ])

pub one_currency :
    (c : Currency) (j : JournalDraft)
    → 2 ≤ length j.postings
    → All (IsIn c) j.postings
    → total j.postings ≡ pos 0
    → IsBalanced j
one_currency c j enough inside zero = record {
  two_postings = enough;
  well_formed = formed j.postings inside;
  nets_zero = λ k. rw (net-total c k j.postings inside, zero) (ground arith);
}
  where
    formed : (ps : List PostingDraft) → All (IsIn c) ps → All IsWellFormed ps
    formed [] h = tt
    formed (p ∷ ps) h = ((cc, h.0.2), formed ps h.1)

abbrev pub credited : AccountSpec → ℤ → PostingDraft
credited a x = record { account = a; currency = a.currency; amount_minor = x }

abbrev pub debited : AccountSpec → ℤ → PostingDraft
debited a x = record { account = a; currency = a.currency; amount_minor = neg x }

not_zero : (x : ℤ) → pos 0 <ℤ x → x ≢ pos 0
not_zero x h e = ground arith

neg_not_zero : (x : ℤ) → pos 0 <ℤ x → neg x ≢ pos 0
unfolding neg
neg_not_zero x h e = ground arith

pub IsIn-credited :
    (c : Currency) (a : AccountSpec) (x : ℤ) → a.currency ≡ c → pos 0 <ℤ x → IsIn c (credited a x)
IsIn-credited c a x e h = (e, e, not_zero x h)

pub IsIn-debited :
    (c : Currency) (a : AccountSpec) (x : ℤ) → a.currency ≡ c → pos 0 <ℤ x → IsIn c (debited a x)
IsIn-debited c a x e h = (e, e, neg_not_zero x h)

pub credit-ok : (a : AccountSpec) (x : ℤ) → pos 0 <ℤ x → credit a x ≡ ok (credited a x)
unfolding credit
credit-ok a x h = ground arith

pub debit-ok : (a : AccountSpec) (x : ℤ) → pos 0 <ℤ x → debit a x ≡ ok (debited a x)
unfolding debit
debit-ok a x h = ground arith

-- What a guarded push appends.
unfoldable pub optional : PostingDraft → ℤ → List PostingDraft
optional p x = if ltb_ℤ (pos 0) x then p ∷ [] else []

pub when-credit :
    (a : AccountSpec) (x : ℤ) → when_positive x (one (credit a x)) ≡ ok (optional (credited a x) x)
unfolding optional
when-credit a x = elim (Bool-cases (ltb_ℤ (pos 0) x)) [
  | inl more ↦ rw (more, credit-ok a x (ground arith))
  | inr less ↦ rw less
]

pub when-debit :
    (a : AccountSpec) (x : ℤ) → when_positive x (one (debit a x)) ≡ ok (optional (debited a x) x)
unfolding optional
when-debit a x = elim (Bool-cases (ltb_ℤ (pos 0) x)) [
  | inl more ↦ rw (more, debit-ok a x (ground arith))
  | inr less ↦ rw less
]

pub total-optional_credit :
    (a : AccountSpec) (x : ℤ) → pos 0 ≤ℤ x → total (optional (credited a x) x) ≡ x
unfolding optional
total-optional_credit a x h = elim (Bool-cases (ltb_ℤ (pos 0) x)) [
  | inl more ↦ rw more (omega int_laws)
  | inr less ↦ rw less (ground arith)
]

pub total-optional_debit :
    (a : AccountSpec) (x : ℤ) → pos 0 ≤ℤ x → total (optional (debited a x) x) ≡ neg x
unfolding optional
total-optional_debit a x h = elim (Bool-cases (ltb_ℤ (pos 0) x)) [
  | inl more ↦ rw more (omega int_laws)
  | inr less ↦ rw less (unfold neg in ground arith)
]

pub IsIn-optional :
    (c : Currency) (p : PostingDraft) (x : ℤ)
    → (pos 0 <ℤ x → IsIn c p)
    → All (IsIn c) (optional p x)
unfolding optional
IsIn-optional c p x h = elim (Bool-cases (ltb_ℤ (pos 0) x)) [
  | inl more ↦ rw more (h (ground arith), tt)
  | inr less ↦ rw less tt
]

pub length-optional : (p : PostingDraft) (x : ℤ) → pos 0 <ℤ x → length (optional p x) ≡ 1
unfolding optional
length-optional p x h = ground arith
