-- ===== src/Ledger/Operations/Balanced.antt =====
-- Balance of what the builders of src/ledger/operations.ts return, by the shape of their legs.
use ticash_pay_demo.Prelude.Names.{
  ◌+◌, ◌≤◌, ◌≡◌, inl, inr, false, List, [], ◌∷◌, ◌++◌, arith, Bool-cases,
}
use ticash_pay_demo.Prelude.Int.{ℤ, pos, ◌+ℤ◌, ◌-ℤ◌, ◌≤ℤ◌, ◌<ℤ◌, leb_ℤ, int_laws}
use ticash_pay_demo.Prelude.Length.{All-append, length, length-append}
use ticash_pay_demo.Prelude.Result.{Result, ok, err, ◌>>=◌}
use ticash_pay_demo.Money.Currency.{Currency}
use ticash_pay_demo.Ledger.Types.{AccountSpec, PostingDraft, JournalDraft}
use ticash_pay_demo.Ledger.Engine.Balance.{IsBalanced}
use ticash_pay_demo.Ledger.Operations.Accounts.{credit, debit, two}
use ticash_pay_demo.Ledger.Operations.Shape.{
  total-append, IsIn, one_currency, credited, debited, IsIn-credited, IsIn-debited, optional,
  total-optional_credit, total-optional_debit, IsIn-optional, length-optional,
}

-- A builder that returns has returned a balanced journal.
abbrev pub Balances : Result JournalDraft → Type 0
Balances (ok j) = IsBalanced j
Balances (err e) = Unit

pub positive : (x : ℤ) → leb_ℤ x (pos 0) ≡ false → pos 0 <ℤ x
positive x h = ground arith

a_leg_more :
    (p q : PostingDraft) (x net fee : ℤ)
    → pos 0 <ℤ x
    → net ≡ x -ℤ fee
    → 1 ≤ length (optional p net) + length (optional q fee)
a_leg_more p q x net fee h split = elim (Bool-cases (leb_ℤ fee (pos 0))) [
  | inl no_fee ↦ omega (arith, length-optional p net (rw split (below x fee h (ground arith))))
  | inr a_fee ↦ omega (arith, length-optional q fee (positive fee a_fee))
]
  where
    below : (y z : ℤ) → pos 0 <ℤ y → z ≤ℤ pos 0 → pos 0 <ℤ y -ℤ z
    below y z k l = omega int_laws

module _ (c : Currency) (j : JournalDraft) (a b f : AccountSpec) where
  module _ (ca : a.currency ≡ c) (cb : b.currency ≡ c) where
    -- Two legs of one amount.
    pub legs : (x : ℤ) → pos 0 <ℤ x → j.postings ≡ debited a x ∷ credited b x ∷ [] → IsBalanced j
    legs x h ps =
        one_currency c j (rw ps (omega arith))
          (rw ps (IsIn-debited c a x ca h, (IsIn-credited c b x cb h, tt))) (rw ps (omega int_laws))

    module _ (cf : f.currency ≡ c) where
      -- A gross leg that is split into two optional ones, as every retained fee is.
      pub split_legs :
          (x net fee : ℤ)
          → pos 0 <ℤ x
          → pos 0 ≤ℤ fee
          → fee ≤ℤ x
          → net ≡ x -ℤ fee
          → j.postings
            ≡ debited a x ∷ (optional (credited b net) net ++ optional (credited f fee) fee)
          → IsBalanced j
      split_legs x net fee h low high split ps =
          one_currency c j
            (rw (ps, length-append)
              (omega (arith, a_leg_more (credited b net) (credited f fee) x net fee h split)))
            (rw ps (
              IsIn-debited c a x ca h,
              All-append (IsIn c) (optional (credited b net) net) (optional (credited f fee) fee)
                  (IsIn-optional c (credited b net) net (IsIn-credited c b net cb))
                  (IsIn-optional c (credited f fee) fee (IsIn-credited c f fee cf)),
            ))
            (rw
              (
                ps,
                total-append (optional (credited b net) net) (optional (credited f fee) fee),
                total-optional_credit b net (rw split (omega int_laws)),
                total-optional_credit f fee low,
                split,
              )
              (omega int_laws))

      -- A fee on top: what one leg pays is what the two others receive.
      pub fee_between :
          (x fee : ℤ)
          → pos 0 <ℤ x
          → pos 0 ≤ℤ fee
          → j.postings ≡ debited a (x +ℤ fee) ∷ (optional (credited f fee) fee ++ credited b x ∷ [])
          → IsBalanced j
      fee_between x fee h low ps =
          one_currency c j (rw (ps, length-append) (omega arith))
            (rw ps (
              IsIn-debited c a (x +ℤ fee) ca (omega int_laws),
              All-append (IsIn c) (optional (credited f fee) fee) (credited b x ∷ [])
                  (IsIn-optional c (credited f fee) fee (IsIn-credited c f fee cf))
                  (IsIn-credited c b x cb h, tt),
            ))
            (rw
              (
                ps,
                total-append (optional (credited f fee) fee) (credited b x ∷ []),
                total-optional_credit f fee low,
              )
              (omega int_laws))

      pub fee_between_back :
          (x fee : ℤ)
          → pos 0 <ℤ x
          → pos 0 ≤ℤ fee
          → j.postings ≡ debited a x ∷ (optional (debited f fee) fee ++ credited b (x +ℤ fee) ∷ [])
          → IsBalanced j
      fee_between_back x fee h low ps =
          one_currency c j (rw (ps, length-append) (omega arith))
            (rw ps (
              IsIn-debited c a x ca h,
              All-append (IsIn c) (optional (debited f fee) fee) (credited b (x +ℤ fee) ∷ [])
                  (IsIn-optional c (debited f fee) fee (IsIn-debited c f fee cf))
                  (IsIn-credited c b (x +ℤ fee) cb (omega int_laws), tt),
            ))
            (rw
              (
                ps,
                total-append (optional (debited f fee) fee) (credited b (x +ℤ fee) ∷ []),
                total-optional_debit f fee low,
              )
              (omega int_laws))

      -- The same amounts with the fee's leg last.
      pub fee_last :
          (x fee : ℤ)
          → pos 0 <ℤ x
          → pos 0 ≤ℤ fee
          → j.postings ≡ debited a (x +ℤ fee) ∷ credited b x ∷ optional (credited f fee) fee
          → IsBalanced j
      fee_last x fee h low ps =
          one_currency c j (rw ps (omega arith))
            (rw ps (
              IsIn-debited c a (x +ℤ fee) ca (omega int_laws),
              (
                IsIn-credited c b x cb h,
                IsIn-optional c (credited f fee) fee (IsIn-credited c f fee cf),
              ),
            ))
            (rw (ps, total-optional_credit f fee low) (omega int_laws))

      pub fee_last_back :
          (x fee : ℤ)
          → pos 0 <ℤ x
          → pos 0 ≤ℤ fee
          → j.postings ≡ debited a x ∷ credited b (x +ℤ fee) ∷ optional (debited f fee) fee
          → IsBalanced j
      fee_last_back x fee h low ps =
          one_currency c j (rw ps (omega arith))
            (rw ps (
              IsIn-debited c a x ca h,
              (
                IsIn-credited c b (x +ℤ fee) cb (omega int_laws),
                IsIn-optional c (debited f fee) fee (IsIn-debited c f fee cf),
              ),
            ))
            (rw (ps, total-optional_debit f fee low) (omega int_laws))

-- Two pairs of legs.
pub two_pairs :
    (c : Currency) (j : JournalDraft) (a b d e : AccountSpec)
    → a.currency ≡ c
    → b.currency ≡ c
    → d.currency ≡ c
    → e.currency ≡ c
    → (x y : ℤ) → pos 0 <ℤ x
    → pos 0 <ℤ y
    → j.postings ≡ debited a x ∷ credited b x ∷ debited d y ∷ credited e y ∷ []
    → IsBalanced j
two_pairs c j a b d e ca cb cd ce x y h k ps =
    one_currency c j (rw ps (omega arith))
      (rw ps (
        IsIn-debited c a x ca h,
        (IsIn-credited c b x cb h, (IsIn-debited c d y cd k, (IsIn-credited c e y ce k, tt))),
      ))
      (rw ps (omega int_laws))

-- What is built from the postings alone, and carries them unchanged.
abbrev pub Carries : (List PostingDraft → Result JournalDraft) → Type 0
Carries f = (ps : List PostingDraft) → (j : JournalDraft) × (f ps ≡ ok j) × (j.postings ≡ ps)

carried :
    (f : List PostingDraft → Result JournalDraft) (ps : List PostingDraft)
    → Carries f
    → ((j : JournalDraft) → j.postings ≡ ps → IsBalanced j)
    → Balances (f ps)
carried f ps carries h = let (j, made, same) = carries ps in rw made (h j same)

-- The builders of two legs.
pub two_legs :
    (c : Currency) (a b : AccountSpec) (x : ℤ) (f : List PostingDraft → Result JournalDraft)
    → a.currency ≡ c
    → b.currency ≡ c
    → Carries f
    → Balances (two (debit a x) (credit b x) >>= f)
unfolding credit debit
two_legs c a b x f ca cb carries = elim (Bool-cases (leb_ℤ x (pos 0))) [
  | inl bad ↦ rw bad tt
  | inr good ↦ rw good (
      carried f (debited a x ∷ credited b x ∷ []) carries
        (λ j ps. legs c j a b b ca cb x (positive x good) ps))
]
