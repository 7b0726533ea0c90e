-- ===== src/Airtime/Sale.antt =====
-- The journals of a top-up and of its refund (src/airtime/airtime-service.ts), and what they post to
-- each account.
use ticash_pay_demo.Prelude.Names.{
  ◌≡◌, refl, inl, inr, true, none, ◌∷◌, arith, if◌then◌else◌, Bool-cases, if_same,
}
use ticash_pay_demo.Prelude.Int.{ℤ, pos, neg, ◌+ℤ◌, ◌≤ℤ◌, ◌<ℤ◌, leb_ℤ, ltb_ℤ, int_laws}
use ticash_pay_demo.Prelude.Text.{Text, eq_text, text_eq}
use ticash_pay_demo.Prelude.Result.{ok, WhenOk, WhenOk-use}
use ticash_pay_demo.Money.Currency.{Currency, currency_eq}
use ticash_pay_demo.Fx.Bps.{apply_bps}
use ticash_pay_demo.Fx.Bps.Bounds.{IsPart, apply_bps-IsPart}
use ticash_pay_demo.Ledger.Types.{
  AccountSpec, JournalDraft, account_key, settlement, fee_revenue, reversal,
}
use ticash_pay_demo.Ledger.Operations.Accounts.{customer_wallet, system_account, credit, debit}
use ticash_pay_demo.Ledger.Operations.Cash
use ticash_pay_demo.Ledger.Operations.Shape.{
  credited, debited, optional, credit-ok, debit-ok, when-credit, when-debit,
}
use ticash_pay_demo.Ledger.Operations.Balanced.{positive}
use ticash_pay_demo.Ledger.Store.Effect.{posted_to}
use ticash_pay_demo.Ledger.Service.{airtime_topup, reverse_airtime, draft}
use ticash_pay_demo.Airtime.Topup.{Order}

-- What one account receives of `x` that goes to `a`.
abbrev pub part : Text → AccountSpec → ℤ → ℤ
part k a x = if eq_text (account_key a) k then x else pos 0

-- What a sale moves on the account `k`: the customer pays the cost and the margin, the settlement
-- account gets the cost, the fees get the margin.
abbrev pub sale : Text → Order → ℤ → ℤ
sale k o margin =
    part k (customer_wallet o.customer_id o.currency) (neg (o.cost_minor +ℤ margin))
    +ℤ (part k (system_account settlement o.currency) o.cost_minor
        +ℤ part k (system_account fee_revenue o.currency) margin)

posted-credit :
    (k : Text) (a : AccountSpec) (x : ℤ)
    → pos 0 ≤ℤ x
    → posted_to k (optional (credited a x) x) ≡ part k a x
unfolding posted_to optional
posted-credit k a x low = elim (Bool-cases (ltb_ℤ (pos 0) x)) [
  | inl more ↦ rw more (omega int_laws)
  | inr less ↦
      let zero : x ≡ pos 0 = ground (arith, less, low) in
      rw (zero, if_same (eq_text (account_key a) k) (pos 0)) refl
]

posted-debit :
    (k : Text) (a : AccountSpec) (x : ℤ)
    → pos 0 ≤ℤ x
    → posted_to k (optional (debited a x) x) ≡ neg (part k a x)
unfolding posted_to optional neg ◌+ℤ◌
posted-debit k a x low = elim (Bool-cases (ltb_ℤ (pos 0) x)) [
  | inl more ↦ rw more (elim (Bool-cases (eq_text (account_key a) k)) [
    | inl same ↦ rw same (omega int_laws)
    | inr other ↦ rw other refl
  ])
  | inr less ↦
      let zero : x ≡ pos 0 = ground (arith, less, low) in
      rw (zero, if_same (eq_text (account_key a) k) (pos 0)) refl
]

-- The margin on a positive cost is not negative.
pub margin_low : (x b m : ℤ) → pos 0 <ℤ x → apply_bps x b ≡ ok m → pos 0 ≤ℤ m
margin_low x b m h e =
    (WhenOk-use (IsPart x) (apply_bps x b) m e (apply_bps-IsPart x b (omega int_laws))).0

module _ (id : Text) (c : Currency) (cost margin : ℤ) (key : Text) where
  abbrev wallet : AccountSpec
  wallet = customer_wallet id c

  abbrev main : AccountSpec
  main = system_account settlement c

  abbrev cut : AccountSpec
  cut = system_account fee_revenue c

  abbrev pub SaleShape : JournalDraft → Type 0
  SaleShape j =
      (pos 0 <ℤ cost)
      × (j.idempotency_key ≡ key)
      × (j.postings
          ≡ debited wallet (cost +ℤ margin)
            ∷ credited main cost
            ∷ optional (credited cut margin) margin)

  pub sale-Shape :
      (pos 0 <ℤ cost → pos 0 ≤ℤ margin)
      → WhenOk SaleShape (draft (airtime_topup id c cost margin key none))
  unfolding draft Cash.airtime_topup
  sale-Shape low = elim (Bool-cases (leb_ℤ cost (pos 0))) [
    | inl bad ↦ refused bad
    | inr good ↦
        rw
          (
            debit-ok wallet (cost +ℤ margin)
                (omega (int_laws, positive cost good, low (positive cost good))),
            credit-ok main cost (positive cost good),
            when-credit cut margin,
          )
          (positive cost good, refl, refl)
  ]
    where
      refused :
          leb_ℤ cost (pos 0) ≡ true
          → WhenOk SaleShape (Cash.airtime_topup id c cost margin key none)
      refused bad =
          unfold Cash.airtime_topup debit credit in
          elim (Bool-cases (leb_ℤ (cost +ℤ margin) (pos 0))) [
            | inl none_left ↦ rw none_left tt
            | inr some_left ↦ rw (some_left, bad) tt
          ]

  abbrev pub refund : JournalDraft
  refund = record {
    tx_type = reversal;
    idempotency_key = key;
    postings =
        debited main cost ∷ credited wallet (cost +ℤ margin) ∷ optional (debited cut margin) margin;
    correlation_id = none;
    external_ref = none;
    metadata = none;
  }

  pub refund-made :
      pos 0 <ℤ cost → pos 0 ≤ℤ margin → draft (reverse_airtime id c cost margin key) ≡ ok refund
  unfolding draft Cash.reverse_airtime
  refund-made high low =
      rw
        (
          debit-ok main cost high,
          credit-ok wallet (cost +ℤ margin) (omega int_laws),
          when-debit cut margin,
        )
        refl

negated : (k : Text) (a : AccountSpec) (x : ℤ) → part k a (neg x) ≡ neg (part k a x)
unfolding neg
negated k a x = elim (Bool-cases (eq_text (account_key a) k)) [
  | inl same ↦ rw same refl
  | inr other ↦ rw other refl
]

module _ (k : Text) (o : Order) (margin : ℤ) (low : pos 0 ≤ℤ margin) where
  pub posted-sale :
      (j : JournalDraft)
      → j.postings
        ≡ debited (customer_wallet o.customer_id o.currency) (o.cost_minor +ℤ margin)
          ∷ credited (system_account settlement o.currency) o.cost_minor
          ∷ optional (credited (system_account fee_revenue o.currency) margin) margin
      → posted_to k j.postings ≡ sale k o margin
  unfolding posted_to
  posted-sale j shape =
      rw (shape, posted-credit k (system_account fee_revenue o.currency) margin low) refl

  pub posted-refund :
      (key : Text)
      → posted_to k (refund o.customer_id o.currency o.cost_minor margin key).postings
        ≡ neg (sale k o margin)
  unfolding posted_to
  posted-refund key =
      rw
        (
          posted-debit k (system_account fee_revenue o.currency) margin low,
          negated k (system_account settlement o.currency) o.cost_minor,
          negated k (customer_wallet o.customer_id o.currency) (o.cost_minor +ℤ margin),
        )
        (omega int_laws)
