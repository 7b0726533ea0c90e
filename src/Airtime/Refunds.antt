-- ===== src/Airtime/Refunds.antt =====
-- What a call of `topup` (src/airtime/airtime-service.ts) moves: the price of what was sent, and
-- nothing where the provider failed.
use ticash_pay_demo.Prelude.Names.{
  ℕ, ◌≡◌, refl, ◌∙◌, inl, inr, false, none, some, [], ◌∷◌, ◌++◌, arith,
}
use ticash_pay_demo.Prelude.Int.{ℤ, pos, neg, ◌+ℤ◌, ◌≤ℤ◌, ◌<ℤ◌, int_laws}
use ticash_pay_demo.Prelude.Text.{Text, codes, eq_text, text_eq}
use ticash_pay_demo.Prelude.Dict.{lookup}
use ticash_pay_demo.Prelude.Sums.{amount_at}
use ticash_pay_demo.Prelude.Result.{Result, ok, err, Failure, WhenOk}
use ticash_pay_demo.Money.Currency.{currency_eq}
use ticash_pay_demo.Money.Decimal.{from_minor}
use ticash_pay_demo.Fx.Bps.{apply_bps}
use ticash_pay_demo.Ledger.Types.{JournalDraft, PostedJournal}
use ticash_pay_demo.Ledger.Operations.Balanced.{Balances}
use ticash_pay_demo.Ledger.Service.Coherent.{draft-Balances}
use ticash_pay_demo.Ledger.Store.{Ledger, register, post}
use ticash_pay_demo.Ledger.Store.Effect.{posted_to}
use ticash_pay_demo.Ledger.Store.Invariant.{IsSound, register-IsSound}
use ticash_pay_demo.Ledger.Store.Outcome.{Outcome, IsCommitted, post-Outcome}
use ticash_pay_demo.Ledger.Store.Acceptance.{Affords, post_accepts}
use ticash_pay_demo.Ledger.Service.{airtime_topup, reverse_airtime, perform, draft, post_draft}
use ticash_pay_demo.Airtime.Margins.{Margins, get_margin}
use ticash_pay_demo.Airtime.Topup.{
  Send, Order, Receipt, refunded, sent, debited_then, priced, topup,
}
use ticash_pay_demo.Airtime.Sale.{
  sale, margin_low, SaleShape, sale-Shape, refund, refund-made, posted-sale, posted-refund,
}

-- A call that returned has moved the price that it reports, one that threw has moved nothing.
abbrev pub Settles : Order → Ledger → Result Receipt × Ledger → Type 0
Settles o s (ok r, t) =
    (k : Text) → amount_at k t.balances ≡ amount_at k s.balances +ℤ sale k o r.margin_minor
Settles o s (err e, t) = (k : Text) → amount_at k t.balances ≡ amount_at k s.balances

longer : (t : Text) (c : ℕ) (cs : Text) → eq_text t (t ++ c ∷ cs) ≡ false
unfolding eq_text
longer [] c cs = refl
longer (x ∷ xs) c cs = ground (arith, longer xs c cs)

undone : (x y : ℤ) → x +ℤ y +ℤ neg y ≡ x
undone x y = omega int_laws

abbrev pub reverse_key : Order → Text
reverse_key o = o.idempotency_key ++ codes ":reverse"

module _ (now now' : Text) (o : Order) (s : Ledger) (margin : ℤ) (low : pos 0 ≤ℤ margin)
    (h : IsSound s) (free : lookup (reverse_key o) s.by_idempotency_key ≡ none) where
  abbrev back : JournalDraft
  back = refund o.customer_id o.currency o.cost_minor margin (reverse_key o)

  -- The state after the debit.
  module _ (j : JournalDraft)
      (shape : SaleShape o.customer_id o.currency o.cost_minor margin o.idempotency_key j)
      (t : Ledger) (p : PostedJournal) (c : IsCommitted now j s t p) where
    back-free : lookup (reverse_key o) t.by_idempotency_key ≡ none
    back-free =
        c.keys (reverse_key o) ∙ rw (shape.1, longer o.idempotency_key b':' (codes "reverse")) free

    back_moves :
        (k : Text) → amount_at k t.balances +ℤ posted_to k back.postings ≡ amount_at k s.balances
    back_moves k =
        rw
          (
            c.moved k,
            posted-sale k o margin low j (shape.2),
            posted-refund k o margin low (reverse_key o),
          )
          (undone (amount_at k s.balances) (sale k o margin))

    back-Affords : Affords t back
    back-Affords k a found guarded = rw (back_moves k) (
        (register-IsSound (record s { accounts = register s.accounts j.postings }) back.postings
            (register-IsSound s j.postings h)).covered
          k a (rw (c.registered) at found) guarded)

    back-Settles :
        (e : Failure) (r : Result PostedJournal × Ledger) (q : PostedJournal)
        → Outcome now' back t r
        → r.0 ≡ ok q
        → Settles o s (refunded r (err e))
    back-Settles e (err f, u) q out made = cc
    back-Settles e (ok q', u) q (inl again) made = λ k. again.moved k ∙ back_moves k
    back-Settles e (ok q', u) q (inr replay) made = absurd (cc (back-free, replay.was_known))

    answered-Settles : (a : Result Text) → Settles o s (sent now' o margin p t a)
    unfolding perform
    answered-Settles (ok ref) = λ k. rw (c.moved k, posted-sale k o margin low j (shape.2)) refl
    answered-Settles (err e) =
        let made =
          refund-made o.customer_id o.currency o.cost_minor margin (reverse_key o) (shape.0) low in
        let balanced : Balances
            (draft (reverse_airtime o.customer_id o.currency o.cost_minor margin (reverse_key o))) =
          draft-Balances
            (reverse_airtime o.customer_id o.currency o.cost_minor margin (reverse_key o)) low in
        let done = post_accepts now' back t (rw made at balanced) back-free back-Affords in
        rw made (back-Settles e (post now' back t) done.0 (post-Outcome now' back t) done.1)

module _ (send : Send) (now now' : Text) (o : Order) (s : Ledger) (h : IsSound s)
    (new : lookup o.idempotency_key s.by_idempotency_key ≡ none)
    (free : lookup (reverse_key o) s.by_idempotency_key ≡ none) where
  drafted-Settles :
      (margin : ℤ)
      → (pos 0 <ℤ o.cost_minor → pos 0 ≤ℤ margin)
      → (d : Result JournalDraft)
      → WhenOk (SaleShape o.customer_id o.currency o.cost_minor margin o.idempotency_key) d
      → Settles o s (debited_then send now' o margin (post_draft now s d))
  drafted-Settles margin low (err e) shape = λ k. refl
  drafted-Settles margin low (ok j) shape = posted (post now j s) (post-Outcome now j s)
    where
      posted :
          (r : Result PostedJournal × Ledger)
          → Outcome now j s r
          → Settles o s (debited_then send now' o margin r)
      posted (err e, t) out = λ k. rw (out.same_balances) refl
      posted (ok p, t) (inl c) =
          answered-Settles now now' o s margin (low (shape.0)) h free j shape t p c (
            send o.account_number o.sku_code (from_minor o.cost_minor o.currency) o.currency
              o.idempotency_key)
      posted (ok p, t) (inr replay) =
          let known : lookup o.idempotency_key s.by_idempotency_key ≡ some replay.first =
            rw (shape.1) at replay.was_known in
          absurd (cc (new, known))

-- In a sound ledger that knows neither the order's key nor the key of its refund, whatever the
-- provider answers, where nothing else runs while it is asked: a call of `topup` that returns has moved exactly the price that it reports,
-- from the customer to settlement and fees; one that throws, before the debit, at it, or because the
-- provider failed, leaves every account's balance as it was. So the refund after a failure is never
-- refused, and it undoes the whole debit.
pub topup-Settles :
    (send : Send) (to_upper_case : Text → Text) (margins : Margins) (now now' : Text) (o : Order)
    (s : Ledger)
    → IsSound s
    → lookup o.idempotency_key s.by_idempotency_key ≡ none
    → lookup (reverse_key o) s.by_idempotency_key ≡ none
    → Settles o s (topup send to_upper_case margins now now' o s)
unfolding topup perform
topup-Settles send to_upper_case margins now now' o s h new free =
    step (apply_bps o.cost_minor (get_margin to_upper_case o.country_iso margins)) refl
  where
    step :
        (a : Result ℤ)
        → apply_bps o.cost_minor (get_margin to_upper_case o.country_iso margins) ≡ a
        → Settles o s (priced send now now' o s a)
    step (err e) is = λ k. refl
    step (ok margin) is =
        let low : pos 0 <ℤ o.cost_minor → pos 0 ≤ℤ margin = λ high.
          margin_low o.cost_minor (get_margin to_upper_case o.country_iso margins) margin high is in
        drafted-Settles send now now' o s h new free margin low
          (draft
            (airtime_topup o.customer_id o.currency o.cost_minor margin o.idempotency_key none))
          (sale-Shape o.customer_id o.currency o.cost_minor margin o.idempotency_key low)
