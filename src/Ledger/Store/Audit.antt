-- ===== src/Ledger/Store/Audit.antt =====
-- What `reconcile` reports about a ledger that was only ever posted to.
use ticash_pay_demo.Prelude.Names.{some, ◌≡◌, refl, sym, ◌∙◌, true, List, [], ◌∷◌, arith}
use ticash_pay_demo.Prelude.Int.{◌≤ℤ◌, ℤ, pos, ◌+ℤ◌, int_laws, eqb_ℤ_iff, zero-+ℤ}
use ticash_pay_demo.Prelude.Text.{Text, text_eq}
use ticash_pay_demo.Prelude.Dict.{lookup, Dict}
use ticash_pay_demo.Prelude.Sums.{
  amount_at, add_at, amount_at-add_at, amount_at-head, amount_at-nil, IsMap, add_at-IsMap,
}
use ticash_pay_demo.Money.Currency.{Currency, currency_eq}
use ticash_pay_demo.Ledger.Types.{
  is_non_negative, AccountSpec, PostingDraft, JournalDraft, account_key,
}
use ticash_pay_demo.Ledger.Engine.Balance.{rest_zero}
use ticash_pay_demo.Ledger.Store.{StoredJournal, Ledger, empty, post}
use ticash_pay_demo.Ledger.Store.Reads.{
  per_currency, recompute_journal, recompute, divergences, all_zero, reconcile,
}
use ticash_pay_demo.Ledger.Store.Effect.{posted_to}
use ticash_pay_demo.Ledger.Store.Totals.{total_by, total_by-ext, total_by-history, history}
use ticash_pay_demo.Ledger.Store.Invariant.{IsSound, post-IsSound, empty-IsSound}

amount_at-per_currency :
    (c : Currency) (balances : Dict Text ℤ) (accounts : Dict Text AccountSpec)
    (totals : Dict Currency ℤ)
    → amount_at c (per_currency balances accounts totals)
      ≡ amount_at c totals +ℤ total_by c (λ k. amount_at k balances) accounts
unfolding per_currency total_by
amount_at-per_currency c balances [] totals = omega int_laws
amount_at-per_currency c balances ((k, a) ∷ accounts) totals =
    rw
      (
        amount_at-per_currency c balances accounts
            (add_at a.currency (amount_at k balances) totals),
        amount_at-add_at,
      )
      (omega int_laws)

per_currency-IsMap :
    (balances : Dict Text ℤ) (accounts : Dict Text AccountSpec) (totals : Dict Currency ℤ)
    → IsMap totals
    → IsMap (per_currency balances accounts totals)
unfolding per_currency
per_currency-IsMap balances [] totals h = h
per_currency-IsMap balances ((k, a) ∷ accounts) totals h =
    per_currency-IsMap balances accounts (add_at a.currency (amount_at k balances) totals)
      (add_at-IsMap a.currency (amount_at k balances) totals h)

amount_at-recompute_journal :
    (k : Text) (ps : List PostingDraft) (computed : Dict Text ℤ)
    → amount_at k (recompute_journal ps computed) ≡ amount_at k computed +ℤ posted_to k ps
unfolding recompute_journal posted_to
amount_at-recompute_journal k [] computed = omega int_laws
amount_at-recompute_journal k (p ∷ ps) computed =
    rw
      (
        amount_at-recompute_journal k ps (add_at (account_key p.account) p.amount_minor computed),
        amount_at-add_at,
      )
      (omega int_laws)

amount_at-recompute :
    (k : Text) (js : List StoredJournal) (computed : Dict Text ℤ)
    → amount_at k (recompute js computed) ≡ amount_at k computed +ℤ history k js
unfolding recompute history
amount_at-recompute k [] computed = omega int_laws
amount_at-recompute k (j ∷ js) computed =
    rw
      (
        amount_at-recompute k js (recompute_journal j.journal.postings computed),
        amount_at-recompute_journal k j.journal.postings computed,
      )
      (omega int_laws)

all_zero-true :
    (totals : Dict Currency ℤ)
    → IsMap totals
    → ((c : Currency) → amount_at c totals ≡ pos 0)
    → all_zero totals ≡ true
unfolding all_zero
all_zero-true [] m h = refl
all_zero-true ((c, x) ∷ totals) m h =
    let zero_here : x ≡ pos 0 = sym (amount_at-head c x totals) ∙ h c in
    ground (
      arith,
      eqb_ℤ_iff x (pos 0),
      all_zero-true totals m.1 (λ k. rest_zero k c x totals zero_here m.0 (h k)),
    )

no_divergences :
    (balances computed : Dict Text ℤ) (accounts : Dict Text AccountSpec)
    → ((k : Text) → amount_at k balances ≡ amount_at k computed)
    → divergences balances computed accounts ≡ []
unfolding divergences
no_divergences balances computed [] h = refl
no_divergences balances computed ((k, a) ∷ accounts) h = ground (
  arith,
  h k,
  eqb_ℤ_iff (amount_at k balances) (amount_at k computed),
  no_divergences balances computed accounts h,
)

-- In a sound ledger the balances of every currency add up to zero.
pub closed_currency :
    (s : Ledger) (c : Currency)
    → IsSound s
    → total_by c (λ k. amount_at k s.balances) s.accounts ≡ pos 0
closed_currency s c h =
    total_by-ext c (λ k. amount_at k s.balances) (λ k. history k s.journals) s.accounts h.cached
    ∙ total_by-history c s.journals s.accounts h.registry h.known h.balanced

-- `reconcile` finds a sound ledger balanced in every currency, and every cached balance equal to
-- the sum of its postings.
pub reconcile_sound :
    (s : Ledger)
    → IsSound s
    → ((reconcile s).balanced ≡ true)
      × ((reconcile s).consistent ≡ true)
      × ((reconcile s).cache_divergences ≡ [])
unfolding reconcile
reconcile_sound s h =
    let agree : (k : Text) → amount_at k s.balances ≡ amount_at k (recompute s.journals []) =
      λ k. rw (amount_at-recompute k s.journals [], amount_at-nil k, zero-+ℤ) (h.cached k) in
    let zero : (c : Currency) → amount_at c (per_currency s.balances s.accounts []) ≡ pos 0 = λ c.
      rw (
        amount_at-per_currency c s.balances s.accounts [],
        amount_at-nil c,
        zero-+ℤ,
        closed_currency s c h,
      ) in
    let none_diverge = no_divergences s.balances (recompute s.journals []) s.accounts agree in
    (
      all_zero-true (per_currency s.balances s.accounts [])
          (per_currency-IsMap s.balances s.accounts [] tt) zero,
      rw none_diverge,
      none_diverge,
    )

-- A run of posts, each with the time of its call; a refused journal changes nothing that the
-- next one sees but the registered accounts.
unfoldable pub post_all : List (Text × JournalDraft) → Ledger → Ledger
post_all [] s = s
post_all ((now, j) ∷ calls) s = post_all calls (post now j s).1

pub post_all-IsSound :
    (calls : List (Text × JournalDraft)) (s : Ledger) → IsSound s → IsSound (post_all calls s)
unfolding post_all
post_all-IsSound [] s h = h
post_all-IsSound ((now, j) ∷ calls) s h =
    post_all-IsSound calls (post now j s).1 (post-IsSound now j s h)

-- Whatever journals are posted to an empty ledger, in whatever order, its reconciliation report
-- is balanced, consistent and lists no divergence.
pub reconcile_after_posts :
    (calls : List (Text × JournalDraft))
    → ((reconcile (post_all calls empty)).balanced ≡ true)
      × ((reconcile (post_all calls empty)).consistent ≡ true)
      × ((reconcile (post_all calls empty)).cache_divergences ≡ [])
reconcile_after_posts calls =
    reconcile_sound (post_all calls empty) (post_all-IsSound calls empty empty-IsSound)

-- Whatever journals are posted to an empty ledger, no account of a kind that must not go below
-- zero is left with a negative balance.
pub never_overdrawn :
    (calls : List (Text × JournalDraft)) (k : Text) (a : AccountSpec)
    → lookup k (post_all calls empty).accounts ≡ some a
    → is_non_negative a.kind ≡ true
    → pos 0 ≤ℤ amount_at k (post_all calls empty).balances
never_overdrawn calls k a found guarded =
    (post_all-IsSound calls empty empty-IsSound).covered k a found guarded
