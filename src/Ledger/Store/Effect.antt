-- ===== src/Ledger/Store/Effect.antt =====
-- What the loops of `post` compute: the change of each account, the registered accounts, and
-- what the overdraft guard has checked when it lets a journal through.
use ticash_pay_demo.Prelude.Names.{
  ◌≡◌, ◌≢◌, refl, sym, ◌∙◌, inl, inr, true, Option, none, some, List, [], ◌∷◌, arith, if◌then◌else◌,
  Bool-cases,
}
use ticash_pay_demo.Prelude.Int.{ℤ, pos, ◌+ℤ◌, ◌≤ℤ◌, int_laws}
use ticash_pay_demo.Prelude.Text.{Text, eq_text, eq_text_iff, text_eq}
use ticash_pay_demo.Prelude.Dict.{
  Dict, lookup, insert, lookup-insert, lookup-insert_self, lookup-cons_eq, lookup-cons_ne,
}
use ticash_pay_demo.Prelude.Length.{All}
use ticash_pay_demo.Prelude.Sums.{
  amount_at, add_at, amount_at-add_at, IsMap, insert-IsMap, add_at-IsMap,
}
use ticash_pay_demo.Prelude.Result.{Result, ok, err}
use ticash_pay_demo.Ledger.Types.{AccountSpec, PostingDraft, account_key, is_non_negative}
use ticash_pay_demo.Ledger.Store.{add_deltas, register, and_then, guard_one, guard_deltas}

-- The sum of the postings to one account: the reference for every balance.
unfoldable pub posted_to : Text → List PostingDraft → ℤ
posted_to k [] = pos 0
posted_to k (p ∷ ps) =
    (if eq_text (account_key p.account) k then p.amount_minor else pos 0) +ℤ posted_to k ps

pub amount_at-add_deltas :
    (k : Text) (ps : List PostingDraft) (deltas : Dict Text ℤ)
    → amount_at k (add_deltas deltas ps) ≡ amount_at k deltas +ℤ posted_to k ps
unfolding add_deltas posted_to
amount_at-add_deltas k [] deltas = omega int_laws
amount_at-add_deltas k (p ∷ ps) deltas =
    rw
      (
        amount_at-add_deltas k ps (add_at (account_key p.account) p.amount_minor deltas),
        amount_at-add_at,
      )
      (omega int_laws)

pub add_deltas-IsMap :
    (ps : List PostingDraft) (deltas : Dict Text ℤ) → IsMap deltas → IsMap (add_deltas deltas ps)
unfolding add_deltas
add_deltas-IsMap [] deltas h = h
add_deltas-IsMap (p ∷ ps) deltas h =
    add_deltas-IsMap ps (add_at (account_key p.account) p.amount_minor deltas)
      (add_at-IsMap (account_key p.account) p.amount_minor deltas h)

-- Each account stands under its own key, once.
pub record IsRegistry (accounts : Dict Text AccountSpec) : Type 0 where
  pub keyed_once : IsMap accounts
  pub own_key : (k : Text) (a : AccountSpec) → lookup k accounts ≡ some a → account_key a ≡ k

register_one-IsRegistry :
    (a : AccountSpec) (accounts : Dict Text AccountSpec)
    → IsRegistry accounts
    → IsRegistry (insert (account_key a) a accounts)
register_one-IsRegistry a accounts r = record {
  keyed_once = insert-IsMap (account_key a) a accounts r.keyed_once;
  own_key = λ k b h. ground (
    arith,
    lookup-insert (account_key a) k a accounts,
    eq_text_iff (account_key a) k,
    r.own_key k b,
  );
}

pub register-IsRegistry :
    (ps : List PostingDraft) (accounts : Dict Text AccountSpec)
    → IsRegistry accounts
    → IsRegistry (register accounts ps)
unfolding register
register-IsRegistry [] accounts r = r
register-IsRegistry (p ∷ ps) accounts r =
    register-IsRegistry ps (insert (account_key p.account) p.account accounts)
      (register_one-IsRegistry p.account accounts r)

abbrev pub IsKnown : Dict Text AccountSpec → Text → Type 0
IsKnown accounts k = lookup k accounts ≢ none

insert-IsKnown :
    (k j : Text) (a : AccountSpec) (accounts : Dict Text AccountSpec)
    → IsKnown accounts j
    → IsKnown (insert k a accounts) j
insert-IsKnown k j a accounts h e = ground (arith, lookup-insert k j a accounts)

pub register-IsKnown :
    (ps : List PostingDraft) (accounts : Dict Text AccountSpec) (k : Text)
    → IsKnown accounts k
    → IsKnown (register accounts ps) k
unfolding register
register-IsKnown [] accounts k h = h
register-IsKnown (p ∷ ps) accounts k h =
    register-IsKnown ps (insert (account_key p.account) p.account accounts) k
      (insert-IsKnown (account_key p.account) k p.account accounts h)

abbrev pub AllKnown : Dict Text AccountSpec → List PostingDraft → Type 0
AllKnown accounts = All (λ p. IsKnown accounts (account_key p.account))

pub register-AllKnown :
    (ps : List PostingDraft) (accounts : Dict Text AccountSpec) → AllKnown (register accounts ps) ps
unfolding register
register-AllKnown [] accounts = tt
register-AllKnown (p ∷ ps) accounts = (
  register-IsKnown ps (insert (account_key p.account) p.account accounts) (account_key p.account)
      (λ e. ground (arith, lookup-insert_self (account_key p.account) p.account accounts)),
  register-AllKnown ps (insert (account_key p.account) p.account accounts),
)

-- An account that no posting names receives nothing.
pub posted_to-unknown :
    (k : Text) (ps : List PostingDraft) (accounts : Dict Text AccountSpec)
    → AllKnown accounts ps
    → lookup k accounts ≡ none
    → posted_to k ps ≡ pos 0
unfolding posted_to
posted_to-unknown k [] accounts h e = refl
posted_to-unknown k (p ∷ ps) accounts h e = elim (Bool-cases (eq_text (account_key p.account) k)) [
  | inl same ↦ absurd (h.0 (rw ((eq_text_iff (account_key p.account) k).0 same) e))
  | inr other ↦ rw (other, posted_to-unknown k ps accounts h.1 e) (omega int_laws)
]

guard_one-ok :
    (o : Option AccountSpec) (a : AccountSpec) (next : ℤ)
    → guard_one o next ≡ ok tt
    → o ≡ some a
    → is_non_negative a.kind ≡ true
    → pos 0 ≤ℤ next
unfolding guard_one
guard_one-ok o a next h e n = ground arith

and_then-ok : (m r : Result (Unit {0})) → and_then m r ≡ ok tt → (m ≡ ok tt) × (r ≡ ok tt)
and_then-ok (ok u) r h = (refl, h)
and_then-ok (err e) r h = (h, cc)

-- What the guard has checked.
pub guard_deltas-ok :
    (deltas balances : Dict Text ℤ) (accounts : Dict Text AccountSpec) (k : Text) (a : AccountSpec)
    (x : ℤ)
    → guard_deltas balances accounts deltas ≡ ok tt
    → lookup k deltas ≡ some x
    → lookup k accounts ≡ some a
    → is_non_negative a.kind ≡ true
    → pos 0 ≤ℤ amount_at k balances +ℤ x
unfolding guard_deltas
guard_deltas-ok [] balances accounts k a x h e f n = unfold lookup in cc
guard_deltas-ok ((j, y) ∷ deltas) balances accounts k a x h e f n =
    let (here, later) =
      and_then-ok (guard_one (lookup j accounts) (amount_at j balances +ℤ y))
        (guard_deltas balances accounts deltas) h in
    elim (Bool-cases (eq_text j k)) [
      | inl same ↦
          let j_is_k = (eq_text_iff j k).0 same in
          let y_is_x : y ≡ x = cc (lookup-cons_eq j k y deltas same) in
          rw (← y_is_x) (
            rw (← j_is_k)
              (guard_one-ok (lookup j accounts) a (amount_at j balances +ℤ y) here (rw j_is_k f) n))
      | inr other ↦
          guard_deltas-ok deltas balances accounts k a x later
            (sym (lookup-cons_ne j k y deltas other) ∙ e) f n
    ]
