-- ===== src/Prelude/Sums.antt =====
-- Maps of amounts, as the source keeps them: `m.set(k, (m.get(k) ?? 0n) + x)`.
use ticash_pay_demo.Prelude.Names.{
  ◌≡◌, refl, inl, inr, none, some, [], ◌∷◌, arith, if◌then◌else◌, Eq, ◌==◌, Bool-cases,
}
use ticash_pay_demo.Prelude.Int.{ℤ, pos, ◌+ℤ◌, int_laws}
use ticash_pay_demo.Prelude.Dict.{Dict, lookup, insert, or_else, lookup-insert, beq_refl}

module _ {ℓ} {K : Type ℓ} ⦃e : Eq K⦄ where
  -- `m.get(k) ?? 0n`
  unfoldable pub amount_at : K → Dict K ℤ → ℤ
  amount_at k d = or_else (lookup k d) (pos 0)

  unfoldable pub add_at : K → ℤ → Dict K ℤ → Dict K ℤ
  unfolding amount_at
  add_at k x d = insert k (amount_at k d +ℤ x) d

  -- `for (const [k, x] of deltas) m.set(k, (m.get(k) ?? 0n) + x)`
  unfoldable pub add_all : Dict K ℤ → Dict K ℤ → Dict K ℤ
  unfolding add_at
  add_all [] d = d
  add_all ((k, x) ∷ deltas) d = add_all deltas (add_at k x d)

  pub amount_at-add_at :
      (j k : K) (x : ℤ) (d : Dict K ℤ)
      → amount_at j (add_at k x d) ≡ amount_at j d +ℤ (if k == j then x else pos 0)
  unfolding amount_at add_at
  amount_at-add_at j k x d = rw lookup-insert (elim (Bool-cases (k == j)) [
    | inl same ↦ rw (same, (e.beq_iff k j).0 same) refl
    | inr other ↦ rw other (omega int_laws)
  ])

-- No key stands twice.
abbrev pub IsMap {ℓ κ} : {K : Type ℓ} {V : Type κ} ⦃e : Eq K⦄ → Dict K V → Type κ
IsMap [] = Unit
IsMap ((k, v) ∷ d) = (lookup k d ≡ none) × IsMap d

pub insert-IsMap {ℓ κ} :
    {K : Type ℓ} {V : Type κ} ⦃e : Eq K⦄ (k : K) (v : V) (d : Dict K V)
    → IsMap d
    → IsMap (insert k v d)
unfolding insert
insert-IsMap k v [] h = (unfold lookup in refl, tt)
insert-IsMap ⦃e⦄ k v ((j, w) ∷ d) h =
    ground (arith, e.beq_iff k j, e.beq_iff j k, insert-IsMap k v d h.1, lookup-insert k j v d)

module _ {ℓ} {K : Type ℓ} ⦃e : Eq K⦄ where
  pub add_at-IsMap : (k : K) (x : ℤ) (d : Dict K ℤ) → IsMap d → IsMap (add_at k x d)
  unfolding add_at
  add_at-IsMap k x d h = insert-IsMap k (amount_at k d +ℤ x) d h

  pub amount_at-nil : (k : K) → amount_at k [] ≡ pos 0
  unfolding amount_at lookup
  amount_at-nil k = refl

  pub amount_at-none : (k : K) (d : Dict K ℤ) → lookup k d ≡ none → amount_at k d ≡ pos 0
  unfolding amount_at
  amount_at-none k d h = rw h

  pub amount_at-some : (k : K) (x : ℤ) (d : Dict K ℤ) → lookup k d ≡ some x → amount_at k d ≡ x
  unfolding amount_at
  amount_at-some k x d h = rw h

  pub amount_at-if :
      (j k : K) (x : ℤ) (d : Dict K ℤ)
      → amount_at j ((k, x) ∷ d) ≡ (if k == j then x else amount_at j d)
  unfolding amount_at lookup
  amount_at-if j k x d = ground arith

  pub amount_at-head : (k : K) (x : ℤ) (d : Dict K ℤ) → amount_at k ((k, x) ∷ d) ≡ x
  unfolding amount_at lookup
  amount_at-head k x d = rw (beq_refl k) refl

  -- An entry that stands first, in a map.
  pub amount_at-cons :
      (j k : K) (x : ℤ) (d : Dict K ℤ)
      → lookup k d ≡ none
      → amount_at j ((k, x) ∷ d) ≡ amount_at j d +ℤ (if k == j then x else pos 0)
  unfolding amount_at lookup
  amount_at-cons j k x d h = elim (Bool-cases (k == j)) [
    | inl same ↦ rw (same, ← (e.beq_iff k j).0 same, h) (omega int_laws)
    | inr other ↦ rw other (omega int_laws)
  ]

  pub amount_at-add_all :
      (j : K) (deltas d : Dict K ℤ)
      → IsMap deltas
      → amount_at j (add_all deltas d) ≡ amount_at j d +ℤ amount_at j deltas
  unfolding add_all
  amount_at-add_all j [] d h = unfold amount_at lookup in omega int_laws
  amount_at-add_all j ((k, x) ∷ deltas) d h =
      rw
        (
          amount_at-add_all j deltas (add_at k x d) h.1,
          amount_at-add_at,
          amount_at-cons _ _ _ _ h.0,
        )
        (omega int_laws)
