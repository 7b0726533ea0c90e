-- ===== src/Prelude/Weigh.antt =====
-- A sum over the values of a map.
use ticash_pay_demo.Prelude.Names.{
  ◌≡◌, refl, sym, ◌∙◌, inl, inr, Bool, false, ◌||◌, none, some, [], ◌∷◌, arith, Eq, ◌==◌,
  Bool-cases,
}
use ticash_pay_demo.Prelude.Int.{ℤ, pos, ◌+ℤ◌, ◌-ℤ◌, ◌≤ℤ◌, int_laws}
use ticash_pay_demo.Prelude.Dict.{Dict, lookup, insert, lookup-cons_eq, lookup-cons_ne}

pub some_injective {ℓ} : {A : Type ℓ} (x u : A) → some x ≡ some u → x ≡ u
some_injective x u h = cc

pub no_entry {ℓ} : {A : Type ℓ} (v : A) → none ≡ some v → ⊥
no_entry v e = cc

module _ {ℓ κ} {K : Type ℓ} {V : Type κ} ⦃e : Eq K⦄ where
  unfoldable pub weigh : (V → ℤ) → Dict K V → ℤ
  weigh w [] = pos 0
  weigh w ((k, v) ∷ d) = w v +ℤ weigh w d

  pub weigh-insert_new :
      (w : V → ℤ) (k : K) (v : V) (d : Dict K V)
      → lookup k d ≡ none
      → weigh w (insert k v d) ≡ weigh w d +ℤ w v
  unfolding weigh insert
  weigh-insert_new w k v [] h = omega int_laws
  weigh-insert_new w k v ((j, u) ∷ d) h = elim (Bool-cases (j == k)) [
    | inl same ↦ cc (lookup-cons_eq j k u d same)
    | inr other ↦
        rw (other)
          (rw (weigh-insert_new w k v d (rw (← lookup-cons_ne j k u d other) h)) (omega int_laws))
  ]

  lookup-nil : (k : K) → lookup {V = V} k [] ≡ none
  unfolding lookup
  lookup-nil k = refl

  pub weigh-insert_old :
      (w : V → ℤ) (k : K) (v u : V) (d : Dict K V)
      → lookup k d ≡ some u
      → weigh w (insert k v d) ≡ weigh w d +ℤ (w v -ℤ w u)
  unfolding weigh insert
  weigh-insert_old w k v u [] h = cc (lookup-nil k)
  weigh-insert_old w k v u ((j, x) ∷ d) h = elim (Bool-cases (j == k)) [
    | inl same ↦
        rw same (rw (some_injective x u (sym (lookup-cons_eq j k x d same) ∙ h)) (omega int_laws))
    | inr other ↦
        rw (other)
          (rw (weigh-insert_old w k v u d (rw (← lookup-cons_ne j k x d other) h)) (omega int_laws))
  ]

  -- A property of every entry.
  abbrev pub Every {μ} : (K → V → Type μ) → Dict K V → Type μ
  Every P [] = Unit
  Every P ((k, v) ∷ d) = P k v × Every P d

  pub Every-insert {μ} :
      (P : K → V → Type μ) (k : K) (v : V) (d : Dict K V)
      → P k v
      → Every P d
      → Every P (insert k v d)
  unfolding insert
  Every-insert P k v [] p h = (p, tt)
  Every-insert P k v ((j, x) ∷ d) p h = elim (Bool-cases (j == k)) [
    | inl same ↦ rw same (rw ((e.beq_iff j k).0 same) p, h.1)
    | inr other ↦ rw other (h.0, Every-insert P k v d p h.1)
  ]

  pub Every-lookup {μ} :
      (P : K → V → Type μ) (k : K) (v : V) (d : Dict K V) → Every P d → lookup k d ≡ some v → P k v
  Every-lookup P k v [] h found = absurd (no_entry v (sym (lookup-nil k) ∙ found))
  Every-lookup P k v ((j, x) ∷ d) h found = elim (Bool-cases (j == k)) [
    | inl same ↦
        rw
          (
            ← (e.beq_iff j k).0 same,
            ← some_injective x v (sym (lookup-cons_eq j k x d same) ∙ found),
          )
          (h.0)
    | inr other ↦ Every-lookup P k v d h.1 (sym (lookup-cons_ne j k x d other) ∙ found)
  ]

  pub Every-map {μ ν} :
      (P : K → V → Type μ) (Q : K → V → Type ν) (d : Dict K V)
      → ((k : K) (v : V) → P k v → Q k v)
      → Every P d
      → Every Q d
  Every-map P Q [] f h = tt
  Every-map P Q ((k, v) ∷ d) f h = (f k v h.0, Every-map P Q d f h.1)

  pub weigh-nonneg : (w : V → ℤ) (d : Dict K V) → Every (λ k v. pos 0 ≤ℤ w v) d → pos 0 ≤ℤ weigh w d
  unfolding weigh
  weigh-nonneg w [] h = omega arith
  weigh-nonneg w ((k, v) ∷ d) h = omega (int_laws, h.0, weigh-nonneg w d h.1)

  -- One entry weighs no more than all.
  pub weigh-lookup :
      (w : V → ℤ) (k : K) (v : V) (d : Dict K V)
      → Every (λ j u. pos 0 ≤ℤ w u) d
      → lookup k d ≡ some v
      → w v ≤ℤ weigh w d
  unfolding weigh
  weigh-lookup w k v [] h found = absurd (no_entry v (sym (lookup-nil k) ∙ found))
  weigh-lookup w k v ((j, x) ∷ d) h found = elim (Bool-cases (j == k)) [
    | inl same ↦
        rw (← some_injective x v (sym (lookup-cons_eq j k x d same) ∙ found))
          (omega (int_laws, weigh-nonneg w d h.1))
    | inr other ↦
        omega (int_laws, h.0, weigh-lookup w k v d h.1 (sym (lookup-cons_ne j k x d other) ∙ found))
  ]

  pub weigh-ext : (f g : V → ℤ) (d : Dict K V) → Every (λ k v. f v ≡ g v) d → weigh f d ≡ weigh g d
  unfolding weigh
  weigh-ext f g [] h = refl
  weigh-ext f g ((k, v) ∷ d) h = rw (h.0, weigh-ext f g d h.1) refl

  -- `[...d.values()].some(p)`
  unfoldable pub some_value : (V → Bool) → Dict K V → Bool
  some_value p [] = false
  some_value p ((k, v) ∷ d) = p v || some_value p d

  pub some_value-false :
      (p : V → Bool) (d : Dict K V) → some_value p d ≡ false → Every (λ k v. p v ≡ false) d
  unfolding some_value
  some_value-false p [] h = tt
  some_value-false p ((k, v) ∷ d) h = (ground (arith, h), some_value-false p d (ground (arith, h)))
