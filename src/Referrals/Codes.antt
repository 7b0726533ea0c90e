-- ===== src/Referrals/Codes.antt =====
-- `codeFor` of src/referrals/referral-service.ts: whom a code leads to.
use ticash_pay_demo.Prelude.Names.{
  ℕ, zero, suc, ◌≡◌, refl, sym, ◌∙◌, ap, inl, inr, true, false, Option, none, some, List, [], ◌∷◌,
  ◌++◌, ◌||◌, arith, Bool-cases,
}
use ticash_pay_demo.Prelude.Text.{Text, eq_text, eq_text_iff, eq_text_comm, text_eq}
use ticash_pay_demo.Prelude.Dict.{beq_refl}
use ticash_pay_demo.Prelude.Weigh.{some_injective}
use ticash_pay_demo.Prelude.Result.{Result, ok, err}
use ticash_pay_demo.Referrals.Store.{
  Code, get_code_for_owner, owner_for_code, is_taken, create_code,
}
use ticash_pay_demo.Referrals.Service.{given_or, allocate, code_for}

-- No code and no owner stands twice.
abbrev pub IsUnique : List Code → Type 0
IsUnique [] = Unit
IsUnique (c ∷ cs) = (is_taken c.code c.owner cs ≡ false) × IsUnique cs

module _ (key : Text) (c : Code) (cs : List Code) where
  given-cons_eq : eq_text c.owner key ≡ true → get_code_for_owner key (c ∷ cs) ≡ some c.code
  unfolding get_code_for_owner
  given-cons_eq h = rw h refl

  given-cons_ne :
      eq_text c.owner key ≡ false → get_code_for_owner key (c ∷ cs) ≡ get_code_for_owner key cs
  unfolding get_code_for_owner
  given-cons_ne h = rw h refl

  owner-cons_eq : eq_text c.code key ≡ true → owner_for_code key (c ∷ cs) ≡ some c.owner
  unfolding owner_for_code
  owner-cons_eq h = rw h refl

  owner-cons_ne : eq_text c.code key ≡ false → owner_for_code key (c ∷ cs) ≡ owner_for_code key cs
  unfolding owner_for_code
  owner-cons_ne h = rw h refl

nobody : (key : Text) → get_code_for_owner key [] ≡ none
unfolding get_code_for_owner
nobody key = refl

-- A code that an owner was given is taken.
given-taken :
    (owner code other : Text) (cs : List Code)
    → get_code_for_owner owner cs ≡ some code
    → is_taken code other cs ≡ true
unfolding is_taken
given-taken owner code other [] h = cc (nobody owner)
given-taken owner code other (c ∷ cs) h = elim (Bool-cases (eq_text c.owner owner)) [
  | inl hers ↦
      let same : c.code ≡ code =
        some_injective c.code code (sym (given-cons_eq owner c cs hers) ∙ h) in
      rw ((eq_text_iff c.code code).1 same) refl
  | inr theirs ↦
      rw (given-taken owner code other cs (sym (given-cons_ne owner c cs theirs) ∙ h))
        (ground arith)
]

-- Where nothing stands twice, the code of an owner leads back to the owner.
owner-given :
    (owner code : Text) (cs : List Code)
    → IsUnique cs
    → get_code_for_owner owner cs ≡ some code
    → owner_for_code code cs ≡ some owner
owner-given owner code [] u h = cc (nobody owner)
owner-given owner code (c ∷ cs) u h = elim (Bool-cases (eq_text c.owner owner)) [
  | inl hers ↦
      let same : c.code ≡ code =
        some_injective c.code code (sym (given-cons_eq owner c cs hers) ∙ h) in
      owner-cons_eq code c cs ((eq_text_iff c.code code).1 same)
      ∙ ap some ((eq_text_iff c.owner owner).0 hers)
  | inr theirs ↦
      let later : get_code_for_owner owner cs ≡ some code =
        sym (given-cons_ne owner c cs theirs) ∙ h in
      elim (Bool-cases (eq_text c.code code)) [
        | inr other ↦ owner-cons_ne code c cs other ∙ owner-given owner code cs (u.1) later
        | inl same ↦
            twice c.code code c.owner cs ((eq_text_iff c.code code).0 same) (u.0)
              (given-taken owner code c.owner cs later)
      ]
]
  where
    twice :
        (x y z : Text) (ds : List Code)
        → x ≡ y
        → is_taken x z ds ≡ false
        → is_taken y z ds ≡ true
        → owner_for_code code (c ∷ cs) ≡ some owner
    twice x y z ds e no_one taken = cc

-- A new code stands behind the others and leads to its owner.
owner-appended :
    (code owner : Text) (cs : List Code)
    → is_taken code owner cs ≡ false
    → owner_for_code code (cs ++ record { code = code; owner = owner } ∷ []) ≡ some owner
unfolding is_taken
owner-appended code owner [] h =
    owner-cons_eq code (record { code = code; owner = owner }) [] (beq_refl code)
owner-appended code owner (c ∷ cs) h =
    owner-cons_ne code c _ (ground (arith, h)) ∙ owner-appended code owner cs (ground (arith, h))

taken-appended :
    (code owner x y : Text) (cs : List Code)
    → is_taken x y (cs ++ record { code = code; owner = owner } ∷ [])
      ≡ (is_taken x y cs || eq_text code x || eq_text owner y)
unfolding is_taken
taken-appended code owner x y [] = ground arith
taken-appended code owner x y (c ∷ cs) = rw (taken-appended code owner x y cs) (ground arith)

appended-IsUnique :
    (code owner : Text) (cs : List Code)
    → is_taken code owner cs ≡ false
    → IsUnique cs
    → IsUnique (cs ++ record { code = code; owner = owner } ∷ [])
unfolding is_taken
appended-IsUnique code owner [] h u = (refl, tt)
appended-IsUnique code owner (c ∷ cs) h u = (
  rw (taken-appended code owner c.code c.owner cs, u.0)
      (ground (arith, h, eq_text_comm code c.code, eq_text_comm owner c.owner)),
  appended-IsUnique code owner cs (ground (arith, h)) (u.1),
)

-- What a call that answers `r` leaves: no code or owner twice, and the code that it answers with
-- leads to the owner.
abbrev pub Leads : Text → Result Text × List Code → Type 0
Leads owner (ok code, cs) = IsUnique cs × (owner_for_code code cs ≡ some owner)
Leads owner (err e, cs) = IsUnique cs

given_or-Leads :
    (owner : Text) (cs : List Code) (again : List Code → Result Text × List Code)
    → IsUnique cs
    → Leads owner (again cs)
    → (found : Option Text) → get_code_for_owner owner cs ≡ found
    → Leads owner (given_or cs again found)
given_or-Leads owner cs again u h none e = h
given_or-Leads owner cs again u h (some []) e = h
given_or-Leads owner cs again u h (some (x ∷ xs)) e = (u, owner-given owner (x ∷ xs) cs u e)

allocate-Leads :
    (n : ℕ) (drawn : ℕ → Text) (owner : Text) (cs : List Code)
    → IsUnique cs
    → Leads owner (allocate n drawn owner cs)
unfolding allocate create_code
allocate-Leads zero drawn owner cs u = u
allocate-Leads (suc n) drawn owner cs u = elim (Bool-cases (is_taken (drawn n) owner cs)) [
  | inr free ↦
      rw (allocate, free)
        (appended-IsUnique (drawn n) owner cs free u, owner-appended (drawn n) owner cs free)
  | inl taken ↦
      rw (allocate, taken)
        (given_or-Leads owner cs (allocate n drawn owner) u (allocate-Leads n drawn owner cs u)
          (get_code_for_owner owner cs) refl)
]

-- Where no code and no owner stands twice, none does after `codeFor` whatever codes are drawn, and
-- a code that it answers with is one that `ownerForCode` leads back to the caller.
pub code_for-Leads :
    (drawn : ℕ → Text) (owner : Text) (cs : List Code)
    → IsUnique cs
    → Leads owner (code_for drawn owner cs)
unfolding code_for
code_for-Leads drawn owner cs u =
    given_or-Leads owner cs (allocate 6 drawn owner) u (allocate-Leads 6 drawn owner cs u)
      (get_code_for_owner owner cs) refl
