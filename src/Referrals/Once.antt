-- ===== src/Referrals/Once.antt =====
-- The bonus of src/referrals/referral-service.ts and the ledger.
use ticash_pay_demo.Prelude.Names.{
  ℕ, ◌≡◌, refl, sym, inl, inr, Bool, true, false, not, Option, none, some, List, [], ◌∷◌, arith,
  if◌then◌else◌, Bool-cases, Option-cases,
}
use ticash_pay_demo.Prelude.Int.{ℤ, pos, leb_ℤ}
use ticash_pay_demo.Prelude.Text.{Text, eq_text, eq_text_iff, text_eq}
use ticash_pay_demo.Prelude.Dict.{lookup, insert, lookup-insert, or_else}
use ticash_pay_demo.Prelude.Result.{Result, ok, err, Result-cases}
use ticash_pay_demo.Money.Trim.{trim}
use ticash_pay_demo.Money.Currency.{Currency}
use ticash_pay_demo.Ledger.Types.{JournalDraft, PostedJournal, promo_expense}
use ticash_pay_demo.Ledger.Operations.Accounts.{credit, debit, customer_wallet, system_account}
use ticash_pay_demo.Ledger.Operations.Cash
use ticash_pay_demo.Ledger.Store.{Ledger, empty, post}
use ticash_pay_demo.Ledger.Service.{draft, perform, referral_reward}
use ticash_pay_demo.Ledger.Service.Keyed.{is_posted, Registers, post-Registers, perform-Registers}
use ticash_pay_demo.Referrals.Store.{
  is_pending, ReferralRecord, Code, Referrals, owner_for_code, new_referral, create_referral,
  rewarded_row, mark_rewarded,
}
use ticash_pay_demo.Referrals.Service.{
  ReferralDesk, ReferralBonus, code_for, record_code, record_owner, record_referral, referral_key,
  reward_request, marked, desk_of, on_referred_user_transacted,
}

reward-Registers :
    (now id : Text) (c : Currency) (x : ℤ) (key : Text) (ext : Option Text) (s : Ledger)
    → Registers key s (perform now (referral_reward id c x key ext) s)
unfolding draft Cash.referral_reward
reward-Registers now id c x key ext s =
    perform-Registers key now (referral_reward id c x key ext) s
      (elim (Result-cases (debit (system_account promo_expense c) x)) [
        | inl (p, made) ↦ elim (Result-cases (credit (customer_wallet id c) x)) [
          | inl (q, done) ↦ rw (made, done) refl
          | inr (e, failed) ↦ rw (made, failed) tt
        ]
        | inr (e, failed) ↦ rw failed tt
      ])

abbrev pub is_rewarded : Option ReferralRecord → Bool
is_rewarded none = false
is_rewarded (some r) = not (is_pending r.status)

-- The ledger has a bonus exactly for each rewarded referral.
pub record IsFaithful (s : ReferralDesk) : Type 0 where
  pub pays : (id : Text) → is_posted (referral_key id) s.ledger ≡ is_rewarded (lookup id s.rows)

same_key : (i j : Text) → eq_text (referral_key i) (referral_key j) ≡ eq_text i j
unfolding eq_text
same_key i j = refl

rewarded-insert :
    (id j : Text) (r : ReferralRecord) (rows : Referrals)
    → is_rewarded (lookup j (insert id r rows))
      ≡ (if eq_text id j then not (is_pending r.status) else is_rewarded (lookup j rows))
rewarded-insert id j r rows =
    rw (lookup-insert id j r rows)
      (elim (Bool-cases (eq_text id j)) [ inl same ↦ rw same | inr other ↦ rw other ])

-- A referral that is noted is not rewarded yet.
create_referral-rewarded :
    (referred referrer : Text) (rows : Referrals) (j : Text)
    → is_rewarded (lookup j (create_referral referred referrer rows)) ≡ is_rewarded (lookup j rows)
unfolding create_referral
create_referral-rewarded referred referrer rows j = elim (Option-cases (lookup referred rows)) [
  | inr (r, found) ↦ rw found refl
  | inl missing ↦
      rw (missing, rewarded-insert referred j (new_referral referred referrer) rows)
        (elim (Bool-cases (eq_text referred j)) [
          | inl same ↦
              unfold new_referral is_pending in
              rw (same, sym ((eq_text_iff referred j).0 same), missing) refl
          | inr other ↦ rw other refl
        ])
]

record_owner-rewarded :
    (referred : Text) (rows : Referrals) (o : Option Text) (j : Text)
    → is_rewarded (lookup j (record_owner referred rows o)) ≡ is_rewarded (lookup j rows)
record_owner-rewarded referred rows none j = refl
record_owner-rewarded referred rows (some []) j = refl
record_owner-rewarded referred rows (some (x ∷ xs)) j =
    elim (Bool-cases (eq_text (x ∷ xs) referred)) [
      | inl own ↦ rw own refl
      | inr other ↦ elim (Option-cases (lookup referred rows)) [
        | inr (r, found) ↦ rw (other, found) refl
        | inl missing ↦ rw (other, missing) (create_referral-rewarded referred (x ∷ xs) rows j)
      ]
    ]

record_code-rewarded :
    (referred : Text) (owners : List Code) (rows : Referrals) (code j : Text)
    → is_rewarded (lookup j (record_code referred owners rows code)) ≡ is_rewarded (lookup j rows)
record_code-rewarded referred owners rows [] j = refl
record_code-rewarded referred owners rows (x ∷ xs) j =
    record_owner-rewarded referred rows (owner_for_code (x ∷ xs) owners) j

module _ (s : ReferralDesk) (f : IsFaithful s) where
  record_referral-IsFaithful :
      (to_upper_case : Text → Text) (referred : Text) (code : Option Text)
      → IsFaithful (record_referral to_upper_case referred code s)
  unfolding record_referral
  record_referral-IsFaithful to_upper_case referred code = record {
    pays = λ j.
        rw
          (record_code-rewarded referred s.owners s.rows (to_upper_case (trim (or_else code []))) j)
          (f.pays j);
  }

  transacted-IsFaithful :
      (now id : Text) (b : ReferralBonus) → IsFaithful (on_referred_user_transacted now id b s).1
  unfolding on_referred_user_transacted
  transacted-IsFaithful now id b = elim (Option-cases (lookup id s.rows)) [
    | inl missing ↦ rw missing f
    | inr (r, found) ↦ elim (Bool-cases (is_pending r.status)) [
      | inr over ↦ rw (found, over) f
      | inl waits ↦ elim (Bool-cases (leb_ℤ b.amount_minor (pos 0))) [
        | inl disabled ↦ rw (found, waits, disabled) f
        | inr enabled ↦
            rw (found, waits, enabled)
              (paid r found waits (perform now (reward_request id b r) s.ledger) (
                unfold reward_request in
                reward-Registers now r.referrer_external_id b.currency b.amount_minor
                  (referral_key id) (some id) s.ledger))
      ]
    ]
  ]
    where
      paid :
          (r : ReferralRecord)
          → lookup id s.rows ≡ some r
          → is_pending r.status ≡ true
          → (a : Result PostedJournal × Ledger) → Registers (referral_key id) s.ledger a
          → IsFaithful (desk_of s.owners (marked id b s.rows a)).1
      paid r found waits (err e, l) reg = record {
        pays = λ j. rw (reg (referral_key j), f.pays j) (ground arith);
      }
      paid r found waits (ok p, l) reg = record {
        pays = λ j.
            unfold mark_rewarded in
            rw
              (
                reg (referral_key j),
                same_key id j,
                f.pays j,
                found,
                waits,
                rewarded-insert id j (rewarded_row b.amount_minor b.currency r) s.rows,
              )
              (elim (Bool-cases (eq_text id j)) [
                | inl same ↦
                    unfold rewarded_row is_pending in
                    rw (same, sym ((eq_text_iff id j).0 same)) (ground arith)
                | inr other ↦ rw other (ground arith)
              ]);
      }

-- One call of the service, or a post by another part of the program under a key of its own.
pub data Step : ReferralDesk → ReferralDesk → Type 0 where
  noted :
      (to_upper_case : Text → Text) (s : ReferralDesk) (referred : Text) (code : Option Text)
      → Step s (record_referral to_upper_case referred code s)
  coded :
      (s : ReferralDesk) (drawn : ℕ → Text) (owner : Text)
      → Step s (record s { owners = (code_for drawn owner s.owners).1 })
  transacted :
      (s : ReferralDesk) (now id : Text) (b : ReferralBonus)
      → Step s (on_referred_user_transacted now id b s).1
  other_post :
      (s : ReferralDesk) (now : Text) (j : JournalDraft)
      → ((id : Text) → eq_text j.idempotency_key (referral_key id) ≡ false)
      → Step s (record s { ledger = (post now j s.ledger).1 })

pub data Reach : ReferralDesk → Type 0 where
  start : Reach (record { ledger = empty; owners = []; rows = [] })
  next : {s t : ReferralDesk} → Reach s → Step s t → Reach t

Step-IsFaithful : {s t : ReferralDesk} → Step s t → IsFaithful s → IsFaithful t
Step-IsFaithful (noted up s referred code) f = record_referral-IsFaithful s f up referred code
Step-IsFaithful (coded s drawn owner) f = record { pays = f.pays }
Step-IsFaithful (transacted s now id b) f = transacted-IsFaithful s f now id b
Step-IsFaithful (other_post s now j apart) f =
    let reg = post-Registers now j s.ledger in
    record { pays = λ id. rw (reg (referral_key id), apart id, f.pays id) (ground arith) }

-- In every state that calls of the referral service, at whatever bonus, and posts by other parts
-- under other keys reach from an empty start, the ledger has a bonus under a referred user's key
-- exactly where that user's referral is rewarded.
pub ReferralDesk-IsFaithful : (s : ReferralDesk) → Reach s → IsFaithful s
unfolding is_posted lookup
ReferralDesk-IsFaithful s start = record { pays = λ id. refl }
ReferralDesk-IsFaithful s (next reach step) = Step-IsFaithful step (ReferralDesk-IsFaithful _ reach)
