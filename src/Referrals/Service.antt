-- ===== src/Referrals/Service.antt =====
-- src/referrals/referral-service.ts. The codes that are drawn, the clock, `toUpperCase` and what
-- `getBonus` answers are arguments.
use ticash_pay_demo.Prelude.Names.{
  ℕ, zero, suc, Option, none, some, List, [], ◌∷◌, ◌++◌, if◌then◌else◌,
}
use ticash_pay_demo.Prelude.Int.{ℤ, pos, leb_ℤ}
use ticash_pay_demo.Prelude.Text.{Text, codes, eq_text, text_eq}
use ticash_pay_demo.Prelude.Dict.{lookup, or_else}
use ticash_pay_demo.Prelude.Result.{Result, ok, err, plain_error}
use ticash_pay_demo.Money.Currency.{Currency}
use ticash_pay_demo.Money.Trim.{trim}
use ticash_pay_demo.Ledger.Types.{PostedJournal}
use ticash_pay_demo.Ledger.Store.{Ledger}
use ticash_pay_demo.Ledger.Service.{Request, referral_reward, perform}
use ticash_pay_demo.Referrals.Store.{
  is_pending, ReferralRecord, Code, Referrals, get_code_for_owner, owner_for_code, create_code,
  create_referral, mark_rewarded,
}

-- The ledger and the store that the service works on.
pub record ReferralDesk : Type 0 where
  pub ledger : Ledger
  pub owners : List Code
  pub rows : Referrals

pub record ReferralBonus : Type 0 where
  pub amount_minor : ℤ
  pub currency : Currency

-- `if (existing) return existing`, and what follows it.
abbrev pub given_or :
    List Code → (List Code → Result Text × List Code) → Option Text → Result Text × List Code
given_or cs again none = again cs
given_or cs again (some []) = again cs
given_or cs again (some (x ∷ xs)) = (ok (x ∷ xs), cs)

abbrev pub retry :
    Text
    → Text
    → Result (Unit {0}) × List Code
    → (List Code → Result Text × List Code)
    → Result Text × List Code
retry owner code (ok _, cs) again = (ok code, cs)
retry owner code (err e, cs) again = given_or cs again (get_code_for_owner owner cs)

-- The loop of `codeFor`: `drawn n` is the code drawn with `n` attempts left after it.
unfoldable pub allocate : ℕ → (ℕ → Text) → Text → List Code → Result Text × List Code
allocate zero drawn owner cs = (err plain_error, cs)
allocate (suc n) drawn owner cs =
    retry owner (drawn n) (create_code (drawn n) owner cs) (allocate n drawn owner)

-- `codeFor`
unfoldable pub code_for : (ℕ → Text) → Text → List Code → Result Text × List Code
unfolding allocate
code_for drawn owner cs = given_or cs (allocate 6 drawn owner) (get_code_for_owner owner cs)

abbrev pub record_unless : Text → Text → Referrals → Option ReferralRecord → Referrals
record_unless referred referrer rows (some r) = rows
record_unless referred referrer rows none = create_referral referred referrer rows

abbrev pub record_owner : Text → Referrals → Option Text → Referrals
record_owner referred rows none = rows
record_owner referred rows (some []) = rows
record_owner referred rows (some (x ∷ xs)) =
    if eq_text (x ∷ xs) referred
    then rows
    else record_unless referred (x ∷ xs) rows (lookup referred rows)

abbrev pub record_code : Text → List Code → Referrals → Text → Referrals
record_code referred owners rows [] = rows
record_code referred owners rows (x ∷ xs) =
    record_owner referred rows (owner_for_code (x ∷ xs) owners)

-- `record`
unfoldable pub record_referral : (Text → Text) → Text → Option Text → ReferralDesk → ReferralDesk
record_referral to_upper_case referred code s = record s {
  rows = record_code referred s.owners s.rows (to_upper_case (trim (or_else code [])));
}

abbrev pub referral_key : Text → Text
referral_key id = codes "referral:" ++ id

unfoldable pub reward_request : Text → ReferralBonus → ReferralRecord → Request
reward_request id b r =
    referral_reward r.referrer_external_id b.currency b.amount_minor (referral_key id) (some id)

abbrev pub marked :
    Text
    → ReferralBonus
    → Referrals
    → Result PostedJournal × Ledger
    → Result (Unit {0}) × Ledger × Referrals
marked id b rows (err e, l) = (err e, l, rows)
marked id b rows (ok p, l) = (ok tt, l, mark_rewarded id b.amount_minor b.currency rows)

abbrev pub desk_of :
    List Code → Result (Unit {0}) × Ledger × Referrals → Result (Unit {0}) × ReferralDesk
desk_of owners (r, l, rows) = (r, record { ledger = l; owners = owners; rows = rows })

abbrev pub reward_found :
    Text
    → Text
    → ReferralBonus
    → ReferralDesk
    → Option ReferralRecord
    → Result (Unit {0}) × ReferralDesk
reward_found now id b s none = (ok tt, s)
reward_found now id b s (some r) =
    if is_pending r.status
    then if leb_ℤ b.amount_minor (pos 0)
      then (ok tt, s)
      else desk_of s.owners (marked id b s.rows (perform now (reward_request id b r) s.ledger))
    else (ok tt, s)

-- `onReferredUserTransacted`
unfoldable pub on_referred_user_transacted :
    Text → Text → ReferralBonus → ReferralDesk → Result (Unit {0}) × ReferralDesk
unfolding reward_request
on_referred_user_transacted now id b s = reward_found now id b s (lookup id s.rows)
