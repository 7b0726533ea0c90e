-- ===== src/Referrals/Store.antt =====
-- The in-memory store of src/referrals/referral-store.ts.
use ticash_pay_demo.Prelude.Names.{
  ℕ, suc, Bool, true, false, Option, none, some, List, [], ◌∷◌, ◌++◌, ◌||◌, if◌then◌else◌,
}
use ticash_pay_demo.Prelude.Int.{ℤ, pos, eqb_ℤ}
use ticash_pay_demo.Prelude.Text.{Text, eq_text, text_eq}
use ticash_pay_demo.Prelude.Length.{length}
use ticash_pay_demo.Prelude.Dict.{Dict, lookup, insert, values}
use ticash_pay_demo.Prelude.Sums.{add_at}
use ticash_pay_demo.Prelude.Result.{Result, ok, err, plain_error}
use ticash_pay_demo.Money.Currency.{Currency, currency_eq}

pub data ReferralStatus : Type 0 where
  pending rewarded : ReferralStatus

unfoldable pub is_pending : ReferralStatus → Bool
is_pending pending = true
is_pending rewarded = false

pub record ReferralRecord : Type 0 where
  pub referred_external_id : Text
  pub referrer_external_id : Text
  pub status : ReferralStatus
  pub reward_minor : Option ℤ
  pub reward_currency : Option Currency

pub record Code : Type 0 where
  pub code : Text
  pub owner : Text

abbrev pub Referrals : Type 0
Referrals = Dict Text ReferralRecord

-- `getCodeForOwner`
unfoldable pub get_code_for_owner : Text → List Code → Option Text
get_code_for_owner owner [] = none
get_code_for_owner owner (c ∷ cs) =
    let rest = get_code_for_owner owner cs in if eq_text c.owner owner then some c.code else rest

-- `ownerForCode`
unfoldable pub owner_for_code : Text → List Code → Option Text
owner_for_code code [] = none
owner_for_code code (c ∷ cs) =
    let rest = owner_for_code code cs in if eq_text c.code code then some c.owner else rest

-- `this.codes.some(…)`
unfoldable pub is_taken : Text → Text → List Code → Bool
is_taken code owner [] = false
is_taken code owner (c ∷ cs) =
    eq_text c.code code || eq_text c.owner owner || is_taken code owner cs

-- `createCode`
unfoldable pub create_code : Text → Text → List Code → Result (Unit {0}) × List Code
unfolding is_taken
create_code code owner codes =
    if is_taken code owner codes
    then (err plain_error, codes)
    else (ok tt, codes ++ record { code = code; owner = owner } ∷ [])

unfoldable pub new_referral : Text → Text → ReferralRecord
new_referral referred referrer = record {
  referred_external_id = referred;
  referrer_external_id = referrer;
  status = pending;
  reward_minor = none;
  reward_currency = none;
}

abbrev pub create_unless : Text → Text → Referrals → Option ReferralRecord → Referrals
create_unless referred referrer rows (some r) = rows
create_unless referred referrer rows none = insert referred (new_referral referred referrer) rows

-- `createReferral`
unfoldable pub create_referral : Text → Text → Referrals → Referrals
create_referral referred referrer rows = create_unless referred referrer rows (lookup referred rows)

unfoldable pub rewarded_row : ℤ → Currency → ReferralRecord → ReferralRecord
rewarded_row minor currency r = record r {
  status = rewarded;
  reward_minor = some minor;
  reward_currency = some currency;
}

abbrev pub mark_found : Text → ℤ → Currency → Referrals → Option ReferralRecord → Referrals
mark_found id minor currency rows none = rows
mark_found id minor currency rows (some r) =
    if is_pending r.status then insert id (rewarded_row minor currency r) rows else rows

-- `markRewarded`
unfoldable pub mark_rewarded : Text → ℤ → Currency → Referrals → Referrals
mark_rewarded id minor currency rows = mark_found id minor currency rows (lookup id rows)

pub record ReferralStats : Type 0 where
  pub referred_count : ℕ
  pub rewarded_count : ℕ
  pub earned_minor : Dict Currency ℤ

unfoldable pub referred_by : Text → List ReferralRecord → List ReferralRecord
referred_by referrer [] = []
referred_by referrer (r ∷ rs) =
    let rest = referred_by referrer rs in
    if eq_text r.referrer_external_id referrer then r ∷ rest else rest

abbrev pub earn : Option ℤ → Option Currency → ReferralStats → ReferralStats
earn (some x) (some c) s = if eqb_ℤ x (pos 0) then s else record s {
  rewarded_count = suc s.rewarded_count;
  earned_minor = add_at c x s.earned_minor;
}
earn _ _ s = s

-- The loop of `statsForReferrer`.
unfoldable pub earned_over : List ReferralRecord → ReferralStats → ReferralStats
earned_over [] s = s
earned_over (r ∷ rs) s =
    earned_over rs (if is_pending r.status then s else earn r.reward_minor r.reward_currency s)

-- `statsForReferrer`, with the totals as numbers.
unfoldable pub stats_for_referrer : Text → Referrals → ReferralStats
unfolding earned_over referred_by
stats_for_referrer referrer rows =
    let mine = referred_by referrer (values rows) in
    earned_over mine
      (record { referred_count = length mine; rewarded_count = 0; earned_minor = [] })
