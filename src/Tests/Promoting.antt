-- ===== src/Tests/Promoting.antt =====
-- The theorems on referrals (src/referrals) and on the market's commission at concrete calls.
use ticash_pay_demo.Prelude.Names.{
  ℕ, ◌≡◌, refl, false, arith, ltb, if◌then◌else◌, Option, none, some, [], ◌∷◌,
}
use ticash_pay_demo.Prelude.Int.{ℤ, pos, negsuc, ◌≤ℤ◌}
use ticash_pay_demo.Prelude.Text.{Text, codes}
use ticash_pay_demo.Prelude.Runtime.{Numbers}
use ticash_pay_demo.Money.Currency.{brl, usdt}
use ticash_pay_demo.Ledger.Store.{empty}
use ticash_pay_demo.P2p.Commission.{CommissionState, set_commission_bps}
use ticash_pay_demo.P2p.Commission.Kept.{Keeps, set_commission_bps-Keeps}
use ticash_pay_demo.Referrals.Store.{is_taken, get_code_for_owner, create_code}
use ticash_pay_demo.Referrals.Service.{
  ReferralDesk, code_for, record_referral, on_referred_user_transacted,
}
use ticash_pay_demo.Referrals.Once.{IsFaithful, Reach, ReferralDesk-IsFaithful}
use ticash_pay_demo.Referrals.Once
use ticash_pay_demo.Referrals.Codes.{Leads, code_for-Leads}

-- Ana has a code, Ben signs up with it and pays something, and Ana gets five reais.
abbrev nobody : ReferralDesk
nobody = record { ledger = empty; owners = []; rows = [] }

abbrev coded : ReferralDesk
coded = record nobody { owners = (code_for (λ n. codes "ABC") (codes "ana") nobody.owners).1 }

abbrev noted : ReferralDesk
noted = record_referral (λ t. t) (codes "ben") (some (codes " ABC ")) coded

abbrev paid : ReferralDesk
paid =
    (on_referred_user_transacted (codes "t1") (codes "ben")
      (record { amount_minor = pos 500; currency = brl }) noted).1

paid-Reach : Reach paid
paid-Reach =
    Once.next
      (Once.next (Once.next Once.start (Once.coded nobody (λ n. codes "ABC") (codes "ana")))
        (Once.noted (λ t. t) coded (codes "ben") (some (codes " ABC "))))
      (Once.transacted noted (codes "t1") (codes "ben")
        (record { amount_minor = pos 500; currency = brl }))

ReferralDesk-IsFaithful_example : IsFaithful paid
ReferralDesk-IsFaithful_example = ReferralDesk-IsFaithful paid paid-Reach

-- Ben is drawn Ana's code first, and then one of his own.
abbrev draws : ℕ → Text
draws n = if ltb n 5 then codes "DEF" else codes "ABC"

code_for-Leads_example : Leads (codes "ben") (code_for draws (codes "ben") coded.owners)
unfolding is_taken code_for get_code_for_owner create_code
code_for-Leads_example = code_for-Leads draws (codes "ben") coded.owners (refl, tt)

-- A run time that prints a number as one character.
abbrev print : ℤ → Text
print (pos n) = n ∷ []
print (negsuc n) = []

abbrev read : Text → Option ℤ
read [] = none
read (c ∷ cs) = some (pos c)

abbrev numbers : Numbers
numbers = record { to_integer = read; is_not_positive = λ t. false }

reads : (n : ℤ) → pos 0 ≤ℤ n → n ≤ℤ pos 2000 → numbers.to_integer (print n) ≡ some n
reads (pos n) low high = refl
reads (negsuc n) low high = ground arith

abbrev market : CommissionState
market = record {
  cfg = record { asset = usdt; commission_bps = pos 100; confirm_window_minutes = pos 60 };
  settings = some [];
}

set_commission_bps-Keeps_example :
    Keeps numbers market (set_commission_bps print (some (pos 150)) market)
set_commission_bps-Keeps_example =
    set_commission_bps-Keeps numbers print reads (some (pos 150)) market
