-- ===== src/Auth/OneTime.antt =====
-- `consumeOtp` of src/auth/in-memory-auth-store.ts: a code works once.
use ticash_pay_demo.Prelude.Names.{
  ℕ, suc, ◌+◌, ◌≤◌, ◌≡◌, refl, inl, inr, Bool, true, false, List, [], ◌∷◌, ◌&&◌, arith, ltb,
  if◌then◌else◌, Bool-cases,
}
use ticash_pay_demo.Prelude.Text.{Text, eq_text, eq_text_iff}
use ticash_pay_demo.Auth.Otp.{
  OtpRow, is_usable, consumed, consume_row, consume_otp, is_since, count_otps_since,
}

-- How many codes of this number and hash would be accepted at this moment.
unfoldable pub usable : Text → Text → Text → List OtpRow → ℕ
usable phone hash now [] = 0
usable phone hash now (o ∷ os) =
    let rest = usable phone hash now os in if is_usable phone hash now o then suc rest else rest

-- The answer `a` takes one code that is usable away, where there is one: it says whether it did,
-- no other code changes, and the number of codes that were sent stays.
pub record Consumes (phone hash now : Text) (otps : List OtpRow) (a : Bool × List OtpRow)
    : Type 0 where
  pub answers : a.0 ≡ ltb 0 (usable phone hash now otps)
  pub spent : usable phone hash now otps ≡ (if a.0 then 1 else 0) + usable phone hash now (a.1)
  pub never_more : (p h t : Text) → usable p h t (a.1) ≤ usable p h t otps
  pub others :
      (p h t : Text)
      → (eq_text phone p && eq_text hash h) ≡ false
      → usable p h t (a.1) ≡ usable p h t otps
  pub sent : (p t : Text) → count_otps_since p t (a.1) ≡ count_otps_since p t otps

consumed-unusable : (now p h t : Text) (o : OtpRow) → is_usable p h t (consumed now o) ≡ false
unfolding is_usable consumed
consumed-unusable now p h t o = ground arith

consumed-since : (now p t : Text) (o : OtpRow) → is_since p t (consumed now o) ≡ is_since p t o
unfolding is_since consumed
consumed-since now p t o = refl

-- A row is usable for one number and one hash.
usable-apart :
    (phone hash now p h t : Text) (o : OtpRow)
    → is_usable phone hash now o ≡ true
    → (eq_text phone p && eq_text hash h) ≡ false
    → is_usable p h t o ≡ false
unfolding is_usable
usable-apart phone hash now p h t o u apart = ground (
  arith,
  u,
  apart,
  eq_text_iff o.phone phone,
  eq_text_iff o.code_hash hash,
  eq_text_iff o.phone p,
  eq_text_iff o.code_hash h,
  eq_text_iff phone p,
  eq_text_iff hash h,
)

module _ (phone hash now : Text) (o : OtpRow) (os : List OtpRow) where
  row-Consumes :
      (rest : Bool × List OtpRow)
      → Consumes phone hash now os rest
      → Consumes phone hash now (o ∷ os) (consume_row now (is_usable phone hash now o) o os rest)
  unfolding usable count_otps_since
  row-Consumes (true, rest) c = record {
    answers = ground (arith, c.answers);
    spent = ground (arith, c.spent);
    never_more = λ p h t. ground (arith, c.never_more p h t);
    others = λ p h t apart. rw (c.others p h t apart) refl;
    sent = λ p t. rw (c.sent p t) refl;
  }
  row-Consumes (false, rest) c = elim (Bool-cases (is_usable phone hash now o)) [
    | inl u ↦ rw u (record {
      answers = rw u (ground arith);
      spent = rw (u, consumed-unusable now phone hash now o) (omega arith);
      never_more = λ p h t. rw (consumed-unusable now p h t o) (ground arith);
      others = λ p h t apart.
          rw (consumed-unusable now p h t o, usable-apart phone hash now p h t o u apart) refl;
      sent = λ p t. rw (consumed-since now p t o) refl;
    })
    | inr no_use ↦ rw no_use (record {
      answers = rw no_use (c.answers);
      spent = rw no_use (omega arith);
      never_more = λ p h t. ground arith;
      others = λ p h t apart. refl;
      sent = λ p t. refl;
    })
  ]

-- `consumeOtp` accepts exactly where a code of this number and hash is neither used nor expired.
-- Accepting uses up exactly one such code, no code becomes usable again at any moment, the codes of
-- other numbers and hashes stay, and so does the count that the hourly limit reads.
pub consume_otp-Consumes :
    (phone hash now : Text) (otps : List OtpRow)
    → Consumes phone hash now otps (consume_otp phone hash now otps)
unfolding consume_otp usable
consume_otp-Consumes phone hash now [] = record {
  answers = refl;
  spent = refl;
  never_more = λ p h t. ground arith;
  others = λ p h t apart. refl;
  sent = λ p t. refl;
}
consume_otp-Consumes phone hash now (o ∷ os) =
    row-Consumes phone hash now o os (consume_otp phone hash now os)
      (consume_otp-Consumes phone hash now os)
