-- ===== src/Auth/Otp.antt =====
-- The one-time codes of src/auth/in-memory-auth-store.ts. `clock()` is an argument, and moments are
-- the texts that `toISOString` prints.
use ticash_pay_demo.Prelude.Names.{
  ℕ, suc, Bool, true, false, Option, none, some, List, [], ◌∷◌, ◌++◌, ◌||◌, ◌&&◌, not,
  if◌then◌else◌, ltb, eqb,
}
use ticash_pay_demo.Prelude.Text.{Text, eq_text}

-- `<` of two strings: by the first unit in which they differ.
unfoldable pub before : Text → Text → Bool
before [] [] = false
before [] (_ ∷ _) = true
before (_ ∷ _) [] = false
before (x ∷ xs) (y ∷ ys) = ltb x y || (eqb x y && before xs ys)

pub record OtpRow : Type 0 where
  pub phone : Text
  pub code_hash : Text
  pub purpose : Text
  pub expires_at : Text
  pub consumed_at : Option Text
  pub created_at : Text

pub record SaveOtpInput : Type 0 where
  pub phone : Text
  pub code_hash : Text
  pub purpose : Text
  pub expires_at : Text

unfoldable pub otp_row : Text → SaveOtpInput → OtpRow
otp_row clock input = record {
  phone = input.phone;
  code_hash = input.code_hash;
  purpose = input.purpose;
  expires_at = input.expires_at;
  consumed_at = none;
  created_at = clock;
}

-- `saveOtp`
unfoldable pub save_otp : Text → SaveOtpInput → List OtpRow → List OtpRow
save_otp clock input otps = otps ++ otp_row clock input ∷ []

abbrev pub is_unconsumed : Option Text → Bool
is_unconsumed none = true
is_unconsumed (some t) = false

-- The condition in the loop of `consumeOtp`.
unfoldable pub is_usable : Text → Text → Text → OtpRow → Bool
is_usable phone hash now o =
    eq_text o.phone phone
    && eq_text o.code_hash hash
    && is_unconsumed o.consumed_at
    && before now o.expires_at

unfoldable pub consumed : Text → OtpRow → OtpRow
consumed now o = record o { consumed_at = some now }

-- One row of the loop, which runs from the last row to the first.
abbrev pub consume_row :
    Text → Bool → OtpRow → List OtpRow → Bool × List OtpRow → Bool × List OtpRow
consume_row now usable o os (true, rest) = (true, o ∷ rest)
consume_row now usable o os (false, rest) =
    if usable then (true, consumed now o ∷ os) else (false, o ∷ os)

-- `consumeOtp`
unfoldable pub consume_otp : Text → Text → Text → List OtpRow → Bool × List OtpRow
consume_otp phone hash now [] = (false, [])
consume_otp phone hash now (o ∷ os) =
    consume_row now (is_usable phone hash now o) o os (consume_otp phone hash now os)

unfoldable pub is_since : Text → Text → OtpRow → Bool
is_since phone since o = eq_text o.phone phone && not (before o.created_at since)

-- `countOtpsSince`
unfoldable pub count_otps_since : Text → Text → List OtpRow → ℕ
count_otps_since phone since [] = 0
count_otps_since phone since (o ∷ os) =
    let rest = count_otps_since phone since os in if is_since phone since o then suc rest else rest
