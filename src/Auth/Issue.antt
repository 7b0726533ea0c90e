-- ===== src/Auth/Issue.antt =====
-- `issueOtp` of src/auth/auth-service.ts. The clock, `toISOString`, `sha256Hex`, the code that
-- `newOtpCode` draws, and what the verifier and the sender answer are arguments.
use ticash_pay_demo.Prelude.Names.{ℕ, ◌*◌, Option, none, some, List, if◌then◌else◌, leb}
use ticash_pay_demo.Prelude.Int.{ℤ, pos, ◌+ℤ◌, ◌-ℤ◌}
use ticash_pay_demo.Prelude.Text.{Text}
use ticash_pay_demo.Prelude.Result.{Result, err, auth_error, rate_limited}
use ticash_pay_demo.Auth.Otp.{OtpRow, SaveOtpInput, save_otp, count_otps_since}

pub record AuthConfig : Type 0 where
  pub jwt_secret : Text
  pub access_ttl_sec : ℕ
  pub refresh_ttl_sec : ℕ
  pub otp_ttl_sec : ℕ
  pub otp_length : ℕ
  pub otp_max_per_hour : ℕ

-- What stands outside of the service.
pub record Outside : Type 0 where
  pub iso : ℤ → Text
  pub sha256_hex : Text → Text
  pub verifier : Option (Text → Text → Result (Unit {0}))
  pub send : Text → Text → Text → Result (Unit {0})

abbrev pub window_start : Outside → ℤ → Text
window_start out now = out.iso (now -ℤ pos 3600000)

unfoldable pub otp_input : AuthConfig → Outside → ℤ → Text → Text → Text → SaveOtpInput
otp_input cfg out now code phone purpose = record {
  phone = phone;
  code_hash = out.sha256_hex code;
  purpose = purpose;
  expires_at = out.iso (now +ℤ pos (cfg.otp_ttl_sec * 1000));
}

abbrev pub issue_by :
    Option (Text → Text → Result (Unit {0}))
    → AuthConfig
    → Outside
    → ℤ
    → Text
    → Text
    → Text
    → Text
    → List OtpRow
    → Result (Unit {0}) × List OtpRow
issue_by (some start) cfg out now clock code phone purpose otps = (start phone purpose, otps)
issue_by none cfg out now clock code phone purpose otps =
    if leb cfg.otp_max_per_hour (count_otps_since phone (window_start out now) otps)
    then (err (auth_error rate_limited), otps)
    else (
      out.send phone code purpose,
      save_otp clock (otp_input cfg out now code phone purpose) otps,
    )

-- `issueOtp`
unfoldable pub issue_otp :
    AuthConfig
    → Outside
    → ℤ
    → Text
    → Text
    → Text
    → Text
    → List OtpRow
    → Result (Unit {0}) × List OtpRow
issue_otp cfg out = issue_by out.verifier cfg out
