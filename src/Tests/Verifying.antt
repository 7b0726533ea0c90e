-- ===== src/Tests/Verifying.antt =====
-- The theorems on one-time codes and sessions (src/auth) at concrete calls.
use ticash_pay_demo.Prelude.Names.{◌≡◌, refl, true, false, none, List, [], ◌∷◌, arith}
use ticash_pay_demo.Prelude.Int.{ℤ, pos, negsuc, ◌+ℤ◌}
use ticash_pay_demo.Prelude.Text.{Text, codes, eq_text}
use ticash_pay_demo.Prelude.Result.{ok}
use ticash_pay_demo.Auth.Otp.{before, OtpRow, consume_otp, count_otps_since}
use ticash_pay_demo.Auth.Issue.{AuthConfig, Outside, issue_otp}
use ticash_pay_demo.Auth.OneTime.{Consumes, consume_otp-Consumes}
use ticash_pay_demo.Auth.Limited.{Limits, issue_otp-Limits, issue_otp-works}
use ticash_pay_demo.Auth.Sessions.{Sessions, create_session, rotate_session}
use ticash_pay_demo.Auth.Rotated.{
  is_live, Call, rotate, revoke, after_all, issues, issues_any, redeemed_once,
}

-- Moments as texts of one character, a code as its own hash.
abbrev iso : ℤ → Text
iso (pos n) = n ∷ []
iso (negsuc n) = []

abbrev outside : Outside
outside = record {
  iso = iso;
  sha256_hex = λ t. t;
  verifier = none;
  send = λ phone code purpose. ok tt;
}

abbrev config : AuthConfig
config = record {
  jwt_secret = codes "secret";
  access_ttl_sec = 900;
  refresh_ttl_sec = 2592000;
  otp_ttl_sec = 300;
  otp_length = 6;
  otp_max_per_hour = 2;
}

abbrev sent_once : List OtpRow
sent_once =
    (issue_otp config outside (pos 4000000) (iso (pos 4000000)) (codes "123456") (codes "5511")
      (codes "login") []).1

consume_otp-Consumes_example :
    Consumes
      (codes "5511")
      (codes "123456")
      (iso (pos 4000100))
      sent_once
      (consume_otp (codes "5511") (codes "123456") (iso (pos 4000100)) sent_once)
consume_otp-Consumes_example =
    consume_otp-Consumes (codes "5511") (codes "123456") (iso (pos 4000100)) sent_once

issue_otp-Limits_example :
    Limits config outside (pos 4000200) (codes "654321") (codes "5511") (codes "login") sent_once (
      issue_otp config outside
        (pos 4000200)
        (iso (pos 4000200))
        (codes "654321")
        (codes "5511")
        (codes "login")
        sent_once)
issue_otp-Limits_example =
    issue_otp-Limits config outside (pos 4000200) (codes "654321") (codes "5511") (codes "login")
      refl (iso (pos 4000200)) sent_once

issue_otp-works_example :
    (consume_otp (codes "5511") (codes "123456") (iso (pos 4000100)) sent_once).0 ≡ true
unfolding before count_otps_since ◌+ℤ◌
issue_otp-works_example =
    issue_otp-works config outside (pos 4000000) (codes "123456") (codes "5511") (codes "login")
      refl (iso (pos 4000000)) (iso (pos 4000100)) [] (omega arith) refl

-- A session that was opened with the token A, which is changed for B, then for C, and revoked.
abbrev opened : Sessions
opened =
    (create_session (codes "s1") (codes "t0")
      (record {
        user_id = codes "u1";
        refresh_token_hash = codes "A";
        device = none;
        expires_at = codes "t9";
      })
      []).1

abbrev later : List Call
later =
    rotate (codes "s1") (codes "B") (codes "C") (codes "t9") ∷ revoke (codes "s1") (codes "t2") ∷ []

redeemed_once_example :
    ((rotate_session (codes "s1") (codes "A") (codes "B") (codes "t9") opened).0
      ≡ is_live (codes "s1") (codes "A") opened)
    × ((rotate_session (codes "s1") (codes "A") (codes "D") (codes "t9") (
          after_all later
            (rotate_session (codes "s1") (codes "A") (codes "B") (codes "t9") opened).1)).0
        ≡ false)
unfolding eq_text issues issues_any
redeemed_once_example =
    redeemed_once (codes "s1") (codes "A") (codes "B") (codes "t9") opened refl later refl
      (codes "D") (codes "t9")
