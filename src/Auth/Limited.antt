-- ===== src/Auth/Limited.antt =====
-- `issueOtp` of src/auth/auth-service.ts, where the service sends its codes itself: the hourly limit,
-- and that a code which was sent is accepted.
use ticash_pay_demo.Prelude.Names.{
  ◌+◌, ◌*◌, ◌≤◌, ◌<◌, ◌≡◌, refl, ◌∙◌, ◌⊎◌, inl, inr, true, none, List, [], ◌∷◌, ◌++◌, arith, leb,
  if◌then◌else◌, Bool-cases,
}
use ticash_pay_demo.Prelude.Int.{ℤ, pos, ◌+ℤ◌}
use ticash_pay_demo.Prelude.Text.{Text}
use ticash_pay_demo.Prelude.Dict.{beq_refl}
use ticash_pay_demo.Prelude.Text.{text_eq}
use ticash_pay_demo.Prelude.Result.{Result, err, auth_error, rate_limited}
use ticash_pay_demo.Auth.Otp.{
  before, OtpRow, otp_row, save_otp, is_usable, consume_otp, is_since, count_otps_since,
}
use ticash_pay_demo.Auth.Issue.{AuthConfig, Outside, window_start, otp_input, issue_otp}
use ticash_pay_demo.Auth.OneTime.{usable, consume_otp-Consumes}

usable-appended :
    (p h t : Text) (otps : List OtpRow) (o : OtpRow)
    → usable p h t (otps ++ o ∷ []) ≡ (if is_usable p h t o then 1 else 0) + usable p h t otps
unfolding usable
usable-appended p h t [] o = ground arith
usable-appended p h t (x ∷ xs) o = rw (usable-appended p h t xs o) (ground arith)

count-appended :
    (p t : Text) (otps : List OtpRow) (o : OtpRow)
    → count_otps_since p t (otps ++ o ∷ [])
      ≡ (if is_since p t o then 1 else 0) + count_otps_since p t otps
unfolding count_otps_since
count-appended p t [] o = ground arith
count-appended p t (x ∷ xs) o = rw (count-appended p t xs o) (ground arith)

module _ (cfg : AuthConfig) (out : Outside) (now : ℤ) (code phone purpose : Text) where
  -- The moment at which a code that is sent now expires.
  abbrev pub expiry : Text
  expiry = out.iso (now +ℤ pos (cfg.otp_ttl_sec * 1000))

  -- The call was refused and changed nothing, at the limit; or the code was sent below it, at most
  -- the limit are sent now, and at each moment before the expiry one more code is usable.
  abbrev pub Limits : List OtpRow → Result (Unit {0}) × List OtpRow → Type 0
  Limits otps a =
      ((cfg.otp_max_per_hour ≤ count_otps_since phone (window_start out now) otps)
        × (a ≡ (err (auth_error rate_limited), otps)))
      ⊎ ((count_otps_since phone (window_start out now) (a.1) ≤ cfg.otp_max_per_hour)
          × (a.0 ≡ out.send phone code purpose)
          × ((t : Text)
              → usable phone (out.sha256_hex code) t (a.1)
                ≡ (if before t expiry then 1 else 0) + usable phone (out.sha256_hex code) t otps))

  sent-usable :
      (clock t : Text)
      → is_usable phone
          (out.sha256_hex code)
          t
          (otp_row clock (otp_input cfg out now code phone purpose))
        ≡ before t expiry
  unfolding is_usable otp_row otp_input
  sent-usable clock t = rw (beq_refl phone, beq_refl (out.sha256_hex code)) refl

  -- Without a verifier, `issueOtp` refuses a phone that got as many codes in the last hour as the
  -- limit and changes nothing; below the limit it sends the code, the phone stays within the
  -- limit, and the code is usable until it expires.
  pub issue_otp-Limits :
      out.verifier ≡ none
      → (clock : Text) (otps : List OtpRow)
      → Limits otps (issue_otp cfg out now clock code phone purpose otps)
  unfolding issue_otp save_otp count_otps_since otp_row otp_input
  issue_otp-Limits local clock otps =
      let sent = otp_row clock (otp_input cfg out now code phone purpose) in
      elim (Bool-cases
        (leb cfg.otp_max_per_hour (count_otps_since phone (window_start out now) otps))) [
          | inl full ↦ rw (local, full) (inl (ground (arith, full), refl))
          | inr below ↦
              rw (local, below)
                (inr (
                  rw (count-appended phone (window_start out now) otps sent)
                      (ground (arith, below)),
                  refl,
                  λ t.
                      rw
                        (
                          usable-appended phone (out.sha256_hex code) t otps sent,
                          sent-usable clock t,
                        )
                        refl,
                ))
        ]

  -- Without a verifier and below the hourly limit, the code that `issueOtp` sends is accepted by
  -- `consumeOtp` at every moment before it expires.
  pub issue_otp-works :
      out.verifier ≡ none
      → (clock t : Text) (otps : List OtpRow)
      → count_otps_since phone (window_start out now) otps < cfg.otp_max_per_hour
      → before t expiry ≡ true
      → (consume_otp phone
          (out.sha256_hex code)
          t
          (issue_otp cfg out now clock code phone purpose otps).1).0
        ≡ true
  issue_otp-works local clock t otps room early =
      (consume_otp-Consumes phone (out.sha256_hex code) t
        (issue_otp cfg out now clock code phone purpose otps).1).answers
      ∙ elim (issue_otp-Limits local clock otps) [
        | inl (full, same) ↦ ground (arith, full, room)
        | inr (kept, done, more) ↦ rw (more t, early) (ground arith)
      ]
