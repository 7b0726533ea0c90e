-- ===== src/Payouts/Calls.antt =====
-- Each call of src/payouts/payout-service.ts keeps the ledger and the rows in step.
use ticash_pay_demo.Prelude.Names.{
  ◌≡◌, refl, ap, ◌∙◌, inl, inr, false, not, Option, none, some, [], ◌∷◌, if◌then◌else◌, Bool-cases,
  Option-cases,
}
use ticash_pay_demo.Prelude.Int.{ℤ}
use ticash_pay_demo.Prelude.Text.{Text, eq_text, eq_text_iff, text_eq}
use ticash_pay_demo.Prelude.Dict.{lookup, insert, lookup-insert_self}
use ticash_pay_demo.Prelude.Weigh.{Every-lookup, Every-insert}
use ticash_pay_demo.Ledger.Operations.Transfer.{TransferQuote}
use ticash_pay_demo.Payouts.Store.{
  PayoutStatus, created, submitted, settled, reversed, eq_status, PayoutRecord, create, new_payout,
  patched, update,
}
use ticash_pay_demo.Payouts.Service.{
  PayoutDesk, payout_for, create_for_transfer, Sent, accepted, failed_with, submit_patch,
  submit_ends, settle, ProviderState, pending, success, failed, unreachable, advance, with_ref,
  release_with, release_manually, fail_manually,
}
use ticash_pay_demo.Payouts.Faithful.{
  IsFaithful, is_at, at-insert, note-IsFaithful, settle-IsFaithful, reverse-IsFaithful,
}

abbrev pub IsOpen : PayoutStatus → Type 0
IsOpen x = (eq_status x settled ≡ false) × (eq_status x reversed ≡ false)

pub is_created : (x : PayoutStatus) → not (eq_status x created) ≡ false → IsOpen x
unfolding eq_status
is_created created h = (refl, refl)
is_created submitted h = cc
is_created settled h = cc
is_created reversed h = cc

pub is_submitted : (x : PayoutStatus) → not (eq_status x submitted) ≡ false → IsOpen x
unfolding eq_status
is_submitted created h = cc
is_submitted submitted h = (refl, refl)
is_submitted settled h = cc
is_submitted reversed h = cc

same_end :
    (a b : PayoutStatus)
    → eq_status a settled ≡ false
    → eq_status a reversed ≡ false
    → eq_status b settled ≡ false
    → eq_status b reversed ≡ false
    → (x : PayoutStatus) → eq_status x created ≡ false
    → eq_status x submitted ≡ false
    → eq_status a x ≡ eq_status b x
same_end a b sa ra sb rb created hc hs = unfold eq_status in cc
same_end a b sa ra sb rb submitted hc hs = unfold eq_status in cc
same_end a b sa ra sb rb settled hc hs = rw (sa, sb) refl
same_end a b sa ra sb rb reversed hc hs = rw (ra, rb) refl

abbrev pub with_new_ref : Text → Text → PayoutRecord → PayoutRecord
with_new_ref now ref p =
    patched now
      (record { status = none; provider_ref = some ref; attempts = none; last_error = none }) p

module _ (s : PayoutDesk) (f : IsFaithful s) where
  pub made-IsFaithful :
      (port : Option Text) (now id recipient sender_id : Text) (q : TransferQuote) (fee : Option ℤ)
      → IsFaithful
          (record s { rows = (create_for_transfer port now id recipient q sender_id fee s.rows).1 })
  unfolding create_for_transfer create payout_for
  made-IsFaithful port now id recipient sender_id q fee = elim (Option-cases (lookup id s.rows)) [
    | inr (p, found) ↦ rw found f
    | inl missing ↦ rw missing (record {
      settles = λ j.
          rw (f.settles j, at-insert settled id j _ s.rows)
            (unfold new_payout in absent settled j missing (unfold eq_status in refl));
      refunds = λ j.
          rw (f.refunds j, at-insert reversed id j _ s.rows)
            (unfold new_payout in absent reversed j missing (unfold eq_status in refl));
      own =
          Every-insert (λ id p. p.correlation_id ≡ id) id _ s.rows (unfold new_payout in refl)
            f.own;
    })
  ]
    where
      absent :
          (x : PayoutStatus) (j : Text)
          → lookup id s.rows ≡ none
          → eq_status created x ≡ false
          → is_at x j s.rows ≡ (if eq_text id j then eq_status created x else is_at x j s.rows)
      absent x j missing new = elim (Bool-cases (eq_text id j)) [
        | inl e ↦ rw (e, new, ← (eq_text_iff id j).0 e) (unfold is_at in rw missing refl)
        | inr e ↦ rw e refl
      ]

  pub own_row :
      (id : Text) (p : PayoutRecord)
      → lookup id s.rows ≡ some p
      → lookup p.correlation_id s.rows ≡ some p
  own_row id p found =
      ap (λ x. lookup x s.rows)
        (Every-lookup (λ id p. p.correlation_id ≡ id) id p s.rows f.own found)
      ∙ found

  still_early :
      (now : Text) (p : PayoutRecord) (answer : Sent)
      → not (eq_status p.status created) ≡ false
      → (eq_status (patched now (submit_patch p.attempts answer) p).status settled ≡ false)
        × (eq_status (patched now (submit_patch p.attempts answer) p).status reversed ≡ false)
  still_early now p (accepted ref) early = unfold patched submit_patch eq_status in (refl, refl)
  still_early now p (failed_with message) early =
      unfold patched submit_patch in is_created p.status early

  pub told-IsFaithful :
      (now id : Text) (p : PayoutRecord) (answer : Sent)
      → lookup id s.rows ≡ some p
      → not (eq_status p.status created) ≡ false
      → IsFaithful (record s { rows = (submit_ends now id p answer s.rows).1 })
  unfolding submit_ends update
  told-IsFaithful now id p answer found early = rw found (
      note-IsFaithful id p (patched now (submit_patch p.attempts answer) p) s found
        (unfold patched in Every-lookup (λ id p. p.correlation_id ≡ id) id p s.rows f.own found)
        (same_end _ p.status (still_early now p answer early).0 (still_early now p answer early).1
          (is_created p.status early).0 (is_created p.status early).1)
        f)

  pub advanced :
      (posted_at posted_at' now : Text) (p : PayoutRecord) (answer : ProviderState)
      → lookup p.correlation_id s.rows ≡ some p
      → eq_status p.status settled ≡ false
      → eq_status p.status reversed ≡ false
      → IsFaithful (advance posted_at posted_at' now p s answer).1
  advanced posted_at posted_at' now p pending found unsettled kept = f
  advanced posted_at posted_at' now p success found unsettled kept =
      settle-IsFaithful p s found f unsettled kept posted_at now
  advanced posted_at posted_at' now p failed found unsettled kept =
      reverse-IsFaithful p s found f unsettled kept posted_at posted_at' now
  advanced posted_at posted_at' now p unreachable found unsettled kept = f

  pub fail_manually-IsFaithful :
      (posted_at posted_at' now id : Text)
      → IsFaithful (fail_manually posted_at posted_at' now id s).1
  unfolding fail_manually
  fail_manually-IsFaithful posted_at posted_at' now id = elim (Option-cases (lookup id s.rows)) [
    | inl missing ↦ rw missing f
    | inr (p, found) ↦ elim (Bool-cases (eq_status p.status reversed)) [
      | inl done ↦ rw (found, done) f
      | inr kept ↦ elim (Bool-cases (eq_status p.status settled)) [
        | inl over ↦ rw (found, kept, over) f
        | inr unsettled ↦
            rw (found, kept, unsettled)
              (reverse-IsFaithful p s (own_row id p found) f unsettled kept posted_at posted_at'
                now)
      ]
    ]
  ]

  pub release_manually-IsFaithful :
      (noted_at posted_at now id : Text) (ref : Option Text)
      → IsFaithful (release_manually noted_at posted_at now id ref s).1
  unfolding release_manually patched with_ref settle
  release_manually-IsFaithful noted_at posted_at now id ref =
      elim (Option-cases (lookup id s.rows)) [
        | inl missing ↦ rw missing f
        | inr (p, found) ↦ elim (Bool-cases (eq_status p.status settled)) [
          | inl done ↦ rw (found, done) f
          | inr unsettled ↦ elim (Bool-cases (eq_status p.status reversed)) [
            | inl over ↦ rw (found, unsettled, over) f
            | inr kept ↦ rw (found, unsettled, kept) (noted p found unsettled kept ref)
          ]
        ]
      ]
    where
      rewritten :
          (p : PayoutRecord)
          → lookup id s.rows ≡ some p
          → eq_status p.status settled ≡ false
          → eq_status p.status reversed ≡ false
          → (ref : Text)
          → IsFaithful
              (settle posted_at now
                (with_new_ref noted_at ref p)
                (record s { rows = insert id (with_new_ref noted_at ref p) s.rows })).1
      rewritten p found unsettled kept ref =
          let name : p.correlation_id ≡ id =
            Every-lookup (λ id p. p.correlation_id ≡ id) id p s.rows f.own found in
          settle-IsFaithful (with_new_ref noted_at ref p)
            (record s { rows = insert id (with_new_ref noted_at ref p) s.rows })
            (ap (λ x. lookup x (insert id (with_new_ref noted_at ref p) s.rows)) name
              ∙ lookup-insert_self id (with_new_ref noted_at ref p) s.rows)
            (note-IsFaithful id p (with_new_ref noted_at ref p) s found name (λ x hc hs. refl) f)
            unsettled kept posted_at now

      noted :
          (p : PayoutRecord)
          → lookup id s.rows ≡ some p
          → eq_status p.status settled ≡ false
          → eq_status p.status reversed ≡ false
          → (ref : Option Text)
          → IsFaithful (release_with posted_at now s.ledger (with_ref noted_at p ref id s.rows)).1
      noted p found unsettled kept none =
          settle-IsFaithful p s (own_row id p found) f unsettled kept posted_at now
      noted p found unsettled kept (some []) =
          settle-IsFaithful p s (own_row id p found) f unsettled kept posted_at now
      noted p found unsettled kept (some (c ∷ cs)) =
          unfold update in rw found (rewritten p found unsettled kept (c ∷ cs))
