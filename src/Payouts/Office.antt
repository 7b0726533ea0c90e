-- ===== src/Payouts/Office.antt =====
-- The calls of src/payouts/payout-service.ts as steps. `submit` and `sync` are two steps each, before
-- and after the provider's answer, and calls on other payouts run between them.
use ticash_pay_demo.Prelude.Names.{
  ◌≡◌, ap, Bool, false, not, inl, inr, Option, none, some, [], ◌||◌, arith, if◌then◌else◌,
  Bool-cases,
}
use ticash_pay_demo.Prelude.Int.{ℤ}
use ticash_pay_demo.Prelude.Text.{Text, eq_text, eq_text_iff, text_eq}
use ticash_pay_demo.Prelude.Dict.{lookup}
use ticash_pay_demo.Prelude.Result.{ok, err, plain_error}
use ticash_pay_demo.Ledger.Types.{JournalDraft}
use ticash_pay_demo.Ledger.Operations.Transfer.{TransferQuote}
use ticash_pay_demo.Ledger.Store.{empty, post}
use ticash_pay_demo.Payouts.Store.{created, submitted, eq_status, PayoutRecord, Payouts}
use ticash_pay_demo.Payouts.Service.{
  PayoutDesk, payout_settle_key, reversal_debit_key, create_for_transfer, Sent, is_set, is_given,
  answers, waits, start_found, check_found, submit_starts, submit_ends, ProviderState, sync_starts,
  advance, release_manually, fail_manually,
}

-- What a call waits for the provider with: the row as it read it.
pub data Waiting : Type 0 where
  to_send to_check : PayoutRecord → Waiting

-- The service, and the call that waits on each payout.
pub record Office : Type 0 where
  pub desk : PayoutDesk
  pub waiting : Text → Option Waiting

abbrev pub put : Text → Option Waiting → (Text → Option Waiting) → Text → Option Waiting
put id w waiting j = if eq_text id j then w else waiting j

abbrev pub at_desk : Office → PayoutDesk → Office
at_desk o s = record o { desk = s }

-- A post that has nothing to do with payouts.
abbrev pub IsForeign : Text → Type 0
IsForeign key =
    (id : Text)
    → (eq_text key (payout_settle_key id) ≡ false) × (eq_text key (reversal_debit_key id) ≡ false)

-- One call, or one half of a call that asks the provider, whatever it answers; or a post by another
-- part of the program. No call on a payout begins while another one waits on the same payout.
pub data Step (port : Option Text) : Office → Office → Type 0 where
  made :
      (o : Office) (now id recipient sender_id : Text) (q : TransferQuote) (fee : Option ℤ)
      → o.waiting id ≡ none
      → Step port o (
          at_desk o (record o.desk {
            rows = (create_for_transfer port now id recipient q sender_id fee o.desk.rows).1;
          }))
  submit_asks :
      (o : Office) (id : Text) (p : PayoutRecord)
      → o.waiting id ≡ none
      → submit_starts (is_given port) id o.desk.rows ≡ waits p
      → Step port o (record o { waiting = put id (some (to_send p)) o.waiting })
  submit_told :
      (o : Office) (now id : Text) (p : PayoutRecord) (answer : Sent)
      → o.waiting id ≡ some (to_send p)
      → Step port o (record {
        desk = record o.desk { rows = (submit_ends now id p answer o.desk.rows).1 };
        waiting = put id none o.waiting;
      })
  sync_asks :
      (o : Office) (id : Text) (p : PayoutRecord)
      → o.waiting id ≡ none
      → sync_starts (is_given port) id o.desk.rows ≡ waits p
      → Step port o (record o { waiting = put id (some (to_check p)) o.waiting })
  sync_told :
      (o : Office) (posted_at posted_at' now id : Text) (p : PayoutRecord) (answer : ProviderState)
      → o.waiting id ≡ some (to_check p)
      → Step port o (record {
        desk = (advance posted_at posted_at' now p o.desk answer).1;
        waiting = put id none o.waiting;
      })
  released_by :
      (o : Office) (noted_at posted_at now id : Text) (ref : Option Text)
      → o.waiting id ≡ none
      → Step port o (at_desk o (release_manually noted_at posted_at now id ref o.desk).1)
  failed_by :
      (o : Office) (posted_at posted_at' now id : Text)
      → o.waiting id ≡ none
      → Step port o (at_desk o (fail_manually posted_at posted_at' now id o.desk).1)
  other_post :
      (o : Office) (now : Text) (j : JournalDraft)
      → IsForeign j.idempotency_key
      → Step port o (at_desk o (record o.desk { ledger = (post now j o.desk.ledger).1 }))

pub data Reach (port : Option Text) : Office → Type 0 where
  start : Reach port (record { desk = record { ledger = empty; rows = [] }; waiting = λ id. none })
  next : {o u : Office} → Reach port o → Step port o u → Reach port u

-- A call that waits has read the row that is there, in the status that it asked for.
abbrev pub Holds : Text → Payouts → Option Waiting → Type 0
Holds id rows none = Unit
Holds id rows (some (to_send p)) =
    (lookup id rows ≡ some p) × (not (eq_status p.status created) ≡ false)
Holds id rows (some (to_check p)) =
    (lookup id rows ≡ some p) × (not (eq_status p.status submitted) ≡ false)

waits_injective : (p q : PayoutRecord) → waits p ≡ waits q → p ≡ q
waits_injective p q h = cc

pub start_found-waits :
    (has_port : Bool) (o : Option PayoutRecord) (p : PayoutRecord)
    → start_found has_port o ≡ waits p
    → (o ≡ some p) × (not (eq_status p.status created) ≡ false)
start_found-waits has_port none p h = cc
start_found-waits has_port (some q) p h = elim (Bool-cases (not (eq_status q.status created))) [
  | inl past ↦ let bad : answers (ok q) ≡ waits p = rw past at h in cc
  | inr early ↦ elim (Bool-cases has_port) [
    | inl port ↦
        let same : q ≡ p = waits_injective q p (rw (early, port) at h) in
        (ap some same, rw (← same) early)
    | inr bare ↦ let bad : answers (err plain_error) ≡ waits p = rw (early, bare) at h in cc
  ]
]

pub check_found-waits :
    (has_port : Bool) (o : Option PayoutRecord) (p : PayoutRecord)
    → check_found has_port o ≡ waits p
    → (o ≡ some p) × (not (eq_status p.status submitted) ≡ false)
check_found-waits has_port none p h = cc
check_found-waits has_port (some q) p h =
    elim (Bool-cases
      (not (eq_status q.status submitted) || not (is_set q.provider_ref) || not has_port)) [
        | inl past ↦ let bad : answers (ok q) ≡ waits p = rw past at h in cc
        | inr open_yet ↦
            let same : q ≡ p = waits_injective q p (rw open_yet at h) in
            let sent : not (eq_status q.status submitted) ≡ false = ground (arith, open_yet) in
            (ap some same, rw (← same) sent)
      ]

Holds-same :
    (id : Text) (rows rows' : Payouts) (w : Option Waiting)
    → lookup id rows' ≡ lookup id rows
    → Holds id rows w
    → Holds id rows' w
Holds-same id rows rows' none same h = tt
Holds-same id rows rows' (some (to_send p)) same h = (rw same (h.0), h.1)
Holds-same id rows rows' (some (to_check p)) same h = (rw same (h.0), h.1)

-- A call on a payout that no other call waits on leaves what the others wait with.
pub Holds-others :
    (id : Text) (rows rows' : Payouts) (waiting : Text → Option Waiting)
    → waiting id ≡ none
    → ((j : Text) → eq_text id j ≡ false → lookup j rows' ≡ lookup j rows)
    → ((j : Text) → Holds j rows (waiting j))
    → (j : Text) → Holds j rows' (waiting j)
Holds-others id rows rows' waiting idle others held j = elim (Bool-cases (eq_text id j)) [
  | inl same ↦ rw (← (eq_text_iff id j).0 same, idle) tt
  | inr apart ↦ Holds-same j rows rows' (waiting j) (others j apart) (held j)
]

pub Holds-put :
    (id : Text) (rows : Payouts) (w : Option Waiting) (waiting : Text → Option Waiting)
    → Holds id rows w
    → ((j : Text) → Holds j rows (waiting j))
    → (j : Text) → Holds j rows (put id w waiting j)
Holds-put id rows w waiting h held j = elim (Bool-cases (eq_text id j)) [
  | inl same ↦ rw (same, ← (eq_text_iff id j).0 same) h
  | inr apart ↦ rw apart (held j)
]
