-- ===== src/Tests/PayingOut.antt =====
-- The theorems on payouts (src/payouts) at concrete calls.
use ticash_pay_demo.Prelude.Names.{◌≡◌, refl, Option, none, some, []}
use ticash_pay_demo.Prelude.Int.{pos}
use ticash_pay_demo.Prelude.Text.{Text, codes, eq_text}
use ticash_pay_demo.Prelude.Dict.{lookup, insert}
use ticash_pay_demo.Money.Currency.{brl, htg}
use ticash_pay_demo.Ledger.Operations.Transfer.{TransferQuote}
use ticash_pay_demo.Ledger.Store.{empty}
use ticash_pay_demo.Payouts.Store.{PayoutRecord, create, new_payout, eq_status, update, patched}
use ticash_pay_demo.Payouts.Service.{
  payout_for, create_for_transfer, accepted, submit_patch, submit_starts, submit_ends, success,
  sync_starts, advance,
}
use ticash_pay_demo.Payouts.Faithful.{IsFaithful}
use ticash_pay_demo.Payouts.Office.{Office, to_send, to_check, put, Step, Reach}
use ticash_pay_demo.Payouts.Office
use ticash_pay_demo.Payouts.Settled.{PayoutDesk-IsFaithful}
use ticash_pay_demo.Payouts.Machine.{status_of, Moves}
use ticash_pay_demo.Payouts.Refines.{by_hand, Step-Moves}

-- A payout of 24360 gourde cents is made and sent; while the provider is asked about it another one
-- is made, and it is settled when the provider reports success.
abbrev agreed : TransferQuote
agreed = record {
  send_minor = pos 1000;
  fee_minor = pos 50;
  total_debit_minor = pos 1050;
  rate = codes "24.36";
  receive_minor = pos 24360;
  from_currency = brl;
  to_currency = htg;
}

abbrev port : Option Text
port = some (codes "moncash")

abbrev nothing : Office
nothing = record { desk = record { ledger = empty; rows = [] }; waiting = λ id. none }

abbrev make : Text → Office → Office
make id o = Office.at_desk o (record o.desk {
  rows =
      (create_for_transfer port (codes "t1") id (codes "50911112222") agreed (codes "ana")
        (some (pos 360)) o.desk.rows).1;
})

abbrev make_Step : (id : Text) (o : Office) → o.waiting id ≡ none → Step port o (make id o)
make_Step id o =
    Office.made o (codes "t1") id (codes "50911112222") (codes "ana") agreed (some (pos 360))

abbrev made : Office
made = make (codes "x1") nothing

abbrev made_row : PayoutRecord
made_row =
    (create_for_transfer port (codes "t1") (codes "x1") (codes "50911112222") agreed (codes "ana")
      (some (pos 360)) []).0

abbrev asked : Office
asked = record made { waiting = put (codes "x1") (some (to_send made_row)) made.waiting }

abbrev sent : Office
sent = record {
  desk = record made.desk {
    rows =
        (submit_ends (codes "t2") (codes "x1") made_row (accepted (codes "ref")) made.desk.rows).1;
  };
  waiting = put (codes "x1") none asked.waiting;
}

abbrev sent_row : PayoutRecord
unfolding submit_patch
sent_row = patched (codes "t2") (submit_patch 0 (accepted (codes "ref"))) made_row

abbrev checked : Office
checked = record sent { waiting = put (codes "x1") (some (to_check sent_row)) sent.waiting }

abbrev busy : Office
busy = make (codes "x2") checked

abbrev paid : Office
paid = record {
  desk = (advance (codes "t3") (codes "t4") (codes "t5") sent_row busy.desk success).1;
  waiting = put (codes "x1") none busy.waiting;
}

busy-Reach : Reach port busy
unfolding eq_text lookup insert create_for_transfer payout_for create new_payout submit_starts
    submit_ends submit_patch update patched sync_starts eq_status
busy-Reach =
    Office.next
      (Office.next
        (Office.next
          (Office.next (Office.next Office.start (make_Step (codes "x1") nothing refl))
            (Office.submit_asks made (codes "x1") made_row refl refl))
          (Office.submit_told asked (codes "t2") (codes "x1") made_row (accepted (codes "ref"))
            refl))
        (Office.sync_asks sent (codes "x1") sent_row refl refl))
      (make_Step (codes "x2") checked refl)

pays : Step port busy paid
unfolding eq_text
pays =
    Office.sync_told busy (codes "t3") (codes "t4") (codes "t5") (codes "x1") sent_row success refl

PayoutDesk-IsFaithful_example : IsFaithful paid.desk
PayoutDesk-IsFaithful_example = PayoutDesk-IsFaithful port paid (Office.next busy-Reach pays)

Step-Moves_example :
    Moves
      (by_hand pays)
      (status_of (codes "x1") busy.desk.rows)
      (status_of (codes "x1") paid.desk.rows)
Step-Moves_example = Step-Moves (codes "x1") busy-Reach pays
