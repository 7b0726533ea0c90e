-- ===== src/Payouts/Settled.antt =====
-- Every run of src/payouts/payout-service.ts keeps the ledger and the rows in step.
use ticash_pay_demo.Prelude.Names.{◌≡◌, refl, false, Option, none, some, arith}
use ticash_pay_demo.Prelude.Text.{Text, eq_text, text_eq}
use ticash_pay_demo.Prelude.Dict.{lookup, beq_refl}
use ticash_pay_demo.Prelude.Weigh.{Every-lookup}
use ticash_pay_demo.Ledger.Service.Keyed.{is_posted, post-Registers}
use ticash_pay_demo.Payouts.Store.{PayoutRecord, Payouts}
use ticash_pay_demo.Payouts.Service.{
  PayoutDesk, payout_settle_key, reversal_debit_key, submit_ends, submit_starts, sync_starts,
  is_given, advance,
}
use ticash_pay_demo.Payouts.Calls.{
  made-IsFaithful, told-IsFaithful, advanced, own_row, is_submitted, release_manually-IsFaithful,
  fail_manually-IsFaithful,
}
use ticash_pay_demo.Payouts.Faithful.{IsFaithful, is_at}
use ticash_pay_demo.Payouts.Others.{
  create-others, submit-others, advance-others, release_manually-others, fail_manually-others,
}
use ticash_pay_demo.Payouts.Office.{
  Waiting, to_send, to_check, Office, put, Step, made, submit_asks, submit_told, sync_asks,
  sync_told, released_by, failed_by, other_post, Reach, start, next, Holds, start_found-waits,
  check_found-waits, Holds-others, Holds-put,
}

-- The ledger and the rows are in step, and a row stays as it is while a call waits on it.
pub record IsSteady (o : Office) : Type 0 where
  pub faithful : IsFaithful o.desk
  pub holds : (id : Text) → Holds id o.desk.rows (o.waiting id)

own_id :
    (s : PayoutDesk) (id : Text)
    → IsFaithful s
    → (p : PayoutRecord) → lookup id s.rows ≡ some p
    → p.correlation_id ≡ id
own_id s id f p found = Every-lookup (λ id p. p.correlation_id ≡ id) id p s.rows f.own found

pub waiting-Holds :
    (o : Office) (id : Text) (w : Waiting)
    → o.waiting id ≡ some w
    → IsSteady o
    → Holds id o.desk.rows (some w)
waiting-Holds o id w h f = rw h at (f.holds id)

-- The call on `id` has been answered, and the rows of the others are the same.
answered-Holds :
    (o : Office) (id : Text) (rows : Payouts)
    → ((j : Text) → eq_text id j ≡ false → lookup j rows ≡ lookup j o.desk.rows)
    → IsSteady o
    → (j : Text) → Holds j rows (put id none o.waiting j)
answered-Holds o id rows others f =
    Holds-others id o.desk.rows rows (put id none o.waiting) (rw (beq_refl id) refl) others
      (Holds-put id o.desk.rows none o.waiting tt f.holds)

Step-IsSteady : (port : Option Text) {o u : Office} → Step port o u → IsSteady o → IsSteady u
Step-IsSteady port (made o now id recipient sender_id q fee idle) f = record {
  faithful = made-IsFaithful o.desk f.faithful port now id recipient sender_id q fee;
  holds =
      Holds-others id o.desk.rows _ o.waiting idle
        (λ j apart. create-others id j apart port now recipient sender_id q fee o.desk.rows)
        f.holds;
}
Step-IsSteady port (submit_asks o id p idle asks) f = record {
  faithful = f.faithful;
  holds =
      Holds-put id o.desk.rows (some (to_send p)) o.waiting
        (unfold submit_starts in start_found-waits (is_given port) (lookup id o.desk.rows) p asks)
        f.holds;
}
Step-IsSteady port (submit_told o now id p answer waits) f =
    let read = waiting-Holds o id (to_send p) waits f in
    record {
      faithful = told-IsFaithful o.desk f.faithful now id p answer read.0 read.1;
      holds =
          answered-Holds o id (submit_ends now id p answer o.desk.rows).1
            (λ j apart. submit-others id j apart now p answer o.desk.rows) f;
    }
Step-IsSteady port (sync_asks o id p idle asks) f = record {
  faithful = f.faithful;
  holds =
      Holds-put id o.desk.rows (some (to_check p)) o.waiting
        (unfold sync_starts in check_found-waits (is_given port) (lookup id o.desk.rows) p asks)
        f.holds;
}
Step-IsSteady port (sync_told o posted_at posted_at' now id p answer waits) f =
    let read = waiting-Holds o id (to_check p) waits f in
    record {
      faithful =
          advanced o.desk f.faithful posted_at posted_at' now p answer
            (own_row o.desk f.faithful id p read.0) (is_submitted p.status read.1).0
            (is_submitted p.status read.1).1;
      holds =
          answered-Holds o id (advance posted_at posted_at' now p o.desk answer).1.rows
            (λ j apart.
              advance-others id j apart p (own_id o.desk id f.faithful p read.0) o.desk posted_at
                posted_at' now answer)
            f;
    }
Step-IsSteady port (released_by o noted_at posted_at now id ref idle) f = record {
  faithful = release_manually-IsFaithful o.desk f.faithful noted_at posted_at now id ref;
  holds =
      Holds-others id o.desk.rows _ o.waiting idle
        (λ j apart.
          release_manually-others id j apart o.desk (own_id o.desk id f.faithful) noted_at posted_at
            now ref)
        f.holds;
}
Step-IsSteady port (failed_by o posted_at posted_at' now id idle) f = record {
  faithful = fail_manually-IsFaithful o.desk f.faithful posted_at posted_at' now id;
  holds =
      Holds-others id o.desk.rows _ o.waiting idle
        (λ j apart.
          fail_manually-others id j apart o.desk (own_id o.desk id f.faithful) posted_at posted_at'
            now)
        f.holds;
}
Step-IsSteady port (other_post o now j apart) f =
    let reg = post-Registers now j o.desk.ledger in
    record {
      faithful = record {
        settles = λ id.
            rw (reg (payout_settle_key id), (apart id).0, f.faithful.settles id) (ground arith);
        refunds = λ id.
            rw (reg (reversal_debit_key id), (apart id).1, f.faithful.refunds id) (ground arith);
        own = f.faithful.own;
      };
      holds = f.holds;
    }

pub Office-IsSteady : (port : Option Text) (o : Office) → Reach port o → IsSteady o
unfolding is_posted is_at lookup
Office-IsSteady port o start = record {
  faithful = record { settles = λ id. refl; refunds = λ id. refl; own = tt };
  holds = λ id. tt;
}
Office-IsSteady port o (next reach step) = Step-IsSteady port step (Office-IsSteady port _ reach)

-- In every state that calls of the payout service reach from an empty start, whatever the provider
-- answers to them and whatever calls on other payouts and posts under other keys run while they wait
-- for it, as long as no call on a payout begins while another one waits on the same payout: the
-- ledger has a settlement exactly for each settled payout and a refund of the sender exactly for
-- each reversed one, and each payout stands under its own id.
pub PayoutDesk-IsFaithful : (port : Option Text) (o : Office) → Reach port o → IsFaithful o.desk
PayoutDesk-IsFaithful port o reach = (Office-IsSteady port o reach).faithful
