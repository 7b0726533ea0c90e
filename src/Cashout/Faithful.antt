-- ===== src/Cashout/Faithful.antt =====
-- How the ledger's keys and the statuses of src/cashout's requests correspond.
use ticash_pay_demo.Prelude.Runtime.{Dates}
use ticash_pay_demo.Prelude.Names.{
  ◌≡◌, refl, sym, inl, inr, Bool, true, false, not, Option, none, some, [], ◌∷◌, ◌||◌, ◌&&◌, arith,
  Bool-cases,
}
use ticash_pay_demo.Prelude.Int.{ℤ, pos, leb_ℤ}
use ticash_pay_demo.Prelude.Text.{Text, eq_text, eq_text_iff, text_eq}
use ticash_pay_demo.Prelude.Dict.{lookup, insert, lookup-insert_self, insert-insert}
use ticash_pay_demo.Prelude.Result.{Result, ok, err}
use ticash_pay_demo.Money.Currency.{Currency}
use ticash_pay_demo.Ledger.Types.{PostedJournal}
use ticash_pay_demo.Ledger.Store.{Ledger}
use ticash_pay_demo.Ledger.Service.{perform}
use ticash_pay_demo.Ledger.Service.Keyed.{is_posted, Registers, agent_cash_out-Registers}
use ticash_pay_demo.Cashout.Store.{
  CashoutStatus, pending, approved, rejected, cancelled, expired, eq_status, CashoutRequest,
  Requests, new_request, create, moved_to, claim,
}
use ticash_pay_demo.Cashout.Service.{
  Cashouts, cashout_key, request, is_over, cash_out_request, after_post, approve_found, updated,
  close_found,
}
use ticash_pay_demo.Cashout.Effect.{
  status_at, is_in, IsIndexed, status_at-insert, IsIndexed-insert, claim-cases,
}

pub record IsFaithful (s : Cashouts) : Type 0 where
  pub indexed : IsIndexed s.reqs
  pub debited :
      (id : Text) → is_posted (cashout_key id) s.ledger ≡ is_in approved (status_at id s.reqs)

cashout-cashout : (i j : Text) → eq_text (cashout_key i) (cashout_key j) ≡ eq_text i j
unfolding eq_text
cashout-cashout i j = refl

-- The request `id` goes to the status `x`, and its debit is posted if `b`.
set_to :
    (s : Cashouts) (l : Ledger) (id : Text) (r : CashoutRequest) (b : Bool)
    → IsFaithful s
    → r.id ≡ id
    → b ≡ eq_status approved r.status
    → is_in approved (status_at id s.reqs) ≡ false
    → ((k : Text) → is_posted k l ≡ (is_posted k s.ledger || (eq_text (cashout_key id) k && b)))
    → IsFaithful (record { ledger = l; reqs = insert id r s.reqs })
set_to s l id r b f own agrees was_not reg = record {
  indexed = IsIndexed-insert id r s.reqs own f.indexed;
  debited = λ j.
      rw (reg (cashout_key j), cashout-cashout id j, f.debited j, status_at-insert id j r s.reqs)
        (elim (Bool-cases (eq_text id j)) [
          | inl same ↦ rw (same, sym ((eq_text_iff id j).0 same), was_not, agrees) refl
          | inr other ↦ rw other (ground arith)
        ]);
}

unmoved :
    (key : Text) (l : Ledger) (k : Text)
    → is_posted k l ≡ (is_posted k l || (eq_text key k && false))
unmoved key l k = ground arith

is_pending : (x : CashoutStatus) → eq_status pending x ≡ true → x ≡ pending
unfolding eq_status
is_pending pending h = refl
is_pending approved h = cc
is_pending rejected h = cc
is_pending cancelled h = cc
is_pending expired h = cc

eq_status_comm : (x : CashoutStatus) → eq_status pending x ≡ eq_status x pending
unfolding eq_status
eq_status_comm pending = refl
eq_status_comm approved = refl
eq_status_comm rejected = refl
eq_status_comm cancelled = refl
eq_status_comm expired = refl

module _ (s : Cashouts) (f : IsFaithful s) (at : Text) (r : CashoutRequest)
    (found : lookup r.id s.reqs ≡ some r) where
  not_yet : eq_status pending r.status ≡ true → is_in approved (status_at r.id s.reqs) ≡ false
  unfolding status_at eq_status
  not_yet waits = rw (found, is_pending r.status waits) refl

  -- Closing a request without a debit.
  pub closed-IsFaithful :
      (to : CashoutStatus)
      → eq_status approved to ≡ false
      → IsFaithful (record { ledger = s.ledger; reqs = (claim at r.id (pending ∷ []) to s.reqs).1 })
  closed-IsFaithful to no_debit =
      rw (claim-cases at r.id pending to r s.reqs found)
        (elim (Bool-cases (eq_status pending r.status)) [
          | inl waits ↦ rw waits (
              set_to s s.ledger r.id (moved_to at to r) false f (unfold moved_to in refl)
                (unfold moved_to in sym no_debit) (not_yet waits)
                (unmoved (cashout_key r.id) s.ledger))
          | inr over ↦ rw over f
        ])

  after_post-IsFaithful :
      (back_at : Text) (a : Result PostedJournal × Ledger)
      → eq_status pending r.status ≡ true
      → Registers (cashout_key r.id) s.ledger a
      → IsFaithful
          (after_post back_at r.id
            (moved_to at approved r)
            (insert r.id (moved_to at approved r) s.reqs)
            a).1
  after_post-IsFaithful back_at (ok p, l) waits reg =
      set_to s l r.id (moved_to at approved r) true f (unfold moved_to in refl)
        (unfold moved_to eq_status in refl) (not_yet waits) reg
  after_post-IsFaithful back_at (err e, l) waits reg =
      rw
        (claim-cases back_at r.id approved pending (moved_to at approved r)
          (insert r.id (moved_to at approved r) s.reqs)
          (lookup-insert_self r.id (moved_to at approved r) s.reqs))
        (unfold moved_to eq_status in
          rw
            (insert-insert r.id (record r { status = pending; updated_at = back_at })
              (record r { status = approved; updated_at = at }) s.reqs)
            (set_to s l r.id (record r { status = pending; updated_at = back_at }) false f refl refl
              (not_yet waits) reg))

  pub approve_found-IsFaithful :
      (dates : Dates) (now : ℤ) (posted_at back_at customer_id : Text)
      → IsFaithful (approve_found dates now at posted_at back_at customer_id s (some r)).1
  approve_found-IsFaithful dates now posted_at back_at customer_id =
      elim (Bool-cases (not (eq_text r.customer_id customer_id))) [
        | inl stranger ↦ rw stranger f
        | inr owner ↦ elim (Bool-cases (eq_status pending r.status)) [
          | inr over ↦ rw (owner, sym (eq_status_comm r.status), over) f
          | inl waits ↦ elim (Bool-cases (is_over dates now r.expires_at)) [
            | inl late ↦
                rw (owner, sym (eq_status_comm r.status), waits, late)
                  (closed-IsFaithful expired (unfold eq_status in refl))
            | inr still ↦
                rw
                  (
                    owner,
                    sym (eq_status_comm r.status),
                    waits,
                    still,
                    claim-cases at r.id pending approved r s.reqs found,
                    waits,
                  )
                  (after_post-IsFaithful back_at _ waits (debits posted_at))
          ]
        ]
      ]
    where
      debits :
          (posted_at : Text)
          → Registers (cashout_key r.id) s.ledger (perform posted_at (cash_out_request r) s.ledger)
      debits posted_at =
          unfold cash_out_request in
          agent_cash_out-Registers posted_at r.agent_id r.customer_id r.currency r.amount_minor
            r.commission_minor (cashout_key r.id) s.ledger

  pub close_found-IsFaithful :
      (owner : CashoutRequest → Text) (to : CashoutStatus) (caller : Text)
      → eq_status approved to ≡ false
      → IsFaithful (close_found owner to at caller s (some r)).1
  close_found-IsFaithful owner to caller no_debit =
      elim (Bool-cases (not (eq_text (owner r) caller))) [
        | inl stranger ↦ rw stranger f
        | inr own ↦
            rw own
              (answered (claim at r.id (pending ∷ []) to s.reqs) (closed-IsFaithful to no_debit))
      ]
    where
      answered :
          (o : Option CashoutRequest × Requests)
          → IsFaithful (record { ledger = s.ledger; reqs = o.1 })
          → IsFaithful (updated s o).1
      answered (none, reqs) h = h
      answered (some q, reqs) h = h

pub request-IsFaithful :
    (dates : Dates) (expiry : ℤ) (id : Text) (now_ms : ℤ) (created_at agent_id customer_id : Text)
    (c : Currency) (amount commission : ℤ) (s : Cashouts)
    → IsFaithful s
    → lookup id s.reqs ≡ none
    → IsFaithful
        (request dates expiry id now_ms created_at agent_id customer_id c amount commission s).1
unfolding request create
request-IsFaithful dates expiry id now_ms created_at agent_id customer_id c amount commission s f
      fresh =
    elim (Bool-cases (leb_ℤ amount (pos 0))) [
      | inl bad ↦ rw bad f
      | inr good ↦ rw good (
          set_to s s.ledger id (new_request created_at _) false f (unfold new_request in refl)
            (unfold new_request eq_status in refl) (unfold status_at in rw fresh refl)
            (unmoved (cashout_key id) s.ledger))
    ]
