-- ===== src/Transfers/Again.antt =====
-- `initiate` of src/transfers/transfer-service.ts, called twice with one key.
use ticash_pay_demo.Prelude.Names.{
  ◌≡◌, ◌≢◌, [], ◌∷◌, refl, sym, ap, ◌∙◌, inl, inr, some, Option-cases,
}
use ticash_pay_demo.Prelude.Text.{Text, text_eq}
use ticash_pay_demo.Prelude.Dict.{lookup, lookup-insert_self}
use ticash_pay_demo.Prelude.Result.{Result, ok, err, WhenOk, WhenOk-use, Result-cases}
use ticash_pay_demo.Ledger.Operations.Transfer.{quote_transfer}
use ticash_pay_demo.Ledger.Service.{derive_uuid}
use ticash_pay_demo.Transfers.Store.{
  completed, TransferRecord, NewTransfer, Transfers, new_transfer, create,
}
use ticash_pay_demo.Transfers.Service.{
  Saga, Wiring, Answers, quote_from, Ran, run, TransferArgs, locked, intent, Initiated, answer_of,
  start_saga, initiate,
}
use ticash_pay_demo.Transfers.Resume.{run-completed}
use ticash_pay_demo.Transfers.Ends.{Leaves, CanResume, run-Leaves}

-- The row that `create` answers with is the row that it leaves.
create-lookup :
    (now : Text) (i : NewTransfer) (rows : Transfers)
    → lookup i.correlation_id (create now i rows).1 ≡ some (create now i rows).0
unfolding create
create-lookup now i rows = elim (Option-cases (lookup i.correlation_id rows)) [
  | inl missing ↦ rw missing (lookup-insert_self i.correlation_id (new_transfer now i) rows)
  | inr (t, found) ↦ rw found found
]

create-found :
    (now : Text) (i : NewTransfer) (rows : Transfers) (t : TransferRecord)
    → lookup i.correlation_id rows ≡ some t
    → create now i rows ≡ (t, rows)
unfolding create
create-found now i rows t found = rw found refl

abbrev answered : Text → TransferRecord → Initiated
answered id t = record { correlation_id = id; agreed = quote_from t; status = t.status }

-- The second saga of a completed transfer.
start-completed :
    (w : Wiring) (a : Answers) (now : Text) (i : NewTransfer) (t : TransferRecord) (u : Saga)
    → lookup i.correlation_id u.rows ≡ some t
    → t.status ≡ completed
    → start_saga w a now u (ok i) ≡ (ok (answered i.correlation_id t), u)
start-completed w a now i t u found over =
    rw (create-found now i u.rows t found, run-completed w a i.correlation_id t u found over) refl

ok_injective : (a b : Initiated) → ok a ≡ ok b → a ≡ b
ok_injective a b h = cc

-- What a saga that returned leaves.
record IsDone (id : Text) (x : Initiated) (u : Saga) : Type 0 where
  row : TransferRecord
  found : lookup id u.rows ≡ some row
  over : row.status ≡ completed
  same : x ≡ answered id row

answer_of-IsDone :
    (id : Text) (made : TransferRecord) (x : Initiated) (r : Ran)
    → Leaves id (quote_from made) (λ y. y ≡ completed) CanResume r
    → (answer_of id made r).0 ≡ ok x
    → IsDone id x (answer_of id made r).1
answer_of-IsDone id made x (err e, u) h done = cc
answer_of-IsDone id made x (ok t, u) h done = record {
  row = t;
  found = h.0;
  over = h.2;
  same = told (h.1) done;
}
  where
    told :
        quote_from t ≡ quote_from made → (answer_of id made (ok t, u)).0 ≡ ok x → x ≡ answered id t
    told q done = rw q (sym (ok_injective _ x done))

-- A key that is not empty names its transfer whatever `randomUUID()` would answer.
derive_uuid-any :
    (random random' : Text) (sha256_hex : Text → Text) (key : Text)
    → key ≢ []
    → derive_uuid random sha256_hex key ≡ derive_uuid random' sha256_hex key
unfolding derive_uuid
derive_uuid-any random random' sha256_hex [] h = absurd (h refl)
derive_uuid-any random random' sha256_hex (c ∷ cs) h = refl

intent-id :
    (random : Text) (sha256_hex : Text → Text) (w : Wiring) (args : TransferArgs)
    → WhenOk
        (λ i. i.correlation_id ≡ derive_uuid random sha256_hex args.idempotency_key)
        (intent random sha256_hex w args)
unfolding intent
intent-id random sha256_hex w args = elim (Result-cases (locked w args)) [
  | inr (e, bad) ↦ rw bad tt
  | inl (lock, fits) ↦
      elim (Result-cases
        (quote_transfer args.from_currency args.to_currency args.send_minor lock.1 lock.0)) [
          | inr (e, bad) ↦ rw (fits, bad) tt
          | inl (q, quoted) ↦ rw (fits, quoted) refl
        ]
]

start_saga-IsDone :
    (w : Wiring) (a : Answers) (now : Text) (s : Saga) (i : NewTransfer) (x : Initiated)
    → (start_saga w a now s (ok i)).0 ≡ ok x
    → IsDone i.correlation_id x (start_saga w a now s (ok i)).1
start_saga-IsDone w a now s i x done =
    let made = create now i s.rows in
    answer_of-IsDone i.correlation_id made.0 x
      (run w a i.correlation_id (record s { rows = made.1 }))
      (run-Leaves w a i.correlation_id made.0 (record s { rows = made.1 })
        (create-lookup now i s.rows))
      done

-- After a call of `initiate` with a key that is not empty and that returned, another one with the
-- same key, at any time, with whatever other arguments, rates and answers of the provider, that
-- gets as far as its quote, gives the first one's answer, its locked rate and fee included, and
-- changes nothing.
pub initiate_again :
    (random random' : Text) (sha256_hex : Text → Text) (w w' : Wiring) (a a' : Answers)
    (now now' : Text) (args args' : TransferArgs) (s : Saga) (x : Initiated) (i' : NewTransfer)
    → args.idempotency_key ≢ []
    → args'.idempotency_key ≡ args.idempotency_key
    → (initiate random sha256_hex w a now args s).0 ≡ ok x
    → intent random' sha256_hex w' args' ≡ ok i'
    → initiate random' sha256_hex w' a' now' args' (initiate random sha256_hex w a now args s).1
      ≡ (ok x, (initiate random sha256_hex w a now args s).1)
unfolding initiate
initiate_again random random' sha256_hex w w' a a' now now' args args' s x i' full key done priced =
    first (intent random sha256_hex w args) (intent-id random sha256_hex w args) done
  where
    name' : i'.correlation_id ≡ derive_uuid random sha256_hex args.idempotency_key
    name' =
        WhenOk-use (λ i. i.correlation_id ≡ derive_uuid random' sha256_hex args'.idempotency_key)
          (intent random' sha256_hex w' args') i' priced (intent-id random' sha256_hex w' args')
        ∙ ap (derive_uuid random' sha256_hex) key
        ∙ derive_uuid-any random' random sha256_hex args.idempotency_key full

    again :
        (i : NewTransfer) (u : Saga)
        → i.correlation_id ≡ derive_uuid random sha256_hex args.idempotency_key
        → IsDone i.correlation_id x u
        → start_saga w' a' now' u (intent random' sha256_hex w' args') ≡ (ok x, u)
    again i u name d =
        let same : i'.correlation_id ≡ i.correlation_id = name' ∙ sym name in
        rw priced (
          start-completed w' a' now' i' d.row u (ap (λ z. lookup z u.rows) same ∙ d.found) d.over
          ∙ ap (λ y. (ok y, u)) (ap (λ z. answered z d.row) same ∙ sym d.same))

    first :
        (r : Result NewTransfer)
        → WhenOk (λ i. i.correlation_id ≡ derive_uuid random sha256_hex args.idempotency_key) r
        → (start_saga w a now s r).0 ≡ ok x
        → start_saga w' a' now' (start_saga w a now s r).1 (intent random' sha256_hex w' args')
          ≡ (ok x, (start_saga w a now s r).1)
    first (err e) name h = cc
    first (ok i) name h =
        again i (start_saga w a now s (ok i)).1 name (start_saga-IsDone w a now s i x h)
