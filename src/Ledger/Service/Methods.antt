-- ===== src/Ledger/Service/Methods.antt =====
-- What every posting method of src/ledger/service.ts builds, those of two journals included.
use ticash_pay_demo.Prelude.Names.{◌≡◌, refl, inl, inr, List, [], ◌∷◌, ◌++◌, Bool-cases}
use ticash_pay_demo.Prelude.Int.{ℤ, pos, ◌+ℤ◌, ◌≤ℤ◌, leb_ℤ, int_laws}
use ticash_pay_demo.Prelude.Text.{Text, codes, text_eq}
use ticash_pay_demo.Prelude.Length.{All}
use ticash_pay_demo.Prelude.Result.{Result, ok, err, ◌>>=◌, WhenOk, Result-cases}
use ticash_pay_demo.Money.Currency.{Currency, currency_eq}
use ticash_pay_demo.Money.Round.{convert}
use ticash_pay_demo.Ledger.Engine.Balance.{IsBalanced}
use ticash_pay_demo.Ledger.Types.{JournalDraft, fee_revenue, fx_position, payout_suspense}
use ticash_pay_demo.Ledger.Operations.Accounts.{customer_wallet, system_account}
use ticash_pay_demo.Ledger.Operations.Transfer.{
  TransferQuote, quote_transfer, transfer_debit_journal, transfer_fx_journal, reverse_fx_journal,
  reverse_debit_journal,
}
use ticash_pay_demo.Ledger.Operations.Shape.{credit-ok, debit-ok, when-debit}
use ticash_pay_demo.Ledger.Operations.Balanced.{Balances, positive, fee_between_back, two_legs}
use ticash_pay_demo.Ledger.Service.{
  Request, draft, transfer_journals, reverse_journals, initiate_journals,
}
use ticash_pay_demo.Ledger.Service.Coherent.{IsCoherent, draft-Balances, transfer_debit-Balances}

-- A call of a posting method: one journal, or the two of `initiateTransfer` and `reverseTransfer`.
pub data Method : Type 0 where
  single : Request → Method
  initiate : Text → Text → Text → Currency → Currency → ℤ → ℤ → Text → Text → Method
  reverse : Text → TransferQuote → Text → Text → Text → Method

abbrev pub both : JournalDraft × JournalDraft → List JournalDraft
both (first, second) = first ∷ second ∷ []

-- The journals that a method posts.
unfoldable pub drafts : Method → Result (List JournalDraft)
drafts (single r) = draft r >>= λ j. ok (j ∷ [])
drafts (initiate correlation sender recipient from to send fee rate key) =
    initiate_journals correlation sender recipient from to send fee rate key >>= λ js. ok (both js)
drafts (reverse sender q correlation key_fx key_debit) =
    reverse_journals sender q correlation key_fx key_debit >>= λ js. ok (both js)

-- The same for a method of two journals.
abbrev pub IsCoherentCall : Method → Type 0
IsCoherentCall (single r) = IsCoherent r
IsCoherentCall (initiate correlation sender recipient from to send fee rate key) = pos 0 ≤ℤ fee
IsCoherentCall (reverse sender q correlation key_fx key_debit) =
    (q.total_debit_minor ≡ q.send_minor +ℤ q.fee_minor) × (pos 0 ≤ℤ q.fee_minor)

reverse_debit-Balances :
    (sender : Text) (q : TransferQuote) (correlation key : Text)
    → q.total_debit_minor ≡ q.send_minor +ℤ q.fee_minor
    → pos 0 ≤ℤ q.fee_minor
    → Balances (reverse_debit_journal sender q correlation key)
unfolding reverse_debit_journal
reverse_debit-Balances sender q correlation key split low =
    elim (Bool-cases (leb_ℤ q.send_minor (pos 0))) [
      | inl bad ↦ rw bad tt
      | inr good ↦
          let sent = positive q.send_minor good in
          let payer = customer_wallet sender q.from_currency in
          let position = system_account fx_position q.from_currency in
          let cut = system_account fee_revenue q.from_currency in
          rw
            (
              split,
              debit-ok position q.send_minor sent,
              credit-ok payer (q.send_minor +ℤ q.fee_minor) (omega int_laws),
              when-debit cut q.fee_minor,
            )
            (fee_between_back q.from_currency _ position payer cut refl refl refl q.send_minor
              q.fee_minor sent low refl)
    ]

pair-Balances :
    (x y : Result JournalDraft)
    → Balances x
    → Balances y
    → WhenOk
        (All IsBalanced)
        ((x >>= λ first. y >>= λ second. ok (first, second)) >>= λ js. ok (both js))
pair-Balances (err e) y p q = tt
pair-Balances (ok j) (err e) p q = tt
pair-Balances (ok j) (ok k) p q = (p, (q, tt))

single-Balances :
    (x : Result JournalDraft) → Balances x → WhenOk (All IsBalanced) (x >>= λ j. ok (j ∷ []))
single-Balances (err e) h = tt
single-Balances (ok j) h = (h, tt)

transfer_fx-Balances :
    (q : TransferQuote) (correlation key recipient : Text)
    → Balances (transfer_fx_journal q correlation key recipient)
unfolding transfer_fx_journal
transfer_fx-Balances q correlation key recipient =
    two_legs q.to_currency (system_account fx_position q.to_currency)
      (system_account payout_suspense q.to_currency) q.receive_minor _ refl refl
      (λ ps. (_, refl, refl))

reverse_fx-Balances :
    (q : TransferQuote) (correlation key : Text) → Balances (reverse_fx_journal q correlation key)
unfolding reverse_fx_journal
reverse_fx-Balances q correlation key =
    two_legs q.to_currency (system_account payout_suspense q.to_currency)
      (system_account fx_position q.to_currency) q.receive_minor _ refl refl (λ ps. (_, refl, refl))

quoted-Balances :
    (sender : Text) (q : TransferQuote) (correlation key_debit key_fx recipient : Text)
    → q.total_debit_minor ≡ q.send_minor +ℤ q.fee_minor
    → pos 0 ≤ℤ q.fee_minor
    → WhenOk
        (All IsBalanced)
        (transfer_journals sender q correlation key_debit key_fx recipient >>= λ js. ok (both js))
unfolding transfer_journals
quoted-Balances sender q correlation key_debit key_fx recipient split low =
    pair-Balances (transfer_debit_journal sender q correlation key_debit recipient)
      (transfer_fx_journal q correlation key_fx recipient)
      (transfer_debit-Balances sender q correlation key_debit recipient split low)
      (transfer_fx-Balances q correlation key_fx recipient)

initiate-Balances :
    (correlation sender recipient : Text) (from to : Currency) (send fee : ℤ) (rate key : Text)
    → pos 0 ≤ℤ fee
    → WhenOk
        (All IsBalanced)
        (drafts (initiate correlation sender recipient from to send fee rate key))
unfolding drafts initiate_journals quote_transfer
initiate-Balances correlation sender recipient from to send fee rate key low =
    elim (Result-cases (convert send from to rate)) [
      | inr (e, failed) ↦ rw failed tt
      | inl (x, converted) ↦ rw converted (
          quoted-Balances sender _ correlation (key ++ codes ":debit") (key ++ codes ":fx")
            recipient refl low)
    ]

-- Every posting method, those of two journals included, either throws before it posts or builds
-- only balanced journals, where the quote of a transfer's debit or of a reversal has the total of its
-- amount and a fee that is not negative, the fee of a transfer that is initiated is not negative,
-- and the margin of an airtime sale or of its reversal is not negative.
pub drafts-Balances : (m : Method) → IsCoherentCall m → WhenOk (All IsBalanced) (drafts m)
unfolding drafts reverse_journals
drafts-Balances (single r) h = single-Balances (draft r) (draft-Balances r h)
drafts-Balances (initiate correlation sender recipient from to send fee rate key) h =
    initiate-Balances correlation sender recipient from to send fee rate key h
drafts-Balances (reverse sender q correlation key_fx key_debit) h =
    pair-Balances (reverse_fx_journal q correlation key_fx)
      (reverse_debit_journal sender q correlation key_debit)
      (reverse_fx-Balances q correlation key_fx)
      (reverse_debit-Balances sender q correlation key_debit h.0 h.1)
