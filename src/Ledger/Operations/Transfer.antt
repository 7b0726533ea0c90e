-- ===== src/Ledger/Operations/Transfer.antt =====
-- Cross-currency transfers: quote, legs, reversal, settlement (src/ledger/operations.ts).
use ticash_pay_demo.Prelude.Names.{Option, none, some, ◌++◌}
use ticash_pay_demo.Prelude.Int.{ℤ, pos, ◌+ℤ◌, ◌-ℤ◌}
use ticash_pay_demo.Prelude.Text.{Text}
use ticash_pay_demo.Prelude.Dict.{or_else}
use ticash_pay_demo.Prelude.Result.{Result, ok, ◌>>=◌}
use ticash_pay_demo.Money.Currency.{Currency}
use ticash_pay_demo.Money.Round.{convert, floor_to_payout_unit}
use ticash_pay_demo.Ledger.Types.{
  JournalDraft, settlement, fee_revenue, fx_position, payout_suspense, provider_fee, transfer,
  payout, reversal,
}
use ticash_pay_demo.Ledger.Operations.Accounts.{
  customer_wallet, system_account, credit, debit, when_positive, two, one, plain_journal,
}

pub record TransferQuote : Type 0 where
  pub send_minor : ℤ
  pub fee_minor : ℤ
  pub total_debit_minor : ℤ
  pub rate : Text
  pub receive_minor : ℤ
  pub from_currency : Currency
  pub to_currency : Currency

-- `quoteTransfer`
unfoldable pub quote_transfer : Currency → Currency → ℤ → ℤ → Text → Result TransferQuote
quote_transfer from to send fee rate = do
  converted ← convert send from to rate
  ok (record {
    send_minor = send;
    fee_minor = fee;
    total_debit_minor = send +ℤ fee;
    rate = rate;
    receive_minor = floor_to_payout_unit converted to;
    from_currency = from;
    to_currency = to;
  })

-- `transferDebitJournal`: the fee posting is spliced in behind the first.
unfoldable pub transfer_debit_journal :
    Text → TransferQuote → Text → Text → Text → Result JournalDraft
unfolding credit debit system_account customer_wallet
transfer_debit_journal sender_id quote correlation key recipient = do
  let from = quote.from_currency
  first ← one (debit (customer_wallet sender_id from) quote.total_debit_minor)
  last ← one (credit (system_account fx_position from) quote.send_minor)
  fee ←
      when_positive quote.fee_minor (one (credit (system_account fee_revenue from) quote.fee_minor))
  ok (record {
    tx_type = transfer;
    idempotency_key = key;
    postings = first ++ (fee ++ last);
    correlation_id = some correlation;
    external_ref = none;
    metadata = some (record { recipient_ref = recipient; rate = quote.rate });
  })

-- `transferFxJournal`
unfoldable pub transfer_fx_journal : TransferQuote → Text → Text → Text → Result JournalDraft
unfolding credit debit system_account
transfer_fx_journal quote correlation key recipient = do
  let to = quote.to_currency
  ps ←
      two (debit (system_account fx_position to) quote.receive_minor)
        (credit (system_account payout_suspense to) quote.receive_minor)
  ok (record {
    tx_type = transfer;
    idempotency_key = key;
    postings = ps;
    correlation_id = some correlation;
    external_ref = none;
    metadata = some (record { recipient_ref = recipient; rate = quote.rate });
  })

-- `reverseTransfer`, its first journal.
unfoldable pub reverse_fx_journal : TransferQuote → Text → Text → Result JournalDraft
unfolding credit debit system_account
reverse_fx_journal quote correlation key = do
  let to = quote.to_currency
  ps ←
      two (debit (system_account payout_suspense to) quote.receive_minor)
        (credit (system_account fx_position to) quote.receive_minor)
  plain_journal reversal key (some correlation) none ps

-- `reverseTransfer`, its second journal.
unfoldable pub reverse_debit_journal : Text → TransferQuote → Text → Text → Result JournalDraft
unfolding credit debit system_account customer_wallet
reverse_debit_journal sender_id quote correlation key = do
  let from = quote.from_currency
  first ← one (debit (system_account fx_position from) quote.send_minor)
  last ← one (credit (customer_wallet sender_id from) quote.total_debit_minor)
  fee ←
      when_positive quote.fee_minor (one (debit (system_account fee_revenue from) quote.fee_minor))
  plain_journal reversal key (some correlation) none (first ++ (fee ++ last))

-- `settlePayout`
unfoldable pub settle_payout : Currency → ℤ → Text → Text → Text → Option ℤ → Result JournalDraft
unfolding credit debit system_account
settle_payout c amount correlation key external provider_fee_minor = do
  let fee = or_else provider_fee_minor (pos 0)
  let net = amount -ℤ fee
  ps ← one (debit (system_account payout_suspense c) amount)
  delivered ← when_positive net (one (credit (system_account settlement c) net))
  cut ← when_positive fee (one (credit (system_account provider_fee c) fee))
  plain_journal payout key (some correlation) (some external) (ps ++ (delivered ++ cut))
