-- ===== src/Ledger/Service.antt =====
-- src/ledger/service.ts: each method builds its journal and posts it through the store.
pub mod Drafts
pub mod Coherent
pub mod Methods
pub mod Keyed
pub mod Escrowed
pub mod Both
pub mod Again
use ticash_pay_demo.Prelude.Names.{ℕ, zero, suc, Option, some, List, [], ◌∷◌, ◌||◌, ◌++◌}
use ticash_pay_demo.Prelude.Int.{ℤ, pos, ltb_ℤ}
use ticash_pay_demo.Prelude.Text.{Text, codes}
use ticash_pay_demo.Prelude.Dict.{or_else}
use ticash_pay_demo.Prelude.Result.{
  Result, ok, err, ◌>>=◌, ◌>>◌, throw_if, ledger_error, ledger_validation,
}
use ticash_pay_demo.Money.Currency.{Currency}
use ticash_pay_demo.Ledger.Types.{JournalDraft, PostedJournal}
use ticash_pay_demo.Ledger.Operations.Cash
use ticash_pay_demo.Ledger.Operations.Transfer.{
  TransferQuote, quote_transfer, transfer_debit_journal, transfer_fx_journal, reverse_fx_journal,
  reverse_debit_journal,
}
use ticash_pay_demo.Ledger.Operations.Transfer
use ticash_pay_demo.Ledger.Operations.Escrow
use ticash_pay_demo.Ledger.Store.{Ledger, post}

-- A call of a method that posts one journal, with its arguments in the order of the builders'.
pub data Request : Type 0 where
  fund_wallet referral_reward : Text → Currency → ℤ → Text → Option Text → Request
  cash_in cash_out : Text → Text → Currency → ℤ → Text → Request
  float_topup : Text → Currency → ℤ → Text → Option Text → Request
  agent_cash_in agent_cash_out : Text → Text → Currency → ℤ → ℤ → Text → Request
  post_transfer_debit : Text → TransferQuote → Text → Text → Text → Request
  post_transfer_fx : TransferQuote → Text → Text → Text → Request
  airtime_topup : Text → Currency → ℤ → ℤ → Text → Option Text → Request
  reverse_airtime : Text → Currency → ℤ → ℤ → Text → Request
  settle_payout : Currency → ℤ → Text → Text → Text → Option ℤ → Request
  p2p_lock p2p_unlock : Text → Currency → ℤ → Text → Option Text → Request
  p2p_release : Text → Text → Currency → ℤ → ℤ → Text → Option Text → Request
  usdt_withdraw_hold : Text → Currency → ℤ → Text → Option Text → Request
  usdt_withdraw_settle : Currency → ℤ → ℤ → Text → Text → Option Text → Request
  usdt_withdraw_refund : Text → Currency → ℤ → Text → Text → Request

-- `if (fee < 0n || fee > amount) throw`
unfoldable pub check_fee : ℤ → ℤ → Result (Unit {0})
check_fee fee amount =
    throw_if (ltb_ℤ fee (pos 0) || ltb_ℤ amount fee) (ledger_error ledger_validation)

-- The journal that a method posts, or what it throws before it posts.
unfoldable pub draft : Request → Result JournalDraft
unfolding check_fee
draft (fund_wallet id c x key ext) = Cash.fund_wallet id c x key ext
draft (referral_reward id c x key ext) = Cash.referral_reward id c x key ext
draft (cash_in agent id c x key) = Cash.cash_in_journal agent id c x key
draft (cash_out agent id c x key) = Cash.cash_out_journal agent id c x key
draft (float_topup agent c x key ext) = Cash.float_topup_journal agent c x key ext
draft (agent_cash_in agent id c x commission key) = Cash.agent_cash_in agent id c x commission key
draft (agent_cash_out agent id c x commission key) = Cash.agent_cash_out agent id c x commission key
draft (post_transfer_debit sender q correlation key recipient) =
    transfer_debit_journal sender q correlation key recipient
draft (post_transfer_fx q correlation key recipient) =
    transfer_fx_journal q correlation key recipient
draft (airtime_topup id c cost margin key ext) = Cash.airtime_topup id c cost margin key ext
draft (reverse_airtime id c cost margin key) = Cash.reverse_airtime id c cost margin key
draft (settle_payout c x correlation key ext fee) = do
  check_fee (or_else fee (pos 0)) x
  Transfer.settle_payout c x correlation key ext fee
draft (p2p_lock id c x key correlation) = Escrow.p2p_lock id c x key correlation
draft (p2p_unlock id c x key correlation) = Escrow.p2p_unlock id c x key correlation
draft (p2p_release id buyer c x commission key correlation) = do
  check_fee commission x
  Escrow.p2p_release id buyer c x commission key correlation
draft (usdt_withdraw_hold id c x key correlation) = Escrow.withdraw_hold id c x key correlation
draft (usdt_withdraw_settle c x fee key correlation ext) = do
  check_fee fee x
  Escrow.withdraw_settle c x fee key correlation ext
draft (usdt_withdraw_refund id c x key correlation) = Escrow.withdraw_refund id c x key correlation

abbrev pub post_draft : Text → Ledger → Result JournalDraft → Result PostedJournal × Ledger
post_draft now s (err e) = (err e, s)
post_draft now s (ok j) = post now j s

-- The method itself.
unfoldable pub perform : Text → Request → Ledger → Result PostedJournal × Ledger
perform now r s = post_draft now s (draft r)

-- What a method of two journals answers.
pub record BothLegs : Type 0 where
  pub first : PostedJournal
  pub second : PostedJournal

abbrev pub both_answer : PostedJournal → Result PostedJournal × Ledger → Result BothLegs × Ledger
both_answer p (err e, t) = (err e, t)
both_answer p (ok q, t) = (ok (record { first = p; second = q }), t)

abbrev pub second_leg :
    Text → JournalDraft → Result PostedJournal × Ledger → Result BothLegs × Ledger
second_leg now j (err e, s) = (err e, s)
second_leg now j (ok p, s) = both_answer p (post now j s)

-- Two posts in order: the second is made only if the first one returned.
abbrev pub post_both :
    Text → Text → Ledger → Result (JournalDraft × JournalDraft) → Result BothLegs × Ledger
post_both now now' s (err e) = (err e, s)
post_both now now' s (ok (first, second)) = second_leg now' second (post now first s)

-- `ops.transfer`
unfoldable pub transfer_journals :
    Text → TransferQuote → Text → Text → Text → Text → Result (JournalDraft × JournalDraft)
transfer_journals sender q correlation key_debit key_fx recipient = do
  first ← transfer_debit_journal sender q correlation key_debit recipient
  second ← transfer_fx_journal q correlation key_fx recipient
  ok (first, second)

-- `ops.reverseTransfer`
unfoldable pub reverse_journals :
    Text → TransferQuote → Text → Text → Text → Result (JournalDraft × JournalDraft)
reverse_journals sender q correlation key_fx key_debit = do
  first ← reverse_fx_journal q correlation key_fx
  second ← reverse_debit_journal sender q correlation key_debit
  ok (first, second)

-- `String.slice` between two positions.
unfoldable pub slice : ℕ → ℕ → Text → Text
slice zero zero t = []
slice zero (suc m) [] = []
slice zero (suc m) (x ∷ xs) = x ∷ slice zero m xs
slice (suc n) zero t = []
slice (suc n) (suc m) [] = []
slice (suc n) (suc m) (x ∷ xs) = slice n m xs

abbrev pub uuid_of : Text → Text
uuid_of h =
    slice 0 8 h
    ++ codes "-"
    ++ slice 8 12 h
    ++ codes "-4"
    ++ slice 13 16 h
    ++ codes "-8"
    ++ slice 17 20 h
    ++ codes "-"
    ++ slice 20 32 h

-- `deriveUuid`; `random` is what `randomUUID()` answers.
unfoldable pub derive_uuid : Text → (Text → Text) → Text → Text
derive_uuid random sha256_hex [] = random
derive_uuid random sha256_hex (c ∷ cs) = uuid_of (sha256_hex (c ∷ cs))

-- The journals of `initiateTransfer`.
unfoldable pub initiate_journals :
    Text
    → Text
    → Text
    → Currency
    → Currency
    → ℤ
    → ℤ
    → Text
    → Text
    → Result (JournalDraft × JournalDraft)
unfolding transfer_journals
initiate_journals correlation sender recipient from to send fee rate key =
    quote_transfer from to send fee rate >>= λ q.
    transfer_journals sender q correlation (key ++ codes ":debit") (key ++ codes ":fx") recipient

-- `initiateTransfer`
unfoldable pub initiate_transfer :
    Text
    → (Text → Text)
    → Text
    → Text
    → Text
    → Text
    → Currency
    → Currency
    → ℤ
    → ℤ
    → Text
    → Text
    → Ledger
    → Result BothLegs × Ledger
unfolding initiate_journals derive_uuid
initiate_transfer random sha256_hex now now' sender recipient from to send fee rate key s =
    post_both now now' s (
      initiate_journals (derive_uuid random sha256_hex key) sender recipient from to send fee rate
        key)

-- `reverseTransfer`
unfoldable pub reverse_transfer :
    Text → Text → Text → TransferQuote → Text → Text → Text → Ledger → Result BothLegs × Ledger
unfolding reverse_journals
reverse_transfer now now' sender q correlation key_fx key_debit s =
    post_both now now' s (reverse_journals sender q correlation key_fx key_debit)
