-- ===== src/Ledger/Types.antt =====
-- src/ledger/types.ts: accounts, postings, journals.
pub mod Keys
use ticash_pay_demo.Prelude.Names.{Bool, true, false, Option, none, some, List, ◌∷◌, ◌++◌}
use ticash_pay_demo.Prelude.Int.{ℤ}
use ticash_pay_demo.Prelude.Text.{Text, codes}
use ticash_pay_demo.Money.Currency.{Currency, currency_text}

pub data OwnerType : Type 0 where
  customer agent system : OwnerType

pub data AccountKind : Type 0 where
  wallet agent_float agent_commission p2p_escrow settlement fee_revenue fx_position : AccountKind
  payout_suspense provider_fee withdrawal_suspense promo_expense : AccountKind

-- `NON_NEGATIVE_KINDS.has(kind)`
unfoldable pub is_non_negative : AccountKind → Bool
is_non_negative wallet = true
is_non_negative agent_float = true
is_non_negative agent_commission = true
is_non_negative p2p_escrow = true
is_non_negative other = false

pub record AccountSpec : Type 0 where
  pub owner_type : OwnerType
  pub owner_id : Option Text
  pub kind : AccountKind
  pub currency : Currency

unfoldable pub owner_type_text : OwnerType → Text
owner_type_text customer = codes "customer"
owner_type_text agent = codes "agent"
owner_type_text system = codes "system"

unfoldable pub kind_text : AccountKind → Text
kind_text wallet = codes "wallet"
kind_text agent_float = codes "agent_float"
kind_text agent_commission = codes "agent_commission"
kind_text p2p_escrow = codes "p2p_escrow"
kind_text settlement = codes "settlement"
kind_text fee_revenue = codes "fee_revenue"
kind_text fx_position = codes "fx_position"
kind_text payout_suspense = codes "payout_suspense"
kind_text provider_fee = codes "provider_fee"
kind_text withdrawal_suspense = codes "withdrawal_suspense"
kind_text promo_expense = codes "promo_expense"

-- `ownerId ?? '_'`
unfoldable pub owner_id_text : Option Text → Text
owner_id_text none = codes "_"
owner_id_text (some id) = id

-- `accountKey`
unfoldable pub account_key : AccountSpec → Text
unfolding owner_type_text owner_id_text kind_text
account_key spec =
    owner_type_text spec.owner_type
    ++ b':'
      ∷ (owner_id_text spec.owner_id
          ++ b':' ∷ (kind_text spec.kind ++ b':' ∷ currency_text spec.currency))

pub data TxType : Type 0 where
  fund_wallet cash_in cash_out float_topup transfer payout airtime p2p_lock p2p_release : TxType
  p2p_unlock usdt_withdraw_hold usdt_withdraw_settle usdt_withdraw_refund referral_reward : TxType
  reversal : TxType

-- One line of a journal; a credit is positive.
pub record PostingDraft : Type 0 where
  pub account : AccountSpec
  pub currency : Currency
  pub amount_minor : ℤ

-- The only metadata that the builders write.
pub record Metadata : Type 0 where
  pub recipient_ref : Text
  pub rate : Text

pub record JournalDraft : Type 0 where
  pub tx_type : TxType
  pub idempotency_key : Text
  pub postings : List PostingDraft
  pub correlation_id : Option Text
  pub external_ref : Option Text
  pub metadata : Option Metadata

pub record PostedPosting : Type 0 where
  pub key : Text
  pub currency : Currency
  pub amount_minor : ℤ

pub record PostedJournal : Type 0 where
  pub transaction_uid : Text
  pub tx_type : TxType
  pub idempotency_key : Text
  pub correlation_id : Option Text
  pub external_ref : Option Text
  pub postings : List PostedPosting
  pub created_at : Text
