-- ===== src/Ledger/Operations/Accounts.antt =====
-- The account helpers of src/ledger/operations.ts, and the two ways to make a posting.
use ticash_pay_demo.Prelude.Names.{Bool, true, false, Option, none, some, List, [], ◌∷◌}
use ticash_pay_demo.Prelude.Int.{ℤ, pos, neg, leb_ℤ, ltb_ℤ}
use ticash_pay_demo.Prelude.Text.{Text}
use ticash_pay_demo.Prelude.Result.{
  Result, ok, ◌>>=◌, ◌>>◌, throw_if, ledger_error, ledger_validation,
}
use ticash_pay_demo.Money.Currency.{Currency}
use ticash_pay_demo.Ledger.Types.{
  AccountSpec, AccountKind, customer, agent, system, wallet, agent_float, agent_commission,
  p2p_escrow, PostingDraft, JournalDraft, TxType,
}

-- `customerWallet`
unfoldable pub customer_wallet : Text → Currency → AccountSpec
customer_wallet id c = record {
  owner_type = customer;
  owner_id = some id;
  kind = wallet;
  currency = c;
}

-- `agentFloat`
unfoldable pub agent_float_account : Text → Currency → AccountSpec
agent_float_account id c = record {
  owner_type = agent;
  owner_id = some id;
  kind = agent_float;
  currency = c;
}

-- `agentCommission`
unfoldable pub agent_commission_account : Text → Currency → AccountSpec
agent_commission_account id c = record {
  owner_type = agent;
  owner_id = some id;
  kind = agent_commission;
  currency = c;
}

-- `systemAccount`
unfoldable pub system_account : AccountKind → Currency → AccountSpec
system_account k c = record { owner_type = system; owner_id = none; kind = k; currency = c }

-- `p2pEscrow`
unfoldable pub p2p_escrow_account : Text → Currency → AccountSpec
p2p_escrow_account id c = record {
  owner_type = customer;
  owner_id = some id;
  kind = p2p_escrow;
  currency = c;
}

-- `assertPositiveMagnitude`
unfoldable pub assert_positive_magnitude : ℤ → Result (Unit {0})
assert_positive_magnitude x = throw_if (leb_ℤ x (pos 0)) (ledger_error ledger_validation)

unfoldable pub credit : AccountSpec → ℤ → Result PostingDraft
unfolding assert_positive_magnitude
credit a x = do
  assert_positive_magnitude x
  ok (record { account = a; currency = a.currency; amount_minor = x })

unfoldable pub debit : AccountSpec → ℤ → Result PostingDraft
unfolding assert_positive_magnitude
debit a x = do
  assert_positive_magnitude x
  ok (record { account = a; currency = a.currency; amount_minor = neg x })

-- `if (x > 0n) postings.push(...)`
abbrev pub when_positive : ℤ → Result (List PostingDraft) → Result (List PostingDraft)
when_positive x m = go (ltb_ℤ (pos 0) x) m
  where
    go : Bool → Result (List PostingDraft) → Result (List PostingDraft)
    go true n = n
    go false n = ok []

-- The array literal of two postings, and of one.
abbrev pub two : Result PostingDraft → Result PostingDraft → Result (List PostingDraft)
two m n = do p ← m; q ← n; ok (p ∷ q ∷ [])

abbrev pub one : Result PostingDraft → Result (List PostingDraft)
one m = do p ← m; ok (p ∷ [])

-- `...(args.externalRef ? { externalRef: args.externalRef } : {})`: the empty text is left out.
abbrev pub truthy : Option Text → Option Text
truthy (some (c ∷ cs)) = some (c ∷ cs)
truthy other = none

-- A journal with no metadata.
abbrev pub plain_journal :
    TxType → Text → Option Text → Option Text → List PostingDraft → Result JournalDraft
plain_journal t key correlation external ps = ok (record {
  tx_type = t;
  idempotency_key = key;
  postings = ps;
  correlation_id = correlation;
  external_ref = external;
  metadata = none;
})
