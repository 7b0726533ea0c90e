-- ===== src/Tests/Trading.antt =====
-- The theorems on the marketplace (src/p2p) at concrete calls.
use ticash_pay_demo.Prelude.Names.{◌≡◌, refl, false, none, some, [], ◌∷◌}
use ticash_pay_demo.Prelude.Int.{pos, ◌-ℤ◌, ◌≤ℤ◌}
use ticash_pay_demo.Prelude.Text.{codes, eq_text, text_eq}
use ticash_pay_demo.Prelude.Dict.{lookup}
use ticash_pay_demo.Prelude.Weigh.{weigh}
use ticash_pay_demo.Prelude.Result.{WhenOk}
use ticash_pay_demo.Money.Currency.{usdt, brl}
use ticash_pay_demo.Ledger.Types.{settlement, TxType, JournalDraft}
use ticash_pay_demo.Ledger.Operations.Accounts.{customer_wallet, system_account}
use ticash_pay_demo.Ledger.Operations.Shape.{credited, debited}
use ticash_pay_demo.Ledger.Store.{empty, post}
use ticash_pay_demo.Prelude.Sums.{add_at, amount_at, add_all}
use ticash_pay_demo.Prelude.Int.{neg, ◌+ℤ◌, ◌*ℤ◌}
use ticash_pay_demo.Prelude.Dict.{insert}
use ticash_pay_demo.Money.Currency.{scale_of, eq_currency, currency_text}
use ticash_pay_demo.Money.Trim.{trim, trim_start, trim_end, is_space}
use ticash_pay_demo.Money.Digits.{span_digits, is_digit, digits_value, value_from}
use ticash_pay_demo.Money.Decimal.{match_unsigned, fraction_of}
use ticash_pay_demo.Money.Round.{convert, round_half_up_div, half_up}
use ticash_pay_demo.Ledger.Engine.{assert_balanced, assert_zero, sum_by_currency, sum_from}
use ticash_pay_demo.Ledger.Store.{commit, post_new, register, guard_deltas, guard_one, add_deltas}
use ticash_pay_demo.Ledger.Types.{
  account_key, owner_type_text, kind_text, owner_id_text, is_non_negative,
}
use ticash_pay_demo.Ledger.Operations.Accounts.{
  p2p_escrow_account, credit, debit, assert_positive_magnitude,
}
use ticash_pay_demo.Ledger.Operations.Escrow
use ticash_pay_demo.Ledger.Service.{perform, draft}
use ticash_pay_demo.P2p.Types.{active, is_active, PaymentMethod, Offer}
use ticash_pay_demo.P2p.Store.{Store, create_order, check_order, reserve, with_remaining}
use ticash_pay_demo.P2p.Store
use ticash_pay_demo.P2p.Service.{list_offer, lock_request}
use ticash_pay_demo.Fx.Bps.{apply_bps, assert_bps}
use ticash_pay_demo.P2p.Listing.{check_offer, assert_rate, any, is_incomplete}
use ticash_pay_demo.P2p.Store.{new_offer}
use ticash_pay_demo.P2p.Store.Covered.{held_of}
use ticash_pay_demo.P2p.Service.{Market, release_order}
use ticash_pay_demo.P2p.Listing.{OfferArgs, create_offer}
use ticash_pay_demo.P2p.Ordering.{OrderArgs, choose_method, price_order, open_order, submit_payment}
use ticash_pay_demo.P2p.Pricing.{IsPriced, price_order-IsPriced}
use ticash_pay_demo.P2p.Step.{Setting, Reach, with_store, no_rows}
use ticash_pay_demo.P2p.Step
use ticash_pay_demo.P2p.Oversell.{never_oversold}
use ticash_pay_demo.P2p.Faithful.{IsFaithful}
use ticash_pay_demo.P2p.Settled.{Market-IsFaithful}

-- Mia sells five USDT at 5.50 reais each. Ana buys two, pays, and Mia releases them.
abbrev deposit : JournalDraft
deposit = record {
  tx_type = TxType.fund_wallet;
  idempotency_key = codes "k1";
  postings =
      debited (system_account settlement usdt) (pos 5000000)
      ∷ credited (customer_wallet (codes "mia") usdt) (pos 5000000)
      ∷ [];
  correlation_id = none;
  external_ref = none;
  metadata = none;
}

abbrev setting : Setting
setting = record {
  asset = usdt;
  confirm = pos 60;
  dates = record { parse = λ t. some (pos 0); to_iso_string = λ n. codes "t" };
  numbers = record { to_integer = λ t. none; is_not_positive = λ t. false };
}

abbrev pix : PaymentMethod
pix = record { kind = codes "pix"; label = codes "Pix"; account = codes "mia@pix" }

abbrev listing : OfferArgs
listing = record {
  merchant_id = codes "mia";
  fiat_currency = brl;
  price_per_unit = codes "5.50";
  total_minor = pos 5000000;
  min_fiat_minor = none;
  max_fiat_minor = some (pos 2000);
  pay_window_min = none;
  methods = pix ∷ [];
}

abbrev wanted : OrderArgs
wanted = record {
  offer_id = codes "f1";
  buyer_id = codes "ana";
  asset_minor = pos 2000000;
  method_type = none;
}

abbrev funded : Market
funded = record { ledger = (post (codes "t1") deposit empty).1; store = no_rows }

abbrev listed : Market
listed = (create_offer setting.numbers usdt (codes "f1") (codes "t2") (codes "t3") listing funded).1

abbrev ordered : Market
ordered =
    with_store listed
      (open_order setting.dates (pos 100) (codes "o1") (pos 0) (codes "t4") wanted listed.store).1

abbrev paid : Market
paid =
    with_store ordered
      (submit_payment setting.dates (pos 60) (pos 5) (codes "t5") (codes "o1") (codes "ana")
        (codes "proof") ordered.store).1

abbrev settled : Market
settled = (release_order (codes "t6") (codes "t7") (codes "t8") (codes "o1") (codes "mia") paid).1

abbrev offer : Offer
offer = record {
  id = codes "f1";
  merchant_id = codes "mia";
  asset = usdt;
  fiat_currency = brl;
  price_per_unit = codes "5.50";
  total_minor = pos 5000000;
  remaining_minor = pos 5000000;
  min_fiat_minor = none;
  max_fiat_minor = some (pos 2000);
  pay_window_min = pos 30;
  methods = pix ∷ [];
  status = active;
  created_at = codes "t3";
}

abbrev shop : Store
shop = record { offers = (codes "f1", offer) ∷ []; orders = []; proofs = [] }

-- The escrow takes the five USDT, and the offer is shown.
listed-store : listed.store ≡ shop
unfolding create_offer check_offer assert_rate any is_incomplete trim trim_start trim_end is_space
    match_unsigned fraction_of span_digits is_digit convert round_half_up_div half_up scale_of
    digits_value value_from eq_currency ◌*ℤ◌ list_offer lock_request perform draft Escrow.p2p_lock
    post commit post_new register guard_deltas guard_one add_deltas assert_balanced assert_zero
    sum_by_currency sum_from neg lookup insert add_at customer_wallet system_account account_key
    owner_type_text kind_text owner_id_text is_non_negative eq_text amount_at ◌+ℤ◌ currency_text
    add_all p2p_escrow_account credit debit assert_positive_magnitude new_offer Store.create_offer
listed-store = refl

abbrev reserved : Offer
reserved = record offer { remaining_minor = pos 3000000 }

-- Ana's order reserves two of them.
ordered-offer : lookup (codes "f1") ordered.store.offers ≡ some reserved
unfolding open_order price_order choose_method apply_bps assert_bps convert trim trim_start trim_end
    is_space match_unsigned fraction_of span_digits is_digit round_half_up_div half_up scale_of
    digits_value value_from ◌*ℤ◌ ◌-ℤ◌ ◌+ℤ◌ create_order check_order reserve with_remaining is_active
    eq_text lookup insert
ordered-offer = rw listed-store refl

ordered-Reach : Reach setting ordered
unfolding lookup eq_text
ordered-Reach =
    Step.next
      (Step.next
        (Step.next Step.start (Step.other_post _ (codes "t1") deposit (λ id. (refl, refl, refl))))
        (Step.listed funded (codes "f1") (codes "t2") (codes "t3") listing refl))
      (Step.opened listed (pos 100) (codes "o1") (pos 0) (codes "t4") wanted (rw listed-store refl))

settled-Reach : Reach setting settled
settled-Reach =
    Step.next
      (Step.next ordered-Reach
        (Step.paid ordered (pos 5) (codes "t5") (codes "o1") (codes "ana") (codes "proof")))
      (Step.released_by paid (codes "t6") (codes "t7") (codes "t8") (codes "o1") (codes "mia"))

never_oversold_example :
    (pos 0 ≤ℤ reserved.remaining_minor)
    × (reserved.total_minor -ℤ reserved.remaining_minor
        ≡ weigh (held_of (codes "f1")) ordered.store.orders)
never_oversold_example =
    never_oversold setting ordered (codes "f1") reserved ordered-Reach ordered-offer

Market-IsFaithful_example : IsFaithful settled
Market-IsFaithful_example = Market-IsFaithful setting settled settled-Reach

price_order-IsPriced_example :
    WhenOk
      (IsPriced (codes "o1") wanted offer)
      (price_order setting.dates (pos 100) (codes "o1") (pos 0) wanted (some offer))
price_order-IsPriced_example =
    price_order-IsPriced setting.dates (pos 100) (codes "o1") (pos 0) wanted offer
