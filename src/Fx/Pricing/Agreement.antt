-- ===== src/Fx/Pricing/Agreement.antt =====
-- `priceTransfer` (src/fx/rate-service.ts) against `quoteTransfer` (src/ledger/operations.ts).
use ticash_pay_demo.Prelude.Names.{◌≡◌, refl, inl, inr, Option, some, Bool-cases, Option-cases}
use ticash_pay_demo.Prelude.Int.{ℤ, ◌+ℤ◌, ◌-ℤ◌, int_laws}
use ticash_pay_demo.Prelude.Text.{text_eq}
use ticash_pay_demo.Prelude.Result.{Result, ok, err, Result-cases}
use ticash_pay_demo.Money.Currency.{Currency, eq_currency, currency_eq}
use ticash_pay_demo.Money.Round.{convert, floor_to_payout_unit}
use ticash_pay_demo.Money.Round.Bounds.{convert_identity}
use ticash_pay_demo.Ledger.Operations.Transfer.{TransferQuote, quote_transfer}
use ticash_pay_demo.Fx.Bps.{apply_bps, margined_rate}
use ticash_pay_demo.Fx.Rates.{RateRecord, Rates, get_rate}
use ticash_pay_demo.Fx.Pricing.{
  TransferPricing, require_rate, platform_bps, provider_bps, price_domestic, price_corridor,
  price_transfer,
}

-- The quote that the ledger books for a price: same amount, fee, total, rate and payout.
abbrev pub booked : TransferPricing → TransferQuote
booked p = record {
  send_minor = p.send_minor;
  fee_minor = p.platform_fee_minor;
  total_debit_minor = p.total_debit_minor;
  rate = p.rate;
  receive_minor = p.gross_payout_minor;
  from_currency = p.from_currency;
  to_currency = p.to_currency;
}

abbrev pub Agrees : Currency → Currency → ℤ → TransferPricing → Type 0
Agrees from to send p =
    (quote_transfer from to send p.platform_fee_minor p.rate ≡ ok (booked p))
    × (p.net_to_recipient_minor +ℤ p.provider_fee_minor ≡ p.gross_payout_minor)

-- A price, when there is one, agrees with the ledger.
abbrev pub WhenPriced : Currency → Currency → ℤ → Result TransferPricing → Type 0
WhenPriced from to send (ok p) = Agrees from to send p
WhenPriced from to send (err e) = Unit

back : (x y : ℤ) → x -ℤ y +ℤ y ≡ x
back x y = omega int_laws

domestic_agrees :
    (c : Currency) (send : ℤ) (row : Option RateRecord)
    → WhenPriced c c send (price_domestic c c send row)
unfolding price_domestic quote_transfer
domestic_agrees c send row = elim (Result-cases (apply_bps send (platform_bps row))) [
  | inr (e, bad) ↦ rw bad tt
  | inl (fee, fee_ok) ↦
      elim (Result-cases (apply_bps (floor_to_payout_unit send c) (provider_bps row))) [
        | inr (e, bad) ↦ rw (fee_ok, bad) tt
        | inl (cut, cut_ok) ↦
            rw (fee_ok, cut_ok)
              (rw (convert_identity send c) refl, back (floor_to_payout_unit send c) cut)
      ]
]

corridor_agrees :
    (from to : Currency) (send : ℤ) (r : RateRecord)
    → WhenPriced from to send (price_corridor from to send (some r))
unfolding price_corridor quote_transfer require_rate
corridor_agrees from to send r = elim (Result-cases (margined_rate r.mid_rate r.margin_bps)) [
  | inr (e, bad) ↦ rw bad tt
  | inl (rate, rate_ok) ↦ elim (Result-cases (apply_bps send r.platform_fee_bps)) [
    | inr (e, bad) ↦ rw (rate_ok, bad) tt
    | inl (fee, fee_ok) ↦ elim (Result-cases (convert send from to rate)) [
      | inr (e, bad) ↦ rw (rate_ok, fee_ok, bad) tt
      | inl (got, got_ok) ↦ elim (Result-cases (convert send from to r.mid_rate)) [
        | inr (e, bad) ↦ rw (rate_ok, fee_ok, got_ok, bad) tt
        | inl (mid, mid_ok) ↦
            elim (Result-cases (apply_bps (floor_to_payout_unit got to) r.provider_fee_bps)) [
              | inr (e, bad) ↦ rw (rate_ok, fee_ok, got_ok, mid_ok, bad) tt
              | inl (cut, cut_ok) ↦ elim (Result-cases (convert fee from to r.mid_rate)) [
                | inr (e, bad) ↦ rw (rate_ok, fee_ok, got_ok, mid_ok, cut_ok, bad) tt
                | inl (there, there_ok) ↦
                    rw (rate_ok, fee_ok, got_ok, mid_ok, cut_ok, there_ok)
                      (rw got_ok refl, back (floor_to_payout_unit got to) cut)
              ]
            ]
      ]
    ]
  ]
]

-- Whenever a transfer is priced, the quote that the ledger builds from the price's own fee and
-- rate exists and books exactly the price's total debit and gross payout; and what the recipient
-- nets and the provider's fee add up to that payout. This holds for domestic and for foreign
-- corridors.
pub price_transfer-WhenPriced :
    (from to : Currency) (send : ℤ) (rates : Rates)
    → WhenPriced from to send (price_transfer from to send rates)
unfolding price_transfer
price_transfer-WhenPriced from to send rates = elim (Bool-cases (eq_currency from to)) [
  | inl same ↦
      rw (same, (currency_eq.beq_iff from to).0 same)
        (domestic_agrees to send (get_rate to to rates))
  | inr other ↦ rw other (elim (Option-cases (get_rate from to rates)) [
    | inl missing ↦ rw missing (unfold price_corridor require_rate in tt)
    | inr (r, found) ↦ rw found (corridor_agrees from to send r)
  ])
]
