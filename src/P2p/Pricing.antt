-- ===== src/P2p/Pricing.antt =====
-- What `openOrder` of src/p2p/p2p-service.ts asks the store for.
use ticash_pay_demo.Prelude.Names.{◌≡◌, refl, inl, inr, not, false, true, some, arith, Bool-cases}
use ticash_pay_demo.Prelude.Int.{ℤ, pos, ◌+ℤ◌, ◌≤ℤ◌, ◌<ℤ◌, ltb_ℤ, leb_ℤ, int_laws}
use ticash_pay_demo.Prelude.Text.{Text, eq_text, text_eq}
use ticash_pay_demo.Prelude.Runtime.{Dates}
use ticash_pay_demo.Prelude.Result.{
  Result, ok, ◌>>=◌, ◌>>◌, throw_if, WhenOk, WhenOk-use, Result-cases, p2p_error, validation,
}
use ticash_pay_demo.Money.Round.{convert}
use ticash_pay_demo.Fx.Bps.{apply_bps}
use ticash_pay_demo.Fx.Bps.Bounds.{IsPart, apply_bps-IsPart}
use ticash_pay_demo.P2p.Types.{is_active, PaymentMethod, Offer, NewOrder}
use ticash_pay_demo.P2p.Listing.{limit_is}
use ticash_pay_demo.P2p.Ordering.{OrderArgs, asked_for, choose_method, require_method, price_order}

-- An order for `a` on `offer`.
pub record IsPriced (id : Text) (a : OrderArgs) (offer : Offer) (o : NewOrder) : Type 0 where
  pub own : o.id ≡ id
  pub sells : is_active offer.status ≡ true
  pub other : eq_text offer.merchant_id a.buyer_id ≡ false
  pub asks : o.asset_minor ≡ a.asset_minor
  pub more : pos 0 <ℤ o.asset_minor
  pub split : o.net_to_buyer_minor +ℤ o.commission_minor ≡ o.asset_minor
  pub low : pos 0 ≤ℤ o.commission_minor
  pub high : o.commission_minor ≤ℤ o.asset_minor
  pub pays :
      convert a.asset_minor offer.asset offer.fiat_currency offer.price_per_unit ≡ ok o.fiat_minor
  pub enough : limit_is (λ x. ltb_ℤ o.fiat_minor x) offer.min_fiat_minor ≡ false
  pub capped : limit_is (λ x. ltb_ℤ x o.fiat_minor) offer.max_fiat_minor ≡ false

module _ (dates : Dates) (bps : ℤ) (id : Text) (now_ms : ℤ) (a : OrderArgs) (offer : Offer) where
  fits :
      (m : PaymentMethod) (cut fiat : ℤ)
      → not (is_active offer.status) ≡ false
      → eq_text offer.merchant_id a.buyer_id ≡ false
      → leb_ℤ a.asset_minor (pos 0) ≡ false
      → apply_bps a.asset_minor bps ≡ ok cut
      → convert a.asset_minor offer.asset offer.fiat_currency offer.price_per_unit ≡ ok fiat
      → limit_is (λ x. ltb_ℤ fiat x) offer.min_fiat_minor ≡ false
      → limit_is (λ x. ltb_ℤ x fiat) offer.max_fiat_minor ≡ false
      → IsPriced id a offer (asked_for dates id now_ms a offer m cut fiat)
  fits m cut fiat sells other more taken pays enough capped =
      let part : IsPart a.asset_minor cut =
        WhenOk-use (IsPart a.asset_minor) (apply_bps a.asset_minor bps) cut taken
          (apply_bps-IsPart a.asset_minor bps (ground (arith, more))) in
      record {
        own = refl;
        sells = ground (arith, sells);
        other = other;
        asks = refl;
        more = ground (arith, more);
        split = omega int_laws;
        low = part.0;
        high = part.1;
        pays = pays;
        enough = enough;
        capped = capped;
      }

  -- What follows the choice of the method.
  abbrev priced : PaymentMethod → Result NewOrder
  priced m = do
    cut ← apply_bps a.asset_minor bps
    fiat ← convert a.asset_minor offer.asset offer.fiat_currency offer.price_per_unit
    throw_if (limit_is (λ x. ltb_ℤ fiat x) offer.min_fiat_minor) (p2p_error validation)
    throw_if (limit_is (λ x. ltb_ℤ x fiat) offer.max_fiat_minor) (p2p_error validation)
    ok (asked_for dates id now_ms a offer m cut fiat)

  charged :
      (m : PaymentMethod)
      → not (is_active offer.status) ≡ false
      → eq_text offer.merchant_id a.buyer_id ≡ false
      → leb_ℤ a.asset_minor (pos 0) ≡ false
      → WhenOk (IsPriced id a offer) (priced m)
  charged m sells other more = elim (Result-cases (apply_bps a.asset_minor bps)) [
    | inr (e, bad) ↦ rw bad tt
    | inl (cut, taken) ↦
        elim (Result-cases
          (convert a.asset_minor offer.asset offer.fiat_currency offer.price_per_unit)) [
            | inr (e, bad) ↦ rw (taken, bad) tt
            | inl (fiat, pays) ↦
                elim (Bool-cases (limit_is (λ x. ltb_ℤ fiat x) offer.min_fiat_minor)) [
                  | inl few ↦ rw (taken, pays, few) tt
                  | inr enough ↦
                      elim (Bool-cases (limit_is (λ x. ltb_ℤ x fiat) offer.max_fiat_minor)) [
                        | inl many ↦ rw (taken, pays, enough, many) tt
                        | inr capped ↦
                            rw (taken, pays, enough, capped)
                              (fits m cut fiat sells other more taken pays enough capped)
                      ]
                ]
          ]
  ]

  -- Every order that `openOrder` prices sells an active offer of another merchant, asks for the
  -- positive amount wanted, splits it into the commission and what the buyer gets, neither of
  -- them negative, and costs its conversion at the offer's price, within the offer's limits.
  pub price_order-IsPriced :
      WhenOk (IsPriced id a offer) (price_order dates bps id now_ms a (some offer))
  unfolding price_order
  price_order-IsPriced = elim (Bool-cases (not (is_active offer.status))) [
    | inl over ↦ rw over tt
    | inr sells ↦ elim (Bool-cases (eq_text offer.merchant_id a.buyer_id)) [
      | inl own ↦ rw (sells, own) tt
      | inr other ↦ elim (Bool-cases (leb_ℤ a.asset_minor (pos 0))) [
        | inl less ↦ rw (sells, other, less) tt
        | inr more ↦
            elim (Result-cases (require_method (choose_method a.method_type offer.methods))) [
              | inr (e, no_method) ↦ rw (sells, other, more, no_method) tt
              | inl (m, chosen) ↦ rw (sells, other, more, chosen) (charged m sells other more)
            ]
      ]
    ]
  ]
