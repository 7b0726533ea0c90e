-- ===== src/Ledger/Types/Keys.antt =====
-- `accountKey` (src/ledger/types.ts): the text of a key is read back from its two ends.
use mathlib.Core.List.{append_assoc}
use ticash_pay_demo.Prelude.Names.{
  ◌≡◌, ◌≢◌, refl, sym, ap, ◌∙◌, Bool, true, false, not, ◌&&◌, Option, none, some, List, [], ◌∷◌,
  ◌++◌, arith, eqb, if◌then◌else◌,
}
use ticash_pay_demo.Prelude.Text.{Text, codes, eq_text}
use ticash_pay_demo.Money.Currency.{
  Currency, brl, htg, usd, dop, mxn, usdt, currency_text, currency_text_injective,
}
use ticash_pay_demo.Ledger.Types.{
  OwnerType, customer, agent, system, AccountKind, AccountSpec, wallet, agent_float,
  agent_commission, p2p_escrow, settlement, fee_revenue, fx_position, payout_suspense, provider_fee,
  withdrawal_suspense, promo_expense, owner_type_text, kind_text, owner_id_text, account_key,
}

no_colon : Text → Bool
no_colon [] = true
no_colon (x ∷ xs) = not (eqb x b':') && no_colon xs

no_colon-append : (a b : Text) → no_colon (a ++ b':' ∷ b) ≡ false
unfolding no_colon
no_colon-append [] b = refl
no_colon-append (x ∷ a) b = ground (arith, no_colon-append a b)

-- A colon is found from the right where what follows it has none.
split_last :
    (xs xs' ys ys' : Text)
    → no_colon ys ≡ true
    → no_colon ys' ≡ true
    → xs ++ b':' ∷ ys ≡ xs' ++ b':' ∷ ys'
    → (xs ≡ xs') × (ys ≡ ys')
split_last [] [] ys ys' h h' e = (refl, cc)
split_last [] (x ∷ xs') ys ys' h h' e = cc (no_colon-append xs' ys')
split_last (x ∷ xs) [] ys ys' h h' e = cc (no_colon-append xs ys)
split_last (x ∷ xs) (x' ∷ xs') ys ys' h h' e =
    let rest = split_last xs xs' ys ys' h h' (cc) in (cc (rest.0), rest.1)

-- And from the left where what stands before it has none.
split_first :
    (xs xs' ys ys' : Text)
    → no_colon xs ≡ true
    → no_colon xs' ≡ true
    → xs ++ b':' ∷ ys ≡ xs' ++ b':' ∷ ys'
    → (xs ≡ xs') × (ys ≡ ys')
unfolding no_colon
split_first [] [] ys ys' h h' e = (refl, cc)
split_first [] (x ∷ xs') ys ys' h h' e = ground arith
split_first (x ∷ xs) [] ys ys' h h' e = ground arith
split_first (x ∷ xs) (x' ∷ xs') ys ys' h h' e =
    let rest = split_first xs xs' ys ys' (ground arith) (ground arith) (cc) in (cc (rest.0), rest.1)

no_colon-currency : (c : Currency) → no_colon (currency_text c) ≡ true
unfolding no_colon currency_text
no_colon-currency brl = refl
no_colon-currency htg = refl
no_colon-currency usd = refl
no_colon-currency dop = refl
no_colon-currency mxn = refl
no_colon-currency usdt = refl

no_colon-kind : (k : AccountKind) → no_colon (kind_text k) ≡ true
unfolding no_colon kind_text
no_colon-kind wallet = refl
no_colon-kind agent_float = refl
no_colon-kind agent_commission = refl
no_colon-kind p2p_escrow = refl
no_colon-kind settlement = refl
no_colon-kind fee_revenue = refl
no_colon-kind fx_position = refl
no_colon-kind payout_suspense = refl
no_colon-kind provider_fee = refl
no_colon-kind withdrawal_suspense = refl
no_colon-kind promo_expense = refl

no_colon-owner : (o : OwnerType) → no_colon (owner_type_text o) ≡ true
unfolding no_colon owner_type_text
no_colon-owner customer = refl
no_colon-owner agent = refl
no_colon-owner system = refl

kind_in : Text → List AccountKind → Option AccountKind
kind_in t [] = none
kind_in t (k ∷ ks) = if eq_text t (kind_text k) then some k else kind_in t ks

abbrev kinds : List AccountKind
kinds =
    wallet ∷ agent_float ∷ agent_commission ∷ p2p_escrow ∷ settlement ∷ fee_revenue ∷ fx_position
    ∷ payout_suspense ∷ provider_fee ∷ withdrawal_suspense ∷ promo_expense ∷ []

kind_in-kind_text : (k : AccountKind) → kind_in (kind_text k) kinds ≡ some k
unfolding kind_in kind_text eq_text
kind_in-kind_text wallet = refl
kind_in-kind_text agent_float = refl
kind_in-kind_text agent_commission = refl
kind_in-kind_text p2p_escrow = refl
kind_in-kind_text settlement = refl
kind_in-kind_text fee_revenue = refl
kind_in-kind_text fx_position = refl
kind_in-kind_text payout_suspense = refl
kind_in-kind_text provider_fee = refl
kind_in-kind_text withdrawal_suspense = refl
kind_in-kind_text promo_expense = refl

kind_text_injective : (a b : AccountKind) → kind_text a ≡ kind_text b → a ≡ b
kind_text_injective a b h =
    cc (ap (λ (t : Text). kind_in t kinds) h, kind_in-kind_text a, kind_in-kind_text b)

owner_type_text_injective : (a b : OwnerType) → owner_type_text a ≡ owner_type_text b → a ≡ b
unfolding owner_type_text
owner_type_text_injective a b h = ground arith

-- The head of a key, up to the kind.
key_head : AccountSpec → Text
key_head s =
    owner_type_text s.owner_type ++ b':' ∷ (owner_id_text s.owner_id ++ b':' ∷ kind_text s.kind)

key_front : AccountSpec → Text
key_front s = owner_type_text s.owner_type ++ b':' ∷ owner_id_text s.owner_id

account_key-head : (s : AccountSpec) → account_key s ≡ key_head s ++ b':' ∷ currency_text s.currency
unfolding account_key key_head
account_key-head s = simp append_assoc

key_head-front : (s : AccountSpec) → key_head s ≡ key_front s ++ b':' ∷ kind_text s.kind
unfolding key_head key_front
key_head-front s = simp append_assoc

-- Two accounts with one key have the same owner type, kind and currency, and their owner ids
-- read alike.
pub record SameAccount (a b : AccountSpec) : Type 0 where
  pub same_owner_type : a.owner_type ≡ b.owner_type
  pub same_owner_text : owner_id_text a.owner_id ≡ owner_id_text b.owner_id
  pub same_kind : a.kind ≡ b.kind
  pub same_currency : a.currency ≡ b.currency

pub account_key-SameAccount : (a b : AccountSpec) → account_key a ≡ account_key b → SameAccount a b
account_key-SameAccount a b h =
    let (heads, currencies) =
      split_last (key_head a) (key_head b) (currency_text a.currency) (currency_text b.currency)
        (no_colon-currency a.currency) (no_colon-currency b.currency)
        (sym (account_key-head a) ∙ h ∙ account_key-head b) in
    let (fronts, kinds_agree) =
      split_last (key_front a) (key_front b) (kind_text a.kind) (kind_text b.kind)
        (no_colon-kind a.kind) (no_colon-kind b.kind)
        (sym (key_head-front a) ∙ heads ∙ key_head-front b) in
    let (owners, ids) =
      split_first (owner_type_text a.owner_type) (owner_type_text b.owner_type)
        (owner_id_text a.owner_id) (owner_id_text b.owner_id) (no_colon-owner a.owner_type)
        (no_colon-owner b.owner_type) (unfold key_front in fronts) in
    record {
      same_owner_type = owner_type_text_injective a.owner_type b.owner_type owners;
      same_owner_text = ids;
      same_kind = kind_text_injective a.kind b.kind kinds_agree;
      same_currency = currency_text_injective a.currency b.currency currencies;
    }

owner_id_text_injective :
    (o o' : Option Text)
    → o ≢ some (codes "_")
    → o' ≢ some (codes "_")
    → owner_id_text o ≡ owner_id_text o'
    → o ≡ o'
unfolding owner_id_text
owner_id_text_injective none none n n' h = refl
owner_id_text_injective none (some t) n n' h = absurd (n' (ap some (sym h)))
owner_id_text_injective (some t) none n n' h = absurd (n (ap some h))
owner_id_text_injective (some t) (some t') n n' h = ap some h

-- Account keys are injective on owners that are not the single character `_`, which is how a
-- missing owner id is written: two such accounts with the same key are the same account.
pub account_key_injective :
    (a b : AccountSpec)
    → a.owner_id ≢ some (codes "_")
    → b.owner_id ≢ some (codes "_")
    → account_key a ≡ account_key b
    → a ≡ b
account_key_injective a b na nb h =
    let same = account_key-SameAccount a b h in
    let ids = owner_id_text_injective a.owner_id b.owner_id na nb same.same_owner_text in
    λ i. record {
      owner_type = same.same_owner_type i;
      owner_id = ids i;
      kind = same.same_kind i;
      currency = same.same_currency i;
    }
