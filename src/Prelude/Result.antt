-- ===== src/Prelude/Result.antt =====
-- How a call ends: a value, or the error that it throws. Messages are left out; the class of the
-- error and its code are kept, since callers and the HTTP layer branch on them.
use mathlib.Core.Path.{subst}
use ticash_pay_demo.Prelude.Names.{◌≡◌, refl, ◌⊎◌, inl, inr, Bool, true, false}

-- `LedgerError.code`
pub data LedgerCode : Type 0 where
  unbalanced insufficient_funds idempotency_conflict ledger_validation : LedgerCode

-- `WithdrawalErrorCode`, `CashoutErrorCode`, `P2PErrorCode`: the same four words.
pub data ServiceCode : Type 0 where
  not_found conflict validation forbidden : ServiceCode

-- `AuthError.code`
pub data AuthCode : Type 0 where
  auth_not_found auth_conflict invalid_otp rate_limited unauthorized invalid_refresh : AuthCode
  auth_forbidden auth_validation : AuthCode

pub data Failure : Type 0 where
  ledger_error : LedgerCode → Failure
  withdrawal_error cashout_error p2p_error : ServiceCode → Failure
  auth_error : AuthCode → Failure
  -- `new Error(...)` and the run-time's own errors
  plain_error : Failure

pub data Result {ℓ} (A : Type ℓ) : Type ℓ where
  ok : A → Result A
  err : Failure → Result A

-- `if (c) throw e`
abbrev pub throw_if : Bool → Failure → Result (Unit {0})
throw_if true e = err e
throw_if false e = ok tt

abbrev pub is_ok {ℓ} : {A : Type ℓ} → Result A → Bool
is_ok (ok a) = true
is_ok (err e) = false

infixl 5 ◌>>=◌ ◌>>◌
-- What follows a call is left out when it throws.
abbrev pub ◌>>=◌ {ℓ κ} : {A : Type ℓ} {B : Type κ} → Result A → (A → Result B) → Result B
err e >>= next = err e
ok value >>= next = next value

pub Result-cases {ℓ} :
    {A : Type ℓ} (r : Result A) → ((a : A) × (r ≡ ok a)) ⊎ ((e : Failure) × (r ≡ err e))
Result-cases (ok a) = inl (a, refl)
Result-cases (err e) = inr (e, refl)

abbrev pub ◌>>◌ {ℓ} : {B : Type ℓ} → Result (Unit {0}) → Result B → Result B
check >> next = check >>= λ _. next

-- What was called before the last call returned too.
pub >>=-ok {ℓ κ} :
    {A : Type ℓ} {B : Type κ} (call : Result A) (next : A → Result B) {out : B}
    → (call >>= next) ≡ ok out
    → (value : A) × (call ≡ ok value) × (next value ≡ ok out)
>>=-ok (err e) next h = cc
>>=-ok (ok value) next h = (value, refl, h)

-- What holds of the value that a call returns, if it returns.
abbrev pub WhenOk {ℓ κ} : {A : Type ℓ} → (A → Type κ) → Result A → Type κ
WhenOk P (ok a) = P a
WhenOk P (err e) = Unit

pub WhenOk-use {ℓ κ} :
    {A : Type ℓ} (P : A → Type κ) (r : Result A) (a : A) → r ≡ ok a → WhenOk P r → P a
WhenOk-use P r a e h = subst (WhenOk P) e h
