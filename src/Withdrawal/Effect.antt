-- ===== src/Withdrawal/Effect.antt =====
-- What the store's operations do to the status that each id has.
use ticash_pay_demo.Prelude.Names.{
  ◌≡◌, inl, inr, Bool, false, Option, none, some, [], ◌∷◌, arith, if◌then◌else◌, Bool-cases,
}
use ticash_pay_demo.Prelude.Text.{Text, eq_text, eq_text_iff, text_eq}
use ticash_pay_demo.Prelude.Dict.{lookup, insert, lookup-insert}
use ticash_pay_demo.Withdrawal.Store.{
  WithdrawalStatus, pending, completed, rejected, eq_status, WithdrawalRequest, Rows, includes,
  moved_to, claim,
}

-- The status of a row, when there is one.
abbrev pub status_in : Option WithdrawalRequest → Option WithdrawalStatus
status_in none = none
status_in (some w) = some w.status

unfoldable pub status_at : Text → Rows → Option WithdrawalStatus
status_at id rows = status_in (lookup id rows)

abbrev pub is_in : WithdrawalStatus → Option WithdrawalStatus → Bool
is_in x none = false
is_in x (some y) = eq_status x y

-- Each row stands under its own id.
abbrev pub IsIndexed : Rows → Type 0
IsIndexed rows = (id : Text) (w : WithdrawalRequest) → lookup id rows ≡ some w → w.id ≡ id

pub status_at-insert :
    (id j : Text) (w : WithdrawalRequest) (rows : Rows)
    → status_at j (insert id w rows) ≡ (if eq_text id j then some w.status else status_at j rows)
unfolding status_at
status_at-insert id j w rows =
    rw (lookup-insert id j w rows)
      (elim (Bool-cases (eq_text id j)) [ inl same ↦ rw same | inr other ↦ rw other ])

pub IsIndexed-insert :
    (id : Text) (w : WithdrawalRequest) (rows : Rows)
    → w.id ≡ id
    → IsIndexed rows
    → IsIndexed (insert id w rows)
IsIndexed-insert id w rows own h j v found = elim (Bool-cases (eq_text id j)) [
  | inl same ↦ ground (arith, lookup-insert id j w rows, eq_text_iff id j, own)
  | inr other ↦ h j v (ground (arith, lookup-insert id j w rows))
]

module _ (now id : Text) (to : WithdrawalStatus) (ref : Option Text) (w : WithdrawalRequest)
    (rows : Rows) (found : lookup id rows ≡ some w) where
  pub claim-held :
      (x : WithdrawalStatus)
      → w.status ≡ x
      → claim now id (x ∷ []) to ref rows
        ≡ (some (moved_to now to ref w), insert id (moved_to now to ref w) rows)
  unfolding claim includes eq_status
  claim-held pending h = rw (found, h)
  claim-held completed h = rw (found, h)
  claim-held rejected h = rw (found, h)
