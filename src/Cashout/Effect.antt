-- ===== src/Cashout/Effect.antt =====
-- What the store's operations do to the status that each id has.
use ticash_pay_demo.Prelude.Names.{
  ◌≡◌, inl, inr, Bool, false, Option, none, some, [], ◌∷◌, arith, if◌then◌else◌, Bool-cases,
}
use ticash_pay_demo.Prelude.Text.{Text, eq_text, eq_text_iff, text_eq}
use ticash_pay_demo.Prelude.Dict.{lookup, insert, lookup-insert}
use ticash_pay_demo.Cashout.Store.{
  CashoutStatus, eq_status, CashoutRequest, Requests, includes, moved_to, claim,
}

-- The status of a request, when there is one.
abbrev pub status_in : Option CashoutRequest → Option CashoutStatus
status_in none = none
status_in (some r) = some r.status

unfoldable pub status_at : Text → Requests → Option CashoutStatus
status_at id reqs = status_in (lookup id reqs)

abbrev pub is_in : CashoutStatus → Option CashoutStatus → Bool
is_in x none = false
is_in x (some y) = eq_status x y

-- Each request stands under its own id.
abbrev pub IsIndexed : Requests → Type 0
IsIndexed reqs = (id : Text) (r : CashoutRequest) → lookup id reqs ≡ some r → r.id ≡ id

pub status_at-insert :
    (id j : Text) (r : CashoutRequest) (reqs : Requests)
    → status_at j (insert id r reqs) ≡ (if eq_text id j then some r.status else status_at j reqs)
unfolding status_at
status_at-insert id j r reqs =
    rw (lookup-insert id j r reqs)
      (elim (Bool-cases (eq_text id j)) [ inl same ↦ rw same | inr other ↦ rw other ])

pub IsIndexed-insert :
    (id : Text) (r : CashoutRequest) (reqs : Requests)
    → r.id ≡ id
    → IsIndexed reqs
    → IsIndexed (insert id r reqs)
IsIndexed-insert id r reqs own h j v found = elim (Bool-cases (eq_text id j)) [
  | inl same ↦ ground (arith, lookup-insert id j r reqs, eq_text_iff id j, own)
  | inr other ↦ h j v (ground (arith, lookup-insert id j r reqs))
]

-- A claim from the one status `x` is granted exactly when the request has it.
pub claim-cases :
    (now id : Text) (x to : CashoutStatus) (r : CashoutRequest) (reqs : Requests)
    → lookup id reqs ≡ some r
    → claim now id (x ∷ []) to reqs ≡ (
        if eq_status x r.status
        then (some (moved_to now to r), insert id (moved_to now to r) reqs)
        else (none, reqs))
unfolding claim includes
claim-cases now id x to r reqs found = elim (Bool-cases (eq_status x r.status)) [
  | inl same ↦ rw (found, same)
  | inr other ↦ rw (found, other)
]
