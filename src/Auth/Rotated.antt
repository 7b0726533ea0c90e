-- ===== src/Auth/Rotated.antt =====
-- The sessions of src/auth/in-memory-auth-store.ts: a refresh token is redeemed once.
use ticash_pay_demo.Prelude.Names.{
  ◌≡◌, refl, ◌∙◌, inl, inr, Bool, false, Option, none, some, List, [], ◌∷◌, ◌&&◌, ◌||◌, not, arith,
  if◌then◌else◌, Bool-cases, Option-cases,
}
use ticash_pay_demo.Prelude.Text.{Text, eq_text, eq_text_iff, text_eq}
use ticash_pay_demo.Prelude.Dict.{lookup, insert, lookup-insert}
use ticash_pay_demo.Auth.Sessions.{
  Session, CreateSessionInput, Sessions, new_session, create_session, is_revoked, rotated,
  rotate_session, revoked, revoke_session,
}

abbrev pub is_live_row : Text → Option Session → Bool
is_live_row hash none = false
is_live_row hash (some s) = not (is_revoked s.revoked_at) && eq_text s.refresh_token_hash hash

-- Whether the token of this hash opens the session `id`.
unfoldable pub is_live : Text → Text → Sessions → Bool
is_live id hash sessions = is_live_row hash (lookup id sessions)

live-insert :
    (i j hash : Text) (s : Session) (ss : Sessions)
    → is_live j hash (insert i s ss)
      ≡ (if eq_text i j then is_live_row hash (some s) else is_live j hash ss)
unfolding is_live
live-insert i j hash s ss =
    rw (lookup-insert i j s ss)
      (elim (Bool-cases (eq_text i j)) [ inl same ↦ rw same refl | inr other ↦ rw other refl ])

-- `rotateSession` answers whether the token is live.
rotate_answers :
    (id old new expiry : Text) (ss : Sessions)
    → (rotate_session id old new expiry ss).0 ≡ is_live id old ss
unfolding rotate_session is_live
rotate_answers id old new expiry ss = elim (Option-cases (lookup id ss)) [
  | inl missing ↦ rw missing refl
  | inr (s, found) ↦ rw found (ground arith)
]

module _ (j hash : Text) where
  rotate-live :
      (id old new expiry : Text) (ss : Sessions)
      → eq_text new hash ≡ false
      → is_live j hash ss ≡ false
      → is_live j hash (rotate_session id old new expiry ss).1 ≡ false
  unfolding rotate_session rotated
  rotate-live id old new expiry ss other dead = elim (Option-cases (lookup id ss)) [
    | inl missing ↦ rw missing dead
    | inr (s, found) ↦
        elim (Bool-cases (is_revoked s.revoked_at || not (eq_text s.refresh_token_hash old))) [
          | inl bad ↦ rw (found, bad) dead
          | inr good ↦
              rw (found, good, live-insert id j hash (rotated new expiry s) ss)
                (ground (arith, other, dead))
        ]
  ]

  revoke-live :
      (id moment : Text) (ss : Sessions)
      → is_live j hash ss ≡ false
      → is_live j hash (revoke_session id moment ss) ≡ false
  unfolding revoke_session revoked
  revoke-live id moment ss dead = elim (Option-cases (lookup id ss)) [
    | inl missing ↦ rw missing dead
    | inr (s, found) ↦ elim (Bool-cases (is_revoked s.revoked_at)) [
      | inl over ↦ rw (found, over) dead
      | inr open_yet ↦
          rw (found, open_yet, live-insert id j hash (revoked moment s) ss) (ground (arith, dead))
    ]
  ]

  create-live :
      (uuid clock : Text) (input : CreateSessionInput) (ss : Sessions)
      → eq_text input.refresh_token_hash hash ≡ false
      → is_live j hash ss ≡ false
      → is_live j hash (create_session uuid clock input ss).1 ≡ false
  unfolding create_session new_session
  create-live uuid clock input ss other dead =
      rw (live-insert uuid j hash (new_session uuid clock input) ss) (ground (arith, other, dead))

-- A call that changes the sessions.
pub data Call : Type 0 where
  create : Text → Text → CreateSessionInput → Call
  rotate : Text → Text → Text → Text → Call
  revoke : Text → Text → Call

unfoldable pub after : Call → Sessions → Sessions
after (create uuid clock input) ss = (create_session uuid clock input ss).1
after (rotate id old new expiry) ss = (rotate_session id old new expiry ss).1
after (revoke id moment) ss = revoke_session id moment ss

unfoldable pub after_all : List Call → Sessions → Sessions
after_all [] ss = ss
after_all (c ∷ cs) ss = after_all cs (after c ss)

-- Whether a call issues a token of this hash.
unfoldable pub issues : Text → Call → Bool
issues hash (create uuid clock input) = eq_text input.refresh_token_hash hash
issues hash (rotate id old new expiry) = eq_text new hash
issues hash (revoke id moment) = false

unfoldable pub issues_any : Text → List Call → Bool
issues_any hash [] = false
issues_any hash (c ∷ cs) = issues hash c || issues_any hash cs

after-live :
    (j hash : Text) (c : Call) (ss : Sessions)
    → issues hash c ≡ false
    → is_live j hash ss ≡ false
    → is_live j hash (after c ss) ≡ false
unfolding after issues
after-live j hash (create uuid clock input) ss = create-live j hash uuid clock input ss
after-live j hash (rotate id old new expiry) ss = rotate-live j hash id old new expiry ss
after-live j hash (revoke id moment) ss = λ never. revoke-live j hash id moment ss

after_all-live :
    (j hash : Text) (cs : List Call) (ss : Sessions)
    → issues_any hash cs ≡ false
    → is_live j hash ss ≡ false
    → is_live j hash (after_all cs ss) ≡ false
unfolding after_all issues_any
after_all-live j hash [] ss never dead = dead
after_all-live j hash (c ∷ cs) ss never dead =
    after_all-live j hash cs (after c ss) (ground (arith, never))
      (after-live j hash c ss (ground (arith, never)) dead)

-- Right after a rotation the old token is dead, whether the rotation took place or not.
rotate-dead :
    (id old new expiry : Text) (ss : Sessions)
    → eq_text new old ≡ false
    → is_live id old (rotate_session id old new expiry ss).1 ≡ false
unfolding rotate_session rotated
rotate-dead id old new expiry ss fresh = elim (Option-cases (lookup id ss)) [
  | inl missing ↦ unfold is_live in rw (missing, missing) refl
  | inr (s, found) ↦
      elim (Bool-cases (is_revoked s.revoked_at || not (eq_text s.refresh_token_hash old))) [
        | inl bad ↦ unfold is_live in rw (found, bad, found) (ground (arith, bad))
        | inr good ↦
            rw (found, good, live-insert id id old (rotated new expiry s) ss)
              (ground (arith, fresh, eq_text_iff id id))
      ]
]

-- `rotateSession` answers true exactly where the session is there, is not revoked and has this token,
-- and whatever it answered it refuses the token for that session in every later state: after any
-- further creations, rotations and revocations, as long as neither the call nor they issue a token
-- of the same hash again.
pub redeemed_once :
    (id old new expiry : Text) (ss : Sessions)
    → eq_text new old ≡ false
    → (cs : List Call) → issues_any old cs ≡ false
    → (new' expiry' : Text)
    → ((rotate_session id old new expiry ss).0 ≡ is_live id old ss)
      × ((rotate_session id old new' expiry'
            (after_all cs (rotate_session id old new expiry ss).1)).0
          ≡ false)
redeemed_once id old new expiry ss fresh cs never new' expiry' = (
  rotate_answers id old new expiry ss,
  rotate_answers id old new' expiry' (after_all cs (rotate_session id old new expiry ss).1)
      ∙ after_all-live id old cs (rotate_session id old new expiry ss).1 never
          (rotate-dead id old new expiry ss fresh),
)
