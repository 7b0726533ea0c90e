-- ===== src/Auth/Sessions.antt =====
-- The sessions of src/auth/in-memory-auth-store.ts. `randomUUID()` and `clock()` are arguments.
use ticash_pay_demo.Prelude.Names.{
  Bool, true, false, Option, none, some, List, [], ◌∷◌, ◌||◌, not, if◌then◌else◌,
}
use ticash_pay_demo.Prelude.Text.{Text, eq_text, text_eq}
use ticash_pay_demo.Prelude.Dict.{Dict, lookup, insert, values}

pub record Session : Type 0 where
  pub id : Text
  pub user_id : Text
  pub refresh_token_hash : Text
  pub device : Option Text
  pub expires_at : Text
  pub revoked_at : Option Text
  pub created_at : Text

pub record CreateSessionInput : Type 0 where
  pub user_id : Text
  pub refresh_token_hash : Text
  pub device : Option Text
  pub expires_at : Text

abbrev pub Sessions : Type 0
Sessions = Dict Text Session

unfoldable pub new_session : Text → Text → CreateSessionInput → Session
new_session uuid clock input = record {
  id = uuid;
  user_id = input.user_id;
  refresh_token_hash = input.refresh_token_hash;
  device = input.device;
  expires_at = input.expires_at;
  revoked_at = none;
  created_at = clock;
}

-- `createSession`
unfoldable pub create_session : Text → Text → CreateSessionInput → Sessions → Session × Sessions
create_session uuid clock input sessions =
    let session = new_session uuid clock input in (session, insert session.id session sessions)

unfoldable pub first_with : Text → List Session → Option Session
first_with hash [] = none
first_with hash (s ∷ ss) =
    let rest = first_with hash ss in if eq_text s.refresh_token_hash hash then some s else rest

-- `getSessionByRefreshHash`
unfoldable pub get_session_by_refresh_hash : Text → Sessions → Option Session
get_session_by_refresh_hash hash sessions = first_with hash (values sessions)

abbrev pub is_revoked : Option Text → Bool
is_revoked none = false
is_revoked (some t) = true

unfoldable pub rotated : Text → Text → Session → Session
rotated new_hash expiry s = record s { refresh_token_hash = new_hash; expires_at = expiry }

abbrev pub rotate_found : Text → Text → Text → Text → Sessions → Option Session → Bool × Sessions
rotate_found id old_hash new_hash expiry sessions none = (false, sessions)
rotate_found id old_hash new_hash expiry sessions (some s) =
    if is_revoked s.revoked_at || not (eq_text s.refresh_token_hash old_hash)
    then (false, sessions)
    else (true, insert id (rotated new_hash expiry s) sessions)

-- `rotateSession`
unfoldable pub rotate_session : Text → Text → Text → Text → Sessions → Bool × Sessions
rotate_session id old_hash new_hash expiry sessions =
    rotate_found id old_hash new_hash expiry sessions (lookup id sessions)

unfoldable pub revoked : Text → Session → Session
revoked at_moment s = record s { revoked_at = some at_moment }

abbrev pub revoke_found : Text → Text → Sessions → Option Session → Sessions
revoke_found id at_moment sessions none = sessions
revoke_found id at_moment sessions (some s) =
    if is_revoked s.revoked_at then sessions else insert id (revoked at_moment s) sessions

-- `revokeSession`
unfoldable pub revoke_session : Text → Text → Sessions → Sessions
revoke_session id at_moment sessions = revoke_found id at_moment sessions (lookup id sessions)
