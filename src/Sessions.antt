-- ===== src/Sessions.antt =====
-- The sessions table and its rules: backend/app/services/sessions.py, the login and refresh of
-- backend/app/services/auth.py, the cached verdict of backend/app/services/session_revocation.py and
-- `require_auth` of backend/app/core/deps.py.
-- SHA-256 and the password hash are arguments; a new raw token and a new id are too. A cached
-- verdict is `some true` for "active" and may lapse at any time.
pub mod Steps
pub mod Effects
pub mod Revoked
pub mod Stale
pub mod Rotation
pub mod Login
use chatspace.Messages.Content.{strip}
use chatspace.Prelude.{
  ℕ, ◌+◌, ◌*◌, Bool, true, false, Option, none, some, List, [], ◌∷◌, ◌++◌, map, ◌&&◌, ◌||◌, not,
  ◌==◌, ltb, leb, if◌then◌else◌, find, any_row, select, update_where, order_by, Text, text_eq,
  lower, Result, ok, err,
}
use chatspace.Db.{Db, User, get_user, is_some}

pub record Session : Type 0 where
  pub id : ℕ
  pub user_id : ℕ
  pub refresh_token_hash : Text
  pub user_agent : Option Text
  pub ip_address : Option Text
  pub issued_at : ℕ
  pub last_used_at : Option ℕ
  pub expires_at : ℕ
  pub revoked_at : Option ℕ

pub record Auth : Type 0 where
  pub db : Db
  pub sessions : List Session
  pub cache : ℕ → Option Bool

abbrev pub session_at : ℕ → Session → Bool
session_at s r = r.id == s

unfoldable pub get_session : Auth → ℕ → Option Session
get_session w s = find (session_at s) w.sessions

abbrev pub days : ℕ → ℕ
days n = n * 86400000000

abbrev pub new_session :
    (session_id user_id : ℕ) (token_hash : Text) (agent ip : Option Text) (ttl_days now : ℕ)
    → Session
new_session s u token_hash agent ip ttl_days now = record {
  id = s;
  user_id = u;
  refresh_token_hash = token_hash;
  user_agent = agent;
  ip_address = ip;
  issued_at = now;
  last_used_at = none;
  expires_at = now + days ttl_days;
  revoked_at = none;
}

unfoldable pub create_session :
    Auth
    → (session_id user_id : ℕ) (token_hash : Text) (agent ip : Option Text) (ttl_days now : ℕ)
    → Auth
create_session w s u token_hash agent ip ttl_days now = record w {
  sessions = w.sessions ++ (new_session s u token_hash agent ip ttl_days now ∷ []);
}

abbrev pub is_active_of : ℕ → Session → Bool
is_active_of u r = r.user_id == u && not (is_some r.revoked_at)

abbrev pub issued_after : Session → Session → Bool
issued_after a b = leb b.issued_at a.issued_at

unfoldable pub list_active_sessions_for_user : Auth → ℕ → List Session
list_active_sessions_for_user w u = order_by issued_after (select (is_active_of u) w.sessions)

abbrev pub extend_session_expiry : (ttl_days now : ℕ) → Session → Session
extend_session_expiry ttl_days now r = record r {
  last_used_at = some now;
  expires_at = now + days ttl_days;
}

abbrev pub with_revocation : ℕ → Session → Session
with_revocation now r = record r { revoked_at = some now }

abbrev pub is_kept : Option ℕ → Session → Bool
is_kept none r = false
is_kept (some s) r = r.id == s

abbrev pub is_swept : ℕ → Option ℕ → Session → Bool
is_swept u except r = is_active_of u r && not (is_kept except r)

-- The rows that are revoked, and their ids, the most recently issued first.
unfoldable pub revoke_sessions_for_user :
    Auth → (user_id : ℕ) → Option ℕ → (now : ℕ) → Auth × List ℕ
revoke_sessions_for_user w u except now = (
  record w { sessions = update_where (is_swept u except) (with_revocation now) w.sessions },
  map (λ r. r.id) (select (λ r. not (is_kept except r)) (list_active_sessions_for_user w u)),
)

pub data RevokeOutcome : Type 0 where
  revoked not_found forbidden : RevokeOutcome

unfoldable pub revoke_session : Auth → (session_id user_id now : ℕ) → Auth × RevokeOutcome
revoke_session w s u now = elim (get_session w s) [
  | none ↦ (w, not_found)
  | some r ↦
      if not (r.user_id == u)
      then (w, forbidden)
      else if is_some r.revoked_at
      then (w, revoked)
      else (
        record w { sessions = update_where (session_at s) (with_revocation now) w.sessions },
        revoked,
      )
]

pub data AuthError : Type 0 where
  invalid_credentials account_deactivated must_change_password invalid_refresh_token : AuthError
  unauthorized : AuthError

abbrev pub email_is : Text → User → Bool
email_is email r = text_eq (lower r.email) (lower email)

-- The dummy verification for an unknown email has no effect.
unfoldable pub authenticate_and_login :
    (verify_password : Text → Text → Bool)
    → Auth
    → (email password : Text) (session_id : ℕ) (token_hash : Text) (agent ip : Option Text)
      (ttl_days now : ℕ)
    → Result AuthError User × Auth
authenticate_and_login verify_password w email password s token_hash agent ip ttl_days now =
    elim (find (email_is (strip email)) w.db.users) [
      | none ↦ (err invalid_credentials, w)
      | some user ↦
          if not (verify_password password user.hashed_password)
          then (err invalid_credentials, w)
          else if not user.is_active
          then (err account_deactivated, w)
          else if user.must_change_password
          then (err must_change_password, w)
          else (ok user, create_session w s user.id token_hash agent ip ttl_days now)
    ]

abbrev pub token_is : Text → Session → Bool
token_is token_hash r = text_eq r.refresh_token_hash token_hash

abbrev pub is_live : ℕ → Session → Bool
is_live now r = not (is_some r.revoked_at) && ltb now r.expires_at

abbrev pub active_user : Auth → ℕ → Bool
active_user w u = elim (get_user w.db u) [ none ↦ false | some r ↦ r.is_active ]

abbrev pub rotate : (token_hash : Text) (ttl_days now : ℕ) → Session → Session
rotate token_hash ttl_days now r =
    extend_session_expiry ttl_days now (record r { refresh_token_hash = token_hash })

-- Exchanges a refresh token, by its hash, for the new one.
unfoldable pub refresh_session :
    Auth → (old_hash new_hash : Text) (ttl_days now : ℕ) → Result AuthError Session × Auth
refresh_session w old_hash new_hash ttl_days now = elim (find (token_is old_hash) w.sessions) [
  | none ↦ (err invalid_refresh_token, w)
  | some r ↦
      if not (is_live now r) || not (active_user w r.user_id)
      then (err invalid_refresh_token, w)
      else (
        ok (rotate new_hash ttl_days now r),
        record w {
          sessions = update_where (session_at r.id) (rotate new_hash ttl_days now) w.sessions;
        },
      )
]

unfoldable pub read_session_active_from_db : Auth → (session_id now : ℕ) → Bool
read_session_active_from_db w s now = elim (get_session w s) [
  | none ↦ false
  | some r ↦ is_live now r
]

abbrev pub write_cache : Auth → ℕ → Option Bool → Auth
write_cache w s verdict = record w { cache = λ t. if s == t then verdict else w.cache t }

-- A hit is trusted; a miss or an outage reads the table; a miss is written back.
unfoldable pub is_session_active :
    (redis_answers : Bool) → Auth → (session_id now : ℕ) → Bool × Auth
is_session_active false w s now = (read_session_active_from_db w s now, w)
is_session_active true w s now = elim (w.cache s) [
  | some verdict ↦ (verdict, w)
  | none ↦
      let active = read_session_active_from_db w s now in (active, write_cache w s (some active))
]

unfoldable pub invalidate_session_cache : (redis_answers : Bool) → Auth → ℕ → Auth
invalidate_session_cache false w s = w
invalidate_session_cache true w s = write_cache w s none

unfoldable pub invalidate_all : (redis_answers : Bool) → Auth → List ℕ → Auth
invalidate_all redis_answers w [] = w
invalidate_all redis_answers w (s ∷ ss) =
    invalidate_all redis_answers (invalidate_session_cache redis_answers w s) ss

pub record AuthenticatedUser : Type 0 where
  pub user_id : ℕ
  pub session_id : ℕ

-- The identity is that of the decoded access token, if it has one.
unfoldable pub require_auth :
    (redis_answers : Bool)
    → Auth
    → Option AuthenticatedUser
    → (now : ℕ) → Result AuthError AuthenticatedUser × Auth
require_auth redis_answers w none now = (err unauthorized, w)
require_auth redis_answers w (some claims) now =
    let (active, w') = is_session_active redis_answers w claims.session_id now in
    if not active
    then (err unauthorized, w')
    else if active_user w' claims.user_id
    then (ok claims, w')
    else (err unauthorized, w')
