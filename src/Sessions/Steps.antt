-- ===== src/Sessions/Steps.antt =====
-- The requests that change sessions or the cache, as steps, each with its cache invalidation.
use chatspace.Prelude.{ℕ, ◌≡◌, Bool, true, Option, none, Text}
use chatspace.Db.{Db}
use chatspace.Sessions.{
  Auth, RevokeOutcome, revoked, get_session, authenticate_and_login, revoke_session,
  revoke_sessions_for_user, refresh_session, is_session_active, write_cache,
  invalidate_session_cache, invalidate_all,
}

-- `logout` and `delete_session`: revoke, commit, then bust the cache.
unfoldable pub revoke_route : Auth → (session_id user_id now : ℕ) → Auth × RevokeOutcome
revoke_route w s u now =
    let (w', outcome) = revoke_session w s u now in
    (elim outcome [ revoked ↦ invalidate_session_cache true w' s | _ ↦ w' ], outcome)

-- What a password change, a reset and a deactivation do to the user's sessions.
unfoldable pub sweep_route : Auth → (user_id : ℕ) → Option ℕ → (now : ℕ) → Auth
sweep_route w u except now =
    let (w', ids) = revoke_sessions_for_user w u except now in invalidate_all true w' ids

pub data Step (w : Auth) : Auth → Type 0 where
  login :
      (verify_password : Text → Text → Bool) (email password : Text) (s : ℕ) (token_hash : Text)
      (agent ip : Option Text) (ttl_days now : ℕ)
      → get_session w s ≡ none
      → Step w
          (authenticate_and_login verify_password w email password s token_hash agent ip ttl_days
            now).1
  refresh :
      (old_hash new_hash : Text) (ttl_days now : ℕ)
      → Step w (refresh_session w old_hash new_hash ttl_days now).1
  revoke : (s u now : ℕ) → Step w (revoke_route w s u now).0
  sweep : (u : ℕ) (except : Option ℕ) (now : ℕ) → Step w (sweep_route w u except now)
  check : (redis_answers : Bool) (s now : ℕ) → Step w (is_session_active redis_answers w s now).1
  lapse : (s : ℕ) → Step w (write_cache w s none)
  other_tables : (db : Db) → Step w (record w { db = db })

pub data Reach (w : Auth) : Auth → Type 0 where
  here : Reach w w
  next : {v u : Auth} → Reach w v → Step v u → Reach w u
