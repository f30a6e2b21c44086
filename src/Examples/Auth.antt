-- ===== src/Examples/Auth.antt =====
-- Sessions, deactivation, passwords and invitations at concrete inputs.
use chatspace.Prelude.{
  ℕ, ◌≡◌, ◌+◌, refl, Bool, true, none, some, [], ◌∷◌, Text, codes, text_eq, lower, find, ok, err,
  arith,
}
use chatspace.Db.{get_user}
use chatspace.Examples.Sample.{sample, user}
use chatspace.Messages.Content.{strip, strip_left, strip_right, is_space}
use chatspace.Sessions.{
  Session, Auth, new_session, get_session, authenticate_and_login, create_session, require_auth,
  unauthorized, revoke_session, refresh_session, invalid_refresh_token, token_is, days,
  read_session_active_from_db, is_session_active, write_cache,
}
use chatspace.Sessions.Steps.{here, next, check, revoke_route}
use chatspace.Sessions.Login.{login_admits}
use chatspace.Sessions.Revoked.{revoked_forever}
use chatspace.Sessions.Rotation.{rotated_once}
use chatspace.Sessions.Effects.{revoked_row}
use chatspace.Sessions.Stale.{late_write_revives}

abbrev matches : Text → Text → Bool
matches password hashed = text_eq password hashed

abbrev no_sessions : Auth
no_sessions = record { db = sample; sessions = []; cache = λ _. none }

abbrev pub session_7 : Session
session_7 = new_session 7 1 (codes "h") none none 30 1000

abbrev session_8 : Session
session_8 = new_session 8 1 (codes "g") none none 30 1200

abbrev pub two_sessions : Auth
two_sessions = record { db = sample; sessions = session_7 ∷ session_8 ∷ []; cache = λ _. none }

abbrev logged_in : Auth
logged_in = create_session no_sessions 7 1 (codes "h") none none 30 1000

login_admits_example :
    (require_auth true logged_in (some (record { user_id = 1; session_id = 7 })) 2000).0
    ≡ ok (record { user_id = 1; session_id = 7 })
unfolding authenticate_and_login get_session find text_eq lower strip strip_left strip_right
    is_space get_user
login_admits_example =
    login_admits matches no_sessions logged_in (codes "u@x") [] 7 (codes "h") none none 30 1000
      (user 1) refl refl refl refl true 2000 (omega arith)

abbrev checked_later : Auth
checked_later = (is_session_active true (revoke_route two_sessions 7 1 1500).0 7 1600).1

revoked_forever_example :
    (require_auth true checked_later (some (record { user_id = 1; session_id = 7 })) 1700).0
    ≡ err unauthorized
unfolding revoke_route revoke_session get_session find
revoked_forever_example =
    revoked_forever two_sessions two_sessions checked_later 7 1 1500 (λ t. refl) here refl
      (next here (check true 7 1600)) true 1 1700

abbrev rotated_7 : Session
rotated_7 = record session_7 {
  refresh_token_hash = codes "k";
  last_used_at = some 2000;
  expires_at = 2000 + days 30;
}

rotated_once_example :
    let v = (refresh_session two_sessions (codes "h") (codes "k") 30 2000).1 in
    (find (token_is (codes "k")) v.sessions ≡ some rotated_7)
    × (rotated_7.expires_at ≡ 2000 + days 30)
    × ((next_hash : Text) (later : ℕ)
        → refresh_session v (codes "h") next_hash 30 later ≡ (err invalid_refresh_token, v))
unfolding refresh_session find text_eq get_user
rotated_once_example =
    rotated_once two_sessions (codes "h") (codes "k") 30 2000 rotated_7 (refl, (refl, tt))
      (refl, (refl, tt)) refl refl

late_write_revives_example :
    let v =
      write_cache
        (revoke_route two_sessions 7 1 1500).0
        7
        (some (read_session_active_from_db two_sessions 7 1500)) in
    (revoked_row v 7 ≡ true) × (is_session_active true v 7 1600 ≡ (true, v))
unfolding read_session_active_from_db revoke_route revoke_session get_session find
late_write_revives_example = late_write_revives two_sessions 7 1 1500 1600 refl refl
