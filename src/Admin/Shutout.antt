-- ===== src/Admin/Shutout.antt =====
-- What a deactivation does to the sessions that the account had.
use chatspace.Prelude.{
  ℕ, ◌≡◌, ap, refl, Bool, true, false, none, some, err, arith, find-holds, ◌==◌,
}
use mathlib.Core.Path.{subst}
use chatspace.Db.{User, get_user, user_at}
use chatspace.Sessions.{Session, Auth, get_session, require_auth, unauthorized}
use chatspace.Sessions.Steps.{Reach, next, other_tables}
use chatspace.Sessions.Revoked.{swept_forever}
use chatspace.Admin.{is_last_admin, deactivate_user_route}
use chatspace.Admin.Lockout.{deactivated_db, deactivation_is_sweep}

id_of_user :
    (w : Auth) (u : ℕ) (target : User) → get_user w.db u ≡ some target → (u == target.id) ≡ true
unfolding get_user
id_of_user w u target n = ground (arith, find-holds (user_at u) w.db.users target n)

-- After the deactivation of an active user who is not the last administrator, from a state that a
-- cold cache led to, an access token of any session that the user had is refused after whatever
-- further requests, a reactivation included, whether or not Redis answers then. Redis answers
-- every invalidation here, and the read of the table and the write of the cache of one check
-- count as one step.
pub deactivated_stays_out :
    (start w v : Auth) (u now s : ℕ) (target : User) (r : Session)
    → ((t : ℕ) → start.cache t ≡ none)
    → Reach start w
    → get_user w.db u ≡ some target
    → target.is_active ≡ true
    → is_last_admin w.db target ≡ false
    → get_session w s ≡ some r
    → r.user_id ≡ u
    → Reach (deactivate_user_route true w u now).1 v
    → (redis_answers : Bool) (user later : ℕ)
    → (require_auth redis_answers v (some (record { user_id = user; session_id = s })) later).0
      ≡ err unauthorized
unfolding get_session
deactivated_stays_out start w v u now s target r cold before n a l row own after =
    let swept = ap (λ k. k.1) (deactivation_is_sweep w u now target n a l) in
    swept_forever start (record w { db = deactivated_db w.db target.id }) v target.id none now s r
      cold (next before (other_tables (deactivated_db w.db target.id))) row
      (ground (arith, own, id_of_user w u target n)) refl (subst (λ k. Reach k v) swept after)
