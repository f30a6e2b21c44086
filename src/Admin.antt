-- ===== src/Admin.antt =====
-- Deactivation and reactivation by a system administrator: backend/app/services/admin_users.py, the
-- routes of backend/app/api/admin.py and the gate `require_system_admin` of backend/app/core/deps.py.
-- The lock on the administrators' rows makes a route one step.
pub mod Lockout
pub mod Shutout
use chatspace.Prelude.{
  ℕ, Bool, true, false, Option, none, some, List, [], ◌∷◌, ◌&&◌, not, leb, if◌then◌else◌, length,
  select, update_where, Result, ok, err,
}
use chatspace.Db.{Db, User, get_user, user_at}
use chatspace.Members.{run_sole_admin_succession}
use chatspace.Sessions.{
  Auth, AuthenticatedUser, AuthError, require_auth, revoke_sessions_for_user, invalidate_all,
}

abbrev pub is_active_system_admin : User → Bool
is_active_system_admin r = r.is_system_admin && r.is_active

unfoldable pub lock_and_count_active_system_admins : Db → ℕ
lock_and_count_active_system_admins db = length (select is_active_system_admin db.users)

pub data DeactivateOutcome : Type 0 where
  deactivated already_inactive last_active_system_admin : DeactivateOutcome

pub record DeactivationResult : Type 0 where
  pub outcome : DeactivateOutcome
  pub revoked_session_ids : List ℕ
  pub promoted_channel_ids : List ℕ

abbrev pub with_activity : Bool → User → User
with_activity b r = record r { is_active = b }

abbrev pub set_activity : Bool → ℕ → Db → Db
set_activity b u db = record db { users = update_where (user_at u) (with_activity b) db.users }

abbrev pub without_effect : DeactivateOutcome → DeactivationResult
without_effect outcome = record {
  outcome = outcome;
  revoked_session_ids = [];
  promoted_channel_ids = [];
}

abbrev pub is_last_admin : Db → User → Bool
is_last_admin db target = target.is_system_admin && leb (lock_and_count_active_system_admins db) 1

-- The succession in every channel, the flag, and then the sessions.
unfoldable pub deactivate_user : Auth → User → (now : ℕ) → Auth × DeactivationResult
deactivate_user w target now =
    if not target.is_active
    then (w, without_effect already_inactive)
    else if is_last_admin w.db target
    then (w, without_effect last_active_system_admin)
    else (let (db, promoted) = run_sole_admin_succession w.db target.id none in
        let inactive = record w { db = set_activity false target.id db } in
        let (w', ids) = revoke_sessions_for_user inactive target.id none now in
        (
          w',
          record {
            outcome = deactivated;
            revoked_session_ids = ids;
            promoted_channel_ids = promoted;
          },
        ))

unfoldable pub reactivate_user : Auth → User → Auth × Bool
reactivate_user w target =
    if target.is_active
    then (w, false)
    else (record w { db = set_activity true target.id w.db }, true)

pub data AdminError : Type 0 where
  user_not_found last_admin : AdminError

-- The caches are busted after the commit; the answer is the target's new flag.
unfoldable pub deactivate_user_route :
    (redis_answers : Bool) → Auth → (user_id now : ℕ) → Result AdminError Bool × Auth
deactivate_user_route redis_answers w u now = elim (get_user w.db u) [
  | none ↦ (err user_not_found, w)
  | some target ↦
      let (w', result) = deactivate_user w target now in
      elim result.outcome [
        | last_active_system_admin ↦ (err last_admin, w)
        | already_inactive ↦ (ok target.is_active, w')
        | deactivated ↦ (ok false, invalidate_all redis_answers w' result.revoked_session_ids)
      ]
]

unfoldable pub reactivate_user_route : Auth → (user_id : ℕ) → Result AdminError Bool × Auth
reactivate_user_route w u = elim (get_user w.db u) [
  | none ↦ (err user_not_found, w)
  | some target ↦ (ok true, (reactivate_user w target).0)
]

pub data GateError : Type 0 where
  not_authenticated : AuthError → GateError
  system_admin_required : GateError

unfoldable pub require_system_admin :
    (redis_answers : Bool)
    → Auth
    → Option AuthenticatedUser
    → (now : ℕ) → Result GateError AuthenticatedUser × Auth
require_system_admin redis_answers w claims now =
    let (answer, w') = require_auth redis_answers w claims now in
    elim answer [
      | err e ↦ (err (not_authenticated e), w')
      | ok current ↦ elim (get_user w'.db current.user_id) [
        | none ↦ (err system_admin_required, w')
        | some user ↦
            if user.is_system_admin then (ok current, w') else (err system_admin_required, w')
      ]
    ]
