-- ===== src/Admin/Lockout.antt =====
-- The workspace keeps an active system administrator.
use mathlib.Core.Path.{subst}
use chatspace.Prelude.{
  ==_iff, ◌⊎◌, find-holds, find-none-update_where_id, Distinct-update_where, ℕ, ◌≡◌, ◌<◌, ◌≤◌, suc,
  refl, sym, ap, ◌∙◌, Bool, true, false, Option, none, some, List, [], ◌∷◌, ◌&&◌, not, ◌==◌, length,
  select, update_where, find, Result, ok, err, arith, Option-cases, Bool-cases, inl, inr, Distinct,
}
use chatspace.Db.{Db, User, get_user, user_at}
use chatspace.Members.{run_sole_admin_succession, succession_loop, succeed_in, promote, successor}
use chatspace.Sessions.Effects.{db-invalidate_all}
use chatspace.Sessions.Steps.{sweep_route}
use chatspace.Sessions.{Auth, invalidate_all, revoke_sessions_for_user}
use chatspace.Admin.{
  deactivated, DeactivationResult, AdminError, last_active_system_admin, last_admin,
  already_inactive, is_last_admin, is_active_system_admin, lock_and_count_active_system_admins,
  with_activity, set_activity, deactivate_user_route, reactivate_user_route, deactivate_user,
  reactivate_user,
}

abbrev pub same_user : User → User → Bool
same_user a b = b.id == a.id

abbrev pub HasAdmin : Db → Type 0
HasAdmin db = Distinct same_user db.users × (0 < lock_and_count_active_system_admins db)

users-promote : (db : Db) (c : ℕ) (u : ℕ) → (promote db c (successor db c u)).0.users ≡ db.users
unfolding promote successor
users-promote db c u = ground arith

users-succeed_in :
    (departing : ℕ) (db : Db) (c : ℕ) → (succeed_in departing db c).0.users ≡ db.users
unfolding succeed_in
users-succeed_in departing db c = ground (arith, users-promote db c departing)

users-succession_loop :
    (departing : ℕ) (db : Db) (cs : List ℕ) → (succession_loop departing db cs).0.users ≡ db.users
unfolding succession_loop
users-succession_loop departing db [] = refl
users-succession_loop departing db (c ∷ cs) =
    users-succession_loop departing (succeed_in departing db c).0 cs
    ∙ users-succeed_in departing db c

users-run_sole_admin_succession :
    (db : Db) (departing : ℕ) (scope : Option ℕ)
    → (run_sole_admin_succession db departing scope).0.users ≡ db.users
unfolding run_sole_admin_succession
users-run_sole_admin_succession db departing scope = users-succession_loop departing db _

-- At most one administrator is lost with one account.
count_after_deactivation :
    (u : ℕ) (xs : List User)
    → Distinct same_user xs
    → length (select is_active_system_admin xs)
      ≤ suc (
          length
            (select is_active_system_admin (update_where (user_at u) (with_activity false) xs)))
unfolding select update_where
count_after_deactivation u [] d = omega arith
count_after_deactivation u (x ∷ xs) (dx, ds) = elim (Bool-cases (user_at u x)) [
  | inr e ↦ ground (arith, e, count_after_deactivation u xs ds)
  | inl e ↦
      let missing = subst (λ j. find (user_at j) xs ≡ none) ((==_iff x.id u).0 e) dx in
      ground (arith, e, find-none-update_where_id (user_at u) (with_activity false) xs missing)
]

-- None is lost with the account of another user.
count_after_other :
    (u : ℕ) (xs : List User) (target : User)
    → find (user_at u) xs ≡ some target
    → target.is_system_admin ≡ false
    → Distinct same_user xs
    → length (select is_active_system_admin xs)
      ≤ length (select is_active_system_admin (update_where (user_at u) (with_activity false) xs))
unfolding find select update_where
count_after_other u [] target n t d = omega arith
count_after_other u (x ∷ xs) target n t (dx, ds) = elim (Bool-cases (user_at u x)) [
  | inr e ↦ ground (arith, e, count_after_other u xs target (ground (arith, n, e)) t ds)
  | inl e ↦
      let missing = subst (λ j. find (user_at j) xs ≡ none) ((==_iff x.id u).0 e) dx in
      ground
        (arith, e, n, t, find-none-update_where_id (user_at u) (with_activity false) xs missing)
]

count_after_activation :
    (u : ℕ) (xs : List User)
    → length (select is_active_system_admin xs)
      ≤ length (select is_active_system_admin (update_where (user_at u) (with_activity true) xs))
unfolding select update_where
count_after_activation u [] = omega arith
count_after_activation u (x ∷ xs) = ground (arith, count_after_activation u xs)

set_activity-Distinct :
    (b : Bool) (u : ℕ) (db : Db)
    → Distinct same_user db.users
    → Distinct same_user (set_activity b u db).users
set_activity-Distinct b u db d =
    Distinct-update_where same_user (user_at u) (with_activity b) (λ _ _. refl) (λ _ _. refl)
      db.users d

-- The tables between the succession and the sweep of the sessions.
abbrev pub deactivated_db : Db → ℕ → Db
deactivated_db db u = set_activity false u (run_sole_admin_succession db u none).0

deactivate_user_swept :
    (w : Auth) (target : User) (now : ℕ)
    → target.is_active ≡ true
    → is_last_admin w.db target ≡ false
    → let swept =
        revoke_sessions_for_user
          (record w { db = deactivated_db w.db target.id })
          target.id
          none
          now in
      deactivate_user w target now ≡ (
        swept.0,
        record {
          outcome = deactivated;
          revoked_session_ids = swept.1;
          promoted_channel_ids = (run_sole_admin_succession w.db target.id none).1;
        },
      )
unfolding deactivate_user
deactivate_user_swept w target now a l = rw (a, l, deactivate_user) refl

-- A deactivation that goes through revokes the sessions on those tables, then busts their cache.
deactivation_ends :
    (redis_answers : Bool) (w : Auth) (u now : ℕ) (target : User)
    → get_user w.db u ≡ some target
    → target.is_active ≡ true
    → is_last_admin w.db target ≡ false
    → let swept =
        revoke_sessions_for_user
          (record w { db = deactivated_db w.db target.id })
          target.id
          none
          now in
      deactivate_user_route redis_answers w u now
      ≡ (ok false, invalidate_all redis_answers swept.0 swept.1)
unfolding deactivate_user_route
deactivation_ends redis_answers w u now target n a l =
    let swept = deactivate_user_swept w target now a l in
    rw (n, deactivate_user_route)
      (ap
        (λ (r : Auth × DeactivationResult).
          elim r.1.outcome as (λ _. Result AdminError Bool × Auth) [
            | last_active_system_admin ↦ (err last_admin, w)
            | already_inactive ↦ (ok target.is_active, r.0)
            | deactivated ↦ (ok false, invalidate_all redis_answers r.0 r.1.revoked_session_ids)
          ])
        swept)

-- With Redis answering, it is a sweep of the sessions.
pub deactivation_is_sweep :
    (w : Auth) (u now : ℕ) (target : User)
    → get_user w.db u ≡ some target
    → target.is_active ≡ true
    → is_last_admin w.db target ≡ false
    → deactivate_user_route true w u now
      ≡ (ok false, sweep_route (record w { db = deactivated_db w.db target.id }) target.id none now)
unfolding sweep_route
deactivation_is_sweep w u now target n a l = deactivation_ends true w u now target n a l

-- What the route does to the accounts: nothing, or it clears the flag of one that is not the last.
deactivation-cases :
    (redis_answers : Bool) (w : Auth) (u now : ℕ)
    → let v = (deactivate_user_route redis_answers w u now).1 in
      (v.db.users ≡ w.db.users)
      ⊎ ((target : User) × (find (user_at u) w.db.users ≡ some target)
          × (is_last_admin w.db target ≡ false)
          × (v.db.users ≡ update_where (user_at u) (with_activity false) w.db.users))
unfolding deactivate_user_route deactivate_user get_user revoke_sessions_for_user
deactivation-cases redis_answers w u now = elim (Option-cases (find (user_at u) w.db.users)) [
  | inl n ↦ inl (ground (arith, n))
  | inr (target, n) ↦ elim (Bool-cases (target.is_active && not (is_last_admin w.db target))) [
    | inr k ↦ inl (ground (arith, n, k))
    | inl k ↦
        let same = (==_iff target.id u).0 (find-holds (user_at u) w.db.users target n) in
        inr (
          target,
          n,
          ground (arith, k),
          ap (λ k. k.1.db.users)
                (deactivation_ends redis_answers w u now target n (ground (arith, k))
                  (ground (arith, k)))
              ∙ ap (λ k. k.users)
                  (db-invalidate_all redis_answers _
                    (revoke_sessions_for_user (record w { db = deactivated_db w.db target.id })
                      target.id none now).1)
              ∙ ap (update_where (user_at target.id) (with_activity false))
                  (users-run_sole_admin_succession w.db target.id none)
              ∙ ap (λ i. update_where (user_at i) (with_activity false) w.db.users) same,
        )
  ]
]

deactivate_user_route-HasAdmin :
    (redis_answers : Bool) (w : Auth) (u now : ℕ)
    → HasAdmin w.db
    → HasAdmin (deactivate_user_route redis_answers w u now).1.db
unfolding lock_and_count_active_system_admins
deactivate_user_route-HasAdmin redis_answers w u now (d, n) =
    elim (deactivation-cases redis_answers w u now) [
      | inl e ↦ (subst (Distinct same_user) (sym e) d, ground (arith, e, n))
      | inr (target, f, k, e) ↦ (
        subst (Distinct same_user) (sym e) (set_activity-Distinct false u w.db d),
        elim (Bool-cases target.is_system_admin) [
          | inl t ↦ ground (arith, e, n, k, t, count_after_deactivation u w.db.users d)
          | inr t ↦ ground (arith, e, n, count_after_other u w.db.users target f t d)
        ],
      )
    ]

reactivate_user_route-HasAdmin :
    (w : Auth) (u : ℕ) → HasAdmin w.db → HasAdmin (reactivate_user_route w u).1.db
unfolding lock_and_count_active_system_admins reactivate_user_route reactivate_user
reactivate_user_route-HasAdmin w u (d, n) = elim (Option-cases (get_user w.db u)) [
  | inl e ↦ rw (e, reactivate_user_route) (d, n)
  | inr (target, e) ↦ elim (Bool-cases target.is_active) [
    | inl k ↦ rw (e, k, reactivate_user_route, reactivate_user) (d, n)
    | inr k ↦
        rw (e, k, reactivate_user_route, reactivate_user)
          (
            set_activity-Distinct true target.id w.db d,
            omega (arith, n, count_after_activation target.id w.db.users),
          )
  ]
]

pub data AdminRequest : Type 0 where
  deactivate : (redis_answers : Bool) (user_id now : ℕ) → AdminRequest
  reactivate : (user_id : ℕ) → AdminRequest

unfoldable pub after_admin_requests : List AdminRequest → Auth → Auth
after_admin_requests [] w = w
after_admin_requests (deactivate b u now ∷ rs) w =
    after_admin_requests rs (deactivate_user_route b w u now).1
after_admin_requests (reactivate u ∷ rs) w = after_admin_requests rs (reactivate_user_route w u).1

-- Where users have different ids and there is an active system administrator, there still is one
-- after any sequence of deactivations and reactivations.
pub workspace_keeps_admin :
    (requests : List AdminRequest) (w : Auth)
    → HasAdmin w.db
    → HasAdmin (after_admin_requests requests w).db
unfolding after_admin_requests
workspace_keeps_admin [] w h = h
workspace_keeps_admin (deactivate b u now ∷ rs) w h =
    workspace_keeps_admin rs (deactivate_user_route b w u now).1
      (deactivate_user_route-HasAdmin b w u now h)
workspace_keeps_admin (reactivate u ∷ rs) w h =
    workspace_keeps_admin rs (reactivate_user_route w u).1 (reactivate_user_route-HasAdmin w u h)
