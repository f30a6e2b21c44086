-- ===== src/Sessions/Effects.antt =====
-- What each request does to one session's row and to its cached verdict.
use chatspace.Messages.Content.{strip}
use chatspace.Prelude.{
  ℕ, ◌≡◌, refl, ◌⊎◌, Bool-cases, Bool, true, false, Option, none, some, List, [], ◌∷◌, ◌&&◌, not,
  ◌==◌, if◌then◌else◌, find, any_row, Text, arith, find-append_some, find-update_where, any_row-map,
  any_row-of_select, any_row-order_by, find-holds, Option-cases, inl, inr, ◌∙◌, any_row_at_find,
}
use chatspace.Db.{is_some}
use chatspace.Sessions.{
  revoked, Session, Auth, email_is, session_at, get_session, create_session, revoke_session,
  revoke_sessions_for_user, refresh_session, invalidate_session_cache, invalidate_all, rotate,
  is_swept, with_revocation, authenticate_and_login, new_session, token_is, is_kept, is_active_of,
  issued_after, list_active_sessions_for_user,
}
use chatspace.Sessions.Steps.{revoke_route, sweep_route}

-- The row of the session, if it is there and not revoked.
abbrev pub unrevoked : Auth → ℕ → Bool
unrevoked w s = elim (get_session w s) [ none ↦ false | some r ↦ not (is_some r.revoked_at) ]

abbrev pub revoked_row : Auth → ℕ → Bool
revoked_row w s = elim (get_session w s) [ none ↦ false | some r ↦ is_some r.revoked_at ]

pub cache-invalidate_all :
    (w : Auth) (ids : List ℕ) (s : ℕ)
    → (invalidate_all true w ids).cache s ≡ (if any_row (λ i. i == s) ids then none else w.cache s)
unfolding invalidate_all invalidate_session_cache any_row
cache-invalidate_all w [] s = refl
cache-invalidate_all w (i ∷ is) s =
    ground (arith, cache-invalidate_all (invalidate_session_cache true w i) is s)

pub sessions-invalidate_all :
    (w : Auth) (ids : List ℕ) → (invalidate_all true w ids).sessions ≡ w.sessions
unfolding invalidate_all invalidate_session_cache
sessions-invalidate_all w [] = refl
sessions-invalidate_all w (i ∷ is) = sessions-invalidate_all (invalidate_session_cache true w i) is

-- The ids that a sweep returns are those of the rows it revokes.
pub any_row-swept :
    (w : Auth) (u : ℕ) (except : Option ℕ) (now : ℕ) (s : ℕ)
    → any_row (λ i. i == s) (revoke_sessions_for_user w u except now).1
      ≡ any_row (λ r. is_active_of u r && (not (is_kept except r) && (r.id == s))) w.sessions
unfolding revoke_sessions_for_user list_active_sessions_for_user
any_row-swept w u except now s =
    any_row-map (λ r. r.id) (λ i. i == s) _
    ∙ any_row-of_select (λ r. not (is_kept except r)) (λ r. r.id == s) _
    ∙ any_row-order_by issued_after _ _
    ∙ any_row-of_select (is_active_of u) _ w.sessions

pub cache-revoke_sessions_for_user :
    (w : Auth) (u : ℕ) (except : Option ℕ) (now : ℕ)
    → (revoke_sessions_for_user w u except now).0.cache ≡ w.cache
unfolding revoke_sessions_for_user
cache-revoke_sessions_for_user w u except now = refl

pub cache-sweep_route :
    (w : Auth) (u : ℕ) (except : Option ℕ) (now s : ℕ)
    → (sweep_route w u except now).cache s ≡ some true
    → (any_row (λ r. is_active_of u r && (not (is_kept except r) && (r.id == s))) w.sessions
        ≡ false)
      × (w.cache s ≡ some true)
unfolding sweep_route
cache-sweep_route w u except now s h = ground (
  arith,
  h,
  any_row-swept w u except now s,
  cache-revoke_sessions_for_user w u except now,
  cache-invalidate_all (revoke_sessions_for_user w u except now).0
      (revoke_sessions_for_user w u except now).1 s,
)

-- The row of one session after each change of the table.
pub get_session-sweep_route :
    (w : Auth) (u : ℕ) (except : Option ℕ) (now s : ℕ)
    → get_session (sweep_route w u except now) s ≡ elim (get_session w s) [
      | none ↦ none
      | some r ↦ some (if is_swept u except r then with_revocation now r else r)
    ]
unfolding get_session sweep_route revoke_sessions_for_user
get_session-sweep_route w u except now s = ground (
  arith,
  sessions-invalidate_all (revoke_sessions_for_user w u except now).0
      (revoke_sessions_for_user w u except now).1,
  find-update_where (session_at s) (is_swept u except) (with_revocation now) (λ _. refl) w.sessions,
)

-- A rotation leaves the rows' revocation and the cache.
pub unrevoked-refresh_session :
    (w : Auth) (old_hash new_hash : Text) (ttl_days now s : ℕ)
    → let v = (refresh_session w old_hash new_hash ttl_days now).1 in
      (unrevoked v s ≡ unrevoked w s) × (revoked_row v s ≡ revoked_row w s) × (v.cache ≡ w.cache)
unfolding get_session refresh_session
unrevoked-refresh_session w old_hash new_hash ttl_days now s =
    elim (Option-cases (find (token_is old_hash) w.sessions)) [
      | inl e ↦ ground (arith, e)
      | inr (r, e) ↦ ground (
        arith,
        e,
        find-update_where (session_at s) (session_at r.id) (rotate new_hash ttl_days now)
            (λ _. refl) w.sessions,
      )
    ]

-- An insertion adds no row to a session that has one.
pub get_session-create_session :
    (w : Auth) (s u : ℕ) (token_hash : Text) (agent ip : Option Text) (ttl_days now t : ℕ)
    (r : Session)
    → get_session w t ≡ some r
    → get_session (create_session w s u token_hash agent ip ttl_days now) t ≡ some r
unfolding get_session create_session
get_session-create_session w s u token_hash agent ip ttl_days now t r e =
    find-append_some (session_at t) w.sessions
      (new_session s u token_hash agent ip ttl_days now ∷ []) r e

-- A failed login leaves everything; a successful one adds the row of a new session.
pub login-cases :
    (verify_password : Text → Text → Bool) (w : Auth) (email password : Text) (s : ℕ)
    (token_hash : Text) (agent ip : Option Text) (ttl_days now : ℕ)
    → let v =
        (authenticate_and_login verify_password w email password s token_hash agent ip ttl_days
          now).1 in
      (v ≡ w) ⊎ ((u : ℕ) × (v ≡ create_session w s u token_hash agent ip ttl_days now))
unfolding authenticate_and_login
login-cases verify_password w email password s token_hash agent ip ttl_days now =
    elim (Option-cases (find (email_is (strip email)) w.db.users)) [
      | inl e ↦ inl (ground (arith, e))
      | inr (user, e) ↦
          elim (Bool-cases (
            verify_password password user.hashed_password
            && (user.is_active && not user.must_change_password))) [
              | inl h ↦ inr (user.id, ground (arith, e, h))
              | inr h ↦ inl (ground (arith, e, h))
            ]
    ]

pub revoke_self :
    (w : Auth) (s u now : ℕ) (r : Session)
    → get_session w s ≡ some r
    → get_session (revoke_route w s u now).0 s
      ≡ some (if r.user_id == u && not (is_some r.revoked_at) then with_revocation now r else r)
unfolding get_session revoke_route revoke_session invalidate_session_cache
revoke_self w s u now r e = ground (
  arith,
  e,
  find-holds (session_at s) w.sessions r e,
  find-update_where (session_at s) (session_at s) (with_revocation now) (λ _. refl) w.sessions,
)

pub revoke_other :
    (w : Auth) (s u now t : ℕ)
    → (t == s) ≡ false
    → get_session (revoke_route w s u now).0 t ≡ get_session w t
unfolding get_session revoke_route revoke_session invalidate_session_cache
revoke_other w s u now t d = elim (Option-cases (find (session_at t) w.sessions)) [
  | inl e ↦ ground (
    arith,
    e,
    find-update_where (session_at t) (session_at s) (with_revocation now) (λ _. refl) w.sessions,
  )
  | inr (r, e) ↦ ground (
    arith,
    e,
    find-holds (session_at t) w.sessions r e,
    find-update_where (session_at t) (session_at s) (with_revocation now) (λ _. refl) w.sessions,
  )
]

pub id_of_session : (w : Auth) (t : ℕ) (r : Session) → get_session w t ≡ some r → (r.id == t) ≡ true
unfolding get_session
id_of_session w t r n = find-holds (session_at t) w.sessions r n

pub any_row_at_session :
    (w : Auth) (q : Session → Bool) (t : ℕ) (r : Session)
    → get_session w t ≡ some r
    → q r ≡ true
    → any_row q w.sessions ≡ true
unfolding get_session
any_row_at_session w q t r n k = any_row_at_find (session_at t) q w.sessions r n k

-- Only the owner of an existing session gets the answer that it is revoked.
pub owner_of_revoke :
    (w : Auth) (s u now : ℕ)
    → (revoke_route w s u now).1 ≡ revoked
    → (r : Session) × (get_session w s ≡ some r) × ((r.user_id == u) ≡ true)
unfolding revoke_route revoke_session
owner_of_revoke w s u now h = elim (Option-cases (get_session w s)) [
  | inl n ↦ ground (arith, n)
  | inr (r, n) ↦ (r, n, ground (arith, n))
]

pub db-invalidate_all :
    (redis_answers : Bool) (w : Auth) (ids : List ℕ)
    → (invalidate_all redis_answers w ids).db ≡ w.db
unfolding invalidate_all invalidate_session_cache
db-invalidate_all b w [] = refl
db-invalidate_all true w (i ∷ is) = db-invalidate_all true (invalidate_session_cache true w i) is
db-invalidate_all false w (i ∷ is) = db-invalidate_all false w is

pub db-sweep_route :
    (w : Auth) (u : ℕ) (except : Option ℕ) (now : ℕ) → (sweep_route w u except now).db ≡ w.db
unfolding sweep_route revoke_sessions_for_user
db-sweep_route w u except now = db-invalidate_all true _ (revoke_sessions_for_user w u except now).1
