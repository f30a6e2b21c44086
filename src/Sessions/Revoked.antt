-- ===== src/Sessions/Revoked.antt =====
-- What a revocation means for the requests that follow it: the cache and the table agree.
use mathlib.Core.Path.{subst}
use chatspace.Prelude.{
  ℕ, ◌≡◌, refl, sym, ◌⊎◌, Bool-cases, Bool, true, false, Option, none, some, ◌&&◌, not, ◌==◌, Text,
  err, arith, Option-cases, inl, inr, ◌∙◌, ap, ==_iff,
}
use chatspace.Sessions.{
  Session, Auth, require_auth, unauthorized, revoked, get_session, create_session, revoke_session,
  is_session_active, invalidate_session_cache, read_session_active_from_db, is_kept, is_active_of,
}
use chatspace.Sessions.Steps.{
  Step, login, refresh, revoke, sweep, check, lapse, other_tables, Reach, here, next, revoke_route,
  sweep_route,
}
use chatspace.Sessions.Effects.{
  owner_of_revoke, unrevoked, revoked_row, cache-sweep_route, get_session-sweep_route,
  unrevoked-refresh_session, get_session-create_session, login-cases, revoke_self, revoke_other,
  id_of_session, any_row_at_session,
}

-- What the cache calls active is a session that is not revoked.
abbrev pub CacheHonest : Auth → Type 0
CacheHonest w = (s : ℕ) → w.cache s ≡ some true → unrevoked w s ≡ true

-- What a request keeps for one session: its revocation, and that a cached "active" is true.
abbrev pub Keeps : Auth → Auth → ℕ → Type 0
Keeps w v t =
    (revoked_row w t ≡ true → revoked_row v t ≡ true)
    × ((w.cache t ≡ some true → unrevoked w t ≡ true)
        → v.cache t ≡ some true
        → unrevoked v t ≡ true)

create_session-Keeps :
    (w : Auth) (s u : ℕ) (token_hash : Text) (agent ip : Option Text) (ttl_days now t : ℕ)
    → Keeps w (create_session w s u token_hash agent ip ttl_days now) t
unfolding create_session
create_session-Keeps w s u token_hash agent ip ttl_days now t =
    elim (Option-cases (get_session w t)) [
      | inl e ↦ (λ h. ground (arith, e), λ h c. ground (arith, e, h c))
      | inr (r, e) ↦
          let e' = get_session-create_session w s u token_hash agent ip ttl_days now t r e in
          (λ h. ground (arith, e, e'), λ h c. ground (arith, e, e', h c))
    ]

cache-revoke_route :
    (w : Auth) (s u now t : ℕ)
    → (revoke_route w s u now).0.cache t ≡ some true
    → w.cache t ≡ some true
unfolding revoke_route revoke_session invalidate_session_cache
cache-revoke_route w s u now t h = ground arith

cache_self-revoke_route :
    (w : Auth) (s u now : ℕ) (r : Session)
    → get_session w s ≡ some r
    → (revoke_route w s u now).0.cache s ≡ some true
    → (r.user_id == u) ≡ false
unfolding revoke_route revoke_session invalidate_session_cache
cache_self-revoke_route w s u now r e h = ground (arith, e)

revoke_route-Keeps_self : (w : Auth) (s u now : ℕ) → Keeps w (revoke_route w s u now).0 s
revoke_route-Keeps_self w s u now = elim (Option-cases (get_session w s)) [
  | inl n ↦ (λ h. ground (arith, n), λ h c. ground (arith, n, h (cache-revoke_route w s u now s c)))
  | inr (r, n) ↦
      let e = revoke_self w s u now r n in
      (
        λ h. ground (arith, n, e),
        λ h c. ground (
          arith,
          n,
          e,
          h (cache-revoke_route w s u now s c),
          cache_self-revoke_route w s u now r n c,
        ),
      )
]

revoke_route-Keeps : (w : Auth) (s u now t : ℕ) → Keeps w (revoke_route w s u now).0 t
revoke_route-Keeps w s u now t = elim (Bool-cases (t == s)) [
  | inr d ↦
      let e = revoke_other w s u now t d in
      (λ h. ground (arith, e), λ h c. ground (arith, e, h (cache-revoke_route w s u now t c)))
  | inl d ↦
      subst (λ x. Keeps w (revoke_route w s u now).0 x) (sym ((==_iff t s).0 d))
        (revoke_route-Keeps_self w s u now)
]

sweep_route-Keeps :
    (w : Auth) (u : ℕ) (except : Option ℕ) (now t : ℕ) → Keeps w (sweep_route w u except now) t
sweep_route-Keeps w u except now t = elim (Option-cases (get_session w t)) [
  | inl n ↦
      (λ h. ground (arith, n), λ h c. ground (arith, n, h (cache-sweep_route w u except now t c).1))
  | inr (r, n) ↦ (
    λ h. ground (arith, n, get_session-sweep_route w u except now t),
    λ h c.
        let (apart, cached) = cache-sweep_route w u except now t c in
        ground (
          arith,
          n,
          h cached,
          apart,
          get_session-sweep_route w u except now t,
          any_row_at_session w (λ x. is_active_of u x && (not (is_kept except x) && (x.id == t))) t
              r n,
          id_of_session w t r n,
        ),
  )
]

get_session-is_session_active :
    (redis_answers : Bool) (w : Auth) (s now t : ℕ)
    → get_session (is_session_active redis_answers w s now).1 t ≡ get_session w t
unfolding get_session is_session_active
get_session-is_session_active false w s now t = refl
get_session-is_session_active true w s now t = ground arith

cache_self-is_session_active :
    (w : Auth) (s now : ℕ)
    → (is_session_active true w s now).1.cache s ≡ some true
    → (w.cache s ≡ some true) ⊎ (unrevoked w s ≡ true)
unfolding is_session_active read_session_active_from_db
cache_self-is_session_active w s now h = elim (Option-cases (w.cache s)) [
  | inl n ↦ inr (ground (arith, n))
  | inr (v, n) ↦ inl (ground (arith, n))
]

cache_other-is_session_active :
    (w : Auth) (s now t : ℕ)
    → (t == s) ≡ false
    → (is_session_active true w s now).1.cache t ≡ w.cache t
unfolding is_session_active
cache_other-is_session_active w s now t d = ground arith

is_session_active-Keeps :
    (redis_answers : Bool) (w : Auth) (s now t : ℕ)
    → Keeps w (is_session_active redis_answers w s now).1 t
unfolding is_session_active
is_session_active-Keeps false w s now t = (λ h. h, λ h. h)
is_session_active-Keeps true w s now t = elim (Bool-cases (t == s)) [
  | inr d ↦
      let e = get_session-is_session_active true w s now t in
      (
        λ h. ground (arith, e),
        λ h c. ground (arith, e, h (sym (cache_other-is_session_active w s now t d) ∙ c)),
      )
  | inl d ↦
      subst (λ x. Keeps w (is_session_active true w s now).1 x) (sym ((==_iff t s).0 d))
        (let e = get_session-is_session_active true w s now s in
          (
            λ h. ground (arith, e),
            λ h c. elim (cache_self-is_session_active w s now c) [
              | inl k ↦ ground (arith, e, h k)
              | inr k ↦ ground (arith, e, k)
            ],
          ))
]

Step-Keeps : (w v : Auth) → Step w v → (t : ℕ) → Keeps w v t
unfolding get_session
Step-Keeps w v (login verify_password email password s token_hash agent ip ttl_days now fresh) t =
    elim (login-cases verify_password w email password s token_hash agent ip ttl_days now) [
      | inl e ↦ subst (λ x. Keeps w x t) (sym e) (λ h. h, λ h. h)
      | inr (u, e) ↦
          subst (λ x. Keeps w x t) (sym e)
            (create_session-Keeps w s u token_hash agent ip ttl_days now t)
    ]
Step-Keeps w v (refresh old_hash new_hash ttl_days now) t =
    let e = unrevoked-refresh_session w old_hash new_hash ttl_days now t in
    (λ h. e.1 ∙ h, λ h c. e.0 ∙ h (ap (λ k. k t) (sym e.2) ∙ c))
Step-Keeps w v (revoke s u now) t = revoke_route-Keeps w s u now t
Step-Keeps w v (sweep u except now) t = sweep_route-Keeps w u except now t
Step-Keeps w v (check redis_answers s now) t = is_session_active-Keeps redis_answers w s now t
Step-Keeps w v (lapse s) t = (λ h. h, λ h c. ground arith)
Step-Keeps w v (other_tables db) t = (λ h. h, λ h c. h c)

Reach-Keeps : (w v : Auth) → Reach w v → (t : ℕ) → Keeps w v t
Reach-Keeps w v here t = (λ h. h, λ h c. h c)
Reach-Keeps w v (next {v = u} r st) t =
    let (a, b) = Reach-Keeps w u r t in
    let (c, d) = Step-Keeps u v st t in (λ h. c (a h), λ h. d (b h))

-- From a cold cache on, what is cached as active is not revoked.
pub Reach-CacheHonest : (w v : Auth) → ((t : ℕ) → w.cache t ≡ none) → Reach w v → CacheHonest v
Reach-CacheHonest w v cold r t = (Reach-Keeps w v r t).1 (λ c. ground (arith, cold t))

-- A revoked session in an honest state is inactive, whether or not Redis answers.
inactive :
    (w : Auth) (s now : ℕ) (redis_answers : Bool)
    → CacheHonest w
    → revoked_row w s ≡ true
    → (is_session_active redis_answers w s now).0 ≡ false
unfolding is_session_active read_session_active_from_db
inactive w s now false honest h = ground arith
inactive w s now true honest h = ground (arith, honest s)

refused_of_inactive :
    (w : Auth) (s u now : ℕ) (redis_answers : Bool)
    → (is_session_active redis_answers w s now).0 ≡ false
    → (require_auth redis_answers w (some (record { user_id = u; session_id = s })) now).0
      ≡ err unauthorized
unfolding require_auth
refused_of_inactive w s u now redis_answers h = ground (arith, h)

inactive_later :
    (start w v : Auth)
    → ((t : ℕ) → start.cache t ≡ none)
    → Reach start w
    → (s : ℕ) → revoked_row w s ≡ true
    → Reach w v
    → (redis_answers : Bool) (later : ℕ) → (is_session_active redis_answers v s later).0 ≡ false
inactive_later start w v cold before s gone after redis_answers later =
    inactive v s later redis_answers
      (λ t. (Reach-Keeps w v after t).1 (Reach-CacheHonest start w cold before t))
      ((Reach-Keeps w v after s).0 gone)

pub inactive_after_revoke :
    (start w v : Auth) (s u now : ℕ)
    → ((t : ℕ) → start.cache t ≡ none)
    → Reach start w
    → (revoke_route w s u now).1 ≡ revoked
    → Reach (revoke_route w s u now).0 v
    → (redis_answers : Bool) (later : ℕ) → (is_session_active redis_answers v s later).0 ≡ false
inactive_after_revoke start w v s u now cold before answer after =
    let (r, row, own) = owner_of_revoke w s u now answer in
    inactive_later start (revoke_route w s u now).0 v cold (next before (revoke s u now)) s
      (ground (arith, own, revoke_self w s u now r row)) after

-- From a cold cache on, after any requests, when the owner revokes a session and the answer is
-- `revoked`, then after whatever further requests an access token of that session is refused,
-- whether or not Redis answers. The read of the table and the write of the cache of one check
-- count as one step here, and Redis answers the invalidation.
pub revoked_forever :
    (start w v : Auth) (s u now : ℕ)
    → ((t : ℕ) → start.cache t ≡ none)
    → Reach start w
    → (revoke_route w s u now).1 ≡ revoked
    → Reach (revoke_route w s u now).0 v
    → (redis_answers : Bool) (user later : ℕ)
    → (require_auth redis_answers v (some (record { user_id = user; session_id = s })) later).0
      ≡ err unauthorized
revoked_forever start w v s u now cold before answer after redis_answers user later =
    refused_of_inactive v s user later redis_answers
      (inactive_after_revoke start w v s u now cold before answer after redis_answers later)

pub swept_forever :
    (start w v : Auth) (u : ℕ) (except : Option ℕ) (now s : ℕ) (r : Session)
    → ((t : ℕ) → start.cache t ≡ none)
    → Reach start w
    → get_session w s ≡ some r
    → (r.user_id == u) ≡ true
    → is_kept except r ≡ false
    → Reach (sweep_route w u except now) v
    → (redis_answers : Bool) (user later : ℕ)
    → (require_auth redis_answers v (some (record { user_id = user; session_id = s })) later).0
      ≡ err unauthorized
swept_forever start w v u except now s r cold before row own lost after redis_answers user later =
    refused_of_inactive v s user later redis_answers (
      inactive_later start (sweep_route w u except now) v cold (next before (sweep u except now)) s
        (ground (arith, row, own, lost, get_session-sweep_route w u except now s)) after
        redis_answers later)
