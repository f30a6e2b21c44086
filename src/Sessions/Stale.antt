-- ===== src/Sessions/Stale.antt =====
-- When the cached verdict of `is_session_active` is out of date: the read of the table and the write
-- of the cache are two steps, an invalidation may fail, and a verdict carries no expiry of its session.
use chatspace.Prelude.{ℕ, ◌≡◌, refl, Bool, true, false, Option, none, some, arith}
use chatspace.Sessions.{
  Auth, revoked, get_session, is_session_active, write_cache, invalidate_session_cache,
  read_session_active_from_db, revoke_session,
}
use chatspace.Sessions.Steps.{revoke_route}
use chatspace.Sessions.Effects.{revoked_row, owner_of_revoke, revoke_self}

-- What the cache says is the answer.
trusted :
    (w : Auth) (s later : ℕ) → w.cache s ≡ some true → is_session_active true w s later ≡ (true, w)
unfolding is_session_active
trusted w s later hit = ground (arith, hit)

-- A check on a cold cache is the read of the table and then the write of its verdict.
pub check_in_two_steps :
    (w : Auth) (s now : ℕ)
    → w.cache s ≡ none
    → is_session_active true w s now ≡ (
        let verdict = read_session_active_from_db w s now in
        (verdict, write_cache w s (some verdict)))
unfolding is_session_active
check_in_two_steps w s now cold = ground (arith, cold)

get_session-write_cache :
    (w : Auth) (s : ℕ) (verdict : Option Bool)
    → get_session (write_cache w s verdict) s ≡ get_session w s
unfolding get_session
get_session-write_cache w s verdict = refl

-- When a check reads the table while the session is active, a revocation with its invalidation of
-- the cache follows, and the check then writes its verdict, the row is revoked and later checks
-- answer that the session is active, as long as that entry is cached.
pub late_write_revives :
    (w : Auth) (s u now later : ℕ)
    → let verdict = read_session_active_from_db w s now in
      let after_revocation = revoke_route w s u now in
      let v = write_cache after_revocation.0 s (some verdict) in
      verdict ≡ true
      → after_revocation.1 ≡ revoked
      → (revoked_row v s ≡ true) × (is_session_active true v s later ≡ (true, v))
late_write_revives w s u now later read answer =
    let verdict = read_session_active_from_db w s now in
    let after_revocation = (revoke_route w s u now).0 in
    let (r, row, own) = owner_of_revoke w s u now answer in
    (
      ground (
        arith,
        own,
        revoke_self w s u now r row,
        get_session-write_cache after_revocation s (some verdict),
      ),
      trusted (write_cache after_revocation s (some verdict)) s later (ground (arith, read)),
    )

pub failed_invalidation :
    (w : Auth) (s u now later : ℕ)
    → w.cache s ≡ some true
    → let v = invalidate_session_cache false (revoke_session w s u now).0 s in
      is_session_active true v s later ≡ (true, v)
unfolding invalidate_session_cache revoke_session
failed_invalidation w s u now later hit =
    trusted (revoke_session w s u now).0 s later (ground (arith, hit))

pub verdict_outlives_expiry :
    (w : Auth) (s now later : ℕ)
    → (is_session_active true w s now).0 ≡ true
    → (is_session_active true (is_session_active true w s now).1 s later).0 ≡ true
unfolding is_session_active
verdict_outlives_expiry w s now later h = ground arith
