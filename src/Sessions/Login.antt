-- ===== src/Sessions/Login.antt =====
-- What a login gives: a session that the next requests are admitted with.
use chatspace.Messages.Content.{strip}
use chatspace.Prelude.{
  ℕ, ◌≡◌, refl, ap, sym, ◌∙◌, Bool, true, false, Option, none, some, [], ◌∷◌, ok, arith,
  Option-cases, inl, inr, find, Text, ◌+◌, ◌<◌, find-append,
}
use chatspace.Db.{User, get_user}
use chatspace.Sessions.{
  Session, Auth, get_session, session_at, days, authenticate_and_login, create_session, new_session,
  email_is, require_auth, is_session_active, read_session_active_from_db, active_user,
}

-- The branches of a login: only the last one adds a row.
pub login_outcome :
    (verify_password : Text → Text → Bool) (w : Auth) (email password : Text) (s : ℕ)
    (token_hash : Text) (agent ip : Option Text) (ttl_days now : ℕ) (user : User)
    → let (answer, v) =
        authenticate_and_login verify_password w email password s token_hash agent ip ttl_days
          now in
      (answer ≡ ok user)
      → (find (email_is (strip email)) w.db.users ≡ some user)
        × (verify_password password user.hashed_password ≡ true)
        × (user.is_active ≡ true)
        × (user.must_change_password ≡ false)
        × (v ≡ create_session w s user.id token_hash agent ip ttl_days now)
unfolding authenticate_and_login
login_outcome verify_password w email password s token_hash agent ip ttl_days now user h =
    elim (Option-cases (find (email_is (strip email)) w.db.users)) [
      | inl n ↦ ground (arith, n)
      | inr (u, n) ↦ ground (arith, n)
    ]

admitted_at :
    (redis_answers : Bool) (v : Auth) (r : Session) (u s later : ℕ)
    → get_session v s ≡ some r
    → r.revoked_at ≡ none
    → later < r.expires_at
    → v.cache s ≡ none
    → active_user v u ≡ true
    → (require_auth redis_answers v (some (record { user_id = u; session_id = s })) later).0
      ≡ ok (record { user_id = u; session_id = s })
unfolding require_auth is_session_active read_session_active_from_db
admitted_at false v r u s later n a b c d = ground (arith, n, a, b, c, d)
admitted_at true v r u s later n a b c d = ground (arith, n, a, b, c, d)

created_at :
    (w : Auth) (s u : ℕ) (token_hash : Text) (agent ip : Option Text) (ttl_days now : ℕ)
    → get_session w s ≡ none
    → let v = create_session w s u token_hash agent ip ttl_days now in
      (get_session v s ≡ some (new_session s u token_hash agent ip ttl_days now))
      × (v.cache ≡ w.cache)
      × (v.db ≡ w.db)
unfolding get_session create_session find
created_at w s u token_hash agent ip ttl_days now fresh = (
  ground (
    arith,
    find-append (session_at s) w.sessions (new_session s u token_hash agent ip ttl_days now ∷ [])
        fresh,
  ),
  refl,
  refl,
)

-- Where the id of the new session is new, with no cached verdict, and the user is found by id,
-- after a login that succeeds an access token of the new session is accepted until the session
-- expires, whether or not Redis answers.
pub login_admits :
    (verify_password : Text → Text → Bool) (w v : Auth) (email password : Text) (s : ℕ)
    (token_hash : Text) (agent ip : Option Text) (ttl_days now : ℕ) (user : User)
    → w.cache s ≡ none
    → get_session w s ≡ none
    → get_user w.db user.id ≡ some user
    → authenticate_and_login verify_password w email password s token_hash agent ip ttl_days now
      ≡ (ok user, v)
    → (redis_answers : Bool) (later : ℕ) → later < now + days ttl_days
    → (require_auth redis_answers v (some (record { user_id = user.id; session_id = s })) later).0
      ≡ ok (record { user_id = user.id; session_id = s })
login_admits verify_password w v email password s token_hash agent ip ttl_days now user cold fresh
      key h redis_answers later soon =
    let (n, pass, active, changed, table) =
      login_outcome verify_password w email password s token_hash agent ip ttl_days now user
        (ap (λ k. k.0) h) in
    let e = sym (ap (λ k. k.1) h) ∙ table in
    let (row, cache, db) = created_at w s user.id token_hash agent ip ttl_days now fresh in
    admitted_at redis_answers v (new_session s user.id token_hash agent ip ttl_days now) user.id s
      later (ap (λ k. get_session k s) e ∙ row) refl soon
      (ap (λ k. k.cache s) e ∙ ap (λ k. k s) cache ∙ cold)
      (ground
        (arith, active, ap (λ k. get_user k.db user.id) e ∙ ap (λ k. get_user k user.id) db ∙ key))
