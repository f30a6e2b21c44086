-- ===== src/Passwords/Routes.antt =====
-- What a reset and a change of the password do to the account and to its sessions.
use chatspace.Prelude.{
  ℕ, ◌≡◌, refl, ap, ◌∙◌, Bool, true, Option, none, some, if◌then◌else◌, find, Text, ok, err, arith,
  Option-cases, inl, inr, find-update_where, find-holds, ==_iff,
}
use mathlib.Core.Path.{subst}
use chatspace.Db.{User, get_user, user_at}
use chatspace.Sessions.{
  Session, Auth, AuthenticatedUser, get_session, with_revocation, require_auth, unauthorized,
  is_swept,
}
use chatspace.Sessions.Steps.{Reach, next, other_tables}
use chatspace.Sessions.Effects.{get_session-sweep_route, db-sweep_route}
use chatspace.Sessions.Revoked.{swept_forever}
use chatspace.Passwords.{
  Accounts, PasswordResetToken, reset_hash_is, with_password, set_password, password_written,
  confirm_password_reset, change_password,
}
use chatspace.Passwords.ResetTokens.{confirmation}

-- The account and every session after the write of a new password.
password_written-effect :
    (w : Auth) (u : ℕ) (hashed : Text) (except : Option ℕ) (now : ℕ) (user : User)
    → get_user w.db u ≡ some user
    → let v = password_written w u hashed except now in
      (get_user v.db u ≡ some (with_password hashed user))
      × ((s : ℕ) (r : Session)
          → get_session w s ≡ some r
          → get_session v s ≡ some (if is_swept u except r then with_revocation now r else r))
unfolding get_user get_session
password_written-effect w u hashed except now user n = (
  ap (λ d. find (user_at u) d.users)
        (db-sweep_route (record w { db = set_password hashed u w.db }) u except now)
      ∙ ground (
        arith,
        n,
        find-holds (user_at u) w.db.users user n,
        find-update_where (user_at u) (user_at u) (with_password hashed) (λ _. refl) w.db.users,
      ),
  λ s r m. ground (
    arith,
    m,
    get_session-sweep_route (record w { db = set_password hashed u w.db }) u except now s,
  ),
)

id_of_user : (w : Auth) (u : ℕ) (user : User) → get_user w.db u ≡ some user → user.id ≡ u
unfolding get_user
id_of_user w u user n = (==_iff user.id u).0 (find-holds (user_at u) w.db.users user n)

module _ (is_alpha is_digit : ℕ → Bool) (hash_password : Text → Text) where
  written :
      (verify_password : Text → Text → Bool) (w : Auth) (current : AuthenticatedUser)
      (old_password new_password : Text) (now : ℕ) (user : User)
      → get_user w.db current.user_id ≡ some user
      → (change_password is_alpha is_digit hash_password verify_password w current old_password
          new_password now).0
        ≡ ok tt
      → (change_password is_alpha is_digit hash_password verify_password w current old_password
          new_password now).1
        ≡ password_written w current.user_id
            (hash_password new_password)
            (some current.session_id)
            now
  unfolding change_password
  written verify_password w current old_password new_password now user n h =
      ground (arith, h, n)
      ∙ ap (λ i. password_written w i (hash_password new_password) (some current.session_id) now)
          (id_of_user w current.user_id user n)

  pub change_effect :
      (verify_password : Text → Text → Bool) (w : Auth) (current : AuthenticatedUser)
      (old_password new_password : Text) (now : ℕ)
      → let (answer, v) =
          change_password is_alpha is_digit hash_password verify_password w current old_password
            new_password now in
        answer ≡ ok tt
        → (user : User) × (get_user w.db current.user_id ≡ some user)
          × (verify_password old_password user.hashed_password ≡ true)
          × (get_user v.db current.user_id ≡ some (with_password (hash_password new_password) user))
          × ((s : ℕ) (r : Session)
              → get_session w s ≡ some r
              → get_session v s
                ≡ some (
                    if is_swept current.user_id (some current.session_id) r
                    then with_revocation now r
                    else r))
  unfolding change_password
  change_effect verify_password w current old_password new_password now h =
      elim (Option-cases (get_user w.db current.user_id)) [
        | inl n ↦ ground (arith, h, n)
        | inr (user, n) ↦
            let table = written verify_password w current old_password new_password now user n h in
            let (row, kept) =
              password_written-effect w current.user_id (hash_password new_password)
                (some current.session_id) now user n in
            (
              user,
              n,
              ground (arith, h, n),
              ap (λ k. get_user k.db current.user_id) table ∙ row,
              λ s r m. ap (λ k. get_session k s) table ∙ kept s r m,
            )
      ]

  pub reset_ends_sessions :
      (start : Auth) (w : Accounts) (token_hash new_password : Text) (now : ℕ)
      → ((t : ℕ) → start.cache t ≡ none)
      → Reach start w.auth
      → (confirm_password_reset is_alpha is_digit hash_password w token_hash new_password now).0
        ≡ ok tt
      → (t : PasswordResetToken) → find (reset_hash_is token_hash) w.reset_tokens ≡ some t
      → (s : ℕ) (r : Session) → get_session w.auth s ≡ some r
      → r.user_id ≡ t.user_id
      → (v : Auth)
      → Reach
          (confirm_password_reset is_alpha is_digit hash_password w token_hash new_password
            now).1.auth
          v
      → (redis_answers : Bool) (user later : ℕ)
      → (require_auth redis_answers v (some (record { user_id = user; session_id = s })) later).0
        ≡ err unauthorized
  unfolding get_session get_user
  reset_ends_sessions start w token_hash new_password now cold before h t n s r row own v after =
      let (t', user, n', m, same) =
        confirmation is_alpha is_digit hash_password w token_hash new_password now h in
      swept_forever start
        (record w.auth { db = set_password (hash_password new_password) user.id w.auth.db }) v
        user.id none now s r cold
        (next before (other_tables (set_password (hash_password new_password) user.id w.auth.db)))
        row (ground (arith, own, n, n', m, find-holds (user_at t'.user_id) w.auth.db.users user m))
        refl (subst (λ k. Reach k.auth v) same after)
