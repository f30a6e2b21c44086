-- ===== src/Passwords/ResetTokens.antt =====
-- Which reset tokens are valid: the latest one of an account, once, for an hour.
use chatspace.Prelude.{
  ℕ, ◌≡◌, ◌<◌, ◌+◌, refl, ap, ◌∙◌, Bool, none, some, [], ◌∷◌, if◌then◌else◌, find, update_where,
  Text, text_eq_refl, ok, err, arith, Option-cases, inl, inr, find-append, find-append_some,
  find-update_where,
}
use chatspace.Db.{User, get_user}
use chatspace.Sessions.{Auth}
use chatspace.Passwords.{
  Accounts, PasswordResetToken, reset_hash_is, find_valid_reset_token, create_password_reset_token,
  invalidate_outstanding_reset_tokens, new_reset_token, is_outstanding, mark_reset_token_used,
  reset_token_ttl, confirm_password_reset, password_written, token_at, stale_token,
}

-- A new token ends the earlier ones of its account, and is valid for an hour.
pub latest_token_only :
    (w : Accounts) (i u : ℕ) (token_hash : Text) (now : ℕ)
    → find (reset_hash_is token_hash) w.reset_tokens ≡ none
    → let v = create_password_reset_token w i u token_hash now in
      (later : ℕ)
      → (later < now + reset_token_ttl
          → find_valid_reset_token v token_hash later ≡ some (new_reset_token i u token_hash now))
        × ((earlier : Text) (t : PasswordResetToken)
            → find (reset_hash_is earlier) w.reset_tokens ≡ some t
            → t.user_id ≡ u
            → find_valid_reset_token v earlier later ≡ none)
unfolding find_valid_reset_token create_password_reset_token invalidate_outstanding_reset_tokens
    find
latest_token_only w i u token_hash now fresh later = (
  λ soon. ground (
    arith,
    soon,
    fresh,
    text_eq_refl token_hash,
    find-append (reset_hash_is token_hash)
        (update_where (is_outstanding u) (mark_reset_token_used now) w.reset_tokens)
        (new_reset_token i u token_hash now ∷ []),
    find-update_where (reset_hash_is token_hash) (is_outstanding u) (mark_reset_token_used now)
        (λ _. refl) w.reset_tokens,
  ),
  λ earlier t n own. ground (
    arith,
    n,
    own,
    find-append_some (reset_hash_is earlier)
        (update_where (is_outstanding u) (mark_reset_token_used now) w.reset_tokens)
        (new_reset_token i u token_hash now ∷ [])
        (if is_outstanding u t then mark_reset_token_used now t else t),
    find-update_where (reset_hash_is earlier) (is_outstanding u) (mark_reset_token_used now)
        (λ _. refl) w.reset_tokens,
  ),
)

token_of_valid :
    (w : Accounts) (token_hash : Text) (now : ℕ) (t : PasswordResetToken)
    → find_valid_reset_token w token_hash now ≡ some t
    → find (reset_hash_is token_hash) w.reset_tokens ≡ some t
unfolding find_valid_reset_token
token_of_valid w token_hash now t h =
    elim (Option-cases (find (reset_hash_is token_hash) w.reset_tokens)) [
      | inl n ↦ ground (arith, h, n)
      | inr (r, n) ↦ ground (arith, h, n)
    ]

-- A used token is no longer valid.
invalid_of_used :
    (w : Accounts) (token_hash : Text) (t : PasswordResetToken) (now later : ℕ) (auth : Auth)
    → find (reset_hash_is token_hash) w.reset_tokens ≡ some t
    → find_valid_reset_token
        (record {
          auth = auth;
          reset_tokens = update_where (token_at t.id) (mark_reset_token_used now) w.reset_tokens;
        })
        token_hash
        later
      ≡ none
unfolding find_valid_reset_token
invalid_of_used w token_hash t now later auth n = ground (
  arith,
  n,
  find-update_where (reset_hash_is token_hash) (token_at t.id) (mark_reset_token_used now)
      (λ _. refl) w.reset_tokens,
)

module _ (is_alpha is_digit : ℕ → Bool) (hash_password : Text → Text) where
  -- What a confirmation that succeeds did.
  pub confirmation :
      (w : Accounts) (token_hash new_password : Text) (now : ℕ)
      → let (answer, v) =
          confirm_password_reset is_alpha is_digit hash_password w token_hash new_password now in
        answer ≡ ok tt
        → (t : PasswordResetToken) × (user : User) × (find (reset_hash_is token_hash) w.reset_tokens
            ≡ some t)
          × (get_user w.auth.db t.user_id ≡ some user)
          × (v ≡ record {
            auth = password_written w.auth user.id (hash_password new_password) none now;
            reset_tokens = update_where (token_at t.id) (mark_reset_token_used now) w.reset_tokens;
          })
  unfolding confirm_password_reset
  confirmation w token_hash new_password now h =
      elim (Option-cases (find_valid_reset_token w token_hash now)) [
        | inl n ↦ ground (arith, h, n)
        | inr (t, n) ↦ elim (Option-cases (get_user w.auth.db t.user_id)) [
          | inl m ↦ ground (arith, h, n, m)
          | inr (user, m) ↦
              (t, user, token_of_valid w token_hash now t n, m, ground (arith, h, n, m))
        ]
      ]

  -- After a password reset that succeeds, the same token is refused, whatever the new password
  -- and the time, and nothing changes.
  pub reset_once :
      (w : Accounts) (token_hash new_password : Text) (now : ℕ)
      → (confirm_password_reset is_alpha is_digit hash_password w token_hash new_password now).0
        ≡ ok tt
      → let v =
          (confirm_password_reset is_alpha is_digit hash_password w token_hash new_password
            now).1 in
        (another : Text) (later : ℕ)
        → confirm_password_reset is_alpha is_digit hash_password v token_hash another later
          ≡ (err stale_token, v)
  unfolding confirm_password_reset
  reset_once w token_hash new_password now h another later =
      let (t, user, n, m, same) = confirmation w token_hash new_password now h in
      let gone =
        ap (λ k. find_valid_reset_token k token_hash later) same
        ∙ invalid_of_used w token_hash t now later _ n in
      stale _ gone
    where
      stale :
          (v : Accounts)
          → find_valid_reset_token v token_hash later ≡ none
          → confirm_password_reset is_alpha is_digit hash_password v token_hash another later
            ≡ (err stale_token, v)
      stale v gone = rw (gone, confirm_password_reset) refl
