-- ===== src/Passwords.antt =====
-- Password reset and change: backend/app/core/password_policy.py, the single-use tokens of
-- backend/app/services/password_reset.py and the routes of backend/app/api/password.py.
-- The password hash, the token hash and Python's `isalpha` and `isdigit` are arguments; a token is
-- given by its hash.
pub mod ResetTokens
pub mod Routes
use chatspace.Prelude.{
  ℕ, ◌+◌, Bool, true, false, Option, none, some, List, [], ◌∷◌, ◌++◌, ◌&&◌, ◌||◌, not, ◌==◌, ltb,
  leb, if◌then◌else◌, length, find, any_row, update_where, Text, text_eq, Result, ok, err,
}
use chatspace.Db.{Db, User, get_user, user_at, is_some}
use chatspace.Messages.Content.{is_space, is_empty, strip}
use chatspace.Sessions.{Auth, AuthenticatedUser, email_is}
use chatspace.Sessions.Steps.{sweep_route}

pub data PolicyViolation : Type 0 where
  too_short blank no_letter_and_digit : PolicyViolation

abbrev pub min_length : ℕ
min_length = 6

abbrev pub violation_if : Bool → PolicyViolation → List PolicyViolation
violation_if true v = v ∷ []
violation_if false v = []

unfoldable pub check_password_policy : (is_alpha is_digit : ℕ → Bool) → Text → List PolicyViolation
check_password_policy is_alpha is_digit password =
    violation_if (ltb (length password) min_length) too_short
    ++ (violation_if (not (any_row (λ c. not (is_space c)) password)) blank
        ++ violation_if (not (any_row is_alpha password && any_row is_digit password))
            no_letter_and_digit)

pub record PasswordResetToken : Type 0 where
  pub id : ℕ
  pub user_id : ℕ
  pub token_hash : Text
  pub expires_at : ℕ
  pub used_at : Option ℕ

-- The sessions, the tables and the table of reset tokens.
pub record Accounts : Type 0 where
  pub auth : Auth
  pub reset_tokens : List PasswordResetToken

abbrev pub reset_token_ttl : ℕ
reset_token_ttl = 3600000000

abbrev pub is_outstanding : ℕ → PasswordResetToken → Bool
is_outstanding u t = t.user_id == u && not (is_some t.used_at)

abbrev pub mark_reset_token_used : ℕ → PasswordResetToken → PasswordResetToken
mark_reset_token_used now t = record t { used_at = some now }

unfoldable pub invalidate_outstanding_reset_tokens : Accounts → (user_id now : ℕ) → Accounts
invalidate_outstanding_reset_tokens w u now = record w {
  reset_tokens = update_where (is_outstanding u) (mark_reset_token_used now) w.reset_tokens;
}

abbrev pub new_reset_token : (id user_id : ℕ) (token_hash : Text) (now : ℕ) → PasswordResetToken
new_reset_token i u token_hash now = record {
  id = i;
  user_id = u;
  token_hash = token_hash;
  expires_at = now + reset_token_ttl;
  used_at = none;
}

unfoldable pub create_password_reset_token :
    Accounts → (id user_id : ℕ) (token_hash : Text) (now : ℕ) → Accounts
create_password_reset_token w i u token_hash now =
    let w' = invalidate_outstanding_reset_tokens w u now in
    record w' { reset_tokens = w'.reset_tokens ++ (new_reset_token i u token_hash now ∷ []) }

abbrev pub reset_hash_is : Text → PasswordResetToken → Bool
reset_hash_is token_hash t = text_eq t.token_hash token_hash

unfoldable pub find_valid_reset_token :
    Accounts → (token_hash : Text) (now : ℕ) → Option PasswordResetToken
find_valid_reset_token w token_hash now = elim (find (reset_hash_is token_hash) w.reset_tokens) [
  | none ↦ none
  | some t ↦ if is_some t.used_at || leb t.expires_at now then none else some t
]

-- The background job: no account, no token. The mail is sent after the commit.
unfoldable pub process_password_reset_request :
    Accounts → (email : Text) (id : ℕ) (token_hash : Text) (now : ℕ) → Accounts
process_password_reset_request w email i token_hash now =
    elim (find (email_is (strip email)) w.auth.db.users) [
      | none ↦ w
      | some user ↦ create_password_reset_token w i user.id token_hash now
    ]

pub data PasswordError : Type 0 where
  stale_token wrong_current_password : PasswordError
  policy_violated : List PolicyViolation → PasswordError

abbrev pub with_password : Text → User → User
with_password hashed r = record r { hashed_password = hashed; must_change_password = false }

abbrev pub set_password : Text → ℕ → Db → Db
set_password hashed u db = record db {
  users = update_where (user_at u) (with_password hashed) db.users;
}

abbrev pub token_at : ℕ → PasswordResetToken → Bool
token_at i t = t.id == i

-- The write of the new password, the sweep of the sessions, and after the commit the caches.
abbrev pub password_written :
    Auth → (user_id : ℕ) (hashed : Text) (except : Option ℕ) (now : ℕ) → Auth
password_written w u hashed except now =
    sweep_route (record w { db = set_password hashed u w.db }) u except now

module _ (is_alpha is_digit : ℕ → Bool) (hash_password : Text → Text) where
  unfoldable pub confirm_password_reset :
      Accounts
      → (token_hash new_password : Text) (now : ℕ) → Result PasswordError (Unit {0}) × Accounts
  confirm_password_reset w token_hash new_password now =
      elim (find_valid_reset_token w token_hash now) [
        | none ↦ (err stale_token, w)
        | some t ↦
            let violations = check_password_policy is_alpha is_digit new_password in
            if not (is_empty violations)
            then (err (policy_violated violations), w)
            else elim (get_user w.auth.db t.user_id) [
              | none ↦ (err stale_token, w)
              | some user ↦ (
                ok tt,
                record {
                  auth = password_written w.auth user.id (hash_password new_password) none now;
                  reset_tokens =
                      update_where (token_at t.id) (mark_reset_token_used now) w.reset_tokens;
                },
              )
            ]
      ]

  unfoldable pub change_password :
      (verify_password : Text → Text → Bool)
      → Auth
      → AuthenticatedUser
      → (current_password new_password : Text) (now : ℕ) → Result PasswordError (Unit {0}) × Auth
  change_password verify_password w current current_password new_password now =
      elim (get_user w.db current.user_id) [
        | none ↦ (err wrong_current_password, w)
        | some user ↦
            if not (verify_password current_password user.hashed_password)
            then (err wrong_current_password, w)
            else (let violations = check_password_policy is_alpha is_digit new_password in
                if not (is_empty violations) then (err (policy_violated violations), w) else (
                  ok tt,
                  password_written w user.id (hash_password new_password) (some current.session_id)
                      now,
                ))
      ]
