-- ===== src/Invites.antt =====
-- Invitations and the registration that redeems one: backend/app/services/invites.py,
-- backend/app/services/registration.py, the routes of backend/app/api/invites.py and `register` of
-- backend/app/api/auth.py.
-- A token is given by its hash; NFC, the password hash and the e-mail format are arguments.
pub mod Effects
pub mod Redeemed
use chatspace.Prelude.{
  ℕ, ◌+◌, ◌*◌, Bool, true, false, Option, none, some, List, [], ◌∷◌, ◌++◌, ◌&&◌, ◌||◌, not, ◌==◌,
  ltb, leb, if◌then◌else◌, length, find, any_row, update_where, Text, text_eq, lower, Result, ok,
  err,
}
use chatspace.Db.{Db, User, is_some}
use chatspace.Messages.Content.{strip, is_empty}
use chatspace.Sessions.{email_is}
use chatspace.Passwords.{PolicyViolation, check_password_policy}

pub data InviteStatus : Type 0 where
  pending accepted revoked : InviteStatus

abbrev pub is_pending : InviteStatus → Bool
is_pending pending = true
is_pending _ = false

pub record Invite : Type 0 where
  pub id : ℕ
  pub email : Text
  pub token_hash : Text
  pub status : InviteStatus
  pub created_by : ℕ
  pub expires_at : ℕ
  pub accepted_at : Option ℕ
  pub created_at : ℕ

pub record Onboarding : Type 0 where
  pub db : Db
  pub invites : List Invite

-- Seven days.
abbrev pub invite_token_ttl : ℕ
invite_token_ttl = 604800000000

abbrev pub invite_at : ℕ → Invite → Bool
invite_at i r = r.id == i

abbrev pub invite_hash_is : Text → Invite → Bool
invite_hash_is token_hash r = text_eq r.token_hash token_hash

unfoldable pub is_email_registered : Db → Text → Bool
is_email_registered db email = any_row (email_is (strip email)) db.users

abbrev pub username_is : Text → User → Bool
username_is username r = text_eq (lower r.username) (lower (strip username))

unfoldable pub is_username_registered : Db → Text → Bool
is_username_registered db username = any_row (username_is username) db.users

abbrev pub new_invite : (id : ℕ) (email token_hash : Text) (created_by now : ℕ) → Invite
new_invite i email token_hash admin now = record {
  id = i;
  email = email;
  token_hash = token_hash;
  status = pending;
  created_by = admin;
  expires_at = now + invite_token_ttl;
  accepted_at = none;
  created_at = now;
}

abbrev pub create_invite : Onboarding → Invite → Onboarding
create_invite w r = record w { invites = w.invites ++ (r ∷ []) }

unfoldable pub find_valid_invite_by_token :
    Onboarding → (token_hash : Text) (now : ℕ) → Option Invite
find_valid_invite_by_token w token_hash now = elim (find (invite_hash_is token_hash) w.invites) [
  | none ↦ none
  | some r ↦ if not (is_pending r.status) || leb r.expires_at now then none else some r
]

abbrev pub rotate_invite_token : (token_hash : Text) (now : ℕ) → Invite → Invite
rotate_invite_token token_hash now r = record r {
  token_hash = token_hash;
  expires_at = now + invite_token_ttl;
}

abbrev pub revoke_invite : Invite → Invite
revoke_invite r = record r { status = revoked }

abbrev pub redeem_invite : (now : ℕ) → Invite → Invite
redeem_invite now r = record r { status = accepted; accepted_at = some now }

pub data InviteError : Type 0 where
  invalid_email already_registered email_unreachable invite_not_found not_pending already_used :
      InviteError
  stale_invite duplicate_identity : InviteError
  policy_violated : List PolicyViolation → InviteError
  invalid_fields : (username first_name last_name : Bool) → InviteError

-- The mail goes out before the commit; where it fails the invite is rolled back.
unfoldable pub issue_invite :
    (is_valid_email_format : Text → Bool) (mail_delivers : Bool)
    → Onboarding
    → (id : ℕ) (email token_hash : Text) (admin now : ℕ) → Result InviteError Invite × Onboarding
issue_invite is_valid_email_format mail_delivers w i raw_email token_hash admin now =
    let email = strip raw_email in
    let r = new_invite i email token_hash admin now in
    if not (is_valid_email_format email)
    then (err invalid_email, w)
    else if is_email_registered w.db email
    then (err already_registered, w)
    else if not mail_delivers
    then (err email_unreachable, w)
    else (ok r, create_invite w r)

unfoldable pub resend_invite :
    (mail_delivers : Bool)
    → Onboarding
    → (id : ℕ) (token_hash : Text) (now : ℕ) → Result InviteError Invite × Onboarding
resend_invite mail_delivers w i token_hash now = elim (find (invite_at i) w.invites) [
  | none ↦ (err invite_not_found, w)
  | some r ↦
      if not (is_pending r.status)
      then (err not_pending, w)
      else if not mail_delivers
      then (err email_unreachable, w)
      else (
        ok (rotate_invite_token token_hash now r),
        record w {
          invites = update_where (invite_at i) (rotate_invite_token token_hash now) w.invites;
        },
      )
]

unfoldable pub revoke_invite_route :
    Onboarding → (id : ℕ) → Result InviteError (Unit {0}) × Onboarding
revoke_invite_route w i = elim (find (invite_at i) w.invites) [
  | none ↦ (err invite_not_found, w)
  | some r ↦ elim r.status [
    | accepted ↦ (err already_used, w)
    | _ ↦ (ok tt, record w { invites = update_where (invite_at i) revoke_invite w.invites })
  ]
]

pub record RegisterRequest : Type 0 where
  pub username : Text
  pub first_name : Text
  pub last_name : Text
  pub password : Text
  pub avatar_url : Option Text

abbrev pub has_username_length : Text → Bool
has_username_length s = leb 1 (length s) && leb (length s) 32

abbrev pub build_registered_user :
    (id : ℕ) → Invite → (username : Text) (hashed : Text) → RegisterRequest → (now : ℕ) → User
build_registered_user i invite username hashed body now = record {
  id = i;
  username = username;
  email = invite.email;
  hashed_password = hashed;
  first_name = body.first_name;
  last_name = body.last_name;
  avatar_url = body.avatar_url;
  is_active = true;
  is_system_admin = false;
  must_change_password = false;
  email_verified = true;
  last_seen = none;
  created_at = now;
}

-- The unique indexes on `lower(username)` and `lower(email)`.
abbrev pub same_identity : User → User → Bool
same_identity a b =
    text_eq (lower b.username) (lower a.username) || text_eq (lower b.email) (lower a.email)

module _ (is_alpha is_digit : ℕ → Bool) (hash_password nfc : Text → Text) where
  -- `later` are the tables at the flush, when others registered after the first checks.
  unfoldable pub register :
      Onboarding
      → (later : Db) → (id : ℕ) (token_hash : Text) → RegisterRequest
      → (now : ℕ) → Result InviteError User × Onboarding
  register w later i token_hash body now = elim (find_valid_invite_by_token w token_hash now) [
    | none ↦ (err stale_invite, w)
    | some invite ↦
        let violations = check_password_policy is_alpha is_digit body.password in
        let username = nfc (strip body.username) in
        let w' = record w { db = later } in
        let user = build_registered_user i invite username (hash_password body.password) body now in
        let bad_username = not (has_username_length username) in
        let bad_first = is_empty (strip body.first_name) in
        let bad_last = is_empty (strip body.last_name) in
        if not (is_empty violations)
        then (err (policy_violated violations), w)
        else if bad_username || (bad_first || bad_last)
        then (err (invalid_fields bad_username bad_first bad_last), w)
        else if is_username_registered w.db username || is_email_registered w.db invite.email
        then (err duplicate_identity, w)
        else if any_row (same_identity user) later.users
        then (err duplicate_identity, w')
        else (
          ok user,
          record {
            db = record later { users = later.users ++ (user ∷ []) };
            invites = update_where (invite_at invite.id) (redeem_invite now) w.invites;
          },
        )
  ]
