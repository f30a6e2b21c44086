-- ===== src/Examples/Accounts.antt =====
-- Deactivation, password resets, invitations and the membership routes at concrete inputs.
use chatspace.Prelude.{
  ℕ, ◌≡◌, refl, Bool, true, false, none, some, [], ◌∷◌, ◌&&◌, leb, codes, text_eq, lower, find,
  select, any_row, err, arith,
}
use chatspace.Db.{User, get_user}
use chatspace.Examples.Sample.{sample, user}
use chatspace.Examples.Auth.{session_7, two_sessions}
use chatspace.Messages.Content.{strip, strip_left, strip_right, is_space}
use chatspace.Sessions.{Auth, get_session, require_auth, unauthorized}
use chatspace.Sessions.Steps
use chatspace.Admin.{lock_and_count_active_system_admins, deactivate_user_route}
use chatspace.Admin.Lockout.{
  HasAdmin, after_admin_requests, deactivate, reactivate, workspace_keeps_admin,
}
use chatspace.Admin.Shutout.{deactivated_stays_out}
use chatspace.Passwords.{
  Accounts, new_reset_token, find_valid_reset_token, confirm_password_reset, check_password_policy,
  stale_token,
}
use chatspace.Passwords.ResetTokens.{reset_once}
use chatspace.Invites.{
  Onboarding, Invite, new_invite, find_valid_invite_by_token, register, RegisterRequest,
  stale_invite, is_email_registered, is_username_registered,
}
use chatspace.Invites.Redeemed.{here, redeemed_once}
use chatspace.ChannelRoutes.{
  RouteWorld, leave_channel_route, remove_channel_member_route, join_channel_route,
  add_channel_member_route,
}
use chatspace.ChannelRoutes.Announced.{RemovalAnnounced, AdditionAnnounced, membership_events}

abbrev as_admin : User → User
as_admin r = record r { is_system_admin = true }

abbrev administered : Auth
administered = record two_sessions {
  db = record sample { users = as_admin (user 1) ∷ as_admin (user 2) ∷ user 3 ∷ [] };
}

workspace_keeps_admin_example :
    HasAdmin
      (after_admin_requests
        (deactivate true 1 5000 ∷ deactivate false 2 6000 ∷ reactivate 1 ∷ [])
        administered).db
unfolding lock_and_count_active_system_admins select find
workspace_keeps_admin_example =
    workspace_keeps_admin (deactivate true 1 5000 ∷ deactivate false 2 6000 ∷ reactivate 1 ∷ [])
      administered ((refl, (refl, (refl, tt))), omega arith)

deactivated_stays_out_example :
    (require_auth true
      (deactivate_user_route true administered 1 5000).1
      (some (record { user_id = 1; session_id = 7 }))
      6000).0
    ≡ err unauthorized
unfolding get_user find lock_and_count_active_system_admins select get_session
deactivated_stays_out_example =
    deactivated_stays_out administered administered
      (deactivate_user_route true administered 1 5000).1 1 5000 7 (as_admin (user 1)) session_7
      (λ t. refl) Steps.here refl refl refl refl refl Steps.here true 1 6000

abbrev is_letter : ℕ → Bool
is_letter c = leb b'a' c && leb c b'z'

abbrev is_figure : ℕ → Bool
is_figure c = leb b'0' c && leb c b'9'

abbrev one_token : Accounts
one_token = record {
  auth = two_sessions;
  reset_tokens = new_reset_token 70 1 (codes "t") 1000 ∷ [];
}

reset_once_example :
    let v =
      (confirm_password_reset is_letter is_figure
        (λ p. p)
        one_token
        (codes "t")
        (codes "abcde1")
        2000).1 in
    confirm_password_reset is_letter is_figure (λ p. p) v (codes "t") (codes "abcde2") 3000
    ≡ (err stale_token, v)
unfolding confirm_password_reset find_valid_reset_token find text_eq check_password_policy any_row
    is_space get_user
reset_once_example =
    reset_once is_letter is_figure (λ p. p) one_token (codes "t") (codes "abcde1") 2000 refl
      (codes "abcde2") 3000

abbrev invite_for_dan : Invite
invite_for_dan = new_invite 40 (codes "dan@x") (codes "i") 1 1000

abbrev invited : Onboarding
invited = record { db = sample; invites = invite_for_dan ∷ [] }

abbrev dan : RegisterRequest
dan = record {
  username = codes "dan";
  first_name = codes "Dan";
  last_name = codes "D";
  password = codes "abcde1";
  avatar_url = none;
}

abbrev registered : Onboarding
registered =
    (register is_letter is_figure (λ p. p) (λ s. s) invited sample 4 (codes "i") dan 2000).1

abbrev dan_user : User
dan_user = record {
  id = 4;
  username = codes "dan";
  email = codes "dan@x";
  hashed_password = codes "abcde1";
  first_name = codes "Dan";
  last_name = codes "D";
  avatar_url = none;
  is_active = true;
  is_system_admin = false;
  must_change_password = false;
  email_verified = true;
  last_seen = none;
  created_at = 2000;
}

redeemed_once_example :
    (register is_letter is_figure
      (λ p. p)
      (λ s. s)
      registered
      registered.db
      5
      (codes "i")
      dan
      3000).0
    ≡ err stale_invite
unfolding register find_valid_invite_by_token find text_eq lower check_password_policy any_row
    is_space strip strip_left strip_right is_email_registered is_username_registered
redeemed_once_example =
    redeemed_once is_letter is_figure (λ p. p) (λ s. s) invited sample 4 (codes "i") dan 2000
      dan_user invite_for_dan refl refl refl registered here registered.db 5 dan 3000

abbrev routed : RouteWorld
routed = record { db = sample; published = [] }

membership_events_example :
    RemovalAnnounced routed (leave_channel_route true routed sample 10 2) 10 2
    × RemovalAnnounced routed (remove_channel_member_route true routed 10 1 2).1 10 2
    × AdditionAnnounced routed sample (join_channel_route true routed sample 900 10 2).1 10 2
    × AdditionAnnounced routed sample
        (add_channel_member_route true routed sample 900 10 1 2 (codes "member")).1
        10
        2
membership_events_example = membership_events routed sample 900 10 1 2 (codes "member")
