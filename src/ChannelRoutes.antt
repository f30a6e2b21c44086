-- ===== src/ChannelRoutes.antt =====
-- The routes of backend/app/api/channels.py that change memberships, with the events that
-- backend/app/services/channel_events.py publishes after the commit.
-- A refusal rolls the transaction back; `later` is what others committed before an INSERT runs.
pub mod Announced
use chatspace.Prelude.{
  ℕ, Bool, true, false, Option, none, some, List, [], ◌∷◌, ◌++◌, Text, text_eq, if◌then◌else◌, not,
  codes, Result, ok, err,
}
use chatspace.Db.{Db, Channel, ChannelMember, Role, member, admin, Violation}
use chatspace.Messages.Send.{Topic, user_topic}
use chatspace.Members.{
  JoinOutcome, JoinResult, joined, already_member, private, not_found, join_public_channel,
  LeaveOutcome, left, not_member, leave_channel,
}
use chatspace.MemberAdmin.{
  AddMemberOutcome, AddMemberResult, add_channel_member, ChangeRoleOutcome, change_member_role,
  RemoveMemberOutcome, remove_channel_member,
}
use chatspace.Channels.{is_valid_channel_name, create_channel}

-- The envelopes, with the channel's summary.
pub data ChannelEvent : Type 0 where
  member_added : Channel → (member_count user_id : ℕ) → Role → (joined_at : ℕ) → ChannelEvent
  member_removed : (channel_id user_id : ℕ) → ChannelEvent

pub record RouteWorld : Type 0 where
  pub db : Db
  pub published : List (Topic × ChannelEvent)

pub data RouteError : Type 0 where
  not_found_404 forbidden_403 conflict_409 unprocessable_422 : RouteError
  integrity_500 : Violation → RouteError
  assertion_500 : RouteError

-- Fails open: without Redis the event is lost.
abbrev pub publish_channel_event :
    (redis_answers : Bool) → Topic → ChannelEvent → RouteWorld → RouteWorld
publish_channel_event false topic e w = w
publish_channel_event true topic e w = record w { published = w.published ++ ((topic, e) ∷ []) }

abbrev pub publish_member_added :
    (redis_answers : Bool)
    → Channel
    → (user_id : ℕ) → ChannelMember
    → (member_count : ℕ) → RouteWorld
    → RouteWorld
publish_member_added redis_answers ch u m count w =
    publish_channel_event redis_answers (user_topic u) (member_added ch count u m.role m.joined_at)
      w

abbrev pub publish_member_removed :
    (redis_answers : Bool) → (channel_id user_id : ℕ) → RouteWorld → RouteWorld
publish_member_removed redis_answers c u w =
    publish_channel_event redis_answers (user_topic u) (member_removed c u) w

abbrev pub committed : Db → RouteWorld → RouteWorld
committed db w = record w { db = db }

-- The assertions after the commit on the membership, the channel and the count.
abbrev pub answer_added :
    (redis_answers : Bool)
    → (user_id : ℕ) → Option ChannelMember
    → Option Channel
    → Option ℕ
    → RouteWorld
    → Result RouteError ChannelMember × RouteWorld
answer_added redis_answers u (some m) (some ch) (some count) w =
    (ok m, publish_member_added redis_answers ch u m count w)
answer_added redis_answers u _ _ _ w = (err assertion_500, w)

abbrev pub answer_membership :
    Option ChannelMember → RouteWorld → Result RouteError ChannelMember × RouteWorld
answer_membership none w = (err assertion_500, w)
answer_membership (some m) w = (ok m, w)

unfoldable pub create_channel_route :
    RouteWorld
    → (new_id now : ℕ) (name : Text) (is_private : Bool) (user_id : ℕ)
    → Result RouteError Channel × RouteWorld
create_channel_route w new_id now name is_private u =
    if not (is_valid_channel_name name)
    then (err unprocessable_422, w)
    else elim (create_channel w.db new_id now name is_private u) [
      | err Violation.unique_violation ↦ (err conflict_409, w)
      | err Violation.check_violation ↦ (err (integrity_500 Violation.check_violation), w)
      | err Violation.data_error ↦ (err (integrity_500 Violation.data_error), w)
      | err Violation.foreign_key_violation ↦
          (err (integrity_500 Violation.foreign_key_violation), w)
      | ok created ↦ (ok created.0, committed created.1 w)
    ]

abbrev pub answer_join :
    (redis_answers : Bool)
    → (later : Db) (user_id : ℕ) → Db × Result Violation JoinResult
    → RouteWorld
    → Result RouteError ChannelMember × RouteWorld
answer_join redis_answers later u (db, err v) w = (err (integrity_500 v), committed later w)
answer_join redis_answers later u (db, ok r) w = elim r.outcome [
  | not_found ↦ (err not_found_404, w)
  | private ↦ (err forbidden_403, w)
  | already_member ↦ answer_membership r.membership (committed db w)
  | joined ↦ answer_added redis_answers u r.membership r.channel r.member_count (committed db w)
]

unfoldable pub join_channel_route :
    (redis_answers : Bool)
    → RouteWorld
    → (later : Db) (now channel_id user_id : ℕ) → Result RouteError ChannelMember × RouteWorld
join_channel_route redis_answers w later now c u =
    answer_join redis_answers later u (join_public_channel w.db later now c u) w

unfoldable pub leave_channel_route :
    (redis_answers : Bool) → RouteWorld → (later : Db) (channel_id user_id : ℕ) → RouteWorld
leave_channel_route redis_answers w later c u =
    let (db, outcome) = leave_channel w.db later c u in
    elim outcome [
      | not_member ↦ w
      | left ↦ publish_member_removed redis_answers c u (committed db w)
    ]

-- The two wire values of a role.
unfoldable pub parse_role : Text → Option Role
parse_role s =
    if text_eq s (codes "member")
    then some member
    else if text_eq s (codes "admin")
    then some admin
    else none

abbrev pub answer_add :
    (redis_answers : Bool)
    → (later : Db) (target_user_id : ℕ) → Db × Result Violation AddMemberResult
    → RouteWorld
    → Result RouteError ChannelMember × RouteWorld
answer_add redis_answers later t (db, err v) w = (err (integrity_500 v), committed later w)
answer_add redis_answers later t (db, ok r) w = elim r.outcome [
  | AddMemberOutcome.channel_not_found ↦ (err not_found_404, w)
  | AddMemberOutcome.target_user_not_found ↦ (err not_found_404, w)
  | AddMemberOutcome.caller_not_admin ↦ (err forbidden_403, w)
  | AddMemberOutcome.zero_admin ↦ (err conflict_409, w)
  | AddMemberOutcome.already_member ↦ answer_membership r.membership (committed db w)
  | AddMemberOutcome.added ↦
      answer_added redis_answers t r.membership r.channel r.member_count (committed db w)
]

unfoldable pub add_channel_member_route :
    (redis_answers : Bool)
    → RouteWorld
    → (later : Db) (now channel_id caller_id target_user_id : ℕ) (role : Text)
    → Result RouteError ChannelMember × RouteWorld
add_channel_member_route redis_answers w later now c caller t role = elim (parse_role role) [
  | none ↦ (err unprocessable_422, w)
  | some role' ↦
      answer_add redis_answers later t (add_channel_member w.db later now c caller t role') w
]

unfoldable pub update_channel_member_role_route :
    RouteWorld
    → (channel_id caller_id user_id : ℕ) (role : Text)
    → Result RouteError ChannelMember × RouteWorld
update_channel_member_role_route w c caller u role = elim (parse_role role) [
  | none ↦ (err unprocessable_422, w)
  | some role' ↦
      let (db, r) = change_member_role w.db c caller u role' in
      elim r.outcome [
        | ChangeRoleOutcome.channel_not_found ↦ (err not_found_404, w)
        | ChangeRoleOutcome.target_not_member ↦ (err not_found_404, w)
        | ChangeRoleOutcome.caller_not_admin ↦ (err forbidden_403, w)
        | ChangeRoleOutcome.zero_admin ↦ (err conflict_409, w)
        | ChangeRoleOutcome.no_op ↦ answer_membership r.membership (committed db w)
        | ChangeRoleOutcome.updated ↦ answer_membership r.membership (committed db w)
      ]
]

unfoldable pub remove_channel_member_route :
    (redis_answers : Bool)
    → RouteWorld
    → (channel_id caller_id user_id : ℕ) → Result RouteError (Unit {0}) × RouteWorld
remove_channel_member_route redis_answers w c caller u =
    let (db, outcome) = remove_channel_member w.db c caller u in
    elim outcome [
      | RemoveMemberOutcome.channel_not_found ↦ (err not_found_404, w)
      | RemoveMemberOutcome.target_user_not_found ↦ (err not_found_404, w)
      | RemoveMemberOutcome.caller_not_admin ↦ (err forbidden_403, w)
      | RemoveMemberOutcome.zero_admin ↦ (err conflict_409, w)
      | RemoveMemberOutcome.not_member ↦ (ok tt, committed db w)
      | RemoveMemberOutcome.removed ↦
          (ok tt, publish_member_removed redis_answers c u (committed db w))
    ]
