-- ===== src/MemberAdmin.antt =====
-- What a channel's admins do to its membership: `add_channel_member`, `change_member_role`,
-- `remove_channel_member` and `list_channel_members` of backend/app/services/channels.py.
-- As in Members, `later` is what is committed when an INSERT runs.
pub mod Preserve
pub mod Authority
pub mod Effects
pub mod Reachable
use chatspace.Prelude.{
  ℕ, Bool, Option, none, some, List, [], ◌∷◌, ◌&&◌, ◌||◌, ◌==◌, ltb, leb, take, drop, if◌then◌else◌,
  select, update_where, any_row, order_by, Result, ok, err,
}
use chatspace.Db.{
  Db, Channel, ChannelMember, Role, role_eq, User, Violation, get_channel, get_member, get_user,
  insert_member, member_at,
}
use chatspace.Channels.{count_channel_members, in_channel}
use chatspace.Members.{is_id, lock_channel_admin_ids, depart}

-- The two refusals that every mutation of an admin makes from the locked admin ids.
pub data Gate : Type 0 where
  no_channel no_admins not_admin open_to : Gate

unfoldable pub admin_gate : Db → (channel_id caller_id : ℕ) → Gate
unfolding lock_channel_admin_ids
admin_gate db channel_id caller_id = elim (get_channel db channel_id) [
  | none ↦ no_channel
  | some _ ↦ elim (lock_channel_admin_ids db channel_id) [
    | [] ↦ no_admins
    | a ∷ ids ↦ if any_row (is_id caller_id) (a ∷ ids) then open_to else not_admin
  ]
]

pub data AddMemberOutcome : Type 0 where
  added already_member channel_not_found target_user_not_found caller_not_admin zero_admin :
      AddMemberOutcome

pub record AddMemberResult : Type 0 where
  pub outcome : AddMemberOutcome
  pub membership : Option ChannelMember
  pub channel : Option Channel
  pub member_count : Option ℕ

abbrev refused : AddMemberOutcome → Result Violation AddMemberResult
refused o = ok (record { outcome = o; membership = none; channel = none; member_count = none })

-- From the target's existence on, the caller being an admin.
unfoldable pub add_target :
    (db later : Db) (now channel_id target_user_id : ℕ)
    → Role
    → Db × Result Violation AddMemberResult
add_target db later now channel_id target role = elim (get_user db target) [
  | none ↦ (db, refused AddMemberOutcome.target_user_not_found)
  | some _ ↦
      let channel = get_channel db channel_id in
      let answer : AddMemberOutcome
          → Option ChannelMember
          → Option ℕ
          → Result Violation AddMemberResult =
        λ o m n. ok (record { outcome = o; membership = m; channel = channel; member_count = n }) in
      elim (get_member db channel_id target) [
        | some m ↦ (db, answer AddMemberOutcome.already_member (some m) none)
        | none ↦
            let row : ChannelMember = record {
              channel_id = channel_id;
              user_id = target;
              role = role;
              joined_at = now;
            } in
            elim (insert_member later row) [
              | ok db' ↦ (
                db',
                answer AddMemberOutcome.added (some row)
                    (some (count_channel_members db' channel_id)),
              )
              | err v ↦ elim (get_member later channel_id target) [
                | some m ↦ (later, answer AddMemberOutcome.already_member (some m) none)
                | none ↦ (later, err v)
              ]
            ]
      ]
]

unfoldable pub add_channel_member :
    (db later : Db) (now channel_id caller_id target_user_id : ℕ)
    → Role
    → Db × Result Violation AddMemberResult
unfolding admin_gate add_target
add_channel_member db later now channel_id caller_id target role =
    elim (admin_gate db channel_id caller_id) [
      | no_channel ↦ (db, refused AddMemberOutcome.channel_not_found)
      | no_admins ↦ (db, refused AddMemberOutcome.zero_admin)
      | not_admin ↦ (db, refused AddMemberOutcome.caller_not_admin)
      | open_to ↦ add_target db later now channel_id target role
    ]

pub data ChangeRoleOutcome : Type 0 where
  updated no_op channel_not_found target_not_member caller_not_admin zero_admin : ChangeRoleOutcome

pub record ChangeRoleResult : Type 0 where
  pub outcome : ChangeRoleOutcome
  pub membership : Option ChannelMember

abbrev pub with_role : Role → ChannelMember → ChannelMember
with_role role r = record r { role = role }

unfoldable pub change_member_role :
    Db → (channel_id caller_id target_user_id : ℕ) → Role → Db × ChangeRoleResult
unfolding admin_gate
change_member_role db channel_id caller_id target role = elim (admin_gate db channel_id caller_id) [
  | no_channel ↦ (db, record { outcome = ChangeRoleOutcome.channel_not_found; membership = none })
  | no_admins ↦ (db, record { outcome = ChangeRoleOutcome.zero_admin; membership = none })
  | not_admin ↦ (db, record { outcome = ChangeRoleOutcome.caller_not_admin; membership = none })
  | open_to ↦ elim (get_member db channel_id target) [
    | none ↦ (db, record { outcome = target_not_member; membership = none })
    | some m ↦
        if role_eq m.role role then (db, record { outcome = no_op; membership = some m }) else (
          record db {
            members = update_where (member_at channel_id target) (with_role role) db.members;
          },
          record { outcome = updated; membership = some (with_role role m) },
        )
  ]
]

pub data RemoveMemberOutcome : Type 0 where
  removed not_member channel_not_found target_user_not_found caller_not_admin zero_admin :
      RemoveMemberOutcome

unfoldable pub remove_channel_member :
    Db → (channel_id caller_id target_user_id : ℕ) → Db × RemoveMemberOutcome
unfolding admin_gate
remove_channel_member db channel_id caller_id target = elim (admin_gate db channel_id caller_id) [
  | no_channel ↦ (db, RemoveMemberOutcome.channel_not_found)
  | no_admins ↦ (db, RemoveMemberOutcome.zero_admin)
  | not_admin ↦ (db, RemoveMemberOutcome.caller_not_admin)
  | open_to ↦ elim (get_user db target) [
    | none ↦ (db, RemoveMemberOutcome.target_user_not_found)
    | some _ ↦ elim (get_member db channel_id target) [
      | none ↦ (db, RemoveMemberOutcome.not_member)
      | some m ↦ (depart db channel_id target m.role, RemoveMemberOutcome.removed)
    ]
  ]
]

pub record MemberRow : Type 0 where
  pub user : User
  pub membership : ChannelMember

pub record MembersPage : Type 0 where
  pub rows : List MemberRow
  pub total : ℕ

-- `(joined_at, user_id)` ascending.
abbrev pub joined_before : ChannelMember → ChannelMember → Bool
joined_before a b =
    ltb a.joined_at b.joined_at || a.joined_at == b.joined_at && leb a.user_id b.user_id

-- The join with `users`: a membership whose user row is missing gives no row.
unfoldable pub join_users : Db → List ChannelMember → List MemberRow
join_users db [] = []
join_users db (m ∷ ms) =
    let rest = join_users db ms in
    elim (get_user db m.user_id) [
      | none ↦ rest
      | some u ↦ record { user = u; membership = m } ∷ rest
    ]

unfoldable pub list_channel_members : Db → (channel_id limit offset : ℕ) → MembersPage
unfolding join_users count_channel_members
list_channel_members db channel_id limit offset = record {
  rows = take limit (
      drop offset
        (join_users db (order_by joined_before (select (in_channel channel_id) db.members))));
  total = count_channel_members db channel_id;
}
