-- ===== src/MemberAdmin/Reachable.antt =====
-- Every sequence of the operations on channels and memberships, with interference at the INSERTs and at
-- a leave.
use chatspace.Prelude.{ℕ, ◌≡◌, Bool, Text, ok, none}
use chatspace.Db.{Db, Role, Channel}
use chatspace.Db.WellFormed.{IsWellFormed}
use chatspace.Channels.{create_channel}
use chatspace.Members.{join_public_channel, leave_channel, run_sole_admin_succession}
use chatspace.MemberAdmin.{add_channel_member, change_member_role, remove_channel_member}
use chatspace.MemberAdmin.Preserve.{
  join_public_channel-IsWellFormed, leave_channel-IsWellFormed, add_channel_member-IsWellFormed,
  change_member_role-IsWellFormed, remove_channel_member-IsWellFormed, create_channel-IsWellFormed,
  run_sole_admin_succession-IsWellFormed,
}

-- The tables that the operations lead to. An INSERT or a leave finds any of them as `later`.
pub data Reach (start : Db) : Db → Type 0 where
  here : Reach start start
  create :
      {db db' : Db} (new_id now : ℕ) (name : Text) (is_private : Bool) (creator : ℕ) (ch : Channel)
      → Reach start db
      → create_channel db new_id now name is_private creator ≡ ok (ch, db')
      → Reach start db'
  join :
      {db later : Db} (now c u : ℕ)
      → Reach start db
      → Reach start later
      → Reach start (join_public_channel db later now c u).0
  leave :
      {db later : Db} (c u : ℕ)
      → Reach start db
      → Reach start later
      → Reach start (leave_channel db later c u).0
  add :
      {db later : Db} (now c caller t : ℕ) (role : Role)
      → Reach start db
      → Reach start later
      → Reach start (add_channel_member db later now c caller t role).0
  change_role :
      {db : Db} (c caller t : ℕ) (role : Role)
      → Reach start db
      → Reach start (change_member_role db c caller t role).0
  remove :
      {db : Db} (c caller t : ℕ)
      → Reach start db
      → Reach start (remove_channel_member db c caller t).0
  succeed : {db : Db} (u : ℕ) → Reach start db → Reach start (run_sole_admin_succession db u none).0

-- From well-formed tables, every sequence of creations, joins, leaves, adds, role changes,
-- removals and successions of departing users leads to well-formed tables, where an INSERT may
-- find any tables that such a sequence leads to.
pub reachable-IsWellFormed : (start db : Db) → IsWellFormed start → Reach start db → IsWellFormed db
reachable-IsWellFormed start db w here = w
reachable-IsWellFormed start db' w (create {db = db} new_id now name is_private creator ch r e) =
    create_channel-IsWellFormed db db' new_id now name is_private creator ch
      (reachable-IsWellFormed start db w r) e
reachable-IsWellFormed start _ w (join {db = db} {later = later} now c u r l) =
    join_public_channel-IsWellFormed db later now c u (reachable-IsWellFormed start db w r)
      (reachable-IsWellFormed start later w l)
reachable-IsWellFormed start _ w (leave {db = db} {later = later} c u r l) =
    leave_channel-IsWellFormed db later c u (reachable-IsWellFormed start db w r)
      (reachable-IsWellFormed start later w l)
reachable-IsWellFormed start _ w (add {db = db} {later = later} now c caller t role r l) =
    add_channel_member-IsWellFormed db later now c caller t role
      (reachable-IsWellFormed start db w r) (reachable-IsWellFormed start later w l)
reachable-IsWellFormed start _ w (change_role {db = db} c caller t role r) =
    change_member_role-IsWellFormed db c caller t role (reachable-IsWellFormed start db w r)
reachable-IsWellFormed start _ w (remove {db = db} c caller t r) =
    remove_channel_member-IsWellFormed db c caller t (reachable-IsWellFormed start db w r)
reachable-IsWellFormed start _ w (succeed {db = db} u r) =
    run_sole_admin_succession-IsWellFormed db u none (reachable-IsWellFormed start db w r)
