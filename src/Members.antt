-- ===== src/Members.antt =====
-- Channel membership: join, leave, add, change role, remove and the sole-admin succession of
-- backend/app/services/channels.py. An operation returns the tables that it leaves and its outcome.
-- Where two sessions can race for one membership, `db` is what the checks read and `later` what is
-- committed when the INSERT or the DELETE runs; a session that runs alone has one for both.
pub mod Rows
pub mod Succession
pub mod Lookup
pub mod Departure
pub mod Leave
use chatspace.Prelude.{
  ℕ, Bool, true, false, Option, none, some, List, [], ◌∷◌, ◌&&◌, not, ◌==◌, leb, length, map, take,
  if◌then◌else◌, select, update_where, delete_where, order_by, Result, ok, err,
}
use chatspace.Db.{
  Db, Channel, ChannelMember, Role, member, admin, is_admin, Violation, get_channel, get_member,
  insert_member, member_at,
}
use chatspace.Channels.{count_channel_members}

abbrev pub admin_of : ℕ → ChannelMember → Bool
admin_of c r = r.channel_id == c && is_admin r.role

abbrev pub by_user : ChannelMember → ChannelMember → Bool
by_user a b = leb a.user_id b.user_id

abbrev pub by_joined : ChannelMember → ChannelMember → Bool
by_joined a b = leb a.joined_at b.joined_at

abbrev pub user_id_of : ChannelMember → ℕ
user_id_of r = r.user_id

abbrev pub is_id : ℕ → ℕ → Bool
is_id u x = x == u

-- `SELECT user_id … WHERE role = 'admin' ORDER BY user_id FOR UPDATE`.
unfoldable pub lock_channel_admin_ids : Db → ℕ → List ℕ
lock_channel_admin_ids db c = map user_id_of (order_by by_user (select (admin_of c) db.members))

abbrev pub other_member : ℕ → ℕ → ChannelMember → Bool
other_member c departing r = r.channel_id == c && not (r.user_id == departing)

abbrev pub make_admin : ChannelMember → ChannelMember
make_admin r = record r { role = admin }

-- `ORDER BY joined_at ASC LIMIT 1`; rows with one `joined_at` keep the table's order.
unfoldable pub successor : Db → (c departing : ℕ) → List ChannelMember
successor db c departing =
    take 1 (order_by by_joined (select (other_member c departing) db.members))

unfoldable pub promote : Db → ℕ → List ChannelMember → Db × Bool
promote db c [] = (db, false)
promote db c (s ∷ _) =
    (record db { members = update_where (member_at c s.user_id) make_admin db.members }, true)

-- One round of the loop of `run_sole_admin_succession`.
unfoldable pub succeed_in : ℕ → Db → ℕ → Db × Bool
unfolding promote successor lock_channel_admin_ids
succeed_in departing db c =
    if length (lock_channel_admin_ids db c) == 1
    then promote db c (successor db c departing)
    else (db, false)

unfoldable pub succession_loop : ℕ → Db → List ℕ → Db × List ℕ
succession_loop departing db [] = (db, [])
succession_loop departing db (c ∷ cs) =
    let (db', promoted) = succeed_in departing db c in
    let (db'', ids) = succession_loop departing db' cs in (db'', if promoted then c ∷ ids else ids)

abbrev pub admin_rows_of : ℕ → ChannelMember → Bool
admin_rows_of u r = r.user_id == u && is_admin r.role

abbrev pub in_scope : Option ℕ → ChannelMember → Bool
in_scope none r = true
in_scope (some c) r = r.channel_id == c

unfoldable pub run_sole_admin_succession : Db → ℕ → Option ℕ → Db × List ℕ
run_sole_admin_succession db departing scope = succession_loop departing db (
    map (λ r. r.channel_id)
      (select (λ r. admin_rows_of departing r && in_scope scope r) db.members))

abbrev pub remove_row : Db → (c u : ℕ) → Db
remove_row db c u = record db { members = delete_where (member_at c u) db.members }

-- Where the departing member is an admin, the succession in this one channel runs first.
unfoldable pub depart : Db → (c u : ℕ) → Role → Db
depart db c u role =
    remove_row (if is_admin role then (run_sole_admin_succession db u (some c)).0 else db) c u

pub data JoinOutcome : Type 0 where
  joined already_member private not_found : JoinOutcome

pub record JoinResult : Type 0 where
  pub outcome : JoinOutcome
  pub membership : Option ChannelMember
  pub channel : Option Channel
  pub member_count : Option ℕ

unfoldable pub join_public_channel :
    (db later : Db) (now channel_id user_id : ℕ) → Db × Result Violation JoinResult
join_public_channel db later now channel_id user_id = elim (get_channel db channel_id) [
  | none ↦ (
    db,
    ok (record { outcome = not_found; membership = none; channel = none; member_count = none }),
  )
  | some ch ↦
      let answer : JoinOutcome → Option ChannelMember → Option ℕ → Result Violation JoinResult =
        λ o m n. ok (record { outcome = o; membership = m; channel = some ch; member_count = n }) in
      elim (get_member db channel_id user_id) [
        | some m ↦ (db, answer already_member (some m) none)
        | none ↦
            let row : ChannelMember = record {
              channel_id = channel_id;
              user_id = user_id;
              role = member;
              joined_at = now;
            } in
            if ch.is_private
            then (db, answer private none none)
            else elim (insert_member later row) [
              | ok db' ↦
                  (db', answer joined (some row) (some (count_channel_members db' channel_id)))
              | err v ↦ elim (get_member later channel_id user_id) [
                | some m ↦ (later, answer already_member (some m) none)
                | none ↦ (later, err v)
              ]
            ]
      ]
]

pub data LeaveOutcome : Type 0 where
  left not_member : LeaveOutcome

-- `db` is what the reads of the membership see; a plain member's row is not locked, and `later` is
-- what is committed when the succession and the DELETE run.
unfoldable pub leave_channel : (db later : Db) (channel_id user_id : ℕ) → Db × LeaveOutcome
leave_channel db later channel_id user_id = elim (get_channel db channel_id) [
  | none ↦ (db, not_member)
  | some _ ↦ elim (get_member db channel_id user_id) [
    | none ↦ (db, not_member)
    | some m ↦ (depart later channel_id user_id m.role, left)
  ]
]
