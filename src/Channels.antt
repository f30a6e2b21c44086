-- ===== src/Channels.antt =====
-- Channels: create, point read and the two lists of backend/app/services/channels.py
-- (`create_channel`, `get_channel_view`, `list_public_channels`), and the name rule.
-- `generate_id` and the transaction's `now()` are arguments. The lists join and count in SQL; here
-- the same joins are written over the tables.
pub mod Browse
pub mod Names
use chatspace.Prelude.{
  ℕ, Bool, false, Option, none, some, List, [], ◌∷◌, ◌&&◌, ◌||◌, not, ◌==◌, leb, ltb, length, map,
  take, drop, if◌then◌else◌, select, order_by, Text, before_final_newline, holds_of, Result, ok,
  ◌>>=◌,
}
use chatspace.Db.{
  Db, Channel, ChannelMember, Role, admin, Violation, get_channel, get_member, insert_channel,
  insert_member, name_check, is_some,
}

-- `CHANNEL_NAME_RE.match(name)`.
unfoldable pub is_valid_channel_name : Text → Bool
unfolding before_final_newline
is_valid_channel_name name = name_check name || holds_of name_check (before_final_newline name)

-- Both rows go in, or the first violation is raised and the transaction is rolled back.
unfoldable pub create_channel :
    Db
    → (new_id now : ℕ) (name : Text) (is_private : Bool) (created_by : ℕ)
    → Result Violation (Channel × Db)
create_channel db new_id now name is_private created_by =
    let channel : Channel = record {
      id = new_id;
      name = name;
      is_private = is_private;
      created_by = created_by;
      created_at = now;
    } in
    do
      with_channel ← insert_channel db channel
      with_member ←
          insert_member with_channel
            (record { channel_id = new_id; user_id = created_by; role = admin; joined_at = now })
      ok (channel, with_member)

abbrev pub in_channel : ℕ → ChannelMember → Bool
in_channel c r = r.channel_id == c

unfoldable pub count_channel_members : Db → ℕ → ℕ
count_channel_members db c = length (select (in_channel c) db.members)

pub record ChannelView : Type 0 where
  pub channel : Channel
  pub member_count : ℕ
  pub my_role : Option Role

abbrev pub role_of : Option ChannelMember → Option Role
role_of none = none
role_of (some m) = some m.role

unfoldable pub get_channel_view : Db → (channel_id caller_id : ℕ) → Option ChannelView
unfolding count_channel_members
get_channel_view db channel_id caller_id = elim (get_channel db channel_id) [
  | none ↦ none
  | some channel ↦
      let membership = get_member db channel_id caller_id in
      if channel.is_private && not (is_some membership)
      then none
      else some (record {
        channel = channel;
        member_count = count_channel_members db channel_id;
        my_role = role_of membership;
      })
]

-- `(created_at, id)` ascending.
abbrev pub created_before : Channel → Channel → Bool
created_before a b = ltb a.created_at b.created_at || a.created_at == b.created_at && leb a.id b.id

pub record PublicChannelRow : Type 0 where
  pub channel : Channel
  pub member_count : ℕ

pub record PublicChannelPage : Type 0 where
  pub rows : List PublicChannelRow
  pub total : ℕ

-- The filter of the browse query: public, and no membership row of the caller.
unfoldable pub is_browsable : Db → ℕ → Channel → Bool
is_browsable db caller r = not r.is_private && not (is_some (get_member db r.id caller))

unfoldable pub list_public_channels : Db → (caller_id limit offset : ℕ) → PublicChannelPage
unfolding count_channel_members
list_public_channels db caller_id limit offset = record {
  rows =
      map (λ r. record { channel = r; member_count = count_channel_members db r.id })
        (take limit
          (drop offset (order_by created_before (select (is_browsable db caller_id) db.channels))));
  total = length (select (is_browsable db caller_id) db.channels);
}
