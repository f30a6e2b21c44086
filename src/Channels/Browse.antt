-- ===== src/Channels/Browse.antt =====
-- The browse list and the point read of a channel agree.
use chatspace.Prelude.{
  ℕ, ◌≡◌, true, none, some, arith, find, All, All-find_own, All-where, All-order_by, All-take,
  All-drop, All-map,
}
use chatspace.Db.{Db, Channel, get_channel}
use chatspace.Db.WellFormed.{IsWellFormed, same_channel}
use chatspace.Channels.{
  get_channel_view, list_public_channels, is_browsable, created_before, count_channel_members,
}

-- The caller of the browse list sees each of its channels, and is no member of it.
abbrev pub IsSeen : Db → ℕ → Channel → Type 0
IsSeen db caller r =
    get_channel_view db r.id caller
    ≡ some (record { channel = r; member_count = count_channel_members db r.id; my_role = none })

browsable-IsSeen :
    (db : Db) (caller : ℕ) (r : Channel)
    → find (same_channel r) db.channels ≡ some r
    → is_browsable db caller r ≡ true
    → IsSeen db caller r
unfolding is_browsable get_channel_view get_channel
browsable-IsSeen db caller r own b = ground arith

-- In well-formed tables, for every row of the browse page, a read of that channel by id gives the
-- caller the same channel and member count, and no role.
pub browse_agrees :
    (db : Db) (caller limit offset : ℕ)
    → IsWellFormed db
    → All
        (λ row.
          get_channel_view db row.channel.id caller
          ≡ some
              (record { channel = row.channel; member_count = row.member_count; my_role = none }))
        (list_public_channels db caller limit offset).rows
unfolding list_public_channels
browse_agrees db caller limit offset w = All-map _ _ _ (
    All-take (IsSeen db caller) limit _ (
      All-drop (IsSeen db caller) offset _ (
        All-order_by (IsSeen db caller) created_before _ (
          All-where _ (is_browsable db caller) (IsSeen db caller) (browsable-IsSeen db caller)
            db.channels
            (All-find_own same_channel (λ x y. ground arith) (λ x. ground arith) db.channels
              w.channel_keys)))))
