-- ===== src/ChannelRoutes/Announced.antt =====
-- A membership event is published exactly with the change of the row, to the user it is about.
use chatspace.Prelude.{
  ℕ, ◌≡◌, ◌⊎◌, inl, inr, ◌∙◌, Bool, true, false, none, some, [], ◌∷◌, ◌++◌, Text, arith,
  Option-cases, Bool-cases, Result-cases, ==_refl,
}
use chatspace.Db.{
  Db, Channel, ChannelMember, Role, member, get_member, get_channel, get_user, insert_member,
}
use chatspace.Messages.Send.{user_topic}
use chatspace.Channels.{count_channel_members}
use chatspace.Members.{depart, leave_channel, join_public_channel}
use chatspace.Members.Lookup.{get_member-remove_row, get_member-insert_member}
use chatspace.Db.WellFormed.{insert_member-ok}
use chatspace.MemberAdmin.{
  Gate, admin_gate, open_to, remove_channel_member, add_channel_member, add_target,
}
use chatspace.ChannelRoutes.{
  RouteWorld, member_added, member_removed, leave_channel_route, parse_role,
  remove_channel_member_route, join_channel_route, add_channel_member_route,
}

abbrev is_open : Gate → Bool
is_open open_to = true
is_open _ = false

-- Nothing changed; or the row of this user went, and the user's own topic says so.
abbrev pub RemovalAnnounced : RouteWorld → RouteWorld → (channel_id user_id : ℕ) → Type 0
RemovalAnnounced w v c u =
    ((v.db ≡ w.db) × (v.published ≡ w.published))
    ⊎ ((m : ChannelMember) × (get_member w.db c u ≡ some m)
        × (get_member v.db c u ≡ none)
        × (v.published ≡ w.published ++ ((user_topic u, member_removed c u) ∷ [])))

get_member-depart : (db : Db) (c u : ℕ) (role : Role) → get_member (depart db c u role) c u ≡ none
unfolding depart
get_member-depart db c u role =
    get_member-remove_row c u c u _ ∙ ground (arith, ==_refl c, ==_refl u)

leave_announced :
    (w : RouteWorld) (later : Db) (c u : ℕ)
    → RemovalAnnounced w (leave_channel_route true w later c u) c u
unfolding leave_channel_route leave_channel
leave_announced w later c u = elim (Option-cases (get_channel w.db c)) [
  | inl n ↦ inl (ground (arith, n), ground (arith, n))
  | inr (ch, n) ↦ elim (Option-cases (get_member w.db c u)) [
    | inl k ↦ inl (ground (arith, n, k), ground (arith, n, k))
    | inr (m, k) ↦
        inr (m, k, ground (arith, n, k, get_member-depart later c u m.role), ground (arith, n, k))
  ]
]

remove_announced :
    (w : RouteWorld) (c caller u : ℕ)
    → RemovalAnnounced w (remove_channel_member_route true w c caller u).1 c u
unfolding remove_channel_member_route remove_channel_member
remove_announced w c caller u = elim (Option-cases (get_member w.db c u)) [
  | inl k ↦ inl (ground (arith, k), ground (arith, k))
  | inr (m, k) ↦ elim (Option-cases (get_user w.db u)) [
    | inl n ↦ inl (ground (arith, k, n), ground (arith, k, n))
    | inr (user, n) ↦ elim (Bool-cases (is_open (admin_gate w.db c caller))) [
      | inr g ↦ inl (ground (arith, k, n, g), ground (arith, k, n, g))
      | inl g ↦ inr (
        m,
        k,
        ground (arith, k, n, g, get_member-depart w.db c u m.role),
        ground (arith, k, n, g),
      )
    ]
  ]
]

-- Nothing was published and the tables are the earlier or the later ones; or the row is new, and the
-- user's own topic carries it, with the channel and its count.
abbrev pub AdditionAnnounced :
    RouteWorld → (later : Db) → RouteWorld → (channel_id user_id : ℕ) → Type 0
AdditionAnnounced w later v c u =
    (((v.db ≡ w.db) ⊎ (v.db ≡ later)) × (v.published ≡ w.published))
    ⊎ ((m : ChannelMember) × (ch : Channel) × (get_channel w.db c ≡ some ch)
        × (get_member later c u ≡ none)
        × (get_member v.db c u ≡ some m)
        × (v.published
            ≡ w.published
              ++ ((
                user_topic u,
                member_added ch (count_channel_members v.db c) u m.role m.joined_at,
              )
                  ∷ [])))

join_announced :
    (w : RouteWorld) (later : Db) (now c u : ℕ)
    → AdditionAnnounced w later (join_channel_route true w later now c u).1 c u
unfolding join_channel_route join_public_channel
join_announced w later now c u = elim (Option-cases (get_channel w.db c)) [
  | inl n ↦ inl (inl (ground (arith, n)), ground (arith, n))
  | inr (ch, n) ↦ elim (Option-cases (get_member w.db c u)) [
    | inr (m, k) ↦ inl (inl (ground (arith, n, k)), ground (arith, n, k))
    | inl k ↦ elim (Bool-cases ch.is_private) [
      | inl p ↦ inl (inl (ground (arith, n, k, p)), ground (arith, n, k, p))
      | inr p ↦
          elim (Result-cases (
            insert_member later
              (record { channel_id = c; user_id = u; role = member; joined_at = now }))) [
                | inr (e, i) ↦ inl (inr (ground (arith, n, k, p, i)), ground (arith, n, k, p, i))
                | inl (db', i) ↦
                    let row : ChannelMember = record {
                      channel_id = c;
                      user_id = u;
                      role = member;
                      joined_at = now;
                    } in
                    inr (
                      row,
                      ch,
                      n,
                      (insert_member-ok later db' row i).0,
                      ground (
                        arith,
                        n,
                        k,
                        p,
                        i,
                        get_member-insert_member later db' row c u i,
                        ==_refl c,
                        ==_refl u,
                      ),
                      ground (arith, n, k, p, i),
                    )
              ]
    ]
  ]
]

-- An open gate is that of an existing channel.
channel_of_open :
    (db : Db) (c caller : ℕ)
    → is_open (admin_gate db c caller) ≡ true
    → (ch : Channel) × (get_channel db c ≡ some ch)
unfolding admin_gate
channel_of_open db c caller g = elim (Option-cases (get_channel db c)) [
  | inl n ↦ ground (arith, g, n)
  | inr (ch, n) ↦ (ch, n)
]

add_announced :
    (w : RouteWorld) (later : Db) (now c caller u : ℕ) (role : Text)
    → AdditionAnnounced w later (add_channel_member_route true w later now c caller u role).1 c u
unfolding add_channel_member_route add_channel_member add_target
add_announced w later now c caller u role = elim (Option-cases (parse_role role)) [
  | inl q ↦ inl (inl (ground (arith, q)), ground (arith, q))
  | inr (r, q) ↦ elim (Bool-cases (is_open (admin_gate w.db c caller))) [
    | inr g ↦ inl (inl (ground (arith, q, g)), ground (arith, q, g))
    | inl g ↦ elim (Option-cases (get_user w.db u)) [
      | inl t ↦ inl (inl (ground (arith, q, g, t)), ground (arith, q, g, t))
      | inr (user, t) ↦ elim (Option-cases (get_member w.db c u)) [
        | inr (m, k) ↦ inl (inl (ground (arith, q, g, t, k)), ground (arith, q, g, t, k))
        | inl k ↦ elim (Result-cases (insert_member later (added_row r))) [
          | inr (e, i) ↦ inl (inr (ground (arith, q, g, t, k, i)), ground (arith, q, g, t, k, i))
          | inl (db', i) ↦
              let (ch, n) = channel_of_open w.db c caller g in
              inr (
                added_row r,
                ch,
                n,
                (insert_member-ok later db' (added_row r) i).0,
                ground (
                  arith,
                  q,
                  g,
                  t,
                  n,
                  k,
                  i,
                  get_member-insert_member later db' (added_row r) c u i,
                  ==_refl c,
                  ==_refl u,
                ),
                ground (arith, q, g, t, n, k, i),
              )
        ]
      ]
    ]
  ]
]
  where
    added_row : Role → ChannelMember
    added_row r = record { channel_id = c; user_id = u; role = r; joined_at = now }

-- With Redis answering: a leave or a removal either changes nothing and publishes nothing, or
-- ends the user's membership and publishes that on the user's own topic; a join or an add either
-- publishes nothing and leaves the tables as at the start or as at the INSERT, or makes a
-- membership that was not there and publishes it on the user's own topic, with the channel, the
-- member count, the role and the time of the row.
pub membership_events :
    (w : RouteWorld) (later : Db) (now c caller u : ℕ) (role : Text)
    → RemovalAnnounced w (leave_channel_route true w later c u) c u
      × RemovalAnnounced w (remove_channel_member_route true w c caller u).1 c u
      × AdditionAnnounced w later (join_channel_route true w later now c u).1 c u
      × AdditionAnnounced w later (add_channel_member_route true w later now c caller u role).1 c u
membership_events w later now c caller u role = (
  leave_announced w later c u,
  remove_announced w c caller u,
  join_announced w later now c u,
  add_announced w later now c caller u role,
)
