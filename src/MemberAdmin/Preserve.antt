-- ===== src/MemberAdmin/Preserve.antt =====
-- Every membership operation keeps the constraints of the schema.
use chatspace.Prelude.{
  ℕ, ◌≡◌, refl, Bool, Option, some, List, [], ◌∷◌, ◌==◌, length, arith, ok, Bool-cases,
  Option-cases, inl, inr, ◌⊎◌, Text, >>=-eq-ok, update_where,
}
use chatspace.Db.{
  Db, Channel, ChannelMember, Role, get_channel, get_member, insert_member, member_at, is_admin,
  member, Role, member,
}
use chatspace.Channels.{create_channel}
use chatspace.MemberAdmin.{add_channel_member, change_member_role, remove_channel_member, with_role}
use chatspace.Db.WellFormed.{
  IsWellFormed, insert_channel-IsWellFormed, insert_member-IsWellFormed, delete_member-IsWellFormed,
  update_member-IsWellFormed,
}
use chatspace.Members.{
  promote, successor, succeed_in, succession_loop, run_sole_admin_succession, depart, make_admin,
  join_public_channel, leave_channel, lock_channel_admin_ids,
}

promote-IsWellFormed :
    (db : Db) (c : ℕ) (rows : List ChannelMember)
    → IsWellFormed db
    → IsWellFormed (promote db c rows).0
unfolding promote
promote-IsWellFormed db c [] w = w
promote-IsWellFormed db c (s ∷ _) w =
    update_member-IsWellFormed db w (member_at c s.user_id) make_admin (λ r. refl) (λ r. refl)

succeed_in-IsWellFormed :
    (u : ℕ) (db : Db) (c : ℕ) → IsWellFormed db → IsWellFormed (succeed_in u db c).0
unfolding succeed_in
succeed_in-IsWellFormed u db c w = elim (Bool-cases (length (lock_channel_admin_ids db c) == 1)) [
  | inl e ↦ rw e (promote-IsWellFormed db c (successor db c u) w)
  | inr e ↦ rw e w
]

succession_loop-IsWellFormed :
    (u : ℕ) (db : Db) (cs : List ℕ) → IsWellFormed db → IsWellFormed (succession_loop u db cs).0
unfolding succession_loop
succession_loop-IsWellFormed u db [] w = w
succession_loop-IsWellFormed u db (c ∷ cs) w =
    succession_loop-IsWellFormed u (succeed_in u db c).0 cs (succeed_in-IsWellFormed u db c w)

pub run_sole_admin_succession-IsWellFormed :
    (db : Db) (u : ℕ) (scope : Option ℕ)
    → IsWellFormed db
    → IsWellFormed (run_sole_admin_succession db u scope).0
unfolding run_sole_admin_succession
run_sole_admin_succession-IsWellFormed db u scope w = succession_loop-IsWellFormed u db _ w

pub depart-IsWellFormed :
    (db : Db) (c u : ℕ) (role : Role) → IsWellFormed db → IsWellFormed (depart db c u role)
unfolding depart
depart-IsWellFormed db c u role w = elim (Bool-cases (is_admin role)) [
  | inl e ↦ rw e (
      delete_member-IsWellFormed _ (run_sole_admin_succession-IsWellFormed db u (some c) w)
        (member_at c u))
  | inr e ↦ rw e (delete_member-IsWellFormed db w (member_at c u))
]

pub leave_channel-IsWellFormed :
    (db later : Db) (c u : ℕ)
    → IsWellFormed db
    → IsWellFormed later
    → IsWellFormed (leave_channel db later c u).0
unfolding leave_channel
leave_channel-IsWellFormed db later c u w l = elim (Option-cases (get_channel db c)) [
  | inl e ↦ rw (e, leave_channel) w
  | inr (ch, e) ↦ elim (Option-cases (get_member db c u)) [
    | inl f ↦ rw (e, f, leave_channel) w
    | inr (m, f) ↦ rw (e, f, leave_channel) (depart-IsWellFormed later c u m.role l)
  ]
]

-- The tables after a join are what one of the two reads saw, or one more row.
join-tables :
    (db later : Db) (now c u : ℕ)
    → ((join_public_channel db later now c u).0 ≡ db)
      ⊎ ((join_public_channel db later now c u).0 ≡ later)
      ⊎ (insert_member later
            (record { channel_id = c; user_id = u; role = member; joined_at = now })
          ≡ ok (join_public_channel db later now c u).0)
unfolding join_public_channel
join-tables db later now c u = ground arith

-- The tables after an add, likewise.
add-tables :
    (db later : Db) (now c caller t : ℕ) (role : Role)
    → ((add_channel_member db later now c caller t role).0 ≡ db)
      ⊎ ((add_channel_member db later now c caller t role).0 ≡ later)
      ⊎ (insert_member later (record { channel_id = c; user_id = t; role = role; joined_at = now })
          ≡ ok (add_channel_member db later now c caller t role).0)
unfolding add_channel_member
add-tables db later now c caller t role = ground arith

one_of-IsWellFormed :
    (db later after : Db) (r : ChannelMember)
    → IsWellFormed db
    → IsWellFormed later
    → (after ≡ db) ⊎ (after ≡ later) ⊎ (insert_member later r ≡ ok after)
    → IsWellFormed after
one_of-IsWellFormed db later after r w l (inl e) = rw e w
one_of-IsWellFormed db later after r w l (inr (inl e)) = rw e l
one_of-IsWellFormed db later after r w l (inr (inr h)) =
    insert_member-IsWellFormed later after r l h

-- A join leaves well-formed tables, when those that it reads first and those at its INSERT are
-- well-formed.
pub join_public_channel-IsWellFormed :
    (db later : Db) (now c u : ℕ)
    → IsWellFormed db
    → IsWellFormed later
    → IsWellFormed (join_public_channel db later now c u).0
join_public_channel-IsWellFormed db later now c u w l =
    one_of-IsWellFormed db later _ _ w l (join-tables db later now c u)

-- An addition by an admin keeps the constraints, under the same interference.
pub add_channel_member-IsWellFormed :
    (db later : Db) (now c caller t : ℕ) (role : Role)
    → IsWellFormed db
    → IsWellFormed later
    → IsWellFormed (add_channel_member db later now c caller t role).0
add_channel_member-IsWellFormed db later now c caller t role w l =
    one_of-IsWellFormed db later _ _ w l (add-tables db later now c caller t role)

change-tables :
    (db : Db) (c caller t : ℕ) (role : Role)
    → ((change_member_role db c caller t role).0 ≡ db)
      ⊎ ((change_member_role db c caller t role).0
          ≡ record db { members = update_where (member_at c t) (with_role role) db.members })
unfolding change_member_role
change-tables db c caller t role = ground arith

-- A change of role keeps the constraints.
pub change_member_role-IsWellFormed :
    (db : Db) (c caller t : ℕ) (role : Role)
    → IsWellFormed db
    → IsWellFormed (change_member_role db c caller t role).0
change_member_role-IsWellFormed db c caller t role w = elim (change-tables db c caller t role) [
  | inl e ↦ rw e w
  | inr e ↦
      rw e
        (update_member-IsWellFormed db w (member_at c t) (with_role role) (λ r. refl) (λ r. refl))
]

remove-tables :
    (db : Db) (c caller t : ℕ)
    → ((remove_channel_member db c caller t).0 ≡ db)
      ⊎ ((m : ChannelMember) × (get_member db c t ≡ some m)
          × ((remove_channel_member db c caller t).0 ≡ depart db c t m.role))
unfolding remove_channel_member
remove-tables db c caller t = ground arith

-- A removal by any caller of any target keeps the well-formedness of the tables.
pub remove_channel_member-IsWellFormed :
    (db : Db) (c caller t : ℕ)
    → IsWellFormed db
    → IsWellFormed (remove_channel_member db c caller t).0
remove_channel_member-IsWellFormed db c caller t w = elim (remove-tables db c caller t) [
  | inl e ↦ rw e w
  | inr (m, f, e) ↦ rw e (depart-IsWellFormed db c t m.role w)
]

-- A channel that is created in well-formed tables, with the membership of its creator, leaves
-- them well-formed.
pub create_channel-IsWellFormed :
    (db db' : Db) (new_id now : ℕ) (name : Text) (is_private : Bool) (creator : ℕ) (ch : Channel)
    → IsWellFormed db
    → create_channel db new_id now name is_private creator ≡ ok (ch, db')
    → IsWellFormed db'
unfolding create_channel
create_channel-IsWellFormed db db' new_id now name is_private creator ch w h =
    let (db₁, e, h₁) = >>=-eq-ok _ _ h in
    let (db₂, f, h₂) = >>=-eq-ok _ _ h₁ in
    let p : db₂ ≡ db' = ground arith in
    rw (← p) (insert_member-IsWellFormed db₁ db₂ _ (insert_channel-IsWellFormed db db₁ _ w e) f)
