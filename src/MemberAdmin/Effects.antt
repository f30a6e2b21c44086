-- ===== src/MemberAdmin/Effects.antt =====
-- What the mutations of an admin do to the memberships, and what a join does.
use chatspace.Prelude.{
  ℕ, ◌≡◌, refl, ◌≢◌, true, false, none, some, List, [], ◌∷◌, ◌++◌, ◌&&◌, ◌==◌, arith, find,
  find-holds, any_row, update_where, updated, if◌then◌else◌, ok,
}
use chatspace.Db.{
  Db, Channel, ChannelMember, Role, member, get_channel, get_member, member_at, is_admin,
  insert_member,
}
use chatspace.Db.WellFormed.{IsWellFormed, insert_member-ok}
use chatspace.Members.{admin_of, depart, join_public_channel, JoinOutcome, JoinResult, joined}
use chatspace.Members.Lookup.{get_member-set, get_member-insert_member}
use chatspace.Members.Succession.{depart-keeps-admin}
use chatspace.Members.Departure.{IsRaised, depart-gone, depart-elsewhere, depart-IsRaised}
use chatspace.Members.Leave.{HasAdmin, HasOther}
use chatspace.MemberAdmin.{
  open_to, admin_gate, add_channel_member, AddMemberResult, added, change_member_role,
  updated as role_updated, with_role, remove_channel_member, removed,
}
use chatspace.MemberAdmin.Authority.{IsChannelAdmin, admin_gate_iff}

admin_found :
    (c u : ℕ) (rows : List ChannelMember) (m : ChannelMember)
    → find (member_at c u) rows ≡ some m
    → is_admin m.role ≡ true
    → any_row (admin_of c) rows ≡ true
unfolding find any_row
admin_found c u [] m g k = cc
admin_found c u (r ∷ rs) m g k = ground (arith, admin_found c u rs m)

own_row :
    (c u : ℕ) (db : Db) (m : ChannelMember) → get_member db c u ≡ some m → member_at c u m ≡ true
unfolding get_member
own_row c u db m g = find-holds (member_at c u) db.members m g

module _ (db : Db) (c caller t : ℕ) (w : IsWellFormed db) where
  removed-inversion :
      (remove_channel_member db c caller t).1 ≡ removed
      → (m : ChannelMember) × (get_member db c t ≡ some m)
        × (admin_gate db c caller ≡ open_to)
        × ((remove_channel_member db c caller t).0 ≡ depart db c t m.role)
  unfolding remove_channel_member
  removed-inversion h = ground arith

  admin-present : IsChannelAdmin db c caller → HasAdmin db c
  unfolding get_member
  admin-present (m, g, k) = admin_found c caller db.members m g k

  -- In well-formed tables, when a removal answers `removed`, the caller is an admin of the
  -- channel, the target is gone, no other channel notices, no member that stays loses the admin
  -- role, and the channel has an admin if the target was not its last member.
  pub remove_effect :
      (remove_channel_member db c caller t).1 ≡ removed
      → let after = (remove_channel_member db c caller t).0 in
        IsChannelAdmin db c caller
        × (get_member after c t ≡ none)
        × ((c' u' : ℕ) → c' ≢ c → get_member after c' u' ≡ get_member db c' u')
        × ((u' : ℕ) → u' ≢ t → IsRaised (get_member db c u') (get_member after c u'))
        × (HasOther db c t → HasAdmin after c)
  remove_effect h =
      let (m, g, gate, e) = removed-inversion h in
      let caller_admin = ((admin_gate_iff db c caller w).0 gate).1 in
      rw e (
        caller_admin,
        depart-gone db c t m w g,
        depart-elsewhere db c t m w g,
        depart-IsRaised db c t m w g,
        depart-keeps-admin db c t m w.member_keys g (admin-present caller_admin),
      )

  changed-inversion :
      (role : Role)
      → (change_member_role db c caller t role).1.outcome ≡ role_updated
      → (m : ChannelMember) × (get_member db c t ≡ some m)
        × (admin_gate db c caller ≡ open_to)
        × ((change_member_role db c caller t role).1.membership ≡ some (with_role role m))
        × ((change_member_role db c caller t role).0
            ≡ record db { members = update_where (member_at c t) (with_role role) db.members })
  unfolding change_member_role
  changed-inversion role h = ground arith

  -- In well-formed tables, when a change of role answers `updated`, the caller is an admin of the
  -- channel, the answer is the membership as it then stands, and only that one membership has
  -- changed, in its role.
  pub change_role_effect :
      (role : Role)
      → (change_member_role db c caller t role).1.outcome ≡ role_updated
      → let (after, r) = change_member_role db c caller t role in
        IsChannelAdmin db c caller
        × (r.membership ≡ get_member after c t)
        × ((c' u' : ℕ)
            → get_member after c' u'
              ≡ updated (member_at c t) (with_role role) (get_member db c' u'))
  change_role_effect role h =
      let (m, g, gate, a, e) = changed-inversion role h in
      rw (a, e)
        (
          ((admin_gate_iff db c caller w).0 gate).1,
          rw (get_member-set c t c t (with_role role) db (λ r. refl), g) (rw (own_row c t db m g)),
          λ c' u'. get_member-set c t c' u' (with_role role) db (λ r. refl),
        )

module _ (db later : Db) (now c : ℕ) where
  joined-inversion :
      (u : ℕ) (r : JoinResult)
      → (join_public_channel db later now c u).1 ≡ ok r
      → r.outcome ≡ joined
      → (ch : Channel) × (get_channel db c ≡ some ch)
        × (ch.is_private ≡ false)
        × (insert_member later
              (record { channel_id = c; user_id = u; role = member; joined_at = now })
            ≡ ok (join_public_channel db later now c u).0)
  unfolding join_public_channel
  joined-inversion u r h o = ground arith

  -- When a join answers `joined`, the channel was a public one, the user was no member in the
  -- tables at the INSERT, whatever another session committed before it, and the one difference to
  -- those is the new membership as a plain member.
  pub join_effect :
      (u : ℕ) (r : JoinResult)
      → (join_public_channel db later now c u).1 ≡ ok r
      → r.outcome ≡ joined
      → let after = (join_public_channel db later now c u).0 in
        ((ch : Channel) × (get_channel db c ≡ some ch) × (ch.is_private ≡ false))
        × (get_member later c u ≡ none)
        × ((c' u' : ℕ)
            → get_member after c' u' ≡ (
                if c == c' && u == u'
                then some (record { channel_id = c; user_id = u; role = member; joined_at = now })
                else get_member later c' u'))
  join_effect u r h o =
      let (ch, e, p, i) = joined-inversion u r h o in
      (
        (ch, e, p),
        (insert_member-ok later _ _ i).0,
        λ c' u'. get_member-insert_member later _ _ c' u' i,
      )

  -- When a user is no member of a public channel at the first read, and another session has made
  -- the user a member before the INSERT, the join changes nothing and answers `already_member`
  -- with the membership that won.
  pub join_race :
      (u : ℕ) (ch : Channel) (winner : ChannelMember)
      → get_channel db c ≡ some ch
      → ch.is_private ≡ false
      → get_member db c u ≡ none
      → get_member later c u ≡ some winner
      → join_public_channel db later now c u ≡ (
        later,
        ok (record {
          outcome = JoinOutcome.already_member;
          membership = some winner;
          channel = some ch;
          member_count = none;
        }),
      )
  unfolding join_public_channel insert_member
  join_race u ch winner e p n g = ground arith

  added-inversion :
      (caller t : ℕ) (role : Role) (r : AddMemberResult)
      → (add_channel_member db later now c caller t role).1 ≡ ok r
      → r.outcome ≡ added
      → (admin_gate db c caller ≡ open_to)
        × (insert_member later
              (record { channel_id = c; user_id = t; role = role; joined_at = now })
            ≡ ok (add_channel_member db later now c caller t role).0)
  unfolding add_channel_member
  added-inversion caller t role r h o = ground arith

  -- When an add answers `added`, and the tables that it read first were well-formed, the caller
  -- was an admin there, the target was no member in the tables at the INSERT, and the tables
  -- afterwards are those with the new membership, at the role that was asked for, appended and
  -- nothing else changed.
  pub add_effect :
      (caller t : ℕ) (role : Role) (r : AddMemberResult)
      → IsWellFormed db
      → (add_channel_member db later now c caller t role).1 ≡ ok r
      → r.outcome ≡ added
      → let row : ChannelMember = record {
        channel_id = c;
        user_id = t;
        role = role;
        joined_at = now;
      } in
        let after = (add_channel_member db later now c caller t role).0 in
        IsChannelAdmin db c caller
        × (get_member later c t ≡ none)
        × (after ≡ record later { members = later.members ++ (row ∷ []) })
        × ((c' u' : ℕ)
            → get_member after c' u'
              ≡ (if c == c' && t == u' then some row else get_member later c' u'))
  add_effect caller t role r w h o =
      let (gate, i) = added-inversion caller t role r h o in
      let (free, _, e) = insert_member-ok later _ _ i in
      (
        ((admin_gate_iff db c caller w).0 gate).1,
        free,
        e,
        λ c' u'. get_member-insert_member later _ _ c' u' i,
      )
