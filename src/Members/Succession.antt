-- ===== src/Members/Succession.antt =====
-- The sole-admin rule of `run_sole_admin_succession`, and what it does for a member that departs.
use chatspace.Prelude.{
  ℕ, ◌≡◌, refl, ◌⊎◌, inl, inr, true, false, some, List, [], ◌∷◌, ◌==◌, length, arith, find, select,
  any_row, Distinct, All, All-select, All-keep_select, All-order_by, All-of_order_by, order_by,
  any_row-select, find-holds, any_row_of_find, All-find_own, sym, ap, ◌∙◌, order_by-Ordered,
  any_row-order_by, length-order_by, length-map, Bool-cases,
}
use chatspace.Db.{Db, ChannelMember, get_member, member_at, is_admin}
use chatspace.Members.{
  admin_of, by_joined, other_member, successor, succeed_in, succession_loop,
  run_sole_admin_succession, lock_channel_admin_ids, depart,
}
use chatspace.Db.WellFormed.{same_member}
use chatspace.Members.Rows.{
  other_admin, other_admin_of_member, other_admin_of_two, select_own_admin_row,
  other_admin-update_where, admin-delete_where, length-select-admin,
}

by_joined_trans :
    (a b c : ChannelMember) → by_joined a b ≡ true → by_joined b c ≡ true → by_joined a c ≡ true
by_joined_trans a b c h k = ground arith

by_joined-total : (a b : ChannelMember) → by_joined a b ≡ false → by_joined b a ≡ true
by_joined-total a b h = ground arith

own_rows :
    (rows : List ChannelMember)
    → Distinct same_member rows
    → All (λ r. find (same_member r) rows ≡ some r) rows
own_rows = All-find_own same_member (λ x y. ground arith) (λ x. ground arith)

-- The member that the rule promotes: another one, with no later `joined_at` than anybody's.
pub record IsSuccessor (db : Db) (c u : ℕ) (s : ChannelMember) : Type 0 where
  pub is_other : other_member c u s ≡ true
  pub present : find (same_member s) db.members ≡ some s
  pub earliest : All (λ r. by_joined s r ≡ true) (select (other_member c u) db.members)

module _ (db : Db) (c u : ℕ) where
  abbrev others : List ChannelMember
  others = select (other_member c u) db.members

  head-IsSuccessor :
      (d : Distinct same_member db.members) (s : ChannelMember) (rest : List ChannelMember)
      → order_by by_joined others ≡ s ∷ rest
      → IsSuccessor db c u s
  head-IsSuccessor d s rest e = record {
    is_other =
        (rw e at (
          All-order_by (λ r. other_member c u r ≡ true) by_joined others
            (All-select (other_member c u) db.members))).0;
    present =
        (rw e at (
          All-order_by (λ r. find (same_member r) db.members ≡ some r) by_joined others
            (All-keep_select (λ r. find (same_member r) db.members ≡ some r) (other_member c u)
              db.members (own_rows db.members d)))).0;
    earliest =
        All-of_order_by (λ r. by_joined s r ≡ true) by_joined others
          (rw e (
            ground arith,
            (rw e at (order_by-Ordered by_joined by_joined_trans by_joined-total others)).0,
          ));
  }

  nobody : order_by by_joined others ≡ [] → any_row (other_member c u) db.members ≡ false
  unfolding any_row
  nobody e =
      sym (any_row-select (other_member c u) db.members)
      ∙ sym (any_row-order_by by_joined (λ _. true) others)
      ∙ ap (any_row (λ _. true)) e

  pub successor-cases :
      Distinct same_member db.members
      → ((successor db c u ≡ []) × (any_row (other_member c u) db.members ≡ false))
        ⊎ ((s : ChannelMember) × (successor db c u ≡ s ∷ []) × IsSuccessor db c u s)
  unfolding successor
  successor-cases d = split (order_by by_joined others) refl
    where
      split :
          (l : List ChannelMember)
          → order_by by_joined others ≡ l
          → ((successor db c u ≡ []) × (any_row (other_member c u) db.members ≡ false))
            ⊎ ((s : ChannelMember) × (successor db c u ≡ s ∷ []) × IsSuccessor db c u s)
      split [] e = inl (rw e refl, nobody e)
      split (s ∷ rest) e = inr (s, rw e refl, head-IsSuccessor d s rest e)

  pub length-lock : length (lock_channel_admin_ids db c) ≡ length (select (admin_of c) db.members)
  unfolding lock_channel_admin_ids
  length-lock =
      length-map _ (order_by _ (select (admin_of c) db.members))
      ∙ length-order_by _ (select (admin_of c) db.members)

  -- After one round somebody other than the departing member is an admin.
  pub succeed_in-other_admin :
      Distinct same_member db.members
      → any_row (admin_of c) db.members ≡ true
      → any_row (other_member c u) db.members ≡ true
      → any_row (other_admin c u) (succeed_in u db c).0.members ≡ true
  unfolding succeed_in
  succeed_in-other_admin d a o = elim (Bool-cases (length (lock_channel_admin_ids db c) == 1)) [
    | inl one ↦ rw one (elim (successor-cases d) [
      | inl (e, n) ↦ ground arith
      | inr (s, e, i) ↦ rw e (
          other_admin-update_where c u s.user_id db.members (ground (arith, i.is_other)) (
            any_row_of_find (member_at c s.user_id) db.members s
              (ground (arith, i.is_other, i.present))))
    ])
    | inr more ↦ rw more (
        other_admin_of_two c u db.members d
          (ground (arith, length-lock, length-select-admin c u db.members)))
  ]

  pub succession-in-one-channel :
      (m : ChannelMember)
      → Distinct same_member db.members
      → get_member db c u ≡ some m
      → is_admin m.role ≡ true
      → (run_sole_admin_succession db u (some c)).0 ≡ (succeed_in u db c).0
  unfolding run_sole_admin_succession succession_loop get_member
  succession-in-one-channel m d g k =
      rw (select_own_admin_row c u db.members m d g k) (
        ap (λ x. (succeed_in u db x).0) (ground (arith, find-holds (member_at c u) db.members m g)))

  pub depart-keeps-admin :
      (m : ChannelMember)
      → Distinct same_member db.members
      → get_member db c u ≡ some m
      → any_row (admin_of c) db.members ≡ true
      → any_row (other_member c u) db.members ≡ true
      → any_row (admin_of c) (depart db c u m.role).members ≡ true
  unfolding depart get_member
  depart-keeps-admin m d g a o = elim (Bool-cases (is_admin m.role)) [
    | inl k ↦
        rw (k, succession-in-one-channel m d g k)
          (admin-delete_where c u _ (succeed_in-other_admin d a o))
    | inr k ↦ rw k (admin-delete_where c u _ (other_admin_of_member c u db.members m d g k a))
  ]
