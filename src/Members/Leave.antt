-- ===== src/Members/Leave.antt =====
-- `leave_channel`: what leaving does, and who is the admin afterwards.
use chatspace.Prelude.{
  ℕ, ◌≡◌, refl, sym, List, not, delete_where, ◌≢◌, ◌∙◌, true, false, none, some, [], ◌∷◌, ◌&&◌,
  ◌==◌, length, arith, Bool-cases, Option-cases, inl, inr, ◌⊎◌, find, find-holds, any_row,
  if◌then◌else◌,
}
use chatspace.Db.{Db, ChannelMember, get_channel, get_member, member_at, is_admin, is_some}
use chatspace.Db.WellFormed.{IsWellFormed}
use chatspace.Members.{
  admin_of, other_member, make_admin, lock_channel_admin_ids, successor, promote, succeed_in,
  depart, left, not_member, leave_channel,
}
use chatspace.Members.Lookup.{get_member-remove_row, get_member-set}
use chatspace.Members.Succession.{
  IsSuccessor, successor-cases, succession-in-one-channel, depart-keeps-admin,
}
use chatspace.Members.Departure.{IsRaised, depart-gone, depart-elsewhere, depart-IsRaised}

abbrev pub HasAdmin : Db → ℕ → Type 0
HasAdmin db c = any_row (admin_of c) db.members ≡ true

abbrev pub HasOther : Db → ℕ → ℕ → Type 0
HasOther db c u = any_row (other_member c u) db.members ≡ true

module _ (db later : Db) (c u : ℕ) where
  leave-of-member :
      (r m : ChannelMember)
      → is_some (get_channel db c) ≡ true
      → get_member db c u ≡ some r
      → r.role ≡ m.role
      → leave_channel db later c u ≡ (depart later c u m.role, left)
  unfolding leave_channel
  leave-of-member r m e g k = rw (sym k) (ground (arith, e, g))

  leave-of-stranger :
      (is_some (get_channel db c) ≡ false) ⊎ (get_member db c u ≡ none)
      → leave_channel db later c u ≡ (db, not_member)
  unfolding leave_channel
  leave-of-stranger h = ground arith

get_member-promoted :
    (db : Db) (c u : ℕ) (s : ChannelMember)
    → IsSuccessor db c u s
    → (u' : ℕ)
    → get_member (promote db c (s ∷ [])).0 c u'
      ≡ (if s.user_id == u' then some (make_admin s) else get_member db c u')
unfolding promote get_member
get_member-promoted db c u s i u' =
    get_member-set c s.user_id c u' make_admin db (λ r. refl)
    ∙ elim (Option-cases (find (member_at c u') db.members)) [
      | inl n ↦ ground (arith, i.is_other, i.present)
      | inr (m, g) ↦
          ground (arith, i.is_other, i.present, find-holds (member_at c u') db.members m g)
    ]

-- The membership is at the DELETE as it was at the first read, or has the same role.
module _ (first db : Db) (c u : ℕ) (r m : ChannelMember) (w : IsWellFormed db)
    (exists : is_some (get_channel first c) ≡ true) (read : get_member first c u ≡ some r)
    (unchanged : r.role ≡ m.role) (present : get_member db c u ≡ some m) where
  -- In well-formed tables, a member whose role has not changed since it was read, and that leaves
  -- an existing channel, is answered `left` and is gone; no other channel notices; and of the
  -- members that stay nobody loses the membership or the admin role.
  pub leave_effect :
      let after = (leave_channel first db c u).0 in
      ((leave_channel first db c u).1 ≡ left)
      × (get_member after c u ≡ none)
      × ((c' u' : ℕ) → c' ≢ c → get_member after c' u' ≡ get_member db c' u')
      × ((u' : ℕ) → u' ≢ u → IsRaised (get_member db c u') (get_member after c u'))
  leave_effect = rw (leave-of-member first db c u r m exists read unchanged) (
    refl,
    depart-gone db c u m w present,
    depart-elsewhere db c u m w present,
    depart-IsRaised db c u m w present,
  )

  -- In well-formed tables, where the leaving member of an existing channel has at the DELETE the
  -- role that was read before, the channel has an admin and some other member, it still has an
  -- admin after the leave.
  pub leave_keeps_admin :
      HasAdmin db c → HasOther db c u → HasAdmin (leave_channel first db c u).0 c
  leave_keeps_admin a o =
      rw (leave-of-member first db c u r m exists read unchanged)
        (depart-keeps-admin db c u m w.member_keys present a o)

  -- In well-formed tables, where the leaving member of an existing channel has at the DELETE the
  -- role that was read before, and is the sole admin while others remain, a successor that joined
  -- no later than any other remaining member is made an admin, and no other membership of those
  -- that stay in the channel changes.
  pub sole_admin_succession :
      is_admin m.role ≡ true
      → length (lock_channel_admin_ids db c) ≡ 1
      → HasOther db c u
      → (s : ChannelMember) × IsSuccessor db c u s
        × ((u' : ℕ)
            → u' ≢ u
            → get_member (leave_channel first db c u).0 c u'
              ≡ (if s.user_id == u' then some (make_admin s) else get_member db c u'))
  unfolding depart succeed_in promote
  sole_admin_succession k one o = elim (successor-cases db c u w.member_keys) [
    | inl (e, n) ↦ ground arith
    | inr (s, e, i) ↦ (s, i, λ u' n. lookup s e i u' (ground (arith, n)))
  ]
    where
      lookup :
          (s : ChannelMember)
          → successor db c u ≡ s ∷ []
          → IsSuccessor db c u s
          → (u' : ℕ) → (c == c && u' == u) ≡ false
          → get_member (leave_channel first db c u).0 c u'
            ≡ (if s.user_id == u' then some (make_admin s) else get_member db c u')
      lookup s e i u' skip =
          rw
            (
              leave-of-member first db c u r m exists read unchanged,
              k,
              get_member-remove_row,
              skip,
              succession-in-one-channel db c u m w.member_keys present k,
              one,
              e,
            )
            (get_member-promoted db c u s i u')

-- In well-formed tables, a second leave of the same user answers `not_member` and changes
-- nothing.
pub leave_again :
    (db : Db) (c u : ℕ)
    → IsWellFormed db
    → leave_channel (leave_channel db db c u).0 (leave_channel db db c u).0 c u
      ≡ ((leave_channel db db c u).0, not_member)
leave_again db c u w = elim (Bool-cases (is_some (get_channel db c))) [
  | inr e ↦ rw (leave-of-stranger db db c u (inl e)) (leave-of-stranger db db c u (inl e))
  | inl e ↦ elim (Option-cases (get_member db c u)) [
    | inl n ↦ rw (leave-of-stranger db db c u (inr n)) (leave-of-stranger db db c u (inr n))
    | inr (m, g) ↦ rw (leave-of-member db db c u m m e g refl) (
        leave-of-stranger (depart db c u m.role) (depart db c u m.role) c u
          (inr (depart-gone db c u m w g)))
  ]
]

-- The other rows of a channel stay where one user's row goes.
others-delete_where :
    (c u : ℕ) (rows : List ChannelMember)
    → (any_row (admin_of c) (delete_where (member_at c u) rows)
        ≡ any_row (λ r. admin_of c r && not (r.user_id == u)) rows)
      × (any_row (other_member c u) (delete_where (member_at c u) rows)
          ≡ any_row (other_member c u) rows)
unfolding any_row delete_where
others-delete_where c u [] = (refl, refl)
others-delete_where c u (r ∷ rs) =
    let (a, b) = others-delete_where c u rs in (ground (arith, a), ground (arith, b))

-- When a leave of an existing channel reads its user as a plain member, and before its DELETE the
-- user has become the only admin while others remain, the leave answers `left` and the channel
-- has members and no admin.
pub promotion_lost :
    (db later : Db) (c u : ℕ) (r m : ChannelMember)
    → is_some (get_channel db c) ≡ true
    → get_member db c u ≡ some r
    → is_admin r.role ≡ false
    → get_member later c u ≡ some m
    → is_admin m.role ≡ true
    → any_row (λ x. admin_of c x && not (x.user_id == u)) later.members ≡ false
    → HasOther later c u
    → let (after, outcome) = leave_channel db later c u in
      (outcome ≡ left) × HasOther after c u × (any_row (admin_of c) after.members ≡ false)
unfolding depart
promotion_lost db later c u r m exists read plain present promoted sole o =
    let (a, b) = others-delete_where c u later.members in
    rw (leave-of-member db later c u r r exists read refl, plain) (refl, b ∙ o, a ∙ sole)
