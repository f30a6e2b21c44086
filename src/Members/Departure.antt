-- ===== src/Members/Departure.antt =====
-- What the departure of a member leaves of the memberships: `leave_channel`, and the tail of
-- `remove_channel_member`, which share it.
use chatspace.Prelude.{
  ℕ, ◌≡◌, refl, ◌≢◌, ◌∙◌, Bool, false, Option, none, some, List, [], ◌∷◌, ◌&&◌, ◌==◌, length, arith,
  Bool-cases, inl, inr, ◌⊎◌, find-holds, updated,
}
use chatspace.Db.{Db, ChannelMember, get_member, member_at, is_admin}
use chatspace.Db.WellFormed.{IsWellFormed}
use chatspace.Members.{make_admin, lock_channel_admin_ids, successor, promote, succeed_in, depart}
use chatspace.Members.Lookup.{get_member-remove_row, get_member-set}
use chatspace.Members.Succession.{succession-in-one-channel}

-- A membership is as it was, or was made an admin's.
abbrev pub IsRaised : Option ChannelMember → Option ChannelMember → Type 0
IsRaised before after =
    (after ≡ before) ⊎ ((m : ChannelMember) × (before ≡ some m) × (after ≡ some (make_admin m)))

IsRaised-updated :
    (q : ChannelMember → Bool) (o : Option ChannelMember) → IsRaised o (updated q make_admin o)
IsRaised-updated q none = inl refl
IsRaised-updated q (some m) = elim (Bool-cases (q m)) [
  | inl e ↦ inr (m, refl, rw e)
  | inr e ↦ inl (rw e)
]

module _ (db : Db) (c c' u' : ℕ) where
  promote-IsRaised :
      (rows : List ChannelMember)
      → IsRaised (get_member db c' u') (get_member (promote db c rows).0 c' u')
  unfolding promote
  promote-IsRaised [] = inl refl
  promote-IsRaised (s ∷ _) =
      rw (get_member-set c s.user_id c' u' make_admin db (λ r. refl))
        (IsRaised-updated (member_at c s.user_id) (get_member db c' u'))

  updated-elsewhere :
      (s : ℕ) (o : Option ChannelMember)
      → ((m : ChannelMember) → o ≡ some m → m.channel_id ≡ c')
      → c' ≢ c
      → updated (member_at c s) make_admin o ≡ o
  updated-elsewhere s none h n = refl
  updated-elsewhere s (some m) h n = ground (arith, h m refl, n)

  promote-elsewhere :
      (rows : List ChannelMember)
      → c' ≢ c
      → get_member (promote db c rows).0 c' u' ≡ get_member db c' u'
  unfolding promote get_member
  promote-elsewhere [] n = refl
  promote-elsewhere (s ∷ _) n =
      get_member-set c s.user_id c' u' make_admin db (λ r. refl)
      ∙ updated-elsewhere s.user_id (get_member db c' u')
          (λ m e. ground (arith, find-holds (member_at c' u') db.members m e)) n

  succeed_in-IsRaised :
      (u : ℕ) → IsRaised (get_member db c' u') (get_member (succeed_in u db c).0 c' u')
  unfolding succeed_in
  succeed_in-IsRaised u = elim (Bool-cases (length (lock_channel_admin_ids db c) == 1)) [
    | inl e ↦ rw e (promote-IsRaised (successor db c u))
    | inr e ↦ rw e (inl refl)
  ]

  succeed_in-elsewhere :
      (u : ℕ) → c' ≢ c → get_member (succeed_in u db c).0 c' u' ≡ get_member db c' u'
  unfolding succeed_in
  succeed_in-elsewhere u n = elim (Bool-cases (length (lock_channel_admin_ids db c) == 1)) [
    | inl e ↦ rw e (promote-elsewhere (successor db c u) n)
    | inr e ↦ rw e
  ]

module _ (db : Db) (c u : ℕ) (m : ChannelMember) (w : IsWellFormed db)
    (present : get_member db c u ≡ some m) where
  pub depart-gone : get_member (depart db c u m.role) c u ≡ none
  unfolding depart
  depart-gone = rw get_member-remove_row (ground arith)

  pub depart-elsewhere :
      (c' u' : ℕ) → c' ≢ c → get_member (depart db c u m.role) c' u' ≡ get_member db c' u'
  unfolding depart
  depart-elsewhere c' u' n = elim (Bool-cases (is_admin m.role)) [
    | inl k ↦
        rw (k, get_member-remove_row, succession-in-one-channel db c u m w.member_keys present k)
          (ground (arith, n, succeed_in-elsewhere db c c' u' u n))
    | inr k ↦ rw (k, get_member-remove_row) (ground (arith, n))
  ]

  pub depart-IsRaised :
      (u' : ℕ) → u' ≢ u → IsRaised (get_member db c u') (get_member (depart db c u m.role) c u')
  unfolding depart
  depart-IsRaised u' n =
      let skip : (c == c && u' == u) ≡ false = ground (arith, n) in
      elim (Bool-cases (is_admin m.role)) [
        | inl k ↦
            rw
              (
                k,
                get_member-remove_row,
                skip,
                succession-in-one-channel db c u m w.member_keys present k,
              )
              (succeed_in-IsRaised db c c u' u)
        | inr k ↦ rw (k, get_member-remove_row, skip) (inl refl)
      ]
