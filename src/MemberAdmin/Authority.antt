-- ===== src/MemberAdmin/Authority.antt =====
-- Who may change a channel's membership.
use chatspace.Prelude.{
  ℕ, ◌≡◌, refl, ◌≢◌, sym, ◌∙◌, ◌↔◌, Bool, true, false, none, some, List, [], ◌∷◌, ◌&&◌, arith,
  Bool-cases, inl, inr, find, select, any_row, any_row-of_select, any_row-map, any_row-order_by,
  order_by, Distinct,
}
use chatspace.Db.{Db, ChannelMember, Role, get_channel, get_member, member_at, is_admin, is_some}
use chatspace.Db.WellFormed.{IsWellFormed, same_member}
use chatspace.Members.{admin_of, by_user, is_id, user_id_of, lock_channel_admin_ids}
use chatspace.MemberAdmin.{
  open_to, admin_gate, add_channel_member, change_member_role, remove_channel_member,
}

-- The user has a membership of the channel with the admin role.
abbrev pub IsChannelAdmin : Db → ℕ → ℕ → Type 0
IsChannelAdmin db c u =
    (m : ChannelMember) × (get_member db c u ≡ some m) × (is_admin m.role ≡ true)

module _ (c u : ℕ) where
  abbrev own_admin_row : ChannelMember → Bool
  own_admin_row r = admin_of c r && is_id u (user_id_of r)

  own_admin_row_of_absent :
      (rows : List ChannelMember)
      → find (member_at c u) rows ≡ none
      → any_row own_admin_row rows ≡ false
  unfolding find any_row
  own_admin_row_of_absent [] f = refl
  own_admin_row_of_absent (r ∷ rs) f = ground (arith, own_admin_row_of_absent rs)

  own_admin_row_found :
      (rows : List ChannelMember)
      → Distinct same_member rows
      → any_row own_admin_row rows ≡ true
      → (m : ChannelMember) × (find (member_at c u) rows ≡ some m) × (is_admin m.role ≡ true)
  unfolding find any_row
  own_admin_row_found [] d h = cc
  own_admin_row_found (r ∷ rs) (d, ds) h = elim (Bool-cases (member_at c u r)) [
    | inl e ↦ (r, rw e, ground (arith, own_admin_row_of_absent rs))
    | inr e ↦ let (m, f, k) = own_admin_row_found rs ds (ground arith) in (m, rw e f, k)
  ]

  found_own_admin_row :
      (rows : List ChannelMember) (m : ChannelMember)
      → find (member_at c u) rows ≡ some m
      → is_admin m.role ≡ true
      → any_row own_admin_row rows ≡ true
  unfolding find any_row
  found_own_admin_row [] m f k = ground arith
  found_own_admin_row (r ∷ rs) m f k = ground (arith, found_own_admin_row rs m)

  locked_id :
      (db : Db) → any_row (is_id u) (lock_channel_admin_ids db c) ≡ any_row own_admin_row db.members
  unfolding lock_channel_admin_ids
  locked_id db =
      any_row-map user_id_of (is_id u) (order_by by_user (select (admin_of c) db.members))
      ∙ any_row-order_by by_user (λ r. is_id u (user_id_of r)) (select (admin_of c) db.members)
      ∙ any_row-of_select (admin_of c) (λ r. is_id u (user_id_of r)) db.members

  gate-open :
      (db : Db)
      → admin_gate db c u ≡ open_to
      → (is_some (get_channel db c) ≡ true)
        × (any_row (is_id u) (lock_channel_admin_ids db c) ≡ true)
  unfolding admin_gate any_row
  gate-open db h = ground arith

  open-gate :
      (db : Db)
      → is_some (get_channel db c) ≡ true
      → any_row (is_id u) (lock_channel_admin_ids db c) ≡ true
      → admin_gate db c u ≡ open_to
  unfolding admin_gate any_row
  open-gate db e h = ground arith

-- In well-formed tables the gate of the three mutations opens exactly for the admins of a channel
-- that exists.
pub admin_gate_iff :
    (db : Db) (c u : ℕ)
    → IsWellFormed db
    → (admin_gate db c u ≡ open_to) ↔ ((is_some (get_channel db c) ≡ true) × IsChannelAdmin db c u)
unfolding get_member
admin_gate_iff db c u w = (
  (λ h.
      let (e, a) = gate-open c u db h in
      (e, own_admin_row_found c u db.members w.member_keys (sym (locked_id c u db) ∙ a))),
  λ h.
      open-gate c u db h.0
        (locked_id c u db ∙ found_own_admin_row c u db.members h.1.0 h.1.1 h.1.2),
)

module _ (db : Db) (c caller : ℕ) (w : IsWellFormed db)
    (outsider : ¬ IsChannelAdmin db c caller) where
  gate-shut : admin_gate db c caller ≢ open_to
  gate-shut h = outsider ((admin_gate_iff db c caller w).0 h).1

  -- In well-formed tables a caller that is no admin of the channel changes nothing by an add, a
  -- change of role or a removal.
  pub outsider_changes_nothing :
      (later : Db) (now target : ℕ) (role : Role)
      → ((add_channel_member db later now c caller target role).0 ≡ db)
        × ((change_member_role db c caller target role).0 ≡ db)
        × ((remove_channel_member db c caller target).0 ≡ db)
  unfolding add_channel_member change_member_role remove_channel_member
  outsider_changes_nothing later now target role =
      (ground (arith, gate-shut), ground (arith, gate-shut), ground (arith, gate-shut))

  -- In well-formed tables a caller that is no admin of the channel gets the same answer from each
  -- of the three mutations whatever the target and the role.
  pub outsider_learns_nothing :
      (later : Db) (now t₁ t₂ : ℕ) (r₁ r₂ : Role)
      → ((add_channel_member db later now c caller t₁ r₁).1
          ≡ (add_channel_member db later now c caller t₂ r₂).1)
        × ((change_member_role db c caller t₁ r₁).1 ≡ (change_member_role db c caller t₂ r₂).1)
        × ((remove_channel_member db c caller t₁).1 ≡ (remove_channel_member db c caller t₂).1)
  unfolding add_channel_member change_member_role remove_channel_member
  outsider_learns_nothing later now t₁ t₂ r₁ r₂ =
      (ground (arith, gate-shut), ground (arith, gate-shut), ground (arith, gate-shut))
