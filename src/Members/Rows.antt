-- ===== src/Members/Rows.antt =====
-- Facts about the rows of `channel_members` under their composite primary key.
use chatspace.Prelude.{
  ℕ, ◌<◌, ◌≡◌, refl, Bool, true, false, none, some, List, [], ◌∷◌, ◌&&◌, not, ◌==◌, length, arith,
  find, select, update_where, delete_where, any_row, Distinct,
}
use chatspace.Db.{ChannelMember, member_at, is_admin}
use chatspace.Db.WellFormed.{same_member}
use chatspace.Members.{admin_of, admin_rows_of, in_scope, make_admin}

abbrev pub other_admin : ℕ → ℕ → ChannelMember → Bool
other_admin c u r = admin_of c r && not (r.user_id == u)

module _ (c u : ℕ) where
  other_admin_of_absent :
      (rows : List ChannelMember)
      → find (member_at c u) rows ≡ none
      → any_row (admin_of c) rows ≡ true
      → any_row (other_admin c u) rows ≡ true
  unfolding find any_row
  other_admin_of_absent [] f a = a
  other_admin_of_absent (r ∷ rs) f a = ground (arith, other_admin_of_absent rs)

  -- If the row of `u` is no admin's, the channel's admin is somebody else.
  pub other_admin_of_member :
      (rows : List ChannelMember) (m : ChannelMember)
      → Distinct same_member rows
      → find (member_at c u) rows ≡ some m
      → is_admin m.role ≡ false
      → any_row (admin_of c) rows ≡ true
      → any_row (other_admin c u) rows ≡ true
  unfolding find any_row
  other_admin_of_member [] m d f k a = a
  other_admin_of_member (r ∷ rs) m (d, ds) f k a =
      ground (arith, other_admin_of_member rs m ds, other_admin_of_absent rs)

  any_row_of_select :
      (rows : List ChannelMember)
      → 0 < length (select (admin_of c) rows)
      → any_row (admin_of c) rows ≡ true
  unfolding select any_row
  any_row_of_select [] h = absurd (omega arith)
  any_row_of_select (r ∷ rs) h = ground (arith, any_row_of_select rs)

  pub length-select-admin :
      (rows : List ChannelMember)
      → any_row (admin_of c) rows ≡ true
      → 0 < length (select (admin_of c) rows)
  unfolding select any_row
  length-select-admin [] h = ground arith
  length-select-admin (r ∷ rs) h = ground (arith, length-select-admin rs)

  -- Of two admins, one is not `u`.
  pub other_admin_of_two :
      (rows : List ChannelMember)
      → Distinct same_member rows
      → 1 < length (select (admin_of c) rows)
      → any_row (other_admin c u) rows ≡ true
  unfolding find any_row select
  other_admin_of_two [] d h = absurd (omega arith)
  other_admin_of_two (r ∷ rs) (d, ds) h =
      ground (arith, other_admin_of_two rs ds, other_admin_of_absent rs, any_row_of_select rs)

  select_of_absent :
      (rows : List ChannelMember)
      → find (member_at c u) rows ≡ none
      → select (λ r. admin_rows_of u r && in_scope (some c) r) rows ≡ []
  unfolding find select
  select_of_absent [] f = refl
  select_of_absent (r ∷ rs) f = ground (arith, select_of_absent rs)

  -- In one channel a user holds one membership.
  pub select_own_admin_row :
      (rows : List ChannelMember) (m : ChannelMember)
      → Distinct same_member rows
      → find (member_at c u) rows ≡ some m
      → is_admin m.role ≡ true
      → select (λ r. admin_rows_of u r && in_scope (some c) r) rows ≡ m ∷ []
  unfolding find select
  select_own_admin_row [] m d f k = ground arith
  select_own_admin_row (r ∷ rs) m (d, ds) f k =
      ground (arith, select_own_admin_row rs m ds, select_of_absent rs)

pub other_admin-update_where :
    (c u s : ℕ) (rows : List ChannelMember)
    → (s == u) ≡ false
    → any_row (member_at c s) rows ≡ true
    → any_row (other_admin c u) (update_where (member_at c s) make_admin rows) ≡ true
unfolding any_row update_where
other_admin-update_where c u s [] n a = a
other_admin-update_where c u s (r ∷ rs) n a = ground (arith, other_admin-update_where c u s rs n)

-- Deleting the row of `u` keeps the other admins.
pub admin-delete_where :
    (c u : ℕ) (rows : List ChannelMember)
    → any_row (other_admin c u) rows ≡ true
    → any_row (admin_of c) (delete_where (member_at c u) rows) ≡ true
unfolding any_row delete_where
admin-delete_where c u [] h = h
admin-delete_where c u (r ∷ rs) h = ground (arith, admin-delete_where c u rs)
