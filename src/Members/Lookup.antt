-- ===== src/Members/Lookup.antt =====
-- What a later lookup of a membership sees of each write: the table as a map from keys to rows.
use chatspace.Prelude.{
  ℕ, ◌≡◌, Bool, true, none, some, List, [], ◌∷◌, ◌++◌, ◌&&◌, ◌==◌, arith, find, update_where,
  find-append, find-append_some, find-delete_where, find-delete_where_self, find-update_where,
  updated, if◌then◌else◌, ok, Bool-cases, Option-cases, inl, inr,
}
use chatspace.Db.{Db, ChannelMember, get_member, insert_member, member_at}
use chatspace.Db.WellFormed.{insert_member-ok}
use chatspace.Members.{remove_row}

module _ (c u c' u' : ℕ) where
  key_fst : (c' == c && u' == u) ≡ true → c' ≡ c
  key_fst e = ground arith

  key_snd : (c' == c && u' == u) ≡ true → u' ≡ u
  key_snd e = ground arith

  pub get_member-remove_row :
      (db : Db)
      → get_member (remove_row db c u) c' u'
        ≡ (if c' == c && u' == u then none else get_member db c' u')
  unfolding get_member
  get_member-remove_row db = elim (Bool-cases (c' == c && u' == u)) [
    | inl e ↦ rw (e, key_fst e, key_snd e) (find-delete_where_self (member_at c u) db.members)
    | inr e ↦
        rw e (find-delete_where (member_at c' u') (member_at c u) (λ x h. ground arith) db.members)
  ]

  pub get_member-set :
      (f : ChannelMember → ChannelMember) (db : Db)
      → ((r : ChannelMember) → member_at c' u' (f r) ≡ member_at c' u' r)
      → get_member (record db { members = update_where (member_at c u) f db.members }) c' u'
        ≡ updated (member_at c u) f (get_member db c' u')
  unfolding get_member
  get_member-set f db k = find-update_where (member_at c' u') (member_at c u) f k db.members

find-append_one :
    (p : ChannelMember → Bool) (r : ChannelMember) (xs : List ChannelMember)
    → (p r ≡ true → find p xs ≡ none)
    → find p (xs ++ (r ∷ [])) ≡ (if p r then some r else find p xs)
unfolding find
find-append_one p r xs k = elim (Option-cases (find p xs)) [
  | inl n ↦ rw (find-append p xs (r ∷ []) n, n)
  | inr (a, e) ↦ ground (arith, find-append_some p xs (r ∷ []) a e)
]

pub get_member-insert_member :
    (db db' : Db) (r : ChannelMember) (c' u' : ℕ)
    → insert_member db r ≡ ok db'
    → get_member db' c' u'
      ≡ (if r.channel_id == c' && r.user_id == u' then some r else get_member db c' u')
unfolding get_member
get_member-insert_member db db' r c' u' h =
    let i = insert_member-ok db db' r h in
    rw i.2 (
      find-append_one (member_at c' u') r db.members (λ e.
        rw (← key_fst c' u' r.channel_id r.user_id e, ← key_snd c' u' r.channel_id r.user_id e)
          i.0))
