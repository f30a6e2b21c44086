-- ===== src/Db/WellFormed.antt =====
-- The constraints of the schema as an invariant of the tables, kept by every write.
use chatspace.Prelude.{
  ◌≡◌, refl, Bool, true, false, none, List, [], ◌∷◌, ◌++◌, arith, find, any_row, update_where,
  delete_where, All, Distinct, Distinct-append_one, Distinct-delete_where, Distinct-update_where,
  All-append_one, All-delete_where, All-update_where, All-weaken, find-append_some, text_eq, lower,
  ok, Option-cases, inl, inr,
}
use chatspace.Db.{
  Db, Channel, ChannelMember, get_channel, get_member, get_user, insert_channel, insert_member,
  member_at, channel_at, same_name, is_some, name_check,
}

abbrev pub same_member : ChannelMember → ChannelMember → Bool
same_member a b = member_at a.channel_id a.user_id b

abbrev pub same_channel : Channel → Channel → Bool
same_channel a b = channel_at a.id b

abbrev pub same_channel_name : Channel → Channel → Bool
same_channel_name a b = text_eq (lower a.name) (lower b.name)

-- The foreign keys of a membership.
abbrev pub IsKnown : Db → ChannelMember → Type 0
IsKnown db m =
    (is_some (get_channel db m.channel_id) ≡ true) × (is_some (get_user db m.user_id) ≡ true)

pub record IsWellFormed (db : Db) : Type 0 where
  pub member_keys : Distinct same_member db.members
  pub channel_keys : Distinct same_channel db.channels
  pub channel_names : Distinct same_channel_name db.channels
  pub names_checked : All (λ r. name_check r.name ≡ true) db.channels
  pub members_known : All (IsKnown db) db.members

find_of_any_row :
    {A : Type 0} (p : A → Bool) (xs : List A) → any_row p xs ≡ false → find p xs ≡ none
unfolding find any_row
find_of_any_row p [] h = refl
find_of_any_row p (x ∷ xs) h = ground (arith, find_of_any_row p xs)

insert_channel-ok :
    (db db' : Db) (r : Channel)
    → insert_channel db r ≡ ok db'
    → (name_check r.name ≡ true)
      × (any_row (channel_at r.id) db.channels ≡ false)
      × (any_row (same_name r.name) db.channels ≡ false)
      × (db' ≡ record db { channels = db.channels ++ (r ∷ []) })
unfolding insert_channel
insert_channel-ok db db' r h = ground arith

is_some-find-append :
    {A : Type 0} (p : A → Bool) (xs ys : List A)
    → is_some (find p xs) ≡ true
    → is_some (find p (xs ++ ys)) ≡ true
is_some-find-append p xs ys h = elim (Option-cases (find p xs)) [
  | inl n ↦ ground arith
  | inr (a, e) ↦ rw (find-append_some p xs ys a e)
]

pub insert_channel-IsWellFormed :
    (db db' : Db) (r : Channel) → IsWellFormed db → insert_channel db r ≡ ok db' → IsWellFormed db'
unfolding get_channel get_user
insert_channel-IsWellFormed db db' r w h =
    let i = insert_channel-ok db db' r h in
    rw i.3 (record {
      member_keys = w.member_keys;
      channel_keys =
          Distinct-append_one same_channel (channel_at r.id) r (λ x. ground arith) db.channels
            (find_of_any_row _ _ i.1) w.channel_keys;
      channel_names =
          Distinct-append_one same_channel_name (same_name r.name) r (λ x. refl) db.channels
            (find_of_any_row _ _ i.2) w.channel_names;
      names_checked = All-append_one _ r db.channels i.0 w.names_checked;
      members_known =
          All-weaken (IsKnown db) _
            (λ m k. (is_some-find-append (channel_at m.channel_id) db.channels (r ∷ []) k.0, k.1))
            db.members w.members_known;
    })

-- What a successful INSERT says of the tables before and after.
pub insert_member-ok :
    (db db' : Db) (r : ChannelMember)
    → insert_member db r ≡ ok db'
    → (get_member db r.channel_id r.user_id ≡ none)
      × IsKnown db r
      × (db' ≡ record db { members = db.members ++ (r ∷ []) })
unfolding insert_member
insert_member-ok db db' r h = ground arith

pub insert_member-IsWellFormed :
    (db db' : Db) (r : ChannelMember)
    → IsWellFormed db
    → insert_member db r ≡ ok db'
    → IsWellFormed db'
unfolding get_channel get_user get_member
insert_member-IsWellFormed db db' r w h =
    let i = insert_member-ok db db' r h in
    rw i.2 (record {
      member_keys =
          Distinct-append_one same_member (member_at r.channel_id r.user_id) r (λ x. ground arith)
            db.members i.0 w.member_keys;
      channel_keys = w.channel_keys;
      channel_names = w.channel_names;
      names_checked = w.names_checked;
      members_known = All-append_one (IsKnown db) r db.members i.1 w.members_known;
    })

module _ (db : Db) (w : IsWellFormed db) where
  pub delete_member-IsWellFormed :
      (q : ChannelMember → Bool) → IsWellFormed (record db { members = delete_where q db.members })
  unfolding get_channel get_user
  delete_member-IsWellFormed q = record {
    member_keys = Distinct-delete_where same_member q db.members w.member_keys;
    channel_keys = w.channel_keys;
    channel_names = w.channel_names;
    names_checked = w.names_checked;
    members_known = All-delete_where (IsKnown db) q db.members w.members_known;
  }

  -- An UPDATE that leaves the key columns alone.
  pub update_member-IsWellFormed :
      (q : ChannelMember → Bool) (f : ChannelMember → ChannelMember)
      → ((r : ChannelMember) → (f r).channel_id ≡ r.channel_id)
      → ((r : ChannelMember) → (f r).user_id ≡ r.user_id)
      → IsWellFormed (record db { members = update_where q f db.members })
  unfolding get_channel get_user
  update_member-IsWellFormed q f fc fu = record {
    member_keys =
        Distinct-update_where same_member q f (λ x y. rw (fc y, fu y)) (λ x y. rw (fc x, fu x))
          db.members w.member_keys;
    channel_keys = w.channel_keys;
    channel_names = w.channel_names;
    names_checked = w.names_checked;
    members_known =
        All-update_where (IsKnown db) q f (λ r k. rw (fc r, fu r) k) db.members w.members_known;
  }
