-- ===== src/Examples/Membership.antt =====
-- Channels and their memberships: Channels, Members, MemberAdmin.
use chatspace.Prelude.{
  ℕ, ◌≡◌, refl, ◌≢◌, true, false, none, some, [], ◌∷◌, ◌++◌, find, any_row, select, order_by,
  update_where, delete_where, updated as updated_row, if◌then◌else◌, ◌==◌, ◌&&◌, ◌↔◌, codes, arith,
  ok, err,
}
use chatspace.Db.{
  Db, is_some, member_at, insert_member, member, admin, get_channel, get_member, get_user,
  ChannelMember, check_violation, name_check,
}
use chatspace.Db.WellFormed.{IsWellFormed}
use chatspace.Channels.{count_channel_members, create_channel, is_valid_channel_name}
use chatspace.Channels.Names.{newline_name_violates_check}
use chatspace.Members.{
  admin_of, make_admin, depart, run_sole_admin_succession, succession_loop, succeed_in, JoinResult,
  join_public_channel, leave_channel, left, joined, lock_channel_admin_ids, JoinOutcome,
}
use chatspace.Members.Succession.{IsSuccessor}
use chatspace.Members.Departure.{IsRaised}
use chatspace.Members.Leave.{
  HasAdmin, HasOther, leave_keeps_admin, promotion_lost, sole_admin_succession,
}
use chatspace.MemberAdmin.{
  admin_gate, open_to, with_role, updated, AddMemberResult, add_channel_member, change_member_role,
  remove_channel_member, removed, added,
}
use chatspace.MemberAdmin.Authority.{IsChannelAdmin, admin_gate_iff, outsider_changes_nothing}
use chatspace.MemberAdmin.Effects.{remove_effect, change_role_effect, add_effect}
use chatspace.Examples.Sample.{
  sample, sample-IsWellFormed, ann_general, eve_general, eve_secret, general, secret,
}

-- Ann, the sole admin, leaves: Eve, who joined before Bob, is promoted.
ann_leaves :
    get_member (leave_channel sample sample 10 1).0 10 3
    ≡ some (record eve_general { role = admin })
unfolding leave_channel depart run_sole_admin_succession succession_loop succeed_in get_channel
    get_member find any_row order_by select update_where delete_where
ann_leaves = refl

eve_joins_secret_no_more :
    (join_public_channel sample sample 300 11 2).1
    ≡ ok (record {
      outcome = JoinOutcome.private;
      membership = none;
      channel = some secret;
      member_count = none;
    })
unfolding join_public_channel get_channel get_member find
eve_joins_secret_no_more = refl

newline_name : is_valid_channel_name (codes "ops" ++ (10 ∷ [])) ≡ true
unfolding is_valid_channel_name name_check
newline_name = refl

ann_present : get_member sample 10 1 ≡ some ann_general
unfolding get_member find
ann_present = refl

general_exists : is_some (get_channel sample 10) ≡ true
unfolding get_channel find
general_exists = refl

leave_keeps_admin_example : HasAdmin (leave_channel sample sample 10 1).0 10
unfolding any_row
leave_keeps_admin_example =
    leave_keeps_admin sample sample 10 1 ann_general ann_general sample-IsWellFormed general_exists
      ann_present refl ann_present refl refl

sole_admin_succession_example :
    (s : ChannelMember) × IsSuccessor sample 10 1 s
    × ((u' : ℕ)
        → u' ≢ 1
        → get_member (leave_channel sample sample 10 1).0 10 u'
          ≡ (if s.user_id == u' then some (make_admin s) else get_member sample 10 u'))
unfolding any_row lock_channel_admin_ids order_by select
sole_admin_succession_example =
    sole_admin_succession sample sample 10 1 ann_general ann_general sample-IsWellFormed
      general_exists ann_present refl ann_present refl refl refl

-- Eve's leave reads her as a plain member; Ann, the sole admin, leaves and Eve is promoted; then
-- Eve's row goes.
abbrev ann_gone : Db
ann_gone = (leave_channel sample sample 10 1).0

eve_present : get_member sample 10 3 ≡ some eve_general
unfolding get_member find
eve_present = refl

promotion_lost_example :
    let (after, outcome) = leave_channel sample ann_gone 10 3 in
    (outcome ≡ left) × HasOther after 10 3 × (any_row (admin_of 10) after.members ≡ false)
unfolding leave_channel depart run_sole_admin_succession succession_loop succeed_in get_channel
    get_member find any_row order_by select update_where delete_where
promotion_lost_example =
    promotion_lost sample ann_gone 10 3 eve_general (record eve_general { role = admin })
      general_exists eve_present refl ann_leaves refl refl refl

admin_gate_iff_example :
    (admin_gate sample 10 1 ≡ open_to)
    ↔ ((is_some (get_channel sample 10) ≡ true) × IsChannelAdmin sample 10 1)
admin_gate_iff_example = admin_gate_iff sample 10 1 sample-IsWellFormed

bob_is_no_admin : ¬ IsChannelAdmin sample 10 2
unfolding get_member find
bob_is_no_admin (m, g, k) = ground arith

outsider_changes_nothing_example :
    ((add_channel_member sample sample 300 10 2 3 member).0 ≡ sample)
    × ((change_member_role sample 10 2 3 member).0 ≡ sample)
    × ((remove_channel_member sample 10 2 3).0 ≡ sample)
outsider_changes_nothing_example =
    outsider_changes_nothing sample 10 2 sample-IsWellFormed bob_is_no_admin sample 300 3 member

ann_removes_eve : (remove_channel_member sample 10 1 3).1 ≡ removed
unfolding remove_channel_member get_channel get_member get_user find any_row order_by select
ann_removes_eve = refl

remove_effect_example :
    let after = (remove_channel_member sample 10 1 3).0 in
    IsChannelAdmin sample 10 1
    × (get_member after 10 3 ≡ none)
    × ((c' u' : ℕ) → c' ≢ 10 → get_member after c' u' ≡ get_member sample c' u')
    × ((u' : ℕ) → u' ≢ 3 → IsRaised (get_member sample 10 u') (get_member after 10 u'))
    × (HasOther sample 10 3 → HasAdmin after 10)
remove_effect_example = remove_effect sample 10 1 3 sample-IsWellFormed ann_removes_eve

ann_promotes_bob : (change_member_role sample 10 1 2 admin).1.outcome ≡ updated
unfolding change_member_role get_channel get_member find any_row order_by select
ann_promotes_bob = refl

change_role_effect_example :
    let (after, r) = change_member_role sample 10 1 2 admin in
    IsChannelAdmin sample 10 1
    × (r.membership ≡ get_member after 10 2)
    × ((c' u' : ℕ)
        → get_member after c' u'
          ≡ updated_row (member_at 10 2) (with_role admin) (get_member sample c' u'))
change_role_effect_example =
    change_role_effect sample 10 1 2 sample-IsWellFormed admin ann_promotes_bob

-- Bob's membership taken away, for him to join again.
abbrev without_bob : Db
without_bob = record sample { members = ann_general ∷ eve_general ∷ eve_secret ∷ [] }

without_bob-IsWellFormed : IsWellFormed without_bob
unfolding find get_channel get_user
without_bob-IsWellFormed = record {
  member_keys = (refl, (refl, (refl, tt)));
  channel_keys = sample-IsWellFormed.channel_keys;
  channel_names = sample-IsWellFormed.channel_names;
  names_checked = sample-IsWellFormed.names_checked;
  members_known = ((refl, refl), ((refl, refl), ((refl, refl), tt)));
}

abbrev bob_again : ChannelMember
bob_again = record { channel_id = 10; user_id = 2; role = member; joined_at = 300 }

abbrev bob_joined : JoinResult
bob_joined = record {
  outcome = joined;
  membership = some bob_again;
  channel = some general;
  member_count = some 3;
}

bob_joins : (join_public_channel without_bob without_bob 300 10 2).1 ≡ ok bob_joined
unfolding join_public_channel insert_member count_channel_members get_channel get_member get_user
    find select
bob_joins = refl

abbrev bob_added : AddMemberResult
bob_added = record {
  outcome = added;
  membership = some (record bob_again { role = admin });
  channel = some general;
  member_count = some 3;
}

ann_adds_bob : (add_channel_member without_bob without_bob 300 10 1 2 admin).1 ≡ ok bob_added
unfolding add_channel_member insert_member count_channel_members get_channel get_member get_user
    find any_row order_by select
ann_adds_bob = refl

add_effect_example :
    let after = (add_channel_member without_bob without_bob 300 10 1 2 admin).0 in
    IsChannelAdmin without_bob 10 1
    × (get_member without_bob 10 2 ≡ none)
    × (after ≡ record without_bob {
      members = without_bob.members ++ (record bob_again { role = admin } ∷ []);
    })
    × ((c' u' : ℕ)
        → get_member after c' u' ≡ (
            if 10 == c' && 2 == u'
            then some (record bob_again { role = admin })
            else get_member without_bob c' u'))
add_effect_example =
    add_effect without_bob without_bob 300 10 1 2 admin bob_added without_bob-IsWellFormed
      ann_adds_bob refl

newline_name_violates_check_example :
    (is_valid_channel_name (codes "ops" ++ (10 ∷ [])) ≡ true)
    × (create_channel sample 12 300 (codes "ops" ++ (10 ∷ [])) false 1 ≡ err check_violation)
unfolding name_check
newline_name_violates_check_example =
    newline_name_violates_check sample 12 300 (codes "ops") false 1 refl
