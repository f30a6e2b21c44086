-- ===== src/Examples/Constraints.antt =====
-- The tables' constraints after operations on memberships, and channel names.
use chatspace.Prelude.{
  ◌≡◌, refl, true, false, [], ◌∷◌, ◌++◌, codes, ok, find, any_row, text_eq, lower,
}
use chatspace.Db.{
  Db, Channel, admin, name_check, is_name_char, all_name_chars, insert_channel, insert_member,
  get_channel, get_member, get_user,
}
use chatspace.Channels.{create_channel, is_valid_channel_name}
use chatspace.Examples.Sample.{sample}

abbrev ops : Channel
ops = record { id = 12; name = codes "ops"; is_private = false; created_by = 2; created_at = 300 }

abbrev with_ops : Db
with_ops = record sample {
  channels = sample.channels ++ (ops ∷ []);
  members =
      sample.members
      ++ (record { channel_id = 12; user_id = 2; role = admin; joined_at = 300 } ∷ []);
}

ops_created : create_channel sample 12 300 (codes "ops") false 2 ≡ ok (ops, with_ops)
unfolding create_channel insert_channel insert_member name_check all_name_chars is_name_char
    get_channel get_member get_user find any_row text_eq lower
ops_created = refl

ops_is_valid : is_valid_channel_name (codes "ops") ≡ true
unfolding is_valid_channel_name name_check all_name_chars is_name_char
ops_is_valid = refl
