-- ===== src/Examples/Sample.antt =====
-- Three users, a public and a private channel, and the memberships of both.
use chatspace.Prelude.{ℕ, refl, true, false, none, some, [], ◌∷◌, find, codes, text_eq, lower}
use chatspace.Db.{
  Db, User, Channel, ChannelMember, Message, Attachment, image, member, admin, get_channel,
  get_user, name_check,
}
use chatspace.Db.WellFormed.{IsWellFormed}

abbrev pub user : ℕ → User
user n = record {
  id = n;
  username = codes "u";
  email = codes "u@x";
  hashed_password = [];
  first_name = codes "A";
  last_name = codes "B";
  avatar_url = none;
  is_active = true;
  is_system_admin = false;
  must_change_password = false;
  email_verified = true;
  last_seen = none;
  created_at = 1;
}

abbrev pub general : Channel
general = record {
  id = 10;
  name = codes "General";
  is_private = false;
  created_by = 1;
  created_at = 100;
}

abbrev pub secret : Channel
secret = record {
  id = 11;
  name = codes "secret-1";
  is_private = true;
  created_by = 3;
  created_at = 50;
}

abbrev pub ann_general : ChannelMember
ann_general = record { channel_id = 10; user_id = 1; role = admin; joined_at = 100 }

abbrev pub bob_general : ChannelMember
bob_general = record { channel_id = 10; user_id = 2; role = member; joined_at = 120 }

abbrev pub eve_general : ChannelMember
eve_general = record { channel_id = 10; user_id = 3; role = member; joined_at = 110 }

abbrev pub eve_secret : ChannelMember
eve_secret = record { channel_id = 11; user_id = 3; role = admin; joined_at = 50 }

abbrev pub hello : Message
hello = record {
  id = 500;
  channel_id = some 10;
  recipient_id = none;
  sender_id = 1;
  content = codes "hello";
  created_at = 200;
  edited_at = none;
  deleted_at = none;
}

abbrev pub photo : Attachment
photo = record {
  id = 900;
  message_id = none;
  uploader_id = 1;
  kind = image;
  content_type = codes "image/png";
  storage_key = codes "k";
  filename = codes "p.png";
  byte_size = 10;
  created_at = 150;
}

abbrev pub sample : Db
sample = record {
  users = user 1 ∷ user 2 ∷ user 3 ∷ [];
  channels = general ∷ secret ∷ [];
  members = ann_general ∷ bob_general ∷ eve_general ∷ eve_secret ∷ [];
  messages = hello ∷ [];
  attachments = photo ∷ [];
}

pub sample-IsWellFormed : IsWellFormed sample
unfolding find text_eq lower name_check get_channel get_user
sample-IsWellFormed = record {
  member_keys = (refl, (refl, (refl, (refl, tt))));
  channel_keys = (refl, (refl, tt));
  channel_names = (refl, (refl, tt));
  names_checked = (refl, (refl, tt));
  members_known = ((refl, refl), ((refl, refl), ((refl, refl), ((refl, refl), tt))));
}
