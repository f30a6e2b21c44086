-- ===== src/Db.antt =====
-- The Postgres tables that the services read and write: backend/app/models/channel.py,
-- channel_member.py, message.py, attachment.py and user.py, with the constraints of
-- backend/alembic/versions/0001_initial_schema.py that an INSERT can violate.
-- A UUID is the number that its 128 bits stand for; a timestamp counts microseconds.
pub mod WellFormed
use chatspace.Prelude.{
  ℕ, Bool, true, false, Option, none, some, List, [], ◌∷◌, ◌++◌, ◌&&◌, ◌||◌, not, ◌==◌, leb, length,
  if◌then◌else◌, find, any_row, Text, text_eq, lower, Result, ok, err,
}

pub data Role : Type 0 where
  member admin : Role

abbrev pub is_admin : Role → Bool
is_admin member = false
is_admin admin = true

abbrev pub role_eq : Role → Role → Bool
role_eq member member = true
role_eq admin admin = true
role_eq _ _ = false

pub record User : Type 0 where
  pub id : ℕ
  pub username : Text
  pub email : Text
  pub hashed_password : Text
  pub first_name : Text
  pub last_name : Text
  pub avatar_url : Option Text
  pub is_active : Bool
  pub is_system_admin : Bool
  pub must_change_password : Bool
  pub email_verified : Bool
  pub last_seen : Option ℕ
  pub created_at : ℕ

pub record Channel : Type 0 where
  pub id : ℕ
  pub name : Text
  pub is_private : Bool
  pub created_by : ℕ
  pub created_at : ℕ

pub record ChannelMember : Type 0 where
  pub channel_id : ℕ
  pub user_id : ℕ
  pub role : Role
  pub joined_at : ℕ

pub data AttachmentKind : Type 0 where
  image file video : AttachmentKind

pub record Attachment : Type 0 where
  pub id : ℕ
  pub message_id : Option ℕ
  pub uploader_id : ℕ
  pub kind : AttachmentKind
  pub content_type : Text
  pub storage_key : Text
  pub filename : Text
  pub byte_size : ℕ
  pub created_at : ℕ

pub record Message : Type 0 where
  pub id : ℕ
  pub channel_id : Option ℕ
  pub recipient_id : Option ℕ
  pub sender_id : ℕ
  pub content : Text
  pub created_at : ℕ
  pub edited_at : Option ℕ
  pub deleted_at : Option ℕ

pub record Db : Type 0 where
  pub users : List User
  pub channels : List Channel
  pub members : List ChannelMember
  pub messages : List Message
  pub attachments : List Attachment

-- What `IntegrityError` carries.
-- Why the database refuses a row; a `data_error` is text that it cannot store.
pub data Violation : Type 0 where
  unique_violation check_violation foreign_key_violation data_error : Violation

abbrev pub user_at : ℕ → User → Bool
user_at u r = r.id == u

abbrev pub channel_at : ℕ → Channel → Bool
channel_at c r = r.id == c

abbrev pub member_at : ℕ → ℕ → ChannelMember → Bool
member_at c u r = r.channel_id == c && r.user_id == u

abbrev pub message_at : ℕ → Message → Bool
message_at m r = r.id == m

-- `db.get(User, id)` and its siblings: a read by primary key.
unfoldable pub get_user : Db → ℕ → Option User
get_user db u = find (user_at u) db.users

unfoldable pub get_channel : Db → ℕ → Option Channel
get_channel db c = find (channel_at c) db.channels

unfoldable pub get_member : Db → ℕ → ℕ → Option ChannelMember
get_member db c u = find (member_at c u) db.members

unfoldable pub get_message : Db → ℕ → Option Message
get_message db m = find (message_at m) db.messages

abbrev pub is_some {ℓ} : {A : Type ℓ} → Option A → Bool
is_some none = false
is_some (some _) = true

-- The characters of the `name` CHECK.
unfoldable pub is_name_char : ℕ → Bool
is_name_char c =
    leb b'A' c && leb c b'Z'
    || leb b'a' c && leb c b'z'
    || leb b'0' c && leb c b'9'
    || c == 32
    || c == b'_'
    || c == b'-'

unfoldable pub all_name_chars : Text → Bool
unfolding is_name_char
all_name_chars [] = true
all_name_chars (c ∷ s) = is_name_char c && all_name_chars s

-- `name ~ '^[A-Za-z0-9 _-]{1,80}$'` in Postgres, where `$` matches at the very end only.
unfoldable pub name_check : Text → Bool
unfolding all_name_chars
name_check s = all_name_chars s && leb 1 (length s) && leb (length s) 80

abbrev pub same_name : Text → Channel → Bool
same_name s r = text_eq (lower r.name) (lower s)

-- `channel_id` alone, or a `recipient_id` other than the sender alone.
unfoldable pub target_xor : (channel_id recipient_id : Option ℕ) (sender_id : ℕ) → Bool
target_xor (some c) none s = true
target_xor none (some u) s = not (u == s)
target_xor (some c) (some u) s = false
target_xor none none s = false

-- `char_length(content) <= 4000 AND btrim(content) <> ''`: some character is not a space.
unfoldable pub content_check : Text → Bool
content_check s = leb (length s) 4000 && any_row (λ c. not (c == 32)) s

abbrev pub known_target : Db → (channel_id recipient_id : Option ℕ) → Bool
known_target db (some c) (some u) = is_some (get_channel db c) && is_some (get_user db u)
known_target db (some c) none = is_some (get_channel db c)
known_target db none (some u) = is_some (get_user db u)
known_target db none none = true

-- Postgres stores no U+0000 in a `text`.
unfoldable pub is_storable : Text → Bool
is_storable s = not (any_row (λ c. c == 0) s)

-- INSERT INTO messages: the encoding of the content, the CHECKs, the primary key, then the foreign keys.
unfoldable pub insert_message : Db → Message → Result Violation Db
insert_message db r =
    if not (is_storable r.content)
    then err data_error
    else if not (target_xor r.channel_id r.recipient_id r.sender_id && content_check r.content)
    then err check_violation
    else if is_some (get_message db r.id)
    then err unique_violation
    else if not (is_some (get_user db r.sender_id) && known_target db r.channel_id r.recipient_id)
    then err foreign_key_violation
    else ok (record db { messages = db.messages ++ (r ∷ []) })

-- INSERT INTO channels: the CHECK, the unique indexes, then the foreign key.
unfoldable pub insert_channel : Db → Channel → Result Violation Db
insert_channel db r =
    if not (name_check r.name)
    then err check_violation
    else if any_row (channel_at r.id) db.channels || any_row (same_name r.name) db.channels
    then err unique_violation
    else if not (is_some (get_user db r.created_by))
    then err foreign_key_violation
    else ok (record db { channels = db.channels ++ (r ∷ []) })

-- INSERT INTO channel_members: the composite primary key, then the foreign keys.
unfoldable pub insert_member : Db → ChannelMember → Result Violation Db
insert_member db r =
    if is_some (get_member db r.channel_id r.user_id)
    then err unique_violation
    else if not (is_some (get_channel db r.channel_id) && is_some (get_user db r.user_id))
    then err foreign_key_violation
    else ok (record db { members = db.members ++ (r ∷ []) })
