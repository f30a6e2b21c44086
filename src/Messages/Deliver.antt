-- ===== src/Messages/Deliver.antt =====
-- The two kinds of send of backend/app/services/messages.py: the checks and the row of each.
use chatspace.Prelude.{
  ℕ, Bool, false, Option, none, some, List, not, ◌==◌, Text, Result, ok, guard, ◌>>=◌, ◌>>◌,
}
use chatspace.Db.{Db, User, Message, get_user}
use chatspace.Messages.Content.{is_valid_content}
use chatspace.Messages.Media.{
  SendError, invalid_content, self_dm, recipient_not_found, validate_and_load_media,
}
use chatspace.Messages.Send.{World, SendMessageResult, ensure_channel_and_membership, send_message}

-- What both sends check last: the content, then the attachments.
unfoldable pub check_body : Db → Text → List ℕ → (sender_id : ℕ) → Result SendError (Unit {0})
check_body db content media_ids sender =
    guard (is_valid_content content) invalid_content
    >> (validate_and_load_media db media_ids sender >>= (λ _. ok tt))

unfoldable pub channel_checks :
    (channel_id sender_id : ℕ) → Text → List ℕ → Db → Result SendError (Unit {0})
unfolding check_body
channel_checks c sender content media_ids db =
    ensure_channel_and_membership db c sender >> check_body db content media_ids sender

abbrev pub channel_message : (channel_id sender_id : ℕ) → Text → (message_id now : ℕ) → Message
channel_message c sender content m now = record {
  id = m;
  channel_id = some c;
  recipient_id = none;
  sender_id = sender;
  content = content;
  created_at = now;
  edited_at = none;
  deleted_at = none;
}

unfoldable pub reject_self_dm : (recipient_id sender_id : ℕ) → Result SendError (Unit {0})
reject_self_dm recipient sender = guard (not (recipient == sender)) self_dm

abbrev pub is_active_user : Option User → Bool
is_active_user none = false
is_active_user (some r) = r.is_active

unfoldable pub ensure_active_recipient_exists :
    Db → (recipient_id : ℕ) → Result SendError (Unit {0})
ensure_active_recipient_exists db recipient =
    guard (is_active_user (get_user db recipient)) recipient_not_found

unfoldable pub dm_checks :
    (recipient_id sender_id : ℕ) → Text → List ℕ → Db → Result SendError (Unit {0})
unfolding check_body reject_self_dm ensure_active_recipient_exists
dm_checks recipient sender content media_ids db =
    reject_self_dm recipient sender
    >> ensure_active_recipient_exists db recipient
    >> check_body db content media_ids sender

abbrev pub dm_message : (recipient_id sender_id : ℕ) → Text → (message_id now : ℕ) → Message
dm_message recipient sender content m now = record {
  id = m;
  channel_id = none;
  recipient_id = some recipient;
  sender_id = sender;
  content = content;
  created_at = now;
  edited_at = none;
  deleted_at = none;
}

module _ (others : ℕ → World → World) (w : World) (key : Text) (message_id now : ℕ) where
  unfoldable pub send_channel_message :
      (channel_id sender_id : ℕ) → Text → List ℕ → World × Result SendError SendMessageResult
  send_channel_message c sender content media_ids =
      send_message others (channel_checks c sender content media_ids) w key media_ids
        (channel_message c sender content message_id now)

  unfoldable pub send_dm_message :
      (recipient_id sender_id : ℕ) → Text → List ℕ → World × Result SendError SendMessageResult
  send_dm_message recipient sender content media_ids =
      send_message others (dm_checks recipient sender content media_ids) w key media_ids
        (dm_message recipient sender content message_id now)
