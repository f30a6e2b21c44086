-- ===== src/Messages/Media.antt =====
-- Attachments of a message: the early check, the conditional UPDATE that binds them and the
-- read-back, in backend/app/services/messages.py.
use chatspace.Prelude.{
  ℕ, Bool, true, false, Option, none, some, List, [], ◌∷◌, ◌&&◌, ◌||◌, ◌==◌, ltb, leb,
  if◌then◌else◌, find, any_row, select, update_where, order_by, length, Result, ok, err, ◌>>=◌,
}
use chatspace.Db.{Db, Attachment, Violation}

pub data SendError : Type 0 where
  channel_not_found not_channel_member invalid_content invalid_media : SendError
  self_dm recipient_not_found resolution_timeout : SendError
  message_not_found not_message_author message_already_deleted : SendError
  integrity_error : Violation → SendError

abbrev pub is_id : Option ℕ → ℕ → Bool
is_id none m = false
is_id (some n) m = n == m

abbrev pub bound_to : ℕ → Attachment → Bool
bound_to m a = is_id a.message_id m

abbrev pub is_null : Option ℕ → Bool
is_null none = true
is_null (some _) = false

abbrev pub attached_before : Attachment → Attachment → Bool
attached_before a b = ltb a.created_at b.created_at || a.created_at == b.created_at && leb a.id b.id

unfoldable pub get_message_media : Db → ℕ → List Attachment
get_message_media db m = order_by attached_before (select (bound_to m) db.attachments)

abbrev pub is_usable : ℕ → Attachment → Bool
is_usable sender a = a.uploader_id == sender && is_null a.message_id

abbrev pub attachment_at : ℕ → Attachment → Bool
attachment_at i a = a.id == i

unfoldable pub validate_and_load_media : Db → List ℕ → ℕ → Result SendError (List Attachment)
validate_and_load_media db [] sender = ok []
validate_and_load_media db (i ∷ ids) sender = elim (find (attachment_at i) db.attachments) [
  | none ↦ err invalid_media
  | some a ↦
      if is_usable sender a
      then (validate_and_load_media db ids sender >>= (λ rest. ok (a ∷ rest)))
      else err invalid_media
]

abbrev pub is_requested : List ℕ → ℕ → Attachment → Bool
is_requested ids sender a = any_row (λ i. a.id == i) ids && is_usable sender a

abbrev pub bind_to : ℕ → Attachment → Attachment
bind_to m a = record a { message_id = some m }

-- The UPDATE, whose row count must be the number of requested ids, and the read-back.
unfoldable pub bind_media_atomically :
    Db
    → (message_id : ℕ) (media_ids : List ℕ) (sender_id : ℕ)
    → Result SendError (Db × List Attachment)
bind_media_atomically db m [] sender = ok (db, [])
bind_media_atomically db m (i ∷ ids) sender =
    let requested = is_requested (i ∷ ids) sender in
    let db' = record db { attachments = update_where requested (bind_to m) db.attachments } in
    if length (select requested db.attachments) == length (i ∷ ids)
    then ok (db', get_message_media db' m)
    else err invalid_media
