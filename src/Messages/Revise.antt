-- ===== src/Messages/Revise.antt =====
-- Edits and soft deletions by the author, in backend/app/services/messages.py.
use chatspace.Prelude.{
  ℕ, Option, none, some, not, ◌==◌, if◌then◌else◌, update_where, Text, text_eq, Result, ok, err,
  guard, ◌>>◌,
}
use chatspace.Db.{
  Db, Message, data_error, get_member, get_message, is_some, is_storable, message_at,
}
use chatspace.Messages.Content.{is_valid_content}
use chatspace.Messages.Media.{
  SendError, invalid_content, message_not_found, not_message_author, message_already_deleted,
  get_message_media, integrity_error,
}
use chatspace.Messages.Send.{World, message_edited, message_deleted, publish}

-- A message that has no channel passes: the visibility of a DM is left to the author check.
unfoldable pub ensure_caller_can_see_message :
    Db → (channel_id : Option ℕ) (caller_id : ℕ) → Result SendError (Unit {0})
ensure_caller_can_see_message db none u = ok tt
ensure_caller_can_see_message db (some c) u = guard (is_some (get_member db c u)) message_not_found

abbrev pub put_message : World → ℕ → (Message → Message) → World
put_message w m f = record w {
  db = record w.db { messages = update_where (message_at m) f w.db.messages };
}

abbrev pub with_content : Text → ℕ → Message → Message
with_content content now r = record r { content = content; edited_at = some now }

abbrev pub with_deletion : ℕ → Message → Message
with_deletion now r = record r { deleted_at = some now }

-- The guards of an edit, in their order.
unfoldable pub may_edit : Db → Message → (caller_id : ℕ) → Text → Result SendError (Unit {0})
unfolding ensure_caller_can_see_message
may_edit db r u content =
    ensure_caller_can_see_message db r.channel_id u
    >> guard (r.sender_id == u) not_message_author
    >> guard (not (is_some r.deleted_at)) message_already_deleted
    >> guard (is_valid_content content) invalid_content

unfoldable pub edit_message :
    World → (now message_id caller_id : ℕ) → Text → World × Result SendError Message
unfolding may_edit publish
edit_message w now m u content = elim (get_message w.db m) [
  | none ↦ (w, err message_not_found)
  | some r ↦ elim (may_edit w.db r u content) [
    | err e ↦ (w, err e)
    | ok _ ↦
        let r' = with_content content now r in
        let w' = put_message w m (with_content content now) in
        if text_eq content r.content
        then (w, ok r)
        else if not (is_storable content)
        then (w, err (integrity_error data_error))
        else (publish w' r' (message_edited r' (get_message_media w'.db m)), ok r')
  ]
]

-- The guards of a deletion.
unfoldable pub may_delete : Db → Message → (caller_id : ℕ) → Result SendError (Unit {0})
unfolding ensure_caller_can_see_message
may_delete db r u =
    ensure_caller_can_see_message db r.channel_id u >> guard (r.sender_id == u) not_message_author

unfoldable pub delete_message :
    World → (now message_id caller_id : ℕ) → World × Result SendError Message
unfolding may_delete publish
delete_message w now m u = elim (get_message w.db m) [
  | none ↦ (w, err message_not_found)
  | some r ↦ elim (may_delete w.db r u) [
    | err e ↦ (w, err e)
    | ok _ ↦
        let r' = with_deletion now r in
        if is_some r.deleted_at
        then (w, ok r)
        else (publish (put_message w m (with_deletion now)) r' (message_deleted r'), ok r')
  ]
]
