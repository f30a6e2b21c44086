-- ===== src/MessageRoutes/Statuses.antt =====
-- What the message routes answer to an error, and with what attachments a page comes.
use chatspace.Prelude.{Bool, List, ℕ, ◌≢◌, Option, ℤ, arith, Text, err}
use chatspace.Db.{data_error, Violation, Db}
use chatspace.Messages.Media.{SendError, integrity_error}
use chatspace.Messages.Send.{World, ensure_channel_and_membership}
use chatspace.Messages.Revise.{
  ensure_caller_can_see_message, may_edit, may_delete, edit_message, delete_message,
}
use chatspace.Messages.Deliver.{reject_self_dm}
use chatspace.Messages.History.{ensure_dm_history_access}
use chatspace.MessageRoutes.Failures.{channel_send_mapped, dm_send_mapped}
use chatspace.MessageRoutes.{
  send_channel_message_route, send_dm_message_route, unhandled_500, edit_message_route,
  delete_message_route, parse_limit, parse_cursor, history_route, get_channel_message_history_route,
  get_dm_message_history_route,
}

-- An author's edit or deletion.
edit_handled :
    (w : World) (now m u : ℕ) (content : Text) (x : SendError)
    → ((v : Violation) → x ≢ integrity_error v)
    → (edit_message_route w now m u content).1 ≢ err (unhandled_500 x)
unfolding edit_message_route edit_message may_edit ensure_caller_can_see_message
edit_handled w now m u content x other = ground (arith, other data_error)

delete_handled :
    (w : World) (now m u : ℕ) (x : SendError)
    → (delete_message_route w now m u).1 ≢ err (unhandled_500 x)
unfolding delete_message_route delete_message may_delete ensure_caller_can_see_message
delete_handled w now m u x = ground arith

channel_history_handled :
    (int_of : Text → Option ℤ) (db : Db) (limit cursor : Option Text) (c u : ℕ) (x : SendError)
    → get_channel_message_history_route int_of db limit cursor c u ≢ err (unhandled_500 x)
unfolding get_channel_message_history_route history_route ensure_channel_and_membership parse_limit
    parse_cursor
channel_history_handled int_of db limit cursor c u x = ground arith

dm_history_handled :
    (int_of : Text → Option ℤ) (db : Db) (limit cursor : Option Text) (other u : ℕ) (x : SendError)
    → get_dm_message_history_route int_of db limit cursor other u ≢ err (unhandled_500 x)
unfolding get_dm_message_history_route history_route ensure_dm_history_access reject_self_dm
    parse_limit parse_cursor
dm_history_handled int_of db limit cursor other u x = ground arith

-- Whatever other requests do, each error that the services raise of their own gets a status that
-- its route chooses, in all six routes: what is left uncaught is a row or text that the database
-- refuses, and a Redis that does not answer a send.
pub every_error_mapped :
    (redis_answers : Bool) (others : ℕ → World → World) (uuid_of : Text → Option Text)
    (int_of : Text → Option ℤ) (w : World) (header limit cursor : Option Text) (now new_id id u : ℕ)
    (content : Text) (media_ids : List ℕ) (x : SendError)
    → ((v : Violation) → x ≢ integrity_error v)
    → ((send_channel_message_route redis_answers others uuid_of w header new_id now id u content
          media_ids).1
        ≢ err (unhandled_500 x))
      × ((send_dm_message_route redis_answers others uuid_of w header new_id now id u content
            media_ids).1
          ≢ err (unhandled_500 x))
      × ((edit_message_route w now id u content).1 ≢ err (unhandled_500 x))
      × ((delete_message_route w now id u).1 ≢ err (unhandled_500 x))
      × (get_channel_message_history_route int_of w.db limit cursor id u ≢ err (unhandled_500 x))
      × (get_dm_message_history_route int_of w.db limit cursor id u ≢ err (unhandled_500 x))
every_error_mapped redis_answers others uuid_of int_of w header limit cursor now new_id id u content
      media_ids x other =
    (
      λ h.
          let (v, e) =
            channel_send_mapped others uuid_of w header new_id now id u content media_ids x
              redis_answers h in
          other v e,
      λ h.
          let (v, e) =
            dm_send_mapped others uuid_of w header new_id now id u content media_ids x redis_answers
              h in
          other v e,
      edit_handled w now id u content x other,
      delete_handled w now id u x,
      channel_history_handled int_of w.db limit cursor id u x,
      dm_history_handled int_of w.db limit cursor id u x,
    )
