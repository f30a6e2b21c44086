-- ===== src/MessageRoutes.antt =====
-- The routes of backend/app/api/messages.py over Messages: the header and query parameters, the
-- status of every error, and the answers. `uuid_of` is the standard library's `str(UUID(raw))` and
-- `int_of` its `int(raw)`; the request bodies are arguments, already parsed.
pub mod Failures
pub mod Pages
pub mod Retries
pub mod Statuses
use chatspace.Prelude.{
  ℕ, Bool, Option, none, some, List, ℤ, map, if◌then◌else◌, Text, Result, ok, err,
}
use chatspace.Db.{Db, Message, Attachment}
use chatspace.Messages.Media.{SendError, get_message_media}
use chatspace.Messages.Batch.{get_media_for_messages}
use chatspace.Messages.Send.{World, SendMessageResult, ensure_channel_and_membership}
use chatspace.Messages.Deliver.{send_channel_message, send_dm_message}
use chatspace.Messages.Revise.{edit_message, delete_message}
use chatspace.Messages.History.{
  get_channel_message_history, get_dm_message_history, ensure_dm_history_access,
}
use chatspace.Pagination.Cursor.{CursorKey, decode_cursor}
use chatspace.Pagination.Keyset.{Page, resolve_limit}

-- An exception that no clause of a route catches is a 500; `redis_500` is that of a send whose first
-- read of the claim fails, since nothing catches a Redis error there.
pub data MessageRouteError : Type 0 where
  bad_request_400 forbidden_403 not_found_404 conflict_409 : MessageRouteError
  unprocessable_422 unavailable_503 : MessageRouteError
  unhandled_500 : SendError → MessageRouteError
  redis_500 : MessageRouteError

pub data SendAnswer : Type 0 where
  created_201 replayed_200 : Message → List Attachment → SendAnswer

unfoldable pub parse_idempotency_key :
    (uuid_of : Text → Option Text) → Option Text → Result MessageRouteError Text
parse_idempotency_key uuid_of none = err bad_request_400
parse_idempotency_key uuid_of (some raw) = elim (uuid_of raw) [
  | none ↦ err bad_request_400
  | some key ↦ ok key
]

abbrev bad_request : {A E : Type 0} → Result E A → Result MessageRouteError A
bad_request (ok a) = ok a
bad_request (err _) = err bad_request_400

unfoldable pub parse_limit : (int_of : Text → Option ℤ) → Option Text → Result MessageRouteError ℕ
parse_limit int_of none = bad_request (resolve_limit none)
parse_limit int_of (some raw) = elim (int_of raw) [
  | none ↦ err bad_request_400
  | some n ↦ bad_request (resolve_limit (some n))
]

unfoldable pub parse_cursor : Option Text → Result MessageRouteError (Option CursorKey)
parse_cursor none = ok none
parse_cursor (some raw) = elim (decode_cursor raw) [
  | err _ ↦ err bad_request_400
  | ok key ↦ ok (some key)
]

abbrev pub channel_send_status : SendError → MessageRouteError
channel_send_status SendError.channel_not_found = not_found_404
channel_send_status SendError.not_channel_member = forbidden_403
channel_send_status SendError.invalid_content = unprocessable_422
channel_send_status SendError.invalid_media = unprocessable_422
channel_send_status SendError.resolution_timeout = unavailable_503
channel_send_status e = unhandled_500 e

abbrev pub dm_send_status : SendError → MessageRouteError
dm_send_status SendError.self_dm = unprocessable_422
dm_send_status SendError.recipient_not_found = not_found_404
dm_send_status SendError.invalid_content = unprocessable_422
dm_send_status SendError.invalid_media = unprocessable_422
dm_send_status SendError.resolution_timeout = unavailable_503
dm_send_status e = unhandled_500 e

abbrev pub edit_status : SendError → MessageRouteError
edit_status SendError.message_not_found = not_found_404
edit_status SendError.not_message_author = forbidden_403
edit_status SendError.message_already_deleted = conflict_409
edit_status SendError.invalid_content = unprocessable_422
edit_status e = unhandled_500 e

abbrev pub delete_status : SendError → MessageRouteError
delete_status SendError.message_not_found = not_found_404
delete_status SendError.not_message_author = forbidden_403
delete_status e = unhandled_500 e

abbrev pub send_answer :
    (status_of : SendError → MessageRouteError)
    → World × Result SendError SendMessageResult
    → World × Result MessageRouteError SendAnswer
send_answer status_of (w, err e) = (w, err (status_of e))
send_answer status_of (w, ok r) =
    (w, ok (if r.created then created_201 r.message r.media else replayed_200 r.message r.media))

module _ (redis_answers : Bool) (others : ℕ → World → World) (uuid_of : Text → Option Text)
    (w : World) where
  module _ (idempotency_key : Option Text) (new_id now : ℕ) where
    unfoldable pub send_channel_message_route :
        (channel_id user_id : ℕ) → Text → List ℕ → World × Result MessageRouteError SendAnswer
    send_channel_message_route c u content media_ids =
        elim (parse_idempotency_key uuid_of idempotency_key) [
          | err e ↦ (w, err e)
          | ok key ↦
              if redis_answers
              then send_answer channel_send_status
                  (send_channel_message others w key new_id now c u content media_ids)
              else (w, err redis_500)
        ]

    unfoldable pub send_dm_message_route :
        (recipient_id user_id : ℕ) → Text → List ℕ → World × Result MessageRouteError SendAnswer
    send_dm_message_route recipient u content media_ids =
        elim (parse_idempotency_key uuid_of idempotency_key) [
          | err e ↦ (w, err e)
          | ok key ↦
              if redis_answers
              then send_answer dm_send_status
                  (send_dm_message others w key new_id now recipient u content media_ids)
              else (w, err redis_500)
        ]

abbrev edit_answer :
    (message_id : ℕ)
    → World × Result SendError Message
    → World × Result MessageRouteError (Message × List Attachment)
edit_answer m (w, err e) = (w, err (edit_status e))
edit_answer m (w, ok r) = (w, ok (r, get_message_media w.db m))

unfoldable pub edit_message_route :
    World
    → (now message_id user_id : ℕ) → Text
    → World × Result MessageRouteError (Message × List Attachment)
edit_message_route w now m u content = edit_answer m (edit_message w now m u content)

abbrev delete_answer :
    World × Result SendError Message → World × Result MessageRouteError (Unit {0})
delete_answer (w, err e) = (w, err (delete_status e))
delete_answer (w, ok r) = (w, ok tt)

unfoldable pub delete_message_route :
    World → (now message_id user_id : ℕ) → World × Result MessageRouteError (Unit {0})
delete_message_route w now m u = delete_answer (delete_message w now m u)

abbrev pub channel_history_status : SendError → MessageRouteError
channel_history_status SendError.channel_not_found = not_found_404
channel_history_status SendError.not_channel_member = forbidden_403
channel_history_status e = unhandled_500 e

abbrev pub dm_history_status : SendError → MessageRouteError
dm_history_status SendError.self_dm = unprocessable_422
dm_history_status SendError.recipient_not_found = not_found_404
dm_history_status e = unhandled_500 e

unfoldable pub history_response : Db → Page Message → Page (Message × List Attachment)
history_response db page = record {
  items = map (λ m. (m, get_media_for_messages db (map (λ r. r.id) page.items) m.id)) page.items;
  next_cursor = page.next_cursor;
}

module _ (int_of : Text → Option ℤ) (db : Db) (limit cursor : Option Text) where
  -- The two parameters, then the access of this kind of history, then the page.
  unfoldable pub history_route :
      (status_of : SendError → MessageRouteError)
      → Result SendError (Unit {0})
      → (ℕ → Option CursorKey → Page Message)
      → Result MessageRouteError (Page (Message × List Attachment))
  history_route status_of access page = elim (parse_limit int_of limit) [
    | err e ↦ err e
    | ok resolved_limit ↦ elim (parse_cursor cursor) [
      | err e ↦ err e
      | ok resolved_cursor ↦ elim access [
        | err e ↦ err (status_of e)
        | ok _ ↦ ok (history_response db (page resolved_limit resolved_cursor))
      ]
    ]
  ]

  unfoldable pub get_channel_message_history_route :
      (channel_id user_id : ℕ) → Result MessageRouteError (Page (Message × List Attachment))
  unfolding history_route
  get_channel_message_history_route c u =
      history_route channel_history_status (ensure_channel_and_membership db c u)
        (get_channel_message_history db c)

  unfoldable pub get_dm_message_history_route :
      (other_user_id user_id : ℕ) → Result MessageRouteError (Page (Message × List Attachment))
  unfolding history_route
  get_dm_message_history_route other u =
      history_route dm_history_status (ensure_dm_history_access db other u)
        (get_dm_message_history db u other)
