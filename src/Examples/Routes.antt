-- ===== src/Examples/Routes.antt =====
-- The message routes: a send and its retry, and requests that end in a status.
use chatspace.Prelude.{
  true, arith, ◌≡◌, refl, ◌≢◌, none, some, Option, [], ◌∷◌, find, any_row, select, order_by,
  update_where, ℤ, codes, text_eq, Text, ok, err,
}
use chatspace.Db.{
  is_storable, Message, get_channel, get_member, get_message, get_user, insert_message,
  content_check, target_xor,
}
use chatspace.Messages.Content.{is_space, is_valid_content}
use chatspace.Messages.Media.{
  bind_to, get_message_media, validate_and_load_media, bind_media_atomically, message_not_found,
}
use chatspace.Messages.Send.{
  load_claimed_message_id, load_message_with_media, publish, ensure_channel_and_membership,
  persist_message, settle, wait, resolve_loop, resolve_existing_claim, claim_rounds, send_message,
}
use chatspace.Messages.Deliver.{check_body, channel_checks, send_channel_message}
use chatspace.MessageRoutes.{
  created_201, unhandled_500, parse_idempotency_key, send_channel_message_route,
  send_dm_message_route, edit_message_route, delete_message_route,
  get_channel_message_history_route, get_dm_message_history_route,
}
use chatspace.MessageRoutes.Retries.{retry_replays, replay_of}
use chatspace.MessageRoutes.Statuses.{every_error_mapped}
use chatspace.Examples.Sample.{photo}
use chatspace.Examples.Sends.{start, alone, key, hi, sent, sent_edited, edit_retained}

-- A reading that accepts every header.
abbrev any_key : Text → Option Text
any_key raw = some key

abbrev no_number : Text → Option ℤ
no_number raw = none

header_read : parse_idempotency_key any_key (some (codes "K-1")) ≡ ok key
unfolding parse_idempotency_key
header_read = refl

first_post :
    send_channel_message_route true alone any_key start
      (some (codes "K-1"))
      600
      300
      10
      1
      (codes "hi")
      (900 ∷ [])
    ≡ (sent, ok (created_201 hi (bind_to 600 photo ∷ [])))
unfolding send_channel_message_route send_channel_message parse_idempotency_key send_message
    resolve_existing_claim resolve_loop claim_rounds settle publish wait persist_message
    load_claimed_message_id load_message_with_media ensure_channel_and_membership check_body
    channel_checks validate_and_load_media bind_media_atomically get_message_media insert_message
    target_xor content_check is_valid_content is_space get_channel get_member get_message get_user
    find any_row select order_by update_where text_eq is_storable
first_post = refl

retry_replays_example :
    (m : Message) × (m.id ≡ 600)
    × (get_message sent_edited.db m.id ≡ some m)
    × (send_channel_message_route true alone any_key sent_edited
          (some (codes "K-1"))
          601
          400
          10
          1
          (codes "x")
          []
        ≡ replay_of sent_edited m)
    × (send_dm_message_route true alone any_key sent_edited
          (some (codes "K-1"))
          601
          400
          10
          1
          (codes "x")
          []
        ≡ replay_of sent_edited m)
retry_replays_example =
    retry_replays any_key alone alone start sent sent_edited (some (codes "K-1"))
      (some (codes "K-1")) key 600 300 10 1 (codes "hi") (900 ∷ [])
      (created_201 hi (bind_to 600 photo ∷ [])) header_read header_read (λ n w h. h) first_post
      edit_retained 601 400 10 (codes "x") []

every_error_mapped_example :
    ((send_channel_message_route true alone any_key start none 600 300 500 2 (codes "x") []).1
      ≢ err (unhandled_500 message_not_found))
    × ((send_dm_message_route true alone any_key start none 600 300 500 2 (codes "x") []).1
        ≢ err (unhandled_500 message_not_found))
    × ((edit_message_route start 300 500 2 (codes "x")).1 ≢ err (unhandled_500 message_not_found))
    × ((delete_message_route start 300 500 2).1 ≢ err (unhandled_500 message_not_found))
    × (get_channel_message_history_route no_number start.db none none 500 2
        ≢ err (unhandled_500 message_not_found))
    × (get_dm_message_history_route no_number start.db none none 500 2
        ≢ err (unhandled_500 message_not_found))
every_error_mapped_example =
    every_error_mapped true alone any_key no_number start none none none 300 600 500 2 (codes "x")
      [] message_not_found (λ v. ground arith)
