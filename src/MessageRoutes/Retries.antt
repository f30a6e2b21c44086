-- ===== src/MessageRoutes/Retries.antt =====
-- A send that is retried through the routes.
use chatspace.Prelude.{
  true, ℕ, ◌≡◌, some, ap, ◌∙◌, inl, inr, Option, List, Text, Result, ok, err, arith, Bool-cases,
}
use chatspace.Db.{Message, get_message}
use chatspace.Messages.Send.{World, SendMessageResult, send_message}
use chatspace.Messages.Media.{SendError, get_message_media}
use chatspace.Messages.Deliver.{
  channel_checks, channel_message, dm_checks, dm_message, send_channel_message, send_dm_message,
}
use chatspace.Messages.Claims.{KeepsClaim, Retains, send-retained, visible-replay}
use chatspace.MessageRoutes.{
  MessageRouteError, SendAnswer, created_201, replayed_200, parse_idempotency_key, send_answer,
  channel_send_status, dm_send_status, send_channel_message_route, send_dm_message_route,
}

abbrev pub message_of : SendAnswer → Message
message_of (created_201 m _) = m
message_of (replayed_200 m _) = m

send_answer-inversion :
    (status_of : SendError → MessageRouteError) (p : World × Result SendError SendMessageResult)
    (w' : World) (a : SendAnswer)
    → send_answer status_of p ≡ (w', ok a)
    → (r : SendMessageResult) × (p ≡ (w', ok r)) × (r.message ≡ message_of a)
send_answer-inversion status_of (w, err e) w' a h = ground arith
send_answer-inversion status_of (w, ok r) w' a h = elim (Bool-cases r.created) [
  | inl e ↦ (r, ground arith, ground arith)
  | inr e ↦ (r, ground arith, ground arith)
]

-- What a route answers to a replay of the message.
abbrev pub replay_of : World → Message → World × Result MessageRouteError SendAnswer
replay_of w m = (w, ok (replayed_200 m (get_message_media w.db m.id)))

-- After a POST to a channel that was answered with a message, 201 or 200, and at any later state
-- in which the claim on the key still stands and no message row has gone, its sender may repeat
-- it with a key that reads as the same UUID, to any channel or user and with any body: both
-- routes answer 200 with the message of that id as it then is, and change and publish nothing.
-- Redis answers; other requests may do anything while the first send waits, except to take away
-- the claim on its own message id while it stands.
pub retry_replays :
    (uuid_of : Text → Option Text) (others others' : ℕ → World → World) (w w' v : World)
    (header header' : Option Text) (key : Text) (new_id now c u : ℕ) (content : Text)
    (media_ids : List ℕ) (a : SendAnswer)
    → parse_idempotency_key uuid_of header ≡ ok key
    → parse_idempotency_key uuid_of header' ≡ ok key
    → KeepsClaim others u key media_ids (channel_message c u content new_id now)
    → send_channel_message_route true others uuid_of w header new_id now c u content media_ids
      ≡ (w', ok a)
    → Retains w' u key v
    → (new_id' now' target : ℕ) (content' : Text) (media_ids' : List ℕ)
    → (m : Message) × (m.id ≡ (message_of a).id)
      × (get_message v.db m.id ≡ some m)
      × (send_channel_message_route true others' uuid_of v header' new_id' now' target u content'
            media_ids'
          ≡ replay_of v m)
      × (send_dm_message_route true others' uuid_of v header' new_id' now' target u content'
            media_ids'
          ≡ replay_of v m)
unfolding send_channel_message_route send_dm_message_route send_channel_message send_dm_message
retry_replays uuid_of others others' w w' v header header' key new_id now c u content media_ids a
      first again keeps h later new_id' now' target content' media_ids' =
    let row = channel_message c u content new_id now in
    let checks = channel_checks c u content media_ids in
    let h' : send_answer channel_send_status (send_message others checks w key media_ids row)
        ≡ (w', ok a) =
      rw (first, send_channel_message_route) at h in
    let (r, sent, same) =
      send_answer-inversion channel_send_status (send_message others checks w key media_ids row) w'
        a h' in
    let (m, own, there) = send-retained others checks key media_ids row keeps w w' v r sent later in
    (
      m,
      own ∙ ap (λ x. x.id) same,
      there.1,
      rw (again, send_channel_message_route)
          (ap (send_answer channel_send_status) (
            visible-replay others' (channel_checks target u content' media_ids') v key media_ids'
              (channel_message target u content' new_id' now') m there)),
      rw (again, send_dm_message_route)
          (ap (send_answer dm_send_status) (
            visible-replay others' (dm_checks target u content' media_ids') v key media_ids'
              (dm_message target u content' new_id' now') m there)),
    )
