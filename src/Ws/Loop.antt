-- ===== src/Ws/Loop.antt =====
-- One connection of backend/app/ws/router.py: its endpoint, and one turn of its loop.
use chatspace.Prelude.{
  ℕ, ◌+◌, Bool, Option, none, some, List, [], ◌∷◌, ◌++◌, leb, if◌then◌else◌, ok, err,
}
use chatspace.RateLimit.{record_and_check}
use chatspace.Messages.Send.{user_topic}
use chatspace.Presence.{handle_connect, handle_heartbeat, handle_disconnect}
use chatspace.Ws.{
  WsWorld, WsAuthenticatedConnection, ClientFrame, join, leave, typing, ping, CloseCode,
  heartbeat_timeout, rate_limited, auth_failed, invalid_frame, error_frame, pong_frame,
  typing_event, register, unregister, subscribe, unsubscribe, safe_send_json, safe_close,
  authorize_conversation, conversation_topic, authenticate_connect, revalidate_connection,
  presence_of, set_presence,
}

pub record WsSettings : Type 0 where
  pub heartbeat_timeout_of : ℕ
  pub max_frames : ℕ
  pub window : ℕ
  pub presence_ttl : ℕ

-- The locals of the loop: the limiter's timestamps and the heartbeat deadline.
pub record LoopState : Type 0 where
  pub timestamps : List ℕ
  pub heartbeat_deadline : ℕ

-- What `websocket.receive()` gives: the close of the client, or a frame, `none` if it is malformed.
pub data Incoming : Type 0 where
  client_closed : Incoming
  received : Option ClientFrame → Incoming

pub data Turn : Type 0 where
  going_on : LoopState → Turn
  returned : Turn

abbrev pub closing : WsWorld → ℕ → CloseCode → WsWorld × Turn
closing w i code = (safe_close w i code, returned)

-- The flag says whether Redis answers during the turn.
unfoldable pub handle_frame :
    WsSettings
    → (redis_answers : Bool) → WsWorld
    → (connection_id : ℕ) → WsAuthenticatedConnection
    → LoopState
    → (now : ℕ) → ClientFrame
    → WsWorld × Turn
handle_frame settings redis_answers w i auth loop now ping =
    let loop' = record loop { heartbeat_deadline = now + settings.heartbeat_timeout_of } in
    let w1 = set_presence w (
      handle_heartbeat redis_answers (presence_of w) auth.identity.user_id settings.presence_ttl
        now) in
    let (close_code, auth') = revalidate_connection redis_answers w1.auth auth now in
    let w2 = record w1 { auth = auth' } in
    elim close_code [
      | some code ↦ closing w2 i code
      | none ↦ (safe_send_json w2 i pong_frame, going_on loop')
    ]
handle_frame settings redis_answers w i auth loop now (join conversation) =
    elim (authorize_conversation w.auth.db conversation auth.identity.user_id) [
      | err e ↦ (safe_send_json w i (error_frame e), going_on loop)
      | ok topic ↦ (subscribe w i topic, going_on loop)
    ]
handle_frame settings redis_answers w i auth loop now (leave conversation) =
    (unsubscribe w i (conversation_topic conversation auth.identity.user_id), going_on loop)
handle_frame settings redis_answers w i auth loop now (typing conversation) =
    elim (authorize_conversation w.auth.db conversation auth.identity.user_id) [
      | err e ↦ (safe_send_json w i (error_frame e), going_on loop)
      | ok topic ↦ (
        (if redis_answers
            then record w {
              typing_events =
                  w.typing_events
                  ++ ((topic, typing_event auth.identity.user_id conversation) ∷ []);
            }
            else w),
        going_on loop,
      )
    ]

-- One turn; what arrives only at the deadline or after it is a timeout.
unfoldable pub loop_turn :
    WsSettings
    → (redis_answers : Bool) → WsWorld
    → (connection_id : ℕ) → WsAuthenticatedConnection
    → LoopState
    → (now : ℕ) → Incoming
    → WsWorld × Turn
loop_turn settings redis_answers w i auth loop now incoming =
    if leb loop.heartbeat_deadline now then closing w i heartbeat_timeout else elim incoming [
      | client_closed ↦ (w, returned)
      | received frame ↦
          let (too_many, timestamps) =
            record_and_check settings.max_frames settings.window now loop.timestamps in
          let loop' = record loop { timestamps = timestamps } in
          if too_many then closing w i rate_limited else elim frame [
            | none ↦ (safe_send_json w i (error_frame invalid_frame), going_on loop')
            | some f ↦ handle_frame settings redis_answers w i auth loop' now f
          ]
    ]

-- The endpoint up to the loop: authentication, the registration, and the presence of the user.
unfoldable pub open_connection :
    WsSettings
    → (redis_answers : Bool) → WsWorld
    → (connection_id : ℕ) → Option WsAuthenticatedConnection
    → (now : ℕ) → WsWorld × Option LoopState
open_connection settings redis_answers w i token now =
    let (accepted, auth') = authenticate_connect redis_answers w.auth token now in
    let w1 = record w { auth = auth' } in
    elim accepted [
      | none ↦ (record w1 { closed = w1.closed ++ ((i, auth_failed) ∷ []) }, none)
      | some connection ↦
          let w2 =
            subscribe (register w1 i connection.identity) i
              (user_topic connection.identity.user_id) in
          let w3 = set_presence w2 (
            handle_connect redis_answers redis_answers (presence_of w2) connection.identity.user_id
              settings.presence_ttl now) in
          (
            w3,
            some (record {
              timestamps = [];
              heartbeat_deadline = now + settings.heartbeat_timeout_of;
            }),
          )
    ]

-- The `finally` of the endpoint.
unfoldable pub close_connection :
    (redis_answers : Bool) → WsWorld → (connection_id user_id now : ℕ) → WsWorld
close_connection redis_answers w i u now =
    let w1 = unregister w i in
    set_presence w1 (handle_disconnect redis_answers redis_answers (presence_of w1) u now)
