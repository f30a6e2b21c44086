-- ===== src/Ws.antt =====
-- The WebSocket of backend/app/ws: the registry of connection_manager.py, the conversation checks of
-- conversations.py, the frames of frames.py and the identity of auth.py.
-- A decoded access token is an argument: the identity and the expiry that its claims carry.
pub mod Loop
pub mod Relay
pub mod Registry
pub mod Topics
pub mod Recipients
pub mod Reaping
pub mod Revalidation
use chatspace.Prelude.{
  ℕ, Bool, true, false, Option, none, some, List, [], ◌∷◌, ◌++◌, ◌&&◌, ◌||◌, not, ◌==◌, leb,
  if◌then◌else◌, Text, find, any_row, select, update_where, delete_where, Result, ok, err,
}
use chatspace.Db.{Db, get_user, get_member, is_some}
use chatspace.Messages.Send.{
  Topic, channel_topic, dm_topic, dm_pair_topic, user_topic, presence_topic,
}
use chatspace.Sessions.{Auth, AuthenticatedUser, is_session_active, active_user}
use chatspace.Presence.{Counter, PresenceEvent, PresenceWorld}

abbrev pub topic_eq : Topic → Topic → Bool
topic_eq (channel_topic a) (channel_topic b) = a == b
topic_eq (dm_pair_topic a c) (dm_pair_topic b d) = a == b && c == d
topic_eq (user_topic a) (user_topic b) = a == b
topic_eq (presence_topic a) (presence_topic b) = a == b
topic_eq _ _ = false

pub data Conversation : Type 0 where
  channel_conversation dm_conversation : ℕ → Conversation

pub data ClientFrame : Type 0 where
  join leave typing : Conversation → ClientFrame
  ping : ClientFrame

pub data FrameError : Type 0 where
  invalid_frame unauthorized_join invalid_conversation : FrameError

pub data CloseCode : Type 0 where
  normal_closure going_away auth_failed token_expired token_revoked : CloseCode
  user_deactivated heartbeat_timeout rate_limited : CloseCode

pub record ConnectionState : Type 0 where
  pub connection_id : ℕ
  pub user_id : ℕ
  pub session_id : ℕ
  pub is_connected : Bool
  pub subscribed_topics : List Topic

-- What a relayed payload is for: a `typing` event names the one who types.
pub data Payload : Type 0 where
  typing_event : (user_id : ℕ) → Conversation → Payload
  other_event : ℕ → Payload

pub data ServerFrame : Type 0 where
  error_frame : FrameError → ServerFrame
  pong_frame : ServerFrame
  relayed : Payload → ServerFrame

-- The tables and Redis, one instance's registry, what it sent and what it published on typing.
pub record WsWorld : Type 0 where
  pub auth : Auth
  pub counters : ℕ → Option Counter
  pub presence_events : List PresenceEvent
  pub connections : List ConnectionState
  pub sent : List (ℕ × ServerFrame)
  pub typing_events : List (Topic × Payload)
  pub closed : List (ℕ × CloseCode)

abbrev pub presence_of : WsWorld → PresenceWorld
presence_of w = record { counters = w.counters; db = w.auth.db; published = w.presence_events }

abbrev pub set_presence : WsWorld → PresenceWorld → WsWorld
set_presence w p = record w {
  auth = record w.auth { db = p.db };
  counters = p.counters;
  presence_events = p.published;
}

abbrev pub connection_at : ℕ → ConnectionState → Bool
connection_at i c = c.connection_id == i

abbrev pub is_subscribed : Topic → ConnectionState → Bool
is_subscribed topic c = any_row (topic_eq topic) c.subscribed_topics

abbrev pub with_topic : Topic → ConnectionState → ConnectionState
with_topic topic c = record c {
  subscribed_topics =
      if is_subscribed topic c then c.subscribed_topics else c.subscribed_topics ++ (topic ∷ []);
}

abbrev pub without_topic : Topic → ConnectionState → ConnectionState
without_topic topic c = record c {
  subscribed_topics = delete_where (topic_eq topic) c.subscribed_topics;
}

unfoldable pub register : WsWorld → (connection_id : ℕ) → AuthenticatedUser → WsWorld
register w i identity = record w {
  connections =
      w.connections
      ++ (record {
        connection_id = i;
        user_id = identity.user_id;
        session_id = identity.session_id;
        is_connected = true;
        subscribed_topics = [];
      }
          ∷ []);
}

unfoldable pub unregister : WsWorld → ℕ → WsWorld
unregister w i = record w { connections = delete_where (connection_at i) w.connections }

unfoldable pub subscribe : WsWorld → ℕ → Topic → WsWorld
subscribe w i topic = record w {
  connections = update_where (connection_at i) (with_topic topic) w.connections;
}

unfoldable pub unsubscribe : WsWorld → ℕ → Topic → WsWorld
unsubscribe w i topic = record w {
  connections = update_where (connection_at i) (without_topic topic) w.connections;
}

-- `_safe_send_json` and `_safe_close`: nothing where the socket is no longer connected.
abbrev pub connected : WsWorld → ℕ → Bool
connected w i = any_row (λ c. connection_at i c && c.is_connected) w.connections

unfoldable pub safe_send_json : WsWorld → ℕ → ServerFrame → WsWorld
safe_send_json w i frame =
    if connected w i then record w { sent = w.sent ++ ((i, frame) ∷ []) } else w

abbrev pub disconnected : ConnectionState → ConnectionState
disconnected c = record c { is_connected = false }

unfoldable pub safe_close : WsWorld → ℕ → CloseCode → WsWorld
safe_close w i code =
    if connected w i
    then record w {
      connections = update_where (connection_at i) disconnected w.connections;
      closed = w.closed ++ ((i, code) ∷ []);
    }
    else w

unfoldable pub go_away_each : List ConnectionState → WsWorld → WsWorld
go_away_each [] w = w
go_away_each (c ∷ cs) w =
    go_away_each cs (unregister (safe_close w c.connection_id going_away) c.connection_id)

-- `close_all` at shutdown: every socket is closed and dropped from the registry.
unfoldable pub close_all : WsWorld → WsWorld
close_all w = go_away_each w.connections w

-- The caller's right to join or type, with the topic that it gives.
unfoldable pub authorize_conversation :
    Db → Conversation → (caller_id : ℕ) → Result FrameError Topic
authorize_conversation db (channel_conversation c) caller =
    if is_some (get_member db c caller) then ok (channel_topic c) else err unauthorized_join
authorize_conversation db (dm_conversation u) caller =
    if u == caller then err invalid_conversation else elim (get_user db u) [
      | none ↦ err unauthorized_join
      | some peer ↦ if peer.is_active then ok (dm_topic caller u) else err unauthorized_join
    ]

abbrev pub conversation_topic : Conversation → (caller_id : ℕ) → Topic
conversation_topic (channel_conversation c) caller = channel_topic c
conversation_topic (dm_conversation u) caller = dm_topic caller u

pub record WsAuthenticatedConnection : Type 0 where
  pub identity : AuthenticatedUser
  pub token_expires_at : ℕ

-- The claims are those of a token whose signature and expiry were verified, if there is one.
unfoldable pub authenticate_connect :
    (redis_answers : Bool)
    → Auth
    → Option WsAuthenticatedConnection
    → (now : ℕ) → Option WsAuthenticatedConnection × Auth
authenticate_connect redis_answers w none now = (none, w)
authenticate_connect redis_answers w (some claims) now =
    let (active, w') = is_session_active redis_answers w claims.identity.session_id now in
    if not active
    then (none, w')
    else if active_user w' claims.identity.user_id
    then (some claims, w')
    else (none, w')

unfoldable pub revalidate_connection :
    (redis_answers : Bool) → Auth → WsAuthenticatedConnection → (now : ℕ) → Option CloseCode × Auth
revalidate_connection redis_answers w connection now =
    if leb connection.token_expires_at now
    then (some token_expired, w)
    else (let (active, w') = is_session_active redis_answers w connection.identity.session_id now in
        if not active
        then (some token_revoked, w')
        else if active_user w' connection.identity.user_id
        then (none, w')
        else (some user_deactivated, w'))
