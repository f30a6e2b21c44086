-- ===== src/Ws/Topics.antt =====
-- Which topics a connection can be subscribed to, whatever its client asks for.
use mathlib.Core.Path.{subst}
use chatspace.Prelude.{
  ==_refl, find-append, ℕ, ◌≡◌, refl, sym, ◌∙◌, Bool, true, false, Option, none, some, List, [],
  ◌∷◌, leb, find, All-append_one, Distinct-append_one, arith, Bool-cases, Option-cases,
  Result-cases, inl, inr,
}
use chatspace.Messages.Send.{Topic, user_topic}
use chatspace.Sessions.{Auth, AuthenticatedUser}
use chatspace.RateLimit.{record_and_check}
use chatspace.Ws.Relay.{handle_message, broadcast_over, broadcast_to_topic, typing_typer_id}
use chatspace.Presence.{Counter, handle_heartbeat}
use chatspace.Ws.Loop.{
  Incoming, client_closed, received, WsSettings, LoopState, handle_frame, loop_turn,
  open_connection, close_connection,
}
use chatspace.Ws.{
  going_away, WsWorld, ConnectionState, WsAuthenticatedConnection, ClientFrame, join, leave, typing,
  ping, register, subscribe, connection_at, ServerFrame, safe_send_json, authorize_conversation,
  conversation_topic, close_all, go_away_each, Payload, authenticate_connect, heartbeat_timeout,
  rate_limited, revalidate_connection, error_frame, pong_frame, invalid_frame, presence_of,
  set_presence,
}
use chatspace.Ws.Registry.{
  is_own, HasOwn, same_connection, OwnOnly, authorized_is_own, subscribe-OwnOnly,
  unsubscribe-OwnOnly, safe_close-OwnOnly, unregister-OwnOnly, connections-safe_send_json,
}

go_away_each-OwnOnly :
    (cs : List ConnectionState) (w : WsWorld)
    → OwnOnly w.connections
    → OwnOnly (go_away_each cs w).connections
unfolding go_away_each
go_away_each-OwnOnly [] w h = h
go_away_each-OwnOnly (c ∷ cs) w h =
    go_away_each-OwnOnly cs _
      (unregister-OwnOnly _ c.connection_id (safe_close-OwnOnly w c.connection_id going_away h))

close_all-OwnOnly : (w : WsWorld) → OwnOnly w.connections → OwnOnly (close_all w).connections
unfolding close_all
close_all-OwnOnly w h = go_away_each-OwnOnly w.connections w h

safe_send_json-OwnOnly :
    (w : WsWorld) (i : ℕ) (frame : ServerFrame)
    → OwnOnly w.connections
    → OwnOnly (safe_send_json w i frame).connections
safe_send_json-OwnOnly w i frame h = subst OwnOnly (sym (connections-safe_send_json w i frame)) h

handle_frame-OwnOnly :
    (settings : WsSettings) (redis_answers : Bool) (w : WsWorld) (i : ℕ)
    (auth : WsAuthenticatedConnection) (loop : LoopState) (now : ℕ) (frame : ClientFrame)
    (c : ConnectionState)
    → find (connection_at i) w.connections ≡ some c
    → c.user_id ≡ auth.identity.user_id
    → OwnOnly w.connections
    → OwnOnly (handle_frame settings redis_answers w i auth loop now frame).0.connections
unfolding handle_frame
handle_frame-OwnOnly settings redis_answers w i auth loop now (join conversation) c n own h =
    elim (Result-cases (authorize_conversation w.auth.db conversation auth.identity.user_id)) [
      | inr (e, k) ↦ rw (k, handle_frame) (safe_send_json-OwnOnly w i (error_frame e) h)
      | inl (topic, k) ↦
          let mine = authorized_is_own w.auth.db conversation auth.identity.user_id topic k in
          rw (k, handle_frame)
            (subscribe-OwnOnly w i topic c n (subst (λ u. is_own u topic ≡ true) (sym own) mine) h)
    ]
handle_frame-OwnOnly settings redis_answers w i auth loop now (leave conversation) c n own h =
    unsubscribe-OwnOnly w i (conversation_topic conversation auth.identity.user_id) h
handle_frame-OwnOnly settings true w i auth loop now (typing conversation) c n own h =
    elim (Result-cases (authorize_conversation w.auth.db conversation auth.identity.user_id)) [
      | inr (e, k) ↦ rw (k, handle_frame) (safe_send_json-OwnOnly w i (error_frame e) h)
      | inl (topic, k) ↦ rw (k, handle_frame) h
    ]
handle_frame-OwnOnly settings false w i auth loop now (typing conversation) c n own h =
    elim (Result-cases (authorize_conversation w.auth.db conversation auth.identity.user_id)) [
      | inr (e, k) ↦ rw (k, handle_frame) (safe_send_json-OwnOnly w i (error_frame e) h)
      | inl (topic, k) ↦ rw (k, handle_frame) h
    ]
handle_frame-OwnOnly settings redis_answers w i auth loop now ping c n own h =
    let w1 = set_presence w (
      handle_heartbeat redis_answers (presence_of w) auth.identity.user_id settings.presence_ttl
        now) in
    elim (Option-cases (revalidate_connection redis_answers w1.auth auth now).0) [
      | inl k ↦ rw (k, handle_frame) (safe_send_json-OwnOnly _ i pong_frame h)
      | inr (code, k) ↦ rw (k, handle_frame) (safe_close-OwnOnly _ i code h)
    ]

loop_turn-OwnOnly :
    (settings : WsSettings) (redis_answers : Bool) (w : WsWorld) (i : ℕ)
    (auth : WsAuthenticatedConnection) (loop : LoopState) (now : ℕ) (incoming : Incoming)
    (c : ConnectionState)
    → find (connection_at i) w.connections ≡ some c
    → c.user_id ≡ auth.identity.user_id
    → OwnOnly w.connections
    → OwnOnly (loop_turn settings redis_answers w i auth loop now incoming).0.connections
unfolding loop_turn
loop_turn-OwnOnly settings redis_answers w i auth loop now client_closed c n own h =
    elim (Bool-cases (leb loop.heartbeat_deadline now)) [
      | inl k ↦ rw (k, loop_turn) (safe_close-OwnOnly w i heartbeat_timeout h)
      | inr k ↦ rw (k, loop_turn) h
    ]
loop_turn-OwnOnly settings redis_answers w i auth loop now (received frame) c n own h =
    elim (Bool-cases (leb loop.heartbeat_deadline now)) [
      | inl k ↦ rw (k, loop_turn) (safe_close-OwnOnly w i heartbeat_timeout h)
      | inr k ↦
          elim (Bool-cases
            (record_and_check settings.max_frames settings.window now loop.timestamps).0) [
              | inl m ↦ rw (k, m, loop_turn) (safe_close-OwnOnly w i rate_limited h)
              | inr m ↦ elim (Option-cases frame) [
                | inl f ↦
                    rw (k, m, f, loop_turn)
                      (safe_send_json-OwnOnly w i (error_frame invalid_frame) h)
                | inr (f, e) ↦
                    rw (k, m, e, loop_turn)
                      (handle_frame-OwnOnly settings redis_answers w i auth _ now f c n own h)
              ]
            ]
    ]

abbrev new_connection : (connection_id : ℕ) → AuthenticatedUser → ConnectionState
new_connection i identity = record {
  connection_id = i;
  user_id = identity.user_id;
  session_id = identity.session_id;
  is_connected = true;
  subscribed_topics = [];
}

register-OwnOnly :
    (w : WsWorld) (i : ℕ) (identity : AuthenticatedUser)
    → find (connection_at i) w.connections ≡ none
    → OwnOnly w.connections
    → OwnOnly (register w i identity).connections
      × (find (connection_at i) (register w i identity).connections
          ≡ some (new_connection i identity))
unfolding register find
register-OwnOnly w i identity fresh (h, d) = (
  (
    All-append_one HasOwn (new_connection i identity) w.connections tt h,
    Distinct-append_one same_connection (connection_at i) (new_connection i identity)
        (λ x. ground arith) w.connections fresh d,
  ),
  ground
      (arith, find-append (connection_at i) w.connections (new_connection i identity ∷ []) fresh),
)

own_topic-OwnOnly :
    (w : WsWorld) (i : ℕ) (identity : AuthenticatedUser)
    → find (connection_at i) w.connections ≡ none
    → OwnOnly w.connections
    → OwnOnly (subscribe (register w i identity) i (user_topic identity.user_id)).connections
own_topic-OwnOnly w i identity fresh h =
    let (kept, found) = register-OwnOnly w i identity fresh h in
    subscribe-OwnOnly (register w i identity) i (user_topic identity.user_id)
      (new_connection i identity) found (==_refl identity.user_id) kept

open_connection-OwnOnly :
    (settings : WsSettings) (redis_answers : Bool) (w : WsWorld) (i : ℕ)
    (token : Option WsAuthenticatedConnection) (now : ℕ)
    → find (connection_at i) w.connections ≡ none
    → OwnOnly w.connections
    → OwnOnly (open_connection settings redis_answers w i token now).0.connections
unfolding open_connection
open_connection-OwnOnly settings redis_answers w i token now fresh h =
    elim (Option-cases (authenticate_connect redis_answers w.auth token now).0) [
      | inl k ↦ rw (k, open_connection) h
      | inr (connection, k) ↦
          let auth' = (authenticate_connect redis_answers w.auth token now).1 in
          rw (k, open_connection)
            (own_topic-OwnOnly (record w { auth = auth' }) i connection.identity fresh h)
    ]

connections-broadcast_over :
    (delivers : ℕ → Bool) (cs : List ConnectionState) (w : WsWorld) (topic : Topic)
    (payload : Payload) (exclude : Option ℕ)
    → (broadcast_over delivers cs w topic payload exclude).connections ≡ w.connections
unfolding broadcast_over
connections-broadcast_over delivers [] w topic payload exclude = refl
connections-broadcast_over delivers (c ∷ cs) w topic payload exclude =
    connections-broadcast_over delivers cs _ topic payload exclude ∙ ground arith

connections-handle_message :
    (delivers : ℕ → Bool) (w : WsWorld) (topic : Topic) (payload : Option Payload)
    → (handle_message delivers w topic payload).connections ≡ w.connections
unfolding handle_message broadcast_to_topic
connections-handle_message delivers w topic none = refl
connections-handle_message delivers w topic (some payload) =
    connections-broadcast_over delivers w.connections w topic payload (typing_typer_id payload)

-- Everything that happens to an instance's registry.
pub data Step (w : WsWorld) : WsWorld → Type 0 where
  connect :
      (settings : WsSettings) (redis_answers : Bool) (i : ℕ)
      (token : Option WsAuthenticatedConnection) (now : ℕ)
      → find (connection_at i) w.connections ≡ none
      → Step w (open_connection settings redis_answers w i token now).0
  turn :
      (settings : WsSettings) (redis_answers : Bool) (i : ℕ) (auth : WsAuthenticatedConnection)
      (loop : LoopState) (now : ℕ) (incoming : Incoming) (c : ConnectionState)
      → find (connection_at i) w.connections ≡ some c
      → c.user_id ≡ auth.identity.user_id
      → Step w (loop_turn settings redis_answers w i auth loop now incoming).0
  disconnect :
      (redis_answers : Bool) (i u now : ℕ) → Step w (close_connection redis_answers w i u now)
  relay :
      (delivers : ℕ → Bool) (topic : Topic) (payload : Option Payload)
      → Step w (handle_message delivers w topic payload)
  drain : Step w (close_all w)
  elsewhere :
      (auth : Auth) (counters : ℕ → Option Counter)
      → Step w (record w { auth = auth; counters = counters })

pub data Reach (w : WsWorld) : WsWorld → Type 0 where
  here : Reach w w
  next : {a b : WsWorld} → Reach w a → Step a b → Reach w b

Step-OwnOnly : (w v : WsWorld) → Step w v → OwnOnly w.connections → OwnOnly v.connections
unfolding close_connection
Step-OwnOnly w v (connect settings redis_answers i token now fresh) h =
    open_connection-OwnOnly settings redis_answers w i token now fresh h
Step-OwnOnly w v (turn settings redis_answers i auth loop now incoming c n own) h =
    loop_turn-OwnOnly settings redis_answers w i auth loop now incoming c n own h
Step-OwnOnly w v (disconnect redis_answers i u now) h = unregister-OwnOnly w i h
Step-OwnOnly w v (relay delivers topic payload) h =
    subst OwnOnly (sym (connections-handle_message delivers w topic payload)) h
Step-OwnOnly w v drain h = close_all-OwnOnly w h
Step-OwnOnly w v (elsewhere auth counters) h = h

pub Reach-OwnOnly : (w v : WsWorld) → w.connections ≡ [] → Reach w v → OwnOnly v.connections
Reach-OwnOnly w v empty here = subst OwnOnly (sym empty) (tt, tt)
Reach-OwnOnly w v empty (next {a = a} r st) = Step-OwnOnly a v st (Reach-OwnOnly w a empty r)
