-- ===== src/Ws/Relay.antt =====
-- The last hop of a published event: `_handle_message` of backend/app/ws/fanout.py and
-- `broadcast_to_topic` of backend/app/ws/connection_manager.py.
use chatspace.Prelude.{
  ℕ, Bool, false, Option, none, some, List, [], ◌∷◌, ◌++◌, ◌&&◌, not, ◌==◌, if◌then◌else◌,
}
use chatspace.Messages.Send.{Topic}
use chatspace.Ws.{
  WsWorld, ConnectionState, Payload, typing_event, other_event, relayed, is_subscribed,
}

-- `_typing_typer_id`.
abbrev pub typing_typer_id : Payload → Option ℕ
typing_typer_id (typing_event u conversation) = some u
typing_typer_id (other_event e) = none

abbrev pub is_excluded : Option ℕ → ConnectionState → Bool
is_excluded none c = false
is_excluded (some u) c = c.user_id == u

-- Who is sent a payload on the topic, where `delivers` says which sends succeed.
abbrev pub receives : (delivers : ℕ → Bool) → Topic → (exclude : Option ℕ) → ConnectionState → Bool
receives delivers topic exclude c =
    is_subscribed topic c
    && (not (is_excluded exclude c) && (c.is_connected && delivers c.connection_id))

-- A send that raises is logged and skipped.
unfoldable pub broadcast_over :
    (delivers : ℕ → Bool)
    → List ConnectionState
    → WsWorld
    → Topic
    → Payload
    → (exclude : Option ℕ) → WsWorld
broadcast_over delivers [] w topic payload exclude = w
broadcast_over delivers (c ∷ cs) w topic payload exclude =
    let w' =
      if receives delivers topic exclude c
      then record w { sent = w.sent ++ ((c.connection_id, relayed payload) ∷ []) }
      else w in
    broadcast_over delivers cs w' topic payload exclude

unfoldable pub broadcast_to_topic :
    (delivers : ℕ → Bool) → WsWorld → Topic → Payload → (exclude : Option ℕ) → WsWorld
broadcast_to_topic delivers w topic payload exclude =
    broadcast_over delivers w.connections w topic payload exclude

-- The payload is a decoded envelope; what is not JSON or no object is dropped before.
unfoldable pub handle_message : (delivers : ℕ → Bool) → WsWorld → Topic → Option Payload → WsWorld
handle_message delivers w topic none = w
handle_message delivers w topic (some payload) =
    broadcast_to_topic delivers w topic payload (typing_typer_id payload)
