-- ===== src/Examples/Sockets.antt =====
-- WebSocket connections at concrete inputs.
use chatspace.Prelude.{
  List, ℕ, ◌≡◌, ◌<◌, refl, true, none, some, [], ◌∷◌, ◌++◌, find, any_row, All, err,
}
use chatspace.Db.{get_member, get_user}
use chatspace.Examples.Sample.{sample}
use chatspace.Examples.Auth.{two_sessions}
use chatspace.Messages.Send.{channel_topic, user_topic}
use chatspace.Sessions.{get_session, revoke_session}
use chatspace.Sessions.Steps
use chatspace.Sessions.Steps.{revoke_route}
use chatspace.Ws.{
  ServerFrame, relayed, WsWorld, ConnectionState, WsAuthenticatedConnection, other_event,
  channel_conversation, dm_conversation, unauthorized_join, authorize_conversation, join, ping,
}
use chatspace.Ws.Loop.{
  WsSettings, LoopState, received, returned, open_connection, handle_frame, loop_turn,
}
use chatspace.RateLimit.{record_and_check, evict}
use chatspace.Ws.Relay.{handle_message}
use chatspace.Ws.Registry.{is_own}
use chatspace.Ws.Topics.{here, next, connect}
use chatspace.Ws.Recipients.{Filtered, Hears, frames_to, heard_by_own, removed_still_hears}
use chatspace.Ws.Revalidation.{revoked_socket_dropped}
use chatspace.Ws.Reaping.{Arrival, run_loop, silent_client_reaped}

abbrev settings : WsSettings
settings = record { heartbeat_timeout_of = 60; max_frames = 20; window = 10; presence_ttl = 90 }

abbrev nobody : WsWorld
nobody = record {
  auth = two_sessions;
  counters = λ _. none;
  presence_events = [];
  connections = [];
  sent = [];
  typing_events = [];
  closed = [];
}

abbrev ann : WsAuthenticatedConnection
ann = record { identity = record { user_id = 1; session_id = 7 }; token_expires_at = 5000 }

abbrev opened : WsWorld
opened = (open_connection settings true nobody 30 (some ann) 2000).0

heard_by_own_example :
    (heard : List ConnectionState) × Filtered
      (Hears (λ _. true) (user_topic 1) (other_event 9))
      opened.connections
      heard
    × ((handle_message (λ _. true) opened (user_topic 1) (some (other_event 9))).sent
        ≡ opened.sent ++ frames_to (other_event 9) heard)
    × All (λ c. is_own c.user_id (user_topic 1) ≡ true) heard
unfolding find
heard_by_own_example =
    heard_by_own nobody opened refl (next here (connect settings true 30 (some ann) 2000 refl))
      (λ _. true) (user_topic 1) (other_event 9)

abbrev ann_connection : ConnectionState
ann_connection = record {
  connection_id = 30;
  user_id = 1;
  session_id = 7;
  is_connected = true;
  subscribed_topics = user_topic 1 ∷ channel_topic 10 ∷ [];
}

abbrev listening : WsWorld
listening = record nobody { connections = ann_connection ∷ [] }

-- Ann is no member of the channel any more.
abbrev removed_listening : WsWorld
removed_listening = record listening {
  auth = record listening.auth { db = record sample { members = [] } };
}

removed_still_hears_example :
    (authorize_conversation removed_listening.auth.db (channel_conversation 10) 1
      ≡ err unauthorized_join)
    × ((before after : List (ℕ × ServerFrame)) × ((handle_message
            (λ _. true)
            removed_listening
            (channel_topic 10)
            (some (other_event 9))).sent
          ≡ removed_listening.sent ++ (before ++ ((30, relayed (other_event 9)) ∷ after))))
unfolding find any_row get_member
removed_still_hears_example =
    removed_still_hears (λ _. true) removed_listening 30 10 ann_connection (other_event 9) refl refl
      refl refl refl refl

abbrev after_revocation : WsWorld
after_revocation = record listening { auth = (revoke_route two_sessions 7 1 2500).0 }

abbrev loop : LoopState
loop = record { timestamps = []; heartbeat_deadline = 2060 }

revoked_socket_dropped_example :
    ((open_connection settings true after_revocation 31 (some ann) 3000).1 ≡ none)
    × ((handle_frame settings true after_revocation 31 ann loop 3000 ping).1 ≡ returned)
unfolding revoke_route revoke_session get_session find
revoked_socket_dropped_example =
    revoked_socket_dropped two_sessions two_sessions ann 1 2500 (λ t. refl) Steps.here refl
      after_revocation Steps.here settings true 31 3000 loop

abbrev first_join : Arrival
first_join = record {
  world = listening;
  redis_answers = true;
  now = 2050;
  incoming = received (some (join (dm_conversation 2)));
}

silent_client_reaped_example : All (λ a. a.now < loop.heartbeat_deadline) (first_join ∷ [])
unfolding run_loop loop_turn record_and_check evict handle_frame authorize_conversation get_user
    find
silent_client_reaped_example =
    silent_client_reaped settings 30 ann (first_join ∷ []) loop
      (record { timestamps = 2050 ∷ []; heartbeat_deadline = 2060 }) (refl, tt) refl
