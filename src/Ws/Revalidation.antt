-- ===== src/Ws/Revalidation.antt =====
-- A socket whose session is revoked: no new one is accepted, and a live one ends at its next ping.
use chatspace.Prelude.{
  ℕ, ◌≡◌, refl, ◌∙◌, ap, Bool, true, false, none, some, leb, arith, if◌then◌else◌,
}
use chatspace.Presence.{handle_heartbeat}
use chatspace.Sessions.{Auth, revoked, is_session_active}
use chatspace.Sessions.Steps.{Reach, revoke_route}
use chatspace.Sessions.Revoked.{inactive_after_revoke}
use chatspace.Ws.{
  WsWorld, WsAuthenticatedConnection, ping, token_expired, token_revoked, authenticate_connect,
  revalidate_connection, presence_of, set_presence,
}
use chatspace.Ws.Loop.{WsSettings, LoopState, returned, handle_frame, open_connection}

auth-handle_heartbeat :
    (redis_answers : Bool) (w : WsWorld) (u ttl now : ℕ)
    → (set_presence w (handle_heartbeat redis_answers (presence_of w) u ttl now)).auth ≡ w.auth
unfolding handle_heartbeat
auth-handle_heartbeat true w u ttl now = refl
auth-handle_heartbeat false w u ttl now = refl

close_code_of_inactive :
    (redis_answers : Bool) (w : Auth) (connection : WsAuthenticatedConnection) (now : ℕ)
    → (is_session_active redis_answers w connection.identity.session_id now).0 ≡ false
    → (revalidate_connection redis_answers w connection now).0
      ≡ some (if leb connection.token_expires_at now then token_expired else token_revoked)
unfolding revalidate_connection
close_code_of_inactive redis_answers w connection now h = ground (arith, h)

ping_of_inactive :
    (settings : WsSettings) (redis_answers : Bool) (w : WsWorld) (i : ℕ)
    (connection : WsAuthenticatedConnection) (loop : LoopState) (now : ℕ)
    → (is_session_active redis_answers w.auth connection.identity.session_id now).0 ≡ false
    → (handle_frame settings redis_answers w i connection loop now ping).1 ≡ returned
unfolding handle_frame
ping_of_inactive settings redis_answers w i connection loop now h =
    let w1 = set_presence w (
      handle_heartbeat redis_answers (presence_of w) connection.identity.user_id
        settings.presence_ttl now) in
    let same =
      auth-handle_heartbeat redis_answers w connection.identity.user_id settings.presence_ttl now in
    let code = close_code_of_inactive redis_answers w1.auth connection now (
      ap (λ a. (is_session_active redis_answers a connection.identity.session_id now).0) same
      ∙ h) in
    rw (code, handle_frame) refl

connect_of_inactive :
    (settings : WsSettings) (redis_answers : Bool) (w : WsWorld) (i : ℕ)
    (connection : WsAuthenticatedConnection) (now : ℕ)
    → (is_session_active redis_answers w.auth connection.identity.session_id now).0 ≡ false
    → (open_connection settings redis_answers w i (some connection) now).1 ≡ none
unfolding open_connection authenticate_connect
connect_of_inactive settings redis_answers w i connection now h = ground (arith, h)

-- After a session is revoked from a state that a cold cache led to, and after whatever further
-- requests, a WebSocket with a token of that session is not accepted, and a live one ends at its
-- next ping, whether or not Redis answers then. Redis answers every invalidation here, and the
-- read of the table and the write of the cache of one check count as one step.
pub revoked_socket_dropped :
    (start before : Auth) (connection : WsAuthenticatedConnection) (u now : ℕ)
    → ((t : ℕ) → start.cache t ≡ none)
    → Reach start before
    → (revoke_route before connection.identity.session_id u now).1 ≡ revoked
    → (w : WsWorld) → Reach (revoke_route before connection.identity.session_id u now).0 w.auth
    → (settings : WsSettings) (redis_answers : Bool) (i later : ℕ) (loop : LoopState)
    → ((open_connection settings redis_answers w i (some connection) later).1 ≡ none)
      × ((handle_frame settings redis_answers w i connection loop later ping).1 ≡ returned)
revoked_socket_dropped start before connection u now cold r answer w after settings redis_answers i
      later loop =
    let gone =
      inactive_after_revoke start before w.auth connection.identity.session_id u now cold r answer
        after redis_answers later in
    (
      connect_of_inactive settings redis_answers w i connection later gone,
      ping_of_inactive settings redis_answers w i connection loop later gone,
    )
