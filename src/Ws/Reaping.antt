-- ===== src/Ws/Reaping.antt =====
-- The heartbeat deadline of a connection's loop: only a ping moves it.
use mathlib.Core.Path.{subst}
use chatspace.Prelude.{
  ℕ, ◌≡◌, ◌<◌, refl, Bool, true, false, Option, none, some, List, [], ◌∷◌, All, arith, inl, inr,
  ◌⊎◌,
}
use chatspace.RateLimit.{record_and_check}
use chatspace.Ws.{WsWorld, WsAuthenticatedConnection, ClientFrame, join, leave, typing, ping}
use chatspace.Ws.Loop.{
  WsSettings, LoopState, Incoming, client_closed, received, Turn, going_on, returned, handle_frame,
  loop_turn,
}

-- What one turn starts from: the world as other connections left it, and what arrives when.
pub record Arrival : Type 0 where
  pub world : WsWorld
  pub redis_answers : Bool
  pub now : ℕ
  pub incoming : Incoming

-- The loop over a sequence of arrivals, `none` once it returned.
unfoldable pub run_loop :
    WsSettings → ℕ → WsAuthenticatedConnection → List Arrival → LoopState → Option LoopState
run_loop settings i auth [] loop = some loop
run_loop settings i auth (a ∷ as') loop =
    elim (loop_turn settings a.redis_answers a.world i auth loop a.now a.incoming).1 [
      | returned ↦ none
      | going_on loop' ↦ run_loop settings i auth as' loop'
    ]

abbrev pub is_ping : Incoming → Bool
is_ping (received (some ping)) = true
is_ping _ = false

deadline-handle_frame :
    (settings : WsSettings) (redis_answers : Bool) (w : WsWorld) (i : ℕ)
    (auth : WsAuthenticatedConnection) (loop loop' : LoopState) (now : ℕ) (frame : ClientFrame)
    → is_ping (received (some frame)) ≡ false
    → (handle_frame settings redis_answers w i auth loop now frame).1 ≡ going_on loop'
    → loop'.heartbeat_deadline ≡ loop.heartbeat_deadline
unfolding handle_frame
deadline-handle_frame settings redis_answers w i auth loop loop' now (join conversation) p h =
    ground (arith, h)
deadline-handle_frame settings redis_answers w i auth loop loop' now (leave conversation) p h =
    ground (arith, h)
deadline-handle_frame settings redis_answers w i auth loop loop' now (typing conversation) p h =
    ground (arith, h)
deadline-handle_frame settings redis_answers w i auth loop loop' now ping p h = ground (arith, p)

deadline-loop_turn :
    (settings : WsSettings) (redis_answers : Bool) (w : WsWorld) (i : ℕ)
    (auth : WsAuthenticatedConnection) (loop loop' : LoopState) (now : ℕ) (incoming : Incoming)
    → is_ping incoming ≡ false
    → (loop_turn settings redis_answers w i auth loop now incoming).1 ≡ going_on loop'
    → (now < loop.heartbeat_deadline) × (loop'.heartbeat_deadline ≡ loop.heartbeat_deadline)
unfolding loop_turn
deadline-loop_turn settings redis_answers w i auth loop loop' now client_closed p h =
    ground (arith, h)
deadline-loop_turn settings redis_answers w i auth loop loop' now (received none) p h =
    ground (arith, h)
deadline-loop_turn settings redis_answers w i auth loop loop' now (received (some frame)) p h =
    ground (
      arith,
      h,
      deadline-handle_frame settings redis_answers w i auth
          (record loop {
            timestamps =
                (record_and_check settings.max_frames settings.window now loop.timestamps).1;
          })
          loop' now frame p,
    )

Turn-cases : (t : Turn) → (t ≡ returned) ⊎ ((loop : LoopState) × (t ≡ going_on loop))
Turn-cases returned = inl refl
Turn-cases (going_on loop) = inr (loop, refl)

-- If the loop of a connection is still running after arrivals that are no pings, all of them came
-- before the heartbeat deadline that it started with, whatever the world was at each.
pub silent_client_reaped :
    (settings : WsSettings) (i : ℕ) (auth : WsAuthenticatedConnection) (arrivals : List Arrival)
    (loop loop' : LoopState)
    → All (λ a. is_ping a.incoming ≡ false) arrivals
    → run_loop settings i auth arrivals loop ≡ some loop'
    → All (λ a. a.now < loop.heartbeat_deadline) arrivals
unfolding run_loop
silent_client_reaped settings i auth [] loop loop' p h = tt
silent_client_reaped settings i auth (a ∷ as') loop loop' (p, ps) h =
    elim (Turn-cases (loop_turn settings a.redis_answers a.world i auth loop a.now a.incoming).1) [
      | inl e ↦ ground (arith, h, e)
      | inr (kept, e) ↦
          let (soon, same) =
            deadline-loop_turn settings a.redis_answers a.world i auth loop kept a.now a.incoming p
              e in
          let rest =
            silent_client_reaped settings i auth as' kept loop' ps (ground (arith, h, e)) in
          (soon, subst (λ d. All (λ b. b.now < d) as') same rest)
    ]
