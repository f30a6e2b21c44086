-- ===== src/Presence/Transitions.antt =====
-- When the keys are kept, the events are those of the live connections.
use mathlib.Core.List.{append-nil, append_assoc}
use chatspace.Prelude.{
  ℕ, suc, ◌-◌, ◌<◌, ◌≡◌, sym, ap, ◌∙◌, true, none, some, List, [], ◌∷◌, ◌++◌, leb, ◌==◌,
  if◌then◌else◌, arith,
}
use chatspace.Presence.{
  current, count_of, PresenceWorld, PresenceEvent, online, offline, handle_connect,
  handle_heartbeat, handle_disconnect,
}

pub data Visit : Type 0 where
  arrive beat depart : (user_id now : ℕ) → Visit

abbrev pub after_visit : (ttl : ℕ) → Visit → PresenceWorld → PresenceWorld
after_visit ttl (arrive u now) w = handle_connect true true w u ttl now
after_visit ttl (beat u now) w = handle_heartbeat true w u ttl now
after_visit ttl (depart u now) w = handle_disconnect true true w u now

unfoldable pub after_visits : (ttl : ℕ) → List Visit → PresenceWorld → PresenceWorld
after_visits ttl [] w = w
after_visits ttl (v ∷ vs) w = after_visits ttl vs (after_visit ttl v w)

-- The live connections of each user.
abbrev pub live_after : Visit → (ℕ → ℕ) → ℕ → ℕ
live_after (arrive u now) live x = if u == x then suc (live u) else live x
live_after (beat u now) live x = live x
live_after (depart u now) live x = if u == x then live u - 1 else live x

-- Online with the first connection, offline with the last.
abbrev pub events_of : Visit → (ℕ → ℕ) → List PresenceEvent
events_of (arrive u now) live =
    if live u == 0 then record { user_id = u; state = online; last_seen = none } ∷ [] else []
events_of (beat u now) live = []
events_of (depart u now) live =
    if leb (live u) 1
    then record { user_id = u; state = offline; last_seen = some now } ∷ []
    else []

unfoldable pub events_of_all : List Visit → (ℕ → ℕ) → List PresenceEvent
events_of_all [] live = []
events_of_all (v ∷ vs) live = events_of v live ++ events_of_all vs (live_after v live)

-- A visit finds the key unexpired, and a heartbeat is that of a live connection.
abbrev pub IsInTime : Visit → PresenceWorld → (ℕ → ℕ) → Type 0
IsInTime (arrive u now) w live = current now (w.counters u) ≡ w.counters u
IsInTime (beat u now) w live = (current now (w.counters u) ≡ w.counters u) × (0 < live u)
IsInTime (depart u now) w live = current now (w.counters u) ≡ w.counters u

abbrev pub AllInTime : (ttl : ℕ) → List Visit → PresenceWorld → (ℕ → ℕ) → Type 0
AllInTime ttl [] w live = Unit
AllInTime ttl (v ∷ vs) w live =
    IsInTime v w live × AllInTime ttl vs (after_visit ttl v w) (live_after v live)

abbrev pub Counts : PresenceWorld → (ℕ → ℕ) → Type 0
Counts w live = (u : ℕ) → (count_of (w.counters u) ≡ live u) × (live u ≡ 0 → w.counters u ≡ none)

after_visit-Counts :
    (ttl : ℕ) (v : Visit) (w : PresenceWorld) (live : ℕ → ℕ)
    → IsInTime v w live
    → Counts w live
    → Counts (after_visit ttl v w) (live_after v live)
unfolding handle_connect handle_heartbeat handle_disconnect
after_visit-Counts ttl (arrive u now) w live t h x = ground (arith, t, h x, h u)
after_visit-Counts ttl (beat u now) w live t h x = ground (arith, t, h x, h u)
after_visit-Counts ttl (depart u now) w live t h x = ground (arith, t, h x, h u)

after_visit-events_of :
    (ttl : ℕ) (v : Visit) (w : PresenceWorld) (live : ℕ → ℕ)
    → IsInTime v w live
    → Counts w live
    → (after_visit ttl v w).published ≡ w.published ++ events_of v live
unfolding handle_connect handle_heartbeat handle_disconnect
after_visit-events_of ttl (arrive u now) w live t h = ground (arith, t, h u, append-nil w.published)
after_visit-events_of ttl (beat u now) w live t h = sym (append-nil w.published)
after_visit-events_of ttl (depart u now) w live t h = ground (arith, t, h u, append-nil w.published)

transitions_from :
    (ttl : ℕ) (vs : List Visit) (w : PresenceWorld) (live : ℕ → ℕ)
    → Counts w live
    → AllInTime ttl vs w live
    → (after_visits ttl vs w).published ≡ w.published ++ events_of_all vs live
unfolding after_visits events_of_all
transitions_from ttl [] w live h t = sym (append-nil w.published)
transitions_from ttl (v ∷ vs) w live h (t, ts) =
    transitions_from ttl vs (after_visit ttl v w) (live_after v live)
      (after_visit-Counts ttl v w live t h) ts
    ∙ ap (λ p. p ++ events_of_all vs (live_after v live)) (after_visit-events_of ttl v w live t h)
    ∙ append_assoc w.published (events_of v live) (events_of_all vs (live_after v live))

-- From empty keys on, when every key is unexpired where it is used, Redis answers and heartbeats
-- come from live connections, the published events are those of the live connections: online with
-- the first one of a user, offline with the last.
pub transitions_exact :
    (ttl : ℕ) (vs : List Visit) (w : PresenceWorld)
    → ((u : ℕ) → w.counters u ≡ none)
    → AllInTime ttl vs w (λ _. 0)
    → (after_visits ttl vs w).published ≡ w.published ++ events_of_all vs (λ _. 0)
transitions_exact ttl vs w cold =
    transitions_from ttl vs w (λ _. 0) (λ u. (ground (arith, cold u), λ _. cold u))
