-- ===== src/Presence/Counts.antt =====
-- The count never exceeds the live connections while every disconnect reaches Redis.
use chatspace.Prelude.{
  ℕ, suc, ◌-◌, ◌≤◌, ◌<◌, ◌≡◌, Bool, true, false, Option, none, some, [], ◌∷◌, ◌++◌, ◌==◌,
  if◌then◌else◌, update_where, arith,
}
use chatspace.Db.{user_at}
use chatspace.Presence.{
  decrement_and_floor, set_last_seen, offline, Counter, count_of, PresenceWorld, put_counter,
  is_online, handle_connect, handle_heartbeat, handle_disconnect,
}

-- The world and the live connections of each user, on all instances.
pub record Room : Type 0 where
  pub world : PresenceWorld
  pub live : ℕ → ℕ

abbrev pub set_live : ℕ → ℕ → Room → ℕ → ℕ
set_live u n m x = if u == x then n else m.live x

-- A disconnect that Redis misses is no step; a connect or a heartbeat may be missed, a key be lost.
pub data Step (m : Room) : Room → Type 0 where
  connect :
      (redis_answers publish_answers : Bool) (u ttl now : ℕ)
      → Step m (record {
        world = handle_connect redis_answers publish_answers m.world u ttl now;
        live = set_live u (suc (m.live u)) m;
      })
  heartbeat :
      (redis_answers : Bool) (u ttl now : ℕ)
      → 0 < m.live u
      → Step m (record { world = handle_heartbeat redis_answers m.world u ttl now; live = m.live })
  disconnect :
      (publish_answers : Bool) (u now : ℕ)
      → 0 < m.live u
      → Step m (record {
        world = handle_disconnect true publish_answers m.world u now;
        live = set_live u (m.live u - 1) m;
      })
  lose_key : (u : ℕ) → Step m (record { world = put_counter u none m.world; live = m.live })

pub data Reach (m : Room) : Room → Type 0 where
  here : Reach m m
  next : {a b : Room} → Reach m a → Step a b → Reach m b

abbrev pub IsBounded : Room → Type 0
IsBounded m = (u : ℕ) → count_of (m.world.counters u) ≤ m.live u

Step-IsBounded : (m n : Room) → Step m n → IsBounded m → IsBounded n
unfolding handle_connect handle_heartbeat handle_disconnect
Step-IsBounded m n (connect false publish_answers u ttl now) h x = ground (arith, h x, h u)
Step-IsBounded m n (connect true publish_answers u ttl now) h x = ground (arith, h x, h u)
Step-IsBounded m n (heartbeat false u ttl now l) h x = ground (arith, h x, h u)
Step-IsBounded m n (heartbeat true u ttl now l) h x = ground (arith, h x, h u)
Step-IsBounded m n (disconnect publish_answers u now l) h x = ground (arith, h x, h u)
Step-IsBounded m n (lose_key u) h x = ground (arith, h x)

pub Reach-IsBounded : (m n : Room) → IsBounded m → Reach m n → IsBounded n
Reach-IsBounded m n h here = h
Reach-IsBounded m n h (next {a = a} r st) = Step-IsBounded a n st (Reach-IsBounded m a h r)

pub online_is_live :
    (m n : Room)
    → ((u : ℕ) → m.world.counters u ≡ none)
    → Reach m n
    → (redis_answers : Bool) (u now : ℕ) → is_online redis_answers n.world u now ≡ true
    → 0 < n.live u
unfolding is_online
online_is_live m n cold r false u now h = ground arith
online_is_live m n cold r true u now h =
    let bound = Reach-IsBounded m n (λ x. ground (arith, cold x)) r u in ground (arith, bound)

decrement_to_zero :
    (now : ℕ) (k : Option Counter) → count_of k ≤ 1 → decrement_and_floor now k ≡ (0, none)
decrement_to_zero now k h = ground arith

-- From empty keys on, where every disconnect reaches Redis, while connects and heartbeats may be
-- missed and keys be lost or expire, the disconnect of the only live connection of a user deletes
-- the key, sets `last_seen` and publishes the offline event.
pub last_disconnect :
    (m n : Room)
    → ((u : ℕ) → m.world.counters u ≡ none)
    → Reach m n
    → (u now : ℕ) → n.live u ≡ 1
    → let w = handle_disconnect true true n.world u now in
      (w.counters u ≡ none)
      × (w.db.users ≡ update_where (user_at u) (set_last_seen now) n.world.db.users)
      × (w.published
          ≡ n.world.published
            ++ (record { user_id = u; state = offline; last_seen = some now } ∷ []))
unfolding handle_disconnect
last_disconnect m n cold r u now h =
    let bound = Reach-IsBounded m n (λ x. ground (arith, cold x)) r u in
    let gone = decrement_to_zero now (n.world.counters u) (ground (arith, bound, h)) in
    ground (arith, gone)
