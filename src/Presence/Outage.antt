-- ===== src/Presence/Outage.antt =====
-- What a disconnect that Redis missed leaves behind.
use chatspace.Prelude.{ℕ, ◌+◌, ◌<◌, ◌≡◌, true, false, none, arith}
use chatspace.Presence.{PresenceWorld, is_online, handle_connect, handle_disconnect}

-- When Redis misses the first of two disconnects of a user with a cold key, and no key expires,
-- the second one publishes nothing and leaves the tables, and the user with no connection left is
-- shown online.
pub missed_disconnect :
    (w : PresenceWorld) (u ttl t1 t2 t3 t4 now : ℕ)
    → w.counters u ≡ none
    → t2 < t1 + ttl
    → t4 < t2 + ttl
    → now < t2 + ttl
    → let arrived = handle_connect true true (handle_connect true true w u ttl t1) u ttl t2 in
      let one_left = handle_disconnect false true arrived u t3 in
      let none_left = handle_disconnect true true one_left u t4 in
      (is_online true none_left u now ≡ true)
      × (none_left.published ≡ one_left.published)
      × (none_left.db ≡ one_left.db)
unfolding handle_connect handle_disconnect is_online
missed_disconnect w u ttl t1 t2 t3 t4 now cold a b c = ground (arith, cold)
