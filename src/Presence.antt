-- ===== src/Presence.antt =====
-- The reference-counted presence of backend/app/services/presence.py: the three scripts on a user's
-- connection count, and the connect, heartbeat and disconnect of a WebSocket that call them.
-- A key that Redis lost in a restart, or whose time to live passed, is a missing key.
pub mod Counts
pub mod Transitions
pub mod Outage
use chatspace.Prelude.{
  ℕ, zero, suc, ◌+◌, ◌-◌, Bool, true, false, Option, none, some, List, [], ◌∷◌, ◌++◌, ltb, leb,
  ◌==◌, if◌then◌else◌, update_where,
}
use chatspace.Db.{Db, User, user_at}

pub record Counter : Type 0 where
  pub count : ℕ
  pub expires_at : ℕ

-- What Redis has under a key at a time.
abbrev pub current : (now : ℕ) → Option Counter → Option Counter
current now none = none
current now (some k) = if leb k.expires_at now then none else some k

abbrev pub count_of : Option Counter → ℕ
count_of none = 0
count_of (some k) = k.count

-- INCR, then EXPIRE; the answer is the new count.
abbrev pub increment_and_expire : (ttl now : ℕ) → Option Counter → ℕ × Option Counter
increment_and_expire ttl now k =
    let n = suc (count_of (current now k)) in
    (n, some (record { count = n; expires_at = now + ttl }))

-- INCR only if the key is missing, then EXPIRE.
abbrev pub heartbeat_renew : (ttl now : ℕ) → Option Counter → Option Counter
heartbeat_renew ttl now k = elim (current now k) [
  | none ↦ some (record { count = 1; expires_at = now + ttl })
  | some k' ↦ some (record k' { expires_at = now + ttl })
]

-- DEL at zero, else SET KEEPTTL; a missing key counts as zero.
abbrev pub decrement_and_floor : (now : ℕ) → Option Counter → ℕ × Option Counter
decrement_and_floor now k = elim (current now k) [
  | none ↦ (0, none)
  | some k' ↦
      let n = k'.count - 1 in if leb n 0 then (0, none) else (n, some (record k' { count = n }))
]

pub data PresenceState : Type 0 where
  online offline : PresenceState

pub record PresenceEvent : Type 0 where
  pub user_id : ℕ
  pub state : PresenceState
  pub last_seen : Option ℕ

-- The keys, the tables, and what was published on the topics `presence:{user_id}`.
pub record PresenceWorld : Type 0 where
  pub counters : ℕ → Option Counter
  pub db : Db
  pub published : List PresenceEvent

abbrev pub put_counter : ℕ → Option Counter → PresenceWorld → PresenceWorld
put_counter u k w = record w { counters = λ x. if u == x then k else w.counters x }

-- A failed publish is swallowed.
abbrev pub publish_presence : (redis_answers : Bool) → PresenceEvent → PresenceWorld → PresenceWorld
publish_presence false e w = w
publish_presence true e w = record w { published = w.published ++ (e ∷ []) }

unfoldable pub is_online : (redis_answers : Bool) → PresenceWorld → (user_id now : ℕ) → Bool
is_online false w u now = false
is_online true w u now = ltb 0 (count_of (current now (w.counters u)))

-- The first flag is that of the script, the second that of the publish.
unfoldable pub handle_connect :
    (redis_answers publish_answers : Bool) → PresenceWorld → (user_id ttl now : ℕ) → PresenceWorld
handle_connect false publish_answers w u ttl now = w
handle_connect true publish_answers w u ttl now =
    let (n, k) = increment_and_expire ttl now (w.counters u) in
    let w' = put_counter u k w in
    if n == 1
    then publish_presence publish_answers (record { user_id = u; state = online; last_seen = none })
        w'
    else w'

unfoldable pub handle_heartbeat :
    (redis_answers : Bool) → PresenceWorld → (user_id ttl now : ℕ) → PresenceWorld
handle_heartbeat false w u ttl now = w
handle_heartbeat true w u ttl now = put_counter u (heartbeat_renew ttl now (w.counters u)) w

abbrev pub set_last_seen : ℕ → User → User
set_last_seen now r = record r { last_seen = some now }

abbrev pub go_offline : (publish_answers : Bool) → PresenceWorld → (user_id now : ℕ) → PresenceWorld
go_offline publish_answers w u now =
    let w' = record w {
      db = record w.db { users = update_where (user_at u) (set_last_seen now) w.db.users };
    } in
    publish_presence publish_answers (record { user_id = u; state = offline; last_seen = some now })
      w'

-- A failed script counts as the last disconnect.
unfoldable pub handle_disconnect :
    (redis_answers publish_answers : Bool) → PresenceWorld → (user_id now : ℕ) → PresenceWorld
handle_disconnect false publish_answers w u now = go_offline publish_answers w u now
handle_disconnect true publish_answers w u now =
    let (n, k) = decrement_and_floor now (w.counters u) in
    let w' = put_counter u k w in if ltb 0 n then w' else go_offline publish_answers w' u now
