-- ===== src/RateLimit.antt =====
-- The Redis token bucket of backend/app/core/rate_limit.py, with its Lua script, and the frame counter
-- of a WebSocket connection in backend/app/ws/rate_limit.py.
-- Times are microseconds. A token is counted in the microseconds that its refill takes, so that the
-- refill of a bucket in some time is that time. `time_text` and `token_text` are what is read back of
-- a number of seconds and of tokens that Lua's `tostring` wrote with 14 digits.
pub mod Admission
pub mod Window
use chatspace.Prelude.{
  ℕ, ◌+◌, ◌-◌, ◌*◌, ◌/◌, Bool, true, false, Option, none, some, List, [], ◌∷◌, ◌++◌, ◌&&◌, ltb, leb,
  min, max, if◌then◌else◌, length, Text, text_eq, Result, ok, err,
}

pub data RateLimitScope : Type 0 where
  message_send auth media_upload general_read : RateLimitScope

abbrev pub scope_eq : RateLimitScope → RateLimitScope → Bool
scope_eq message_send message_send = true
scope_eq auth auth = true
scope_eq media_upload media_upload = true
scope_eq general_read general_read = true
scope_eq _ _ = false

-- `refill_rate_per_second` is a million divided by `micros_per_token`.
pub record RateLimitPolicy : Type 0 where
  pub capacity : ℕ
  pub micros_per_token : ℕ
  pub ttl_seconds : ℕ

abbrev pub second : ℕ
second = 1000000

unfoldable pub policy_of : RateLimitScope → RateLimitPolicy
policy_of message_send = record { capacity = 20; micros_per_token = second; ttl_seconds = 60 }
policy_of auth = record { capacity = 5; micros_per_token = 60 * second; ttl_seconds = 600 }
policy_of media_upload = record { capacity = 20; micros_per_token = 3 * second; ttl_seconds = 120 }
policy_of general_read = record { capacity = 60; micros_per_token = second; ttl_seconds = 120 }

-- The hash at a key, and when the key expires.
pub record Bucket : Type 0 where
  pub tokens : ℕ
  pub ts : ℕ
  pub expires : ℕ

pub record RateLimitDecision : Type 0 where
  pub allowed : Bool
  pub retry_after_seconds : ℕ

abbrev pub full : RateLimitPolicy → ℕ
full p = p.capacity * p.micros_per_token

-- What HMGET finds.
abbrev pub unexpired : (now : ℕ) → Option Bucket → Option Bucket
unexpired now none = none
unexpired now (some b) = if leb b.expires now then none else some b

-- A clock that went back counts as no time elapsed.
abbrev pub refilled : RateLimitPolicy → (now : ℕ) → Option Bucket → ℕ
refilled p now none = full p
refilled p now (some b) = min (full p) (b.tokens + (now - b.ts))

-- The buckets in Redis, by `rate_limit_bucket_key`.
abbrev pub Buckets : Type 0
Buckets = RateLimitScope → Text → Option Bucket

abbrev pub put_bucket : Buckets → RateLimitScope → Text → Bucket → Buckets
put_bucket store scope subject b s t =
    if scope_eq scope s && text_eq subject t then some b else store s t

pub data RateLimitError : Type 0 where
  rate_limit_unavailable : RateLimitError

module _ (time_text token_text : ℕ → ℕ) where
  abbrev pub stored : RateLimitPolicy → (now tokens : ℕ) → Bucket
  stored p now tokens = record {
    tokens = token_text tokens;
    ts = time_text now;
    expires = now + p.ttl_seconds * second;
  }

  -- The script, for one requested token.
  unfoldable pub token_bucket :
      RateLimitPolicy → (now : ℕ) → Option Bucket → RateLimitDecision × Bucket
  token_bucket p now bucket =
      let tokens = refilled p now (unexpired now bucket) in
      let cost = p.micros_per_token in
      if leb cost tokens
      then (record { allowed = true; retry_after_seconds = 0 }, stored p now (tokens - cost))
      else (
        record { allowed = false; retry_after_seconds = (cost - tokens + (second - 1)) / second },
        stored p now tokens,
      )

  unfoldable pub check_rate_limit :
      Buckets → RateLimitScope → Text → (now : ℕ) → RateLimitDecision × Buckets
  check_rate_limit store scope subject now =
      let (decision, b) = token_bucket (policy_of scope) now (store scope subject) in
      (decision, put_bucket store scope subject b)

  -- Where Redis does not answer, the caller's choice decides.
  unfoldable pub enforce_rate_limit :
      (redis_answers fail_closed : Bool)
      → Buckets
      → RateLimitScope
      → Text
      → (now : ℕ) → Result RateLimitError RateLimitDecision × Buckets
  enforce_rate_limit true fail_closed store scope subject now =
      let (decision, store') = check_rate_limit store scope subject now in (ok decision, store')
  enforce_rate_limit false true store scope subject now = (err rate_limit_unavailable, store)
  enforce_rate_limit false false store scope subject now =
      (ok (record { allowed = true; retry_after_seconds = 0 }), store)

-- `FrameRateLimiter`: the timestamps that are kept, oldest first.
unfoldable pub evict : (window now : ℕ) → List ℕ → List ℕ
evict window now [] = []
evict window now (t ∷ ts) =
    let rest = evict window now ts in if ltb (t + window) now then rest else t ∷ ts

unfoldable pub record_and_check : (max_frames window now : ℕ) → List ℕ → Bool × List ℕ
record_and_check max_frames window now ts =
    let kept = evict window now (ts ++ (now ∷ [])) in (ltb max_frames (length kept), kept)
