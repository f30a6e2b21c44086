-- ===== src/RateLimit/Admission.antt =====
-- How many requests a bucket admits, and when a refused one is admitted.
use chatspace.Prelude.{
  ℕ, suc, ◌+◌, ◌-◌, ◌*◌, ◌/◌, ◌≤◌, ◌<◌, ◌≡◌, refl, Bool, true, false, Option, none, some, List, [],
  ◌∷◌, leb, length, if◌then◌else◌, arith, Bool-cases, inl, inr,
}
use chatspace.RateLimit.{
  RateLimitScope, message_send, auth, media_upload, general_read, RateLimitPolicy, second,
  policy_of, Bucket, full, unexpired, refilled, stored, token_bucket,
}

-- The time to live is more than the time in which an empty bucket fills.
abbrev pub OutlivesRefill : RateLimitPolicy → Type 0
OutlivesRefill p = full p + 100 ≤ p.ttl_seconds * second

pub policy_of-OutlivesRefill : (scope : RateLimitScope) → OutlivesRefill (policy_of scope)
unfolding policy_of
policy_of-OutlivesRefill message_send = omega arith
policy_of-OutlivesRefill auth = omega arith
policy_of-OutlivesRefill media_upload = omega arith
policy_of-OutlivesRefill general_read = omega arith

-- In microseconds since 1970; a number of seconds before it has ten digits at most.
abbrev pub year_2286 : ℕ
year_2286 = 10000000000000000

-- What is read back differs from what was written by at most this much.
abbrev pub IsWithin : (slack : ℕ) → (ℕ → ℕ) → Type 0
IsWithin slack read_back =
    (n : ℕ) → n < year_2286 → (read_back n ≤ n + slack) × (n ≤ read_back n + slack)

-- The times of a run do not go back.
abbrev pub Ascending : ℕ → List ℕ → Type 0
Ascending t [] = Unit {0}
Ascending t (u ∷ us) = (t ≤ u) × Ascending u us

abbrev pub last_of : ℕ → List ℕ → ℕ
last_of t [] = t
last_of t (u ∷ us) = last_of u us

-- A bucket that the script wrote, at the latest at the given time.
abbrev pub IsStored : RateLimitPolicy → (now : ℕ) → Option Bucket → Type 0
IsStored p now none = Unit
IsStored p now (some b) = (b.ts ≤ now + 50) × (b.ts + p.ttl_seconds * second ≤ b.expires + 50)

unexpired-refilled :
    (p : RateLimitPolicy) (t now : ℕ) (b : Option Bucket)
    → OutlivesRefill p
    → IsStored p t b
    → refilled p now (unexpired now b) ≡ refilled p now b
unexpired-refilled p t now none o i = refl
unexpired-refilled p t now (some b) o i = ground (arith, o)

refilled-full : (p : RateLimitPolicy) (now : ℕ) (b : Option Bucket) → refilled p now b ≤ full p
refilled-full p now none = omega arith
refilled-full p now (some b) = omega arith

refilled-later :
    (p : RateLimitPolicy) (t now : ℕ) (b : Option Bucket)
    → t ≤ now
    → refilled p now b ≤ refilled p t b + (now - t)
refilled-later p t now none h = omega arith
refilled-later p t now (some b) h = omega (arith, h)

suc_times : (n c : ℕ) → suc n * c ≡ c + n * c
suc_times n c = grind arith

counted :
    (k m n : ℕ) (x y : Bool) → x ≡ y → (if x then k else 0) + m ≤ n → (if y then k else 0) + m ≤ n
counted k m n x y e g = ground (arith, e, g)

small_full : (scope : RateLimitScope) → full (policy_of scope) < year_2286
unfolding policy_of
small_full message_send = omega arith
small_full auth = omega arith
small_full media_upload = omega arith
small_full general_read = omega arith

last-ge : (u : ℕ) (us : List ℕ) → Ascending u us → u ≤ last_of u us
last-ge u [] a = omega arith
last-ge u (v ∷ vs) (k, a) = omega (arith, k, last-ge v vs a)

rounded_up : (n k : ℕ) → k ≡ (n + (second - 1)) / second → (n ≤ k * second) × (0 < n → 1 ≤ k)
rounded_up n k e = (omega (arith, e), λ h. omega (arith, e, h))

one_token : (scope : RateLimitScope) → (policy_of scope).micros_per_token ≤ full (policy_of scope)
unfolding policy_of
one_token message_send = omega arith
one_token auth = omega arith
one_token media_upload = omega arith
one_token general_read = omega arith

module _ (time_text token_text : ℕ → ℕ) where
  -- The decisions of requests at these times, all on one bucket.
  unfoldable pub admitted : RateLimitPolicy → Option Bucket → List ℕ → ℕ
  admitted p b [] = 0
  admitted p b (now ∷ later) =
      let (d, b') = token_bucket time_text token_text p now b in
      let rest = admitted p (some b') later in if d.allowed then suc rest else rest

-- With 14 digits, the time of a request between 2001 and 2286 keeps a tenth of a millisecond, and
-- the tokens of a bucket far less than the refill of a microsecond.
module _ (time_text token_text : ℕ → ℕ) (near_time : IsWithin 50 time_text)
    (near_tokens : IsWithin 1 token_text) where
  -- What one request takes from the bucket, and what the time gives back.
  step-bound :
      (p : RateLimitPolicy) (t now : ℕ) (b : Option Bucket)
      → OutlivesRefill p
      → full p < year_2286
      → t ≤ now
      → now < year_2286
      → IsStored p t b
      → let (d, b') = token_bucket time_text token_text p now b in
        IsStored p now (some b')
        × ((if d.allowed then p.micros_per_token else 0) + refilled p now (some b')
            ≤ refilled p t b + (now - t) + 51)
  unfolding token_bucket
  step-bound p t now b o small h soon i =
      let left = refilled p now b in
      let grown = refilled-later p t now b h in
      let most = refilled-full p now b in
      let (early, late) = near_time now soon in
      rw (unexpired-refilled p t now b o i) (elim (Bool-cases (leb p.micros_per_token left)) [
        | inl e ↦
            let enough : p.micros_per_token ≤ left = ground (arith, e) in
            rw e (
              (omega (arith, early), omega (arith, late)),
              omega (
                arith,
                enough,
                grown,
                most,
                early,
                late,
                near_tokens (left - p.micros_per_token),
              ),
            )
        | inr e ↦ rw e (
          (omega (arith, early), omega (arith, late)),
          omega (arith, grown, most, early, late, near_tokens left (omega (arith, most, small))),
        )
      ])

  admitted-bound :
      (p : RateLimitPolicy) (t : ℕ) (times : List ℕ) (b : Option Bucket)
      → OutlivesRefill p
      → full p < year_2286
      → Ascending t times
      → last_of t times < year_2286
      → IsStored p t b
      → admitted time_text token_text p b times * p.micros_per_token
        ≤ refilled p t b + (last_of t times - t) + length times * 51
  unfolding admitted
  admitted-bound p t [] b o small a soon i = omega arith
  admitted-bound p t (now ∷ later) b o small (h, a) soon i =
      let d = (token_bucket time_text token_text p now b).0 in
      let b' = (token_bucket time_text token_text p now b).1 in
      let forward = last-ge now later a in
      let (kept, gave) = step-bound p t now b o small h (omega (arith, forward, soon)) i in
      let rest = admitted-bound p now later (some b') o small a soon kept in
      let before = refilled p t b + (now - t) + 51 in
      let more = suc_times (length later) 51 in
      elim (Bool-cases d.allowed) [
        | inl y ↦
            let taken : p.micros_per_token + refilled p now (some b') ≤ before =
              counted p.micros_per_token _ _ _ _ y gave in
            let many =
              suc_times (admitted time_text token_text p (some b') later) p.micros_per_token in
            rw y (omega (arith, many, more, taken, rest, forward, h))
        | inr n ↦
            let same : 0 + refilled p now (some b') ≤ before =
              counted p.micros_per_token _ _ _ _ n gave in
            rw n (omega (arith, more, same, rest, forward, h))
      ]

  -- Of requests to one bucket at times that do not go back, no more are admitted than the
  -- capacity, one for each refill time that has passed, and 51 microseconds' worth of refill for
  -- each request, for times before the year 2286, where a stored time reads back within 50
  -- microseconds and stored tokens within one microsecond's refill.
  pub admitted_bounded :
      (scope : RateLimitScope) (t : ℕ) (times : List ℕ) (b : Option Bucket)
      → Ascending t times
      → last_of t times < year_2286
      → IsStored (policy_of scope) t b
      → let p = policy_of scope in
        admitted time_text token_text p b times * p.micros_per_token
        ≤ p.capacity * p.micros_per_token + (last_of t times - t) + length times * 51
  admitted_bounded scope t times b a soon i =
      let p = policy_of scope in
      omega (
        arith,
        admitted-bound p t times b (policy_of-OutlivesRefill scope) (small_full scope) a soon i,
        refilled-full p t b,
      )

  -- What a refusal leaves in the bucket and tells the caller.
  refusal :
      (p : RateLimitPolicy) (now : ℕ) (b : Option Bucket)
      → (token_bucket time_text token_text p now b).0.allowed ≡ false
      → let left = refilled p now (unexpired now b) in
        let cost = p.micros_per_token in
        (left < cost)
        × ((token_bucket time_text token_text p now b).1 ≡ stored time_text token_text p now left)
        × ((token_bucket time_text token_text p now b).0.retry_after_seconds
            ≡ (cost - left + (second - 1)) / second)
  unfolding token_bucket
  refusal p now b h = ground arith

  admission :
      (p : RateLimitPolicy) (now : ℕ) (b : Option Bucket)
      → p.micros_per_token ≤ refilled p now (unexpired now b)
      → (token_bucket time_text token_text p now b).0.allowed ≡ true
  unfolding token_bucket
  admission p now b h = ground arith

  -- A request that is refused is told a positive number of seconds, and the next request on the
  -- bucket that comes at least that and 51 microseconds later is admitted, for times before the
  -- year 2286, where a stored time reads back within 50 microseconds and stored tokens within one
  -- microsecond's refill.
  pub refused_then_admitted :
      (scope : RateLimitScope) (now later : ℕ) (b : Option Bucket)
      → now < year_2286
      → let (d, b') = token_bucket time_text token_text (policy_of scope) now b in
        d.allowed ≡ false
        → now + d.retry_after_seconds * second + 51 ≤ later
        → (1 ≤ d.retry_after_seconds)
          × ((token_bucket time_text token_text (policy_of scope) later (some b')).0.allowed ≡ true)
  refused_then_admitted scope now later b soon h w =
      let p = policy_of scope in
      let left = refilled p now (unexpired now b) in
      let (few, e, r) = refusal p now b h in
      let (enough, positive) = rounded_up (p.micros_per_token - left) _ r in
      let (early, late) = near_time now soon in
      let kept = near_tokens left (omega (arith, few, one_token scope, small_full scope)) in
      let after = stored time_text token_text p now left in
      let same =
        unexpired-refilled p now later (some after) (policy_of-OutlivesRefill scope)
          (omega (arith, early), omega (arith, late)) in
      (
        positive (omega (arith, few)),
        rw e (
            admission p later (some after)
              (rw same (omega (arith, few, enough, w, early, kept, one_token scope)))),
      )
