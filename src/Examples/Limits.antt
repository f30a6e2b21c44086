-- ===== src/Examples/Limits.antt =====
-- Rate limits and presence at concrete inputs.
use chatspace.Prelude.{
  ℕ, ◌≡◌, ◌≤◌, ◌*◌, ◌+◌, ◌/◌, refl, true, false, none, some, [], ◌∷◌, ◌++◌, ltb, length, select,
  update_where, arith,
}
use chatspace.Db.{user_at}
use chatspace.Examples.Sample.{sample}
use chatspace.RateLimit.{auth, policy_of, token_bucket, Bucket, record_and_check}
use chatspace.RateLimit.Admission.{IsWithin, admitted, admitted_bounded, refused_then_admitted}
use chatspace.RateLimit.Window.{frames_in_window, in_window, recorded}
use chatspace.Presence.{
  PresenceWorld, offline, set_last_seen, handle_connect, handle_disconnect, is_online,
}
use chatspace.Presence.Counts.{Room, here, next, connect, set_live, last_disconnect}
use chatspace.Presence.Transitions.{arrive, depart, after_visits, events_of_all, transitions_exact}
use chatspace.Presence.Outage.{missed_disconnect}

-- A time in 2025 to the nearest tenth of a millisecond.
abbrev digits : ℕ → ℕ
digits t = (t + 50) / 100 * 100

digits-IsWithin : IsWithin 50 digits
digits-IsWithin n h = (omega arith, omega arith)

abbrev exact : ℕ → ℕ
exact n = n

exact-IsWithin : IsWithin 1 exact
exact-IsWithin n h = (omega arith, omega arith)

abbrev epoch : ℕ
epoch = 1764173054123460

admitted_bounded_example :
    let p = policy_of auth in
    admitted digits exact p none (epoch ∷ (epoch + 10) ∷ (epoch + 60000000) ∷ [])
      * p.micros_per_token
    ≤ p.capacity * p.micros_per_token + 60000000 + 3 * 51
unfolding policy_of
admitted_bounded_example =
    admitted_bounded digits exact digits-IsWithin exact-IsWithin auth epoch
      (epoch ∷ (epoch + 10) ∷ (epoch + 60000000) ∷ []) none
      (omega arith, (omega arith, (omega arith, tt))) (omega arith) tt

abbrev empty_bucket : Bucket
empty_bucket = record { tokens = 0; ts = epoch; expires = epoch + 900000000 }

refused_then_admitted_example :
    let (d, b) = token_bucket digits exact (policy_of auth) epoch (some empty_bucket) in
    (1 ≤ d.retry_after_seconds)
    × ((token_bucket digits exact (policy_of auth) (epoch + 60000051) (some b)).0.allowed ≡ true)
unfolding token_bucket policy_of
refused_then_admitted_example =
    refused_then_admitted digits exact digits-IsWithin exact-IsWithin auth epoch (epoch + 60000051)
      (some empty_bucket) (omega arith) refl (omega arith)

-- A request exactly when the refused one was told to come back is refused again.
punctual_is_refused :
    let (d, b) = token_bucket digits exact (policy_of auth) epoch (some empty_bucket) in
    (d.retry_after_seconds ≡ 60)
    × ((token_bucket digits exact (policy_of auth) (epoch + 60000000) (some b)).0.allowed ≡ false)
unfolding token_bucket policy_of
punctual_is_refused = (refl, refl)

frames_in_window_example :
    (record_and_check 2 10 12 (recorded 2 10 [] (1 ∷ 5 ∷ []))).0
    ≡ ltb 2 (length (select (in_window 10 12) (1 ∷ 5 ∷ 12 ∷ [])))
frames_in_window_example =
    frames_in_window 2 10 (1 ∷ 5 ∷ []) 12 (omega arith, (omega arith, tt)) (omega arith)

abbrev nobody : PresenceWorld
nobody = record { counters = λ _. none; db = sample; published = [] }

abbrev empty_room : Room
empty_room = record { world = nobody; live = λ _. 0 }

abbrev one_tab : Room
one_tab = record {
  world = handle_connect true true nobody 1 90 1000;
  live = set_live 1 1 empty_room;
}

last_disconnect_example :
    let w = handle_disconnect true true one_tab.world 1 1500 in
    (w.counters 1 ≡ none)
    × (w.db.users ≡ update_where (user_at 1) (set_last_seen 1500) sample.users)
    × (w.published
        ≡ one_tab.world.published
          ++ (record { user_id = 1; state = offline; last_seen = some 1500 } ∷ []))
unfolding handle_connect
last_disconnect_example =
    last_disconnect empty_room one_tab (λ u. refl) (next here (connect true true 1 90 1000)) 1 1500
      refl

transitions_exact_example :
    (after_visits 90 (arrive 1 10 ∷ arrive 1 20 ∷ depart 1 30 ∷ depart 1 40 ∷ []) nobody).published
    ≡ events_of_all (arrive 1 10 ∷ arrive 1 20 ∷ depart 1 30 ∷ depart 1 40 ∷ []) (λ _. 0)
unfolding handle_connect handle_disconnect
transitions_exact_example =
    transitions_exact 90 (arrive 1 10 ∷ arrive 1 20 ∷ depart 1 30 ∷ depart 1 40 ∷ []) nobody
      (λ u. refl) (refl, (refl, (refl, (refl, tt))))

missed_disconnect_example :
    let arrived = handle_connect true true (handle_connect true true nobody 1 90 10) 1 90 20 in
    let one_left = handle_disconnect false true arrived 1 30 in
    let none_left = handle_disconnect true true one_left 1 40 in
    (is_online true none_left 1 50 ≡ true)
    × (none_left.published ≡ one_left.published)
    × (none_left.db ≡ one_left.db)
missed_disconnect_example =
    missed_disconnect nobody 1 90 10 20 30 40 50 refl (omega arith) (omega arith) (omega arith)
