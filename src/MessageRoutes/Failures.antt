-- ===== src/MessageRoutes/Failures.antt =====
-- The errors that a send can end in.
use chatspace.Prelude.{
  ℕ, zero, suc, ◌≡◌, ◌≢◌, refl, sym, ◌⊎◌, inl, inr, Bool, true, false, Option, none, some,
  Option-cases, List, [], ◌∷◌, arith, Text, Result, ok, err, Result-cases,
}
use chatspace.Db.{Db, Message, Violation, insert_message}
use chatspace.Messages.Media.{
  SendError, integrity_error, resolution_timeout, invalid_media, validate_and_load_media,
  bind_media_atomically,
}
use chatspace.Messages.Send.{
  World, SendMessageResult, load_claimed_message_id, load_message_with_media, claim_idempotency_key,
  ensure_channel_and_membership, persist_message, settle, wait, resolve_loop,
  resolve_existing_claim, claim_rounds, send_message, claim_max_rounds,
}
use chatspace.Messages.Deliver.{
  check_body, channel_checks, channel_message, dm_checks, dm_message, reject_self_dm,
  ensure_active_recipient_exists, send_channel_message, send_dm_message,
}
use chatspace.MessageRoutes.{
  MessageRouteError, unhandled_500, bad_request_400, send_answer, channel_send_status,
  dm_send_status, send_channel_message_route, send_dm_message_route, parse_idempotency_key,
}

-- The errors that a transaction or the claim can give.
abbrev IsLate : SendError → Type 0
IsLate e =
    (e ≡ resolution_timeout) ⊎ (e ≡ invalid_media) ⊎ ((v : Violation) × (e ≡ integrity_error v))

persist-IsLate :
    (db : Db) (row : Message) (ids : List ℕ) (e : SendError)
    → persist_message db row ids ≡ err e
    → IsLate e
unfolding persist_message bind_media_atomically
persist-IsLate db row [] e h = elim (Result-cases (insert_message db row)) [
  | inl (d, q) ↦ ground arith
  | inr (v, q) ↦ inr (inr (v, ground arith))
]
persist-IsLate db row (i ∷ ids) e h = elim (Result-cases (insert_message db row)) [
  | inl (d, q) ↦ inr (inl (ground arith))
  | inr (v, q) ↦ inr (inr (v, ground arith))
]

module _ (others : ℕ → World → World) where
  loop-timeout :
      (n : ℕ) (w : World) (sender : ℕ) (key : Text) (e : SendError)
      → (resolve_loop others n w sender key).1 ≡ err e
      → e ≡ resolution_timeout
  unfolding resolve_loop
  loop-timeout zero w sender key e h = ground arith
  loop-timeout (suc zero) w sender key e h =
      elim (Option-cases (load_claimed_message_id (wait others w) sender key)) [
        | inl q ↦ ground arith
        | inr (m, q) ↦ elim (Option-cases (load_message_with_media (wait others w).db m)) [
          | inl n ↦ ground arith
          | inr (l, n) ↦ ground arith
        ]
      ]
  loop-timeout (suc (suc n)) w sender key e h =
      elim (Option-cases (load_claimed_message_id (wait others w) sender key)) [
        | inl q ↦ ground arith
        | inr (m, q) ↦ loop-timeout (suc n) (wait others w) sender key e (ground arith)
      ]

  resolve-timeout :
      (w : World) (sender : ℕ) (key : Text) (e : SendError)
      → (resolve_existing_claim others w sender key).1 ≡ err e
      → e ≡ resolution_timeout
  unfolding resolve_existing_claim
  resolve-timeout w sender key e h = elim (Option-cases (load_claimed_message_id w sender key)) [
    | inl q ↦ ground arith
    | inr (m, q) ↦ elim (Option-cases (load_message_with_media w.db m)) [
      | inl n ↦ loop-timeout 7 w sender key e (ground arith)
      | inr (l, n) ↦ ground arith
    ]
  ]

  rounds-IsLate :
      (sender : ℕ) (key : Text) (ids : List ℕ) (row : Message) (n : ℕ) (w : World) (e : SendError)
      → (claim_rounds others sender key ids row n w).1 ≡ err e
      → IsLate e
  unfolding claim_rounds settle
  rounds-IsLate sender key ids row zero w e h = inl (ground arith)
  rounds-IsLate sender key ids row (suc n) u e h =
      let w = wait others u in
      elim (Option-cases (load_claimed_message_id w sender key)) [
        | inl q ↦
            let w' = wait others (claim_idempotency_key w sender key row.id) in
            elim (Result-cases (persist_message w'.db row ids)) [
              | inl (x, p) ↦ ground arith
              | inr (x, p) ↦ persist-IsLate w'.db row ids e (ground arith)
            ]
        | inr (m, q) ↦
            let (v, found) = resolve_existing_claim others (wait others w) sender key in
            elim (Result-cases found) [
              | inr (x, p) ↦ inl (resolve-timeout (wait others w) sender key e (ground arith))
              | inl (some l, p) ↦ ground arith
              | inl (none, p) ↦ rounds-IsLate sender key ids row n v e (ground arith)
            ]
      ]

  send-failure :
      (checks : Db → Result SendError (Unit {0})) (w : World) (key : Text) (ids : List ℕ)
      (row : Message) (e : SendError)
      → (send_message others checks w key ids row).1 ≡ err e
      → IsLate e ⊎ ((db : Db) × (checks db ≡ err e))
  unfolding send_message
  send-failure checks w key ids row e h =
      let (v, found) = resolve_existing_claim others w row.sender_id key in
      elim (Result-cases found) [
        | inr (x, q) ↦ inl (inl (resolve-timeout w row.sender_id key e (ground arith)))
        | inl (some l, q) ↦ ground arith
        | inl (none, q) ↦ elim (Result-cases (checks (wait others v).db)) [
          | inr (x, k) ↦ inr ((wait others v).db, ground arith)
          | inl (_, k) ↦ inl (
              rounds-IsLate row.sender_id key ids row claim_max_rounds (wait others v) e
                (ground arith))
        ]
      ]

validate-error :
    (db : Db) (ids : List ℕ) (sender : ℕ) (e : SendError)
    → validate_and_load_media db ids sender ≡ err e
    → e ≡ invalid_media
unfolding validate_and_load_media
validate-error db [] sender e h = ground arith
validate-error db (i ∷ ids) sender e h = ground (arith, validate-error db ids sender e)

-- A status of the code's, or the 500 of a violated constraint.
abbrev pub IsStatus : MessageRouteError → Type 0
IsStatus a = (x : SendError) → a ≡ unhandled_500 x → (v : Violation) × (x ≡ integrity_error v)

late_channel : (e : SendError) → IsLate e → IsStatus (channel_send_status e)
late_channel e (inl q) x h = ground arith
late_channel e (inr (inl q)) x h = ground arith
late_channel e (inr (inr (v, q))) x h = (v, ground arith)

late_dm : (e : SendError) → IsLate e → IsStatus (dm_send_status e)
late_dm e (inl q) x h = ground arith
late_dm e (inr (inl q)) x h = ground arith
late_dm e (inr (inr (v, q))) x h = (v, ground arith)

module _ (db : Db) (sender : ℕ) (content : Text) (media_ids : List ℕ) (e x : SendError) where
  channel_checks_mapped :
      (c : ℕ)
      → channel_checks c sender content media_ids db ≡ err e
      → channel_send_status e ≢ unhandled_500 x
  unfolding channel_checks check_body ensure_channel_and_membership
  channel_checks_mapped c k h = elim (Result-cases (validate_and_load_media db media_ids sender)) [
    | inl (l, q) ↦ ground arith
    | inr (y, q) ↦ ground (arith, validate-error db media_ids sender y q)
  ]

  dm_checks_mapped :
      (recipient : ℕ)
      → dm_checks recipient sender content media_ids db ≡ err e
      → dm_send_status e ≢ unhandled_500 x
  unfolding dm_checks check_body reject_self_dm ensure_active_recipient_exists
  dm_checks_mapped recipient k h =
      elim (Result-cases (validate_and_load_media db media_ids sender)) [
        | inl (l, q) ↦ ground arith
        | inr (y, q) ↦ ground (arith, validate-error db media_ids sender y q)
      ]

send_answer-error :
    (status_of : SendError → MessageRouteError) (p : World × Result SendError SendMessageResult)
    (a : MessageRouteError)
    → (send_answer status_of p).1 ≡ err a
    → (e : SendError) × (p.1 ≡ err e) × (a ≡ status_of e)
send_answer-error status_of (w, err e) a h = (e, refl, ground arith)
send_answer-error status_of (w, ok r) a h = ground arith

parse_error :
    (uuid_of : Text → Option Text) (header : Option Text) (a : MessageRouteError)
    → parse_idempotency_key uuid_of header ≡ err a
    → a ≡ bad_request_400
unfolding parse_idempotency_key
parse_error uuid_of none a h = ground arith
parse_error uuid_of (some raw) a h = ground arith

module _ (others : ℕ → World → World) (uuid_of : Text → Option Text) (w : World)
    (header : Option Text) (new_id now target u : ℕ) (content : Text) (media_ids : List ℕ)
    (x : SendError) where
  -- A send to a channel ends in no uncaught error but a violated constraint.
  pub channel_send_mapped :
      (redis_answers : Bool)
      → (send_channel_message_route redis_answers others uuid_of w header new_id now target u
          content media_ids).1
        ≡ err (unhandled_500 x)
      → (v : Violation) × (x ≡ integrity_error v)
  unfolding send_channel_message_route send_channel_message
  channel_send_mapped false h = elim (Result-cases (parse_idempotency_key uuid_of header)) [
    | inr (a, p) ↦ ground (arith, parse_error uuid_of header a p)
    | inl (key, p) ↦ ground (arith, p)
  ]
  channel_send_mapped true h = elim (Result-cases (parse_idempotency_key uuid_of header)) [
    | inr (a, p) ↦ ground (arith, parse_error uuid_of header a p)
    | inl (key, p) ↦
        let checks = channel_checks target u content media_ids in
        let sent =
          send_message others checks w key media_ids
            (channel_message target u content new_id now) in
        let ended : (send_answer channel_send_status sent).1 ≡ err (unhandled_500 x) =
          rw (p, send_channel_message_route) at h in
        let (e, q, r) = send_answer-error channel_send_status sent (unhandled_500 x) ended in
        elim (send-failure others checks w key media_ids
          (channel_message target u content new_id now) e q) [
            | inl late ↦ late_channel e late x (sym r)
            | inr (db, k) ↦
                absurd (channel_checks_mapped db u content media_ids e x target k (sym r))
          ]
  ]

  -- A direct message ends in no uncaught error but a violated constraint.
  pub dm_send_mapped :
      (redis_answers : Bool)
      → (send_dm_message_route redis_answers others uuid_of w header new_id now target u content
          media_ids).1
        ≡ err (unhandled_500 x)
      → (v : Violation) × (x ≡ integrity_error v)
  unfolding send_dm_message_route send_dm_message
  dm_send_mapped false h = elim (Result-cases (parse_idempotency_key uuid_of header)) [
    | inr (a, p) ↦ ground (arith, parse_error uuid_of header a p)
    | inl (key, p) ↦ ground (arith, p)
  ]
  dm_send_mapped true h = elim (Result-cases (parse_idempotency_key uuid_of header)) [
    | inr (a, p) ↦ ground (arith, parse_error uuid_of header a p)
    | inl (key, p) ↦
        let checks = dm_checks target u content media_ids in
        let sent =
          send_message others checks w key media_ids (dm_message target u content new_id now) in
        let ended : (send_answer dm_send_status sent).1 ≡ err (unhandled_500 x) =
          rw (p, send_dm_message_route) at h in
        let (e, q, r) = send_answer-error dm_send_status sent (unhandled_500 x) ended in
        elim (send-failure others checks w key media_ids (dm_message target u content new_id now) e
          q) [
            | inl late ↦ late_dm e late x (sym r)
            | inr (db, k) ↦ absurd (dm_checks_mapped db u content media_ids e x target k (sym r))
          ]
  ]
