-- ===== src/Messages/Send.antt =====
-- Sending: the claim on `(sender_id, idempotency_key)` in Redis, its bounded resolution, and the
-- transaction, in backend/app/services/messages.py, with the events of message_events.py.
-- What other requests do while this one waits is the function `others` of the count of waits.
use chatspace.Prelude.{
  ℕ, zero, suc, ◌-◌, Bool, true, false, Option, none, some, List, [], ◌∷◌, ◌++◌, ◌&&◌, ◌==◌,
  if◌then◌else◌, find, delete_where, Text, text_eq, Result, ok, err, guard, leb,
}
use chatspace.Db.{
  Db, Message, Attachment, get_channel, get_member, get_message, insert_message, is_some,
}
use chatspace.Messages.Media.{
  SendError, channel_not_found, not_channel_member, resolution_timeout, integrity_error,
  get_message_media, bind_media_atomically,
}

pub record Claim : Type 0 where
  pub sender_id : ℕ
  pub idempotency_key : Text
  pub message_id : ℕ

-- `chan:{channel_id}`, `dm:{least}:{greatest}`, `user:{user_id}` and `presence:{user_id}`.
pub data Topic : Type 0 where
  channel_topic : ℕ → Topic
  dm_pair_topic : (least greatest : ℕ) → Topic
  user_topic presence_topic : ℕ → Topic

abbrev pub dm_pair : ℕ → ℕ → ℕ × ℕ
dm_pair a b = if leb a b then (a, b) else (b, a)

abbrev pub dm_topic : ℕ → ℕ → Topic
dm_topic a b = let (least, greatest) = dm_pair a b in dm_pair_topic least greatest

-- `_topic_for`; the assertion on a message with neither target fails.
abbrev pub topic_of : (channel_id recipient_id : Option ℕ) (sender_id : ℕ) → Option Topic
topic_of (some c) _ s = some (channel_topic c)
topic_of none (some u) s = some (dm_topic s u)
topic_of none none s = none

abbrev pub topic_for : Message → Option Topic
topic_for m = topic_of m.channel_id m.recipient_id m.sender_id

pub data Event : Type 0 where
  message_created message_edited : Message → List Attachment → Event
  message_deleted : Message → Event

pub record World : Type 0 where
  pub db : Db
  pub claims : List Claim
  pub published : List (Option Topic × Event)
  pub waits : ℕ

pub record SendMessageResult : Type 0 where
  pub message : Message
  pub media : List Attachment
  pub created : Bool

abbrev pub claim_at : ℕ → Text → Claim → Bool
claim_at sender key r = r.sender_id == sender && text_eq r.idempotency_key key

unfoldable pub load_claimed_message_id : World → (sender_id : ℕ) → Text → Option ℕ
load_claimed_message_id w sender key = elim (find (claim_at sender key) w.claims) [
  | none ↦ none
  | some r ↦ some r.message_id
]

-- SET with NX, where the key is free.
abbrev pub claim_idempotency_key : World → (sender_id : ℕ) → Text → (message_id : ℕ) → World
claim_idempotency_key w sender key m = record w {
  claims = record { sender_id = sender; idempotency_key = key; message_id = m } ∷ w.claims;
}

abbrev pub release_idempotency_key : World → (sender_id : ℕ) → Text → World
release_idempotency_key w sender key = record w {
  claims = delete_where (claim_at sender key) w.claims;
}

unfoldable pub load_message_with_media : Db → ℕ → Option (Message × List Attachment)
load_message_with_media db m = elim (get_message db m) [
  | none ↦ none
  | some r ↦ some (r, get_message_media db m)
]

unfoldable pub publish : World → Message → Event → World
publish w m e = record w { published = w.published ++ ((topic_for m, e) ∷ []) }

abbrev pub replayed : Message × List Attachment → SendMessageResult
replayed loaded = record { message = loaded.0; media = loaded.1; created = false }

unfoldable pub ensure_channel_and_membership :
    Db → (channel_id user_id : ℕ) → Result SendError (Unit {0})
ensure_channel_and_membership db c u =
    if is_some (get_channel db c)
    then guard (is_some (get_member db c u)) not_channel_member
    else err channel_not_found

-- The INSERT, the binding and the commit are one transaction; an exception rolls all of it back.
unfoldable pub persist_message :
    Db → Message → (media_ids : List ℕ) → Result SendError (Db × List Attachment)
persist_message db row media_ids = elim (insert_message db row) [
  | err v ↦ err (integrity_error v)
  | ok db' ↦ bind_media_atomically db' row.id media_ids row.sender_id
]

-- After the transaction: publish and answer, or release the claim and raise.
unfoldable pub settle :
    World
    → (sender_id : ℕ) → Text
    → Message
    → Result SendError (Db × List Attachment)
    → World × Result SendError SendMessageResult
settle w sender key row (ok (db', media)) = (
  publish (record w { db = db' }) row (message_created row media),
  ok (record { message = row; media = media; created = true }),
)
settle w sender key row (err e) = (release_idempotency_key w sender key, err e)

abbrev pub resolve_max_attempts : ℕ
resolve_max_attempts = 8

abbrev pub claim_max_rounds : ℕ
claim_max_rounds = 3

module _ (others : ℕ → World → World) where
  -- One wait of this request, in which other requests run.
  unfoldable pub wait : World → World
  wait w = record (others w.waits w) { waits = suc w.waits }

  -- The backoff loop with this many attempts left: only the last one reads the database.
  unfoldable pub resolve_loop :
      ℕ
      → World
      → (sender_id : ℕ) → Text
      → World × Result SendError (Option (Message × List Attachment))
  resolve_loop zero w sender key = (w, err resolution_timeout)
  resolve_loop (suc zero) w sender key =
      let w' = wait w in
      elim (load_claimed_message_id w' sender key) [
        | none ↦ (w', ok none)
        | some m ↦ elim (load_message_with_media w'.db m) [
          | some loaded ↦ (w', ok (some loaded))
          | none ↦ (w', err resolution_timeout)
        ]
      ]
  resolve_loop (suc (suc left)) w sender key =
      let w' = wait w in
      elim (load_claimed_message_id w' sender key) [
        | none ↦ (w', ok none)
        | some m ↦ resolve_loop (suc left) w' sender key
      ]

  unfoldable pub resolve_existing_claim :
      World → (sender_id : ℕ) → Text → World × Result SendError (Option (Message × List Attachment))
  resolve_existing_claim w sender key = elim (load_claimed_message_id w sender key) [
    | none ↦ (w, ok none)
    | some m ↦ elim (load_message_with_media w.db m) [
      | some loaded ↦ (w, ok (some loaded))
      | none ↦ resolve_loop (resolve_max_attempts - 1) w sender key
    ]
  ]

  module _ (sender : ℕ) (key : Text) (media_ids : List ℕ) (row : Message) where
    -- Others run before each attempt at the claim, between the claim and the transaction, and
    -- after a lost claim.
    unfoldable pub claim_rounds : ℕ → World → World × Result SendError SendMessageResult
    claim_rounds zero w = (w, err resolution_timeout)
    claim_rounds (suc n) w =
        let v = wait w in
        elim (load_claimed_message_id v sender key) [
          | none ↦
              let w' = wait (claim_idempotency_key v sender key row.id) in
              settle w' sender key row (persist_message w'.db row media_ids)
          | some _ ↦
              let (w', resolved) = resolve_existing_claim (wait v) sender key in
              elim resolved [
                | err e ↦ (w', err e)
                | ok (some loaded) ↦ (w', ok (replayed loaded))
                | ok none ↦ claim_rounds n w'
              ]
        ]

  -- A replay is answered first; then the checks of this kind of message; then the claim.
  unfoldable pub send_message :
      (checks : Db → Result SendError (Unit {0}))
      → World
      → Text
      → (media_ids : List ℕ) → Message
      → World × Result SendError SendMessageResult
  send_message checks w key media_ids row =
      let (w', resolved) = resolve_existing_claim w row.sender_id key in
      elim resolved [
        | err e ↦ (w', err e)
        | ok (some loaded) ↦ (w', ok (replayed loaded))
        | ok none ↦
            let v = wait w' in
            elim (checks v.db) [
              | err e ↦ (v, err e)
              | ok _ ↦ claim_rounds row.sender_id key media_ids row claim_max_rounds v
            ]
      ]
