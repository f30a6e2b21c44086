-- ===== src/Messages/Claims.antt =====
-- What a send leaves behind on each of its branches.
use chatspace.Prelude.{
  ℕ, zero, suc, ◌≡◌, refl, sym, ap, ◌∙◌, inl, inr, none, some, List, Option-cases, arith, find,
  find-holds, Text, text_eq_refl, Result, ok, ==_iff, true, Result-cases,
}
use chatspace.Db.{is_some, Db, Message, get_message, message_at}
use chatspace.Messages.Media.{SendError, get_message_media}
use chatspace.Messages.Send.{
  World, SendMessageResult, load_claimed_message_id, claim_idempotency_key, load_message_with_media,
  replayed, persist_message, wait, resolve_existing_claim, claim_rounds, send_message,
  claim_max_rounds,
}
use chatspace.Messages.Visible.{IsVisible, loaded-IsVisible, resolve-IsLoaded, settle-IsVisible}

module _ (others : ℕ → World → World) where
  -- A later send with a visible claim is a replay, whatever it asks for.
  pub visible-replay :
      (checks : Db → Result SendError (Unit {0})) (w : World) (key : Text) (ids : List ℕ)
      (row r : Message)
      → IsVisible w row.sender_id key r
      → send_message others checks w key ids row
        ≡ (w, ok (replayed (r, get_message_media w.db r.id)))
  unfolding send_message resolve_existing_claim load_message_with_media
  visible-replay checks w key ids row r (c, g) = ground arith

  module _ (sender : ℕ) (key : Text) (ids : List ℕ) (row : Message) where
    -- No other request takes this claim away while it stands.
    abbrev pub KeepsClaim : Type 0
    KeepsClaim =
        (n : ℕ) (w : World)
        → load_claimed_message_id w sender key ≡ some row.id
        → load_claimed_message_id (others n w) sender key ≡ some row.id

    claim-own :
        (w : World)
        → load_claimed_message_id (claim_idempotency_key w sender key row.id) sender key
          ≡ some row.id
    unfolding load_claimed_message_id find
    claim-own w = ground (arith, text_eq_refl key)

    wait-claimed :
        KeepsClaim
        → (w : World) → load_claimed_message_id w sender key ≡ some row.id
        → load_claimed_message_id (wait others w) sender key ≡ some row.id
    unfolding wait load_claimed_message_id
    wait-claimed keeps w c = keeps w.waits w c

    rounds-IsVisible :
        KeepsClaim
        → (n : ℕ) (w w' : World) (r : SendMessageResult)
        → claim_rounds others sender key ids row n w ≡ (w', ok r)
        → IsVisible w' sender key r.message
    unfolding claim_rounds
    rounds-IsVisible keeps zero w w' r h = ground arith
    rounds-IsVisible keeps (suc n) u w' r h =
        let w = wait others u in
        elim (Option-cases (load_claimed_message_id w sender key)) [
          | inl e ↦
              let claimed = claim_idempotency_key w sender key row.id in
              settle-IsVisible (wait others claimed) sender key row ids
                (persist_message (wait others claimed).db row ids) w' r
                (wait-claimed keeps claimed (claim-own w)) refl (ground arith)
          | inr (m, e) ↦
              let (v, found) = resolve_existing_claim others (wait others w) sender key in
              elim (Result-cases found) [
                | inr (x, q) ↦ ground arith
                | inl (none, q) ↦ rounds-IsVisible keeps n v w' r (ground arith)
                | inl (some l, q) ↦
                    let there = loaded-IsVisible v sender key l (
                      resolve-IsLoaded others (wait others w) v sender key l
                        (ap (λ x. (v, x)) q)) in
                    let ended : w' ≡ v = ground arith in
                    let same : r.message ≡ l.0 = ground arith in rw (ended, same) there
              ]
        ]

  send-IsVisible :
      (checks : Db → Result SendError (Unit {0})) (key : Text) (ids : List ℕ) (row : Message)
      → KeepsClaim row.sender_id key ids row
      → (w w' : World) (r : SendMessageResult)
      → send_message others checks w key ids row ≡ (w', ok r)
      → IsVisible w' row.sender_id key r.message
  unfolding send_message
  send-IsVisible checks key ids row keeps w w' r h =
      let (v, found) = resolve_existing_claim others w row.sender_id key in
      elim (Result-cases found) [
        | inr (x, q) ↦ ground arith
        | inl (none, q) ↦ elim (Result-cases (checks (wait others v).db)) [
          | inr (x, k) ↦ ground arith
          | inl (_, k) ↦
              rounds-IsVisible row.sender_id key ids row keeps claim_max_rounds (wait others v) w' r
                (ground arith)
        ]
        | inl (some l, q) ↦
            let there =
              loaded-IsVisible v row.sender_id key l
                (resolve-IsLoaded others w v row.sender_id key l (ap (λ x. (v, x)) q)) in
            let ended : w' ≡ v = ground arith in
            let same : r.message ≡ l.0 = ground arith in rw (ended, same) there
      ]

-- Later, the claim has neither expired nor been released, and no message row has been deleted
-- from the table.
abbrev pub Retains : World → (sender_id : ℕ) → Text → World → Type 0
Retains w sender key v =
    (load_claimed_message_id v sender key ≡ load_claimed_message_id w sender key)
    × ((i : ℕ) → is_some (get_message w.db i) ≡ true → is_some (get_message v.db i) ≡ true)

found_id : (db : Db) (i : ℕ) (m : Message) → get_message db i ≡ some m → m.id ≡ i
unfolding get_message
found_id db i m h = (==_iff m.id i).0 (find-holds (message_at i) db.messages m h)

retained-IsVisible :
    (w v : World) (sender : ℕ) (key : Text) (r : Message)
    → IsVisible w sender key r
    → Retains w sender key v
    → (m : Message) × (m.id ≡ r.id) × IsVisible v sender key m
retained-IsVisible w v sender key r (claimed, there) (same, kept) =
    elim (Option-cases (get_message v.db r.id)) [
      | inl n ↦ let still = kept r.id (ap is_some there) in ground (arith, still)
      | inr (m, e) ↦
          let own = found_id v.db r.id m e in
          (m, own, (same ∙ claimed ∙ ap some (sym own), ap (get_message v.db) own ∙ e))
    ]

pub send-retained :
    (others : ℕ → World → World) (checks : Db → Result SendError (Unit {0})) (key : Text)
    (ids : List ℕ) (row : Message)
    → KeepsClaim others row.sender_id key ids row
    → (w w' v : World) (r : SendMessageResult)
    → send_message others checks w key ids row ≡ (w', ok r)
    → Retains w' row.sender_id key v
    → (m : Message) × (m.id ≡ r.message.id) × IsVisible v row.sender_id key m
send-retained others checks key ids row keeps w w' v r h later =
    retained-IsVisible w' v row.sender_id key r.message
      (send-IsVisible others checks key ids row keeps w w' r h) later

-- After a send that gave an answer, whether it persisted its own row or found another's, and at
-- any later state in which the claim on the key still stands and no message row has gone, a send
-- of the same sender with the same key answers the message of the same id as it then is, with the
-- attachments bound to it, and changes and publishes nothing, whatever it asks for. Other
-- requests may do anything while the first send waits, before each attempt at the claim too,
-- except to take away the claim on its own message id while it stands.
pub send_once :
    (others : ℕ → World → World) (checks : Db → Result SendError (Unit {0})) (key : Text)
    (ids : List ℕ) (row : Message)
    → KeepsClaim others row.sender_id key ids row
    → (w w' v : World) (r : SendMessageResult)
    → send_message others checks w key ids row ≡ (w', ok r)
    → Retains w' row.sender_id key v
    → (others' : ℕ → World → World) (checks' : Db → Result SendError (Unit {0})) (ids' : List ℕ)
      (row' : Message)
    → row'.sender_id ≡ row.sender_id
    → (m : Message) × (m.id ≡ r.message.id)
      × (get_message v.db m.id ≡ some m)
      × (send_message others' checks' v key ids' row'
          ≡ (v, ok (replayed (m, get_message_media v.db m.id))))
send_once others checks key ids row keeps w w' v r h later others' checks' ids' row' own =
    let (m, same, there) = send-retained others checks key ids row keeps w w' v r h later in
    (m, same, there.1, visible-replay others' checks' v key ids' row' m (rw own there))
