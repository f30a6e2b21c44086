-- ===== src/Messages/Quiet.antt =====
-- A send that no other request disturbs, and the three worlds it can end in.
use chatspace.Prelude.{
  ℕ, zero, suc, ◌≡◌, refl, sym, ap, ◌∙◌, ◌⊎◌, inl, inr, true, false, none, some, List, [], ◌∷◌,
  ◌++◌, Option-cases, arith, find, delete_where, find-none-delete_where_id, Text, text_eq_refl,
  Result, ok, err, Result-cases,
}
use chatspace.Db.{Db, Message, Attachment}
use chatspace.Messages.Media.{SendError}
use chatspace.Messages.Send.{
  World, Claim, SendMessageResult, message_created, topic_for, claim_at, load_claimed_message_id,
  claim_idempotency_key, load_message_with_media, publish, persist_message, settle, wait,
  resolve_loop, resolve_existing_claim, claim_rounds, send_message, claim_max_rounds,
}
use chatspace.Messages.Visible.{Quiet, SameState}

-- What a delete that matches only the first row leaves.
release-claim :
    (w : World) (sender : ℕ) (key : Text) (c : Claim) (rest : List Claim)
    → claim_at sender key c ≡ true
    → find (claim_at sender key) rest ≡ none
    → delete_where (claim_at sender key) (c ∷ rest) ≡ rest
unfolding delete_where
release-claim w sender key c rest own free =
    rw own (find-none-delete_where_id (claim_at sender key) rest free)

module _ (others : ℕ → World → World) (quiet : Quiet others) where
  wait-same : (w : World) → SameState (wait others w) w
  unfolding wait
  wait-same w = rw (quiet w.waits w) (refl, refl, refl)

  loop-same :
      (n : ℕ) (w : World) (sender : ℕ) (key : Text)
      → SameState (resolve_loop others n w sender key).0 w
  unfolding resolve_loop
  loop-same zero w sender key = (refl, refl, refl)
  loop-same (suc zero) w sender key =
      elim (Option-cases (load_claimed_message_id (wait others w) sender key)) [
        | inl e ↦ rw (e, resolve_loop) (wait-same w)
        | inr (m, e) ↦ elim (Option-cases (load_message_with_media (wait others w).db m)) [
          | inl n ↦ rw (e, n, resolve_loop) (wait-same w)
          | inr (l, n) ↦ rw (e, n, resolve_loop) (wait-same w)
        ]
      ]
  loop-same (suc (suc n)) w sender key =
      let (a, b, c) = wait-same w in
      let (a', b', c') = loop-same (suc n) (wait others w) sender key in
      elim (Option-cases (load_claimed_message_id (wait others w) sender key)) [
        | inl e ↦ rw (e, resolve_loop) (a, b, c)
        | inr (m, e) ↦ rw (e, resolve_loop) (a' ∙ a, b' ∙ b, c' ∙ c)
      ]

  resolve-same :
      (w : World) (sender : ℕ) (key : Text)
      → SameState (resolve_existing_claim others w sender key).0 w
  unfolding resolve_existing_claim
  resolve-same w sender key = elim (Option-cases (load_claimed_message_id w sender key)) [
    | inl e ↦ rw (e, resolve_existing_claim) (refl, refl, refl)
    | inr (m, e) ↦ elim (Option-cases (load_message_with_media w.db m)) [
      | inl n ↦ rw (e, n, resolve_existing_claim) (loop-same 7 w sender key)
      | inr (l, n) ↦ rw (e, n, resolve_existing_claim) (refl, refl, refl)
    ]
  ]

  -- What a send does to a world: nothing where it fails or replays; else it adds the claim, the
  -- row with its attachments, and one event.
  abbrev pub Settles :
      World
      → (sender_id : ℕ) → Text
      → List ℕ
      → Message
      → World
      → Result SendError SendMessageResult
      → Type 0
  Settles w sender key ids row w' (err e) = SameState w' w
  Settles w sender key ids row w' (ok r) =
      ((r.created ≡ false) × SameState w' w)
      ⊎ ((r.created ≡ true)
          × (r.message ≡ row)
          × (load_claimed_message_id w sender key ≡ none)
          × (persist_message w.db row ids ≡ ok (w'.db, r.media))
          × (w'.claims ≡ (
              record { sender_id = sender; idempotency_key = key; message_id = row.id } ∷ w.claims))
          × (w'.published ≡ w.published ++ ((topic_for row, message_created row r.media) ∷ [])))

  settle-Settles :
      (w w1 : World) (sender : ℕ) (key : Text) (ids : List ℕ) (row : Message)
      (res : Result SendError (Db × List Attachment))
      → load_claimed_message_id w sender key ≡ none
      → SameState w1 (claim_idempotency_key w sender key row.id)
      → persist_message w.db row ids ≡ res
      → let (w', r) = settle w1 sender key row res in Settles w sender key ids row w' r
  unfolding settle publish load_claimed_message_id
  settle-Settles w w1 sender key ids row (err e) free (d, c, p) h =
      let no_claim : find (claim_at sender key) w.claims ≡ none = ground arith in
      (
        d,
        ap (delete_where (claim_at sender key)) c
            ∙ release-claim w sender key _ w.claims (ground (arith, text_eq_refl key)) no_claim,
        p,
      )
  settle-Settles w w1 sender key ids row (ok (db', media)) free (d, c, p) h =
      inr (refl, refl, free, h, c, rw p refl)

  -- What comes after a wait starts from the same state.
  Settles-from :
      (v w w' : World) (sender : ℕ) (key : Text) (ids : List ℕ) (row : Message)
      (r : Result SendError SendMessageResult)
      → SameState v w
      → Settles v sender key ids row w' r
      → Settles w sender key ids row w' r
  unfolding load_claimed_message_id
  Settles-from v w w' sender key ids row (err e) (d, c, p) (d', c', p') = (d' ∙ d, c' ∙ c, p' ∙ p)
  Settles-from v w w' sender key ids row (ok r) (d, c, p) (inl (o, (d', c', p'))) =
      inl (o, (d' ∙ d, c' ∙ c, p' ∙ p))
  Settles-from v w w' sender key ids row (ok r) (d, c, p) (inr (o, m, free, h, c', p')) =
      inr (o, m, rw (sym c) free, rw (sym d) h, rw (sym c) c', rw (sym p) p')

  rounds-Settles :
      (sender : ℕ) (key : Text) (ids : List ℕ) (row : Message) (n : ℕ) (w : World)
      → let (w', r) = claim_rounds others sender key ids row n w in
        Settles w sender key ids row w' r
  unfolding claim_rounds
  rounds-Settles sender key ids row zero w = (refl, refl, refl)
  rounds-Settles sender key ids row (suc n) u =
      let w = wait others u in
      let ended = claim_rounds others sender key ids row (suc n) u in
      let from = Settles-from w u ended.0 sender key ids row ended.1 (wait-same u) in
      elim (Option-cases (load_claimed_message_id w sender key)) [
        | inl e ↦
            let claimed = claim_idempotency_key w sender key row.id in
            let same = wait-same claimed in
            from (
              rw (e, claim_rounds)
                (settle-Settles w (wait others claimed) sender key ids row
                  (persist_message (wait others claimed).db row ids) e same
                  (ap (λ db. persist_message db row ids) (sym same.0))))
        | inr (m, e) ↦
            let (v, found) = resolve_existing_claim others (wait others w) sender key in
            let (a, b, c) = wait-same w in
            let (a', b', c') = resolve-same (wait others w) sender key in
            let same : SameState v w = (a' ∙ a, b' ∙ b, c' ∙ c) in
            from (elim (Result-cases found) [
              | inr (x, q) ↦ rw (e, q, claim_rounds) same
              | inl (some l, q) ↦ rw (e, q, claim_rounds) (inl (refl, same))
              | inl (none, q) ↦
                  rw (e, q, claim_rounds)
                    (Settles-from v w (claim_rounds others sender key ids row n v).0 sender key ids
                      row (claim_rounds others sender key ids row n v).1 same
                      (rounds-Settles sender key ids row n v))
            ])
      ]

  -- A send that no other request disturbs changes no table, claim or event where it fails and
  -- where it replays; where it creates, the key was free, the transaction is that of the given
  -- row and attachments, the key is claimed for the row, and one `message.created` event is
  -- published, on the topic of the row.
  pub send-Settles :
      (checks : Db → Result SendError (Unit {0})) (w : World) (key : Text) (ids : List ℕ)
      (row : Message)
      → let (w', r) = send_message others checks w key ids row in
        Settles w row.sender_id key ids row w' r
  unfolding send_message
  send-Settles checks w key ids row =
      let (v, found) = resolve_existing_claim others w row.sender_id key in
      let same = resolve-same w row.sender_id key in
      elim (Result-cases found) [
        | inr (x, q) ↦ rw (q, send_message) same
        | inl (some l, q) ↦ rw (q, send_message) (inl (refl, same))
        | inl (none, q) ↦
            let u = wait others v in
            let (a, b, c) = wait-same v in
            let (a', b', c') = same in
            let still : SameState u w = (a ∙ a', b ∙ b', c ∙ c') in
            elim (Result-cases (checks u.db)) [
              | inr (x, k) ↦ rw (q, k, send_message) still
              | inl (_, k) ↦
                  rw (q, k, send_message)
                    (Settles-from u w
                      (claim_rounds others row.sender_id key ids row claim_max_rounds u).0
                      row.sender_id key ids row
                      (claim_rounds others row.sender_id key ids row claim_max_rounds u).1 still
                      (rounds-Settles row.sender_id key ids row claim_max_rounds u))
            ]
      ]
