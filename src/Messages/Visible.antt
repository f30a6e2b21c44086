-- ===== src/Messages/Visible.antt =====
-- Claims whose message is in the table, and what a resolution and a transaction leave of them.
use chatspace.Prelude.{
  ℕ, zero, suc, ◌≡◌, refl, sym, ap, ◌∙◌, inl, inr, none, some, List, [], ◌∷◌, ◌++◌, Option-cases,
  arith, find, find-append, find-holds, Text, Result, ok, err, ==_refl, Result-cases,
}
use chatspace.Db.{Db, Message, Attachment, get_message, insert_message, message_at}
use chatspace.Messages.Media.{SendError, bind_media_atomically, get_message_media}
use chatspace.Messages.Send.{
  World, SendMessageResult, message_created, load_claimed_message_id, load_message_with_media,
  publish, persist_message, settle, wait, resolve_loop, resolve_existing_claim,
}

-- No other request touches the world while this one waits.
abbrev pub Quiet : (ℕ → World → World) → Type 0
Quiet others = (n : ℕ) (w : World) → others n w ≡ w

-- The two worlds have the same tables, claims and events.
abbrev pub SameState : World → World → Type 0
SameState w' w = (w'.db ≡ w.db) × (w'.claims ≡ w.claims) × (w'.published ≡ w.published)

-- The claim is on this message, and its row is visible.
abbrev pub IsVisible : World → (sender_id : ℕ) → Text → Message → Type 0
IsVisible w sender key r =
    (load_claimed_message_id w sender key ≡ some r.id) × (get_message w.db r.id ≡ some r)

abbrev pub IsLoaded : World → (sender_id : ℕ) → Text → Message × List Attachment → Type 0
IsLoaded w sender key loaded =
    (m : ℕ) × (load_claimed_message_id w sender key ≡ some m)
    × (load_message_with_media w.db m ≡ some loaded)

pub load-own :
    (db : Db) (m : ℕ) (loaded : Message × List Attachment)
    → load_message_with_media db m ≡ some loaded
    → (m ≡ loaded.0.id) × (get_message db m ≡ some loaded.0) × (loaded.1 ≡ get_message_media db m)
unfolding load_message_with_media get_message
load-own db m loaded h = elim (Option-cases (find (message_at m) db.messages)) [
  | inl e ↦ ground arith
  | inr (r, e) ↦ let own = find-holds (message_at m) db.messages r e in ground (arith, own)
]

pub loaded-IsVisible :
    (w : World) (sender : ℕ) (key : Text) (loaded : Message × List Attachment)
    → IsLoaded w sender key loaded
    → IsVisible w sender key loaded.0
loaded-IsVisible w sender key loaded (m, c, l) =
    let (e, g, _) = load-own w.db m loaded l in (c ∙ ap some e, ap (get_message w.db) (sym e) ∙ g)

module _ (others : ℕ → World → World) where
  loop-IsLoaded :
      (n : ℕ) (w w' : World) (sender : ℕ) (key : Text) (loaded : Message × List Attachment)
      → resolve_loop others n w sender key ≡ (w', ok (some loaded))
      → IsLoaded w' sender key loaded
  unfolding resolve_loop
  loop-IsLoaded zero w w' sender key loaded h = ground arith
  loop-IsLoaded (suc zero) w w' sender key loaded h =
      elim (Option-cases (load_claimed_message_id (wait others w) sender key)) [
        | inl e ↦ ground arith
        | inr (m, e) ↦ elim (Option-cases (load_message_with_media (wait others w).db m)) [
          | inl n ↦ ground arith
          | inr (l, n) ↦ (m, ground arith, ground arith)
        ]
      ]
  loop-IsLoaded (suc (suc n)) w w' sender key loaded h =
      let again = loop-IsLoaded (suc n) (wait others w) w' sender key loaded in
      elim (Option-cases (load_claimed_message_id (wait others w) sender key)) [
        | inl e ↦ ground arith
        | inr (m, e) ↦ again (ground arith)
      ]

  pub resolve-IsLoaded :
      (w w' : World) (sender : ℕ) (key : Text) (loaded : Message × List Attachment)
      → resolve_existing_claim others w sender key ≡ (w', ok (some loaded))
      → IsLoaded w' sender key loaded
  unfolding resolve_existing_claim
  resolve-IsLoaded w w' sender key loaded h =
      elim (Option-cases (load_claimed_message_id w sender key)) [
        | inl e ↦ ground arith
        | inr (m, e) ↦ elim (Option-cases (load_message_with_media w.db m)) [
          | inl n ↦ loop-IsLoaded 7 w w' sender key loaded (ground arith)
          | inr (l, n) ↦ (m, ground arith, ground arith)
        ]
      ]

bind-messages :
    (db : Db) (m : ℕ) (ids : List ℕ) (sender : ℕ) (db' : Db) (media : List Attachment)
    → bind_media_atomically db m ids sender ≡ ok (db', media)
    → db'.messages ≡ db.messages
unfolding bind_media_atomically
bind-messages db m [] sender db' media h = ground arith
bind-messages db m (i ∷ ids) sender db' media h = ground arith

insert-inversion :
    (db : Db) (row : Message) (db' : Db)
    → insert_message db row ≡ ok db'
    → (db' ≡ record db { messages = db.messages ++ (row ∷ []) }) × (get_message db row.id ≡ none)
unfolding insert_message
insert-inversion db row db' h = ground arith

insert-found :
    (db : Db) (row : Message) (db' : Db)
    → insert_message db row ≡ ok db'
    → get_message db' row.id ≡ some row
unfolding get_message find
insert-found db row db' h =
    let (e, n) = insert-inversion db row db' h in
    rw e (find-append (message_at row.id) db.messages (row ∷ []) n ∙ rw (==_refl row.id) refl)

-- A committed transaction has the row.
persist-found :
    (db : Db) (row : Message) (ids : List ℕ) (db' : Db) (media : List Attachment)
    → persist_message db row ids ≡ ok (db', media)
    → get_message db' row.id ≡ some row
unfolding persist_message get_message
persist-found db row ids db' media h = elim (Result-cases (insert_message db row)) [
  | inr (v, e) ↦ ground arith
  | inl (db1, e) ↦
      let same = bind-messages db1 row.id ids row.sender_id db' media (ground arith) in
      rw same (insert-found db row db1 e)
]

pub settle-IsVisible :
    (w : World) (sender : ℕ) (key : Text) (row : Message) (ids : List ℕ)
    (res : Result SendError (Db × List Attachment)) (w' : World) (r : SendMessageResult)
    → load_claimed_message_id w sender key ≡ some row.id
    → persist_message w.db row ids ≡ res
    → settle w sender key row res ≡ (w', ok r)
    → IsVisible w' sender key r.message
unfolding settle publish load_claimed_message_id
settle-IsVisible w sender key row ids (err e) w' r c p h = ground arith
settle-IsVisible w sender key row ids (ok (db', media)) w' r c p h =
    let e : w' ≡ (publish (record w { db = db' }) row (message_created row media)) = ground arith in
    let m : r.message ≡ row = ground arith in rw (e, m) (c, persist-found w.db row ids db' media p)
