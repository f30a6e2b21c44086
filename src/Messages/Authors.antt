-- ===== src/Messages/Authors.antt =====
-- What an edit and a deletion change, and for whom.
use chatspace.Prelude.{
  ℕ, ◌≡◌, refl, sym, ◌∙◌, ◌≢◌, ◌⊎◌, inl, inr, true, false, none, some, ◌==◌, Option-cases, arith,
  updated, find-update_where, find-holds, Text, text_eq, text_eq_sound, ok, err, Result-cases,
}
use chatspace.Db.{Db, Message, get_member, get_message, is_some, message_at}
use chatspace.Messages.Media.{SendError, message_already_deleted, not_message_author}
use chatspace.Messages.Send.{World, publish}
use chatspace.Messages.Revise.{
  ensure_caller_can_see_message, put_message, with_content, with_deletion, may_edit, edit_message,
  may_delete, delete_message,
}

-- For a message that exists, a caller other than its author gets an error from an edit and from a
-- deletion, and neither changes or publishes anything.
pub authors_only :
    (w : World) (now m u : ℕ) (content : Text) (r : Message)
    → get_message w.db m ≡ some r
    → r.sender_id ≢ u
    → (e e' : SendError) × (edit_message w now m u content ≡ (w, err e))
      × (delete_message w now m u ≡ (w, err e'))
unfolding edit_message delete_message may_edit may_delete
authors_only w now m u content r h other =
    let n : (r.sender_id == u) ≡ false = ground arith in
    elim (Result-cases (ensure_caller_can_see_message w.db r.channel_id u)) [
      | inl (_, e) ↦ (not_message_author, not_message_author, ground (arith), ground (arith))
      | inr (x, e) ↦ (x, x, ground arith, ground arith)
    ]

may_edit-inversion :
    (db : Db) (r : Message) (u : ℕ) (content : Text) (x : Unit {0})
    → may_edit db r u content ≡ ok x
    → (may_delete db r u ≡ ok tt) × (r.sender_id ≡ u) × (r.deleted_at ≡ none)
unfolding may_edit may_delete
may_edit-inversion db r u content x h = ground arith

-- A deleted message is neither deleted again nor edited by its author.
module _ (w : World) (later m u : ℕ) where
  deleted-delete :
      (r : Message)
      → get_message w.db m ≡ some r
      → is_some r.deleted_at ≡ true
      → may_delete w.db r u ≡ ok tt
      → delete_message w later m u ≡ (w, ok r)
  unfolding delete_message
  deleted-delete r g gone allowed = ground arith

  deleted-edit :
      (content : Text) (r : Message)
      → get_message w.db m ≡ some r
      → is_some r.deleted_at ≡ true
      → may_delete w.db r u ≡ ok tt
      → edit_message w later m u content ≡ (w, err message_already_deleted)
  unfolding edit_message may_edit may_delete
  deleted-edit content r g gone allowed = ground arith

module _ (w : World) (now m u : ℕ) where
  get-put_message :
      (f : Message → Message)
      → ((r : Message) → (f r).id ≡ r.id)
      → (n : ℕ)
      → get_message (put_message w m f).db n ≡ updated (message_at m) f (get_message w.db n)
  unfolding get_message
  get-put_message f keep n =
      find-update_where (message_at n) (message_at m) f (λ r. rw (keep r) refl) w.db.messages

  put-own :
      (f : Message → Message)
      → ((r : Message) → (f r).id ≡ r.id)
      → (old : Message) → get_message w.db m ≡ some old
      → get_message (put_message w m f).db m ≡ some (f old)
  unfolding get_message
  put-own f keep old g =
      let own = find-holds (message_at m) w.db.messages old g in
      get-put_message f keep m ∙ rw (g, own) refl

  put-other :
      (f : Message → Message)
      → ((r : Message) → (f r).id ≡ r.id)
      → (n : ℕ) → n ≢ m
      → get_message (put_message w m f).db n ≡ get_message w.db n
  unfolding get_message
  put-other f keep n d = elim (Option-cases (get_message w.db n)) [
    | inl e ↦ get-put_message f keep n ∙ rw e refl
    | inr (r, e) ↦
        let own = find-holds (message_at n) w.db.messages r e in
        let away : (r.id == m) ≡ false = ground (arith, own) in
        get-put_message f keep n ∙ rw (e, away) refl
  ]

  edit-inversion :
      (content : Text) (w' : World) (r : Message)
      → edit_message w now m u content ≡ (w', ok r)
      → (old : Message) × (get_message w.db m ≡ some old)
        × (may_edit w.db old u content ≡ ok tt)
        × (((text_eq content old.content ≡ true) × (w' ≡ w) × (r ≡ old))
            ⊎ ((w'.db ≡ (put_message w m (with_content content now)).db)
                × (r ≡ with_content content now old)))
  unfolding edit_message publish
  edit-inversion content w' r h = ground arith

  delete-inversion :
      (w' : World) (r : Message)
      → delete_message w now m u ≡ (w', ok r)
      → (old : Message) × (get_message w.db m ≡ some old)
        × (may_delete w.db old u ≡ ok tt)
        × (((is_some old.deleted_at ≡ true) × (w' ≡ w) × (r ≡ old))
            ⊎ ((w'.db ≡ (put_message w m (with_deletion now)).db) × (r ≡ with_deletion now old)))
  unfolding delete_message publish
  delete-inversion w' r h = ground arith

  -- An edit that succeeds was made by the author of a message that is not deleted; the message
  -- then has the new content and is the one that is answered, and no other message changes.
  pub edit_effect :
      (content : Text) (w' : World) (r : Message)
      → edit_message w now m u content ≡ (w', ok r)
      → (old : Message) × (get_message w.db m ≡ some old)
        × (old.sender_id ≡ u)
        × (old.deleted_at ≡ none)
        × (r.content ≡ content)
        × (get_message w'.db m ≡ some r)
        × ((n : ℕ) → n ≢ m → get_message w'.db n ≡ get_message w.db n)
  edit_effect content w' r h =
      let (old, g, allowed, change) = edit-inversion content w' r h in
      let (_, author, alive) = may_edit-inversion w.db old u content tt allowed in
      elim change [
        | inl (same, e, q) ↦ (
          old,
          g,
          author,
          alive,
          rw q (sym (text_eq_sound content old.content same)),
          rw (e, q) g,
          λ n d. rw e refl,
        )
        | inr (e, q) ↦ (
          old,
          g,
          author,
          alive,
          rw q refl,
          rw (e, q) (put-own (with_content content now) (λ r. refl) old g),
          λ n d. rw e (put-other (with_content content now) (λ r. refl) n d),
        )
      ]

  members-put : (f : Message → Message) → (put_message w m f).db.members ≡ w.db.members
  members-put f = refl

  -- What a deletion of the message leaves: the caller is its author and still sees it.
  delete-leaves :
      (w' : World) (r : Message)
      → delete_message w now m u ≡ (w', ok r)
      → (get_message w'.db m ≡ some r)
        × (is_some r.deleted_at ≡ true)
        × (may_delete w'.db r u ≡ ok tt)
  unfolding may_delete ensure_caller_can_see_message get_member
  delete-leaves w' r h =
      let (old, g, allowed, change) = delete-inversion w' r h in
      elim change [
        | inl (gone, e, q) ↦ (rw (e, q) g, rw q gone, rw (e, q) allowed)
        | inr (e, q) ↦ (
          rw (e, q) (put-own (with_deletion now) (λ r. refl) old g),
          rw q refl,
          rw (e, q) allowed,
        )
      ]

  -- After a deletion that succeeds the answered message is still in its table, with `deleted_at`
  -- set; a second deletion by the same caller changes and publishes nothing and answers the same
  -- message, and an edit by that caller is refused as already deleted and changes nothing.
  pub delete_effect :
      (w' : World) (r : Message) (later : ℕ) (content : Text)
      → delete_message w now m u ≡ (w', ok r)
      → (get_message w'.db m ≡ some r)
        × (is_some r.deleted_at ≡ true)
        × (delete_message w' later m u ≡ (w', ok r))
        × (edit_message w' later m u content ≡ (w', err message_already_deleted))
  delete_effect w' r later content h =
      let (g, gone, allowed) = delete-leaves w' r h in
      (
        g,
        gone,
        deleted-delete w' later m u r g gone allowed,
        deleted-edit w' later m u content r g gone allowed,
      )
