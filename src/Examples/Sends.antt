-- ===== src/Examples/Sends.antt =====
-- Messages: sends, attachments, edits, deletions and histories.
use chatspace.Prelude.{
  arith, ℕ, ◌≤◌, ◌≡◌, refl, ◌≢◌, true, false, none, some, [], ◌∷◌, ◌==◌, find, any_row, select,
  order_by, update_where, All, Distinct, codes, text_eq, Text, Result, ok, err,
}
use chatspace.Db.{
  is_storable, Db, Message, Attachment, get_channel, get_member, get_message, get_user,
  insert_message, content_check, target_xor, is_some,
}
use chatspace.Messages.Content.{is_space, is_valid_content}
use chatspace.Messages.Media.{
  SendError, message_already_deleted, bind_to, is_null, is_usable, get_message_media,
  validate_and_load_media, bind_media_atomically,
}
use chatspace.Messages.Send.{
  World, SendMessageResult, channel_topic, message_created, message_edited, message_deleted,
  load_claimed_message_id, load_message_with_media, publish, replayed,
  ensure_channel_and_membership, persist_message, settle, wait, resolve_loop,
  resolve_existing_claim, claim_rounds, send_message,
}
use chatspace.Messages.Deliver.{check_body, channel_checks, channel_message, dm_checks, dm_message}
use chatspace.Messages.Revise.{
  ensure_caller_can_see_message, may_edit, may_delete, edit_message, delete_message,
}
use chatspace.Pagination.Keyset.{keyset_page, apply_keyset, paginate_rows}
use chatspace.Messages.History.{get_dm_message_history, dm_history-private, IsBetween}
use chatspace.Messages.Binding.{bind_effect, same_attachment, get_attachment}
use chatspace.Messages.Claims.{send_once, Retains}
use chatspace.Messages.Waits.{send_waits}
use chatspace.Messages.Quiet.{send-Settles, Settles}
use chatspace.Messages.Authors.{edit_effect, delete_effect}
use chatspace.Examples.Sample.{sample, hello, photo}

abbrev pub start : World
start = record { db = sample; claims = []; published = []; waits = 0 }

abbrev pub alone : ℕ → World → World
alone n w = w

abbrev pub key : Text
key = codes "k-1"

abbrev pub hi : Message
hi = channel_message 10 1 (codes "hi") 600 300

abbrev checks : Db → Result SendError (Unit {0})
checks = channel_checks 10 1 (codes "hi") (900 ∷ [])

abbrev bound_photo : Attachment
bound_photo = bind_to 600 photo

abbrev pub sent : World
sent = record {
  db = record sample { messages = hello ∷ hi ∷ []; attachments = bound_photo ∷ [] };
  claims = record { sender_id = 1; idempotency_key = key; message_id = 600 } ∷ [];
  published = (some (channel_topic 10), message_created hi (bound_photo ∷ [])) ∷ [];
  waits = 3;
}

abbrev first : SendMessageResult
first = record { message = hi; media = bound_photo ∷ []; created = true }

-- Ann sends a photo to the channel.
first_send : send_message alone checks start key (900 ∷ []) hi ≡ (sent, ok first)
unfolding send_message resolve_existing_claim resolve_loop claim_rounds settle publish wait
    persist_message load_claimed_message_id load_message_with_media ensure_channel_and_membership
    check_body channel_checks validate_and_load_media bind_media_atomically get_message_media
    insert_message target_xor content_check is_valid_content is_space get_channel get_member
    get_message get_user find any_row select order_by update_where text_eq is_storable
first_send = refl

-- The sender edits the message before the retry.
abbrev pub sent_edited : World
sent_edited = record sent {
  db = record sent.db {
    messages = hello ∷ record hi { content = codes "hey"; edited_at = some 350 } ∷ [];
  };
}

pub edit_retained : Retains sent 1 key sent_edited
unfolding load_claimed_message_id find text_eq get_message
edit_retained = (refl, λ i h. ground arith)

send_once_example :
    (m : Message) × (m.id ≡ 600)
    × (get_message sent_edited.db m.id ≡ some m)
    × (send_message alone
          (dm_checks 2 1 (codes "other") [])
          sent_edited
          key
          []
          (dm_message 2 1 (codes "other") 601 400)
        ≡ (sent_edited, ok (replayed (m, get_message_media sent_edited.db m.id))))
send_once_example =
    send_once alone checks key (900 ∷ []) hi (λ n w h. h) start sent sent_edited first first_send
      edit_retained alone (dm_checks 2 1 (codes "other") []) []
      (dm_message 2 1 (codes "other") 601 400) refl

send-Settles_example :
    let (w', r) = send_message alone checks start key (900 ∷ []) hi in
    Settles alone (λ n w. refl) start 1 key (900 ∷ []) hi w' r
send-Settles_example = send-Settles alone (λ n w. refl) checks start key (900 ∷ []) hi

send_waits_example : (send_message alone checks start key (900 ∷ []) hi).0.waits ≤ 35
send_waits_example = send_waits alone checks start key (900 ∷ []) hi

photo_bound :
    bind_media_atomically sample 500 (900 ∷ []) 1
    ≡ ok (record sample { attachments = bind_to 500 photo ∷ [] }, bind_to 500 photo ∷ [])
unfolding bind_media_atomically get_message_media find any_row select order_by update_where
photo_bound = refl

photo_alone : Distinct same_attachment (photo ∷ [])
unfolding find
photo_alone = (refl, tt)

bind_effect_example :
    let db' = record sample { attachments = bind_to 500 photo ∷ [] } in
    ((j : ℕ)
      → any_row (λ i. j == i) (900 ∷ []) ≡ true
      → (a : Attachment) × (get_attachment sample j ≡ some a)
        × (is_usable 1 a ≡ true)
        × (get_attachment db' j ≡ some (bind_to 500 a)))
    × ((j : ℕ) (a : Attachment)
        → get_attachment sample j ≡ some a
        → is_null a.message_id ≡ false
        → get_attachment db' j ≡ some a)
bind_effect_example =
    bind_effect sample 500 1 (900 ∷ []) (record sample { attachments = bind_to 500 photo ∷ [] })
      (bind_to 500 photo ∷ []) photo_alone photo_bound

abbrev pub edited : Message
edited = record hello { content = codes "hallo"; edited_at = some 250 }

abbrev after_edit : World
after_edit = record start {
  db = record sample { messages = edited ∷ [] };
  published = (some (channel_topic 10), message_edited edited []) ∷ [];
}

an_edit : edit_message start 250 500 1 (codes "hallo") ≡ (after_edit, ok edited)
unfolding edit_message may_edit ensure_caller_can_see_message publish get_message_media
    is_valid_content is_space get_member get_message find any_row select order_by update_where
    text_eq is_storable
an_edit = refl

edit_effect_example :
    (old : Message) × (get_message sample 500 ≡ some old)
    × (old.sender_id ≡ 1)
    × (old.deleted_at ≡ none)
    × (edited.content ≡ codes "hallo")
    × (get_message after_edit.db 500 ≡ some edited)
    × ((n : ℕ) → n ≢ 500 → get_message after_edit.db n ≡ get_message sample n)
edit_effect_example = edit_effect start 250 500 1 (codes "hallo") after_edit edited an_edit

abbrev gone : Message
gone = record hello { deleted_at = some 260 }

abbrev after_delete : World
after_delete = record start {
  db = record sample { messages = gone ∷ [] };
  published = (some (channel_topic 10), message_deleted gone) ∷ [];
}

a_deletion : delete_message start 260 500 1 ≡ (after_delete, ok gone)
unfolding delete_message may_delete ensure_caller_can_see_message publish get_member get_message
    find update_where
a_deletion = refl

delete_effect_example :
    (get_message after_delete.db 500 ≡ some gone)
    × (is_some gone.deleted_at ≡ true)
    × (delete_message after_delete 270 500 1 ≡ (after_delete, ok gone))
    × (edit_message after_delete 270 500 1 (codes "x")
        ≡ (after_delete, err message_already_deleted))
delete_effect_example = delete_effect start 260 500 1 after_delete gone 270 (codes "x") a_deletion

hello_found : get_message sample 500 ≡ some hello
unfolding get_message find
hello_found = refl

-- Two users write to each other; one message is deleted, and a third user writes too.
abbrev dm_1 : Message
dm_1 = dm_message 2 1 (codes "hey") 700 310

abbrev dm_2 : Message
dm_2 = dm_message 1 2 (codes "yes") 701 320

abbrev dm_3 : Message
dm_3 = record (dm_message 1 2 (codes "no") 702 330) { deleted_at = some 340 }

abbrev dm_4 : Message
dm_4 = dm_message 1 3 (codes "psst") 703 350

abbrev writing : Db
writing = record sample { messages = hello ∷ dm_1 ∷ dm_2 ∷ dm_3 ∷ dm_4 ∷ [] }

their_page : (get_dm_message_history writing 1 2 50 none).items ≡ dm_2 ∷ dm_1 ∷ []
unfolding get_dm_message_history keyset_page apply_keyset paginate_rows select order_by
their_page = refl

dm_history-private_example : All (IsBetween 1 2) (get_dm_message_history writing 1 2 50 none).items
dm_history-private_example = dm_history-private writing 1 2 50 none

hi_is_valid : is_valid_content (codes "hi") ≡ true
unfolding is_valid_content is_space any_row
hi_is_valid = refl
