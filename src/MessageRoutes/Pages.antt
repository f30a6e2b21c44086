-- ===== src/MessageRoutes/Pages.antt =====
-- The attachments on a page of a history.
use chatspace.Prelude.{
  ℕ, ◌≡◌, refl, ◌==◌, true, List, [], ◌∷◌, map, any_row, All, All-weaken, arith,
}
use chatspace.Db.{Db, Message, Attachment}
use chatspace.Messages.Media.{get_message_media}
use chatspace.Messages.Batch.{get_media_for_messages, batch-get_message_media}
use chatspace.Pagination.Keyset.{Page}
use chatspace.MessageRoutes.{history_response}

abbrev IsListed : List ℕ → Message → Type 0
IsListed ids m = any_row (λ i. i == m.id) ids ≡ true

IsListed-later : (i : ℕ) (ids : List ℕ) (m : Message) → IsListed ids m → IsListed (i ∷ ids) m
unfolding any_row
IsListed-later i ids m h = ground arith

All-IsListed : (ms : List Message) → All (IsListed (map (λ m. m.id) ms)) ms
unfolding any_row
All-IsListed [] = tt
All-IsListed (m ∷ ms) =
    let ids = map (λ r. r.id) ms in
    (
      ground arith,
      All-weaken (IsListed ids) (IsListed (m.id ∷ ids)) (IsListed-later m.id ids) ms
          (All-IsListed ms),
    )

with_media :
    (db : Db) (ids : List ℕ) (ms : List Message)
    → All (IsListed ids) ms
    → map {B = Message × List Attachment} (λ m. (m, get_media_for_messages db ids m.id)) ms
      ≡ map (λ m. (m, get_message_media db m.id)) ms
with_media db ids [] h = refl
with_media db ids (m ∷ ms) (h, hs) =
    rw (batch-get_message_media db ids m.id h, with_media db ids ms hs) refl

-- Each message of the answer to a history request comes with exactly the attachments that a read
-- of that message alone gives, in the same order.
pub page_media :
    (db : Db) (page : Page Message)
    → (history_response db page).items ≡ map (λ m. (m, get_message_media db m.id)) page.items
unfolding history_response
page_media db page = with_media db (map (λ m. m.id) page.items) page.items (All-IsListed page.items)
