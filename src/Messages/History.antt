-- ===== src/Messages/History.antt =====
-- The history of a channel and of a pair of users, in backend/app/services/messages.py.
use chatspace.Prelude.{
  ℕ, ◌≡◌, ap, Bool, true, false, Option, none, some, List, ◌&&◌, ◌==◌, not, min, max, select, arith,
  All, All-take, All-order_by, All-keep_select, All-select, All-weaken, ◌+◌, Result, guard, ◌>>◌,
  ◌⊎◌,
}
use chatspace.Db.{Db, Message, get_user, is_some}
use chatspace.Messages.Media.{SendError, recipient_not_found, is_id}
use chatspace.Messages.Send.{dm_pair}
use chatspace.Messages.Deliver.{reject_self_dm}
use chatspace.Pagination.Cursor.{CursorKey}
use chatspace.Pagination.Keyset.{Page, keyset_page, keyset_order, keyset_predicate, apply_keyset}

abbrev pub message_key : Message → CursorKey
message_key m = record { created_at = m.created_at; id = m.id }

abbrev pub in_channel_history : ℕ → Message → Bool
in_channel_history c m = is_id m.channel_id c && not (is_some m.deleted_at)

-- `least(sender_id, recipient_id) = least AND greatest(...) = greatest`, for a DM.
abbrev pub has_pair : ℕ × ℕ → Option ℕ → ℕ → Bool
has_pair pair none s = false
has_pair pair (some r) s = min s r == pair.0 && max s r == pair.1

abbrev pub in_dm_history : ℕ × ℕ → Message → Bool
in_dm_history pair m = has_pair pair m.recipient_id m.sender_id && not (is_some m.deleted_at)

unfoldable pub get_channel_message_history :
    Db → (channel_id limit : ℕ) → Option CursorKey → Page Message
unfolding keyset_page
get_channel_message_history db c limit cursor =
    keyset_page message_key (select (in_channel_history c) db.messages) limit cursor

unfoldable pub get_dm_message_history :
    Db → (caller_id other_user_id limit : ℕ) → Option CursorKey → Page Message
unfolding keyset_page
get_dm_message_history db u v limit cursor =
    keyset_page message_key (select (in_dm_history (dm_pair u v)) db.messages) limit cursor

unfoldable pub ensure_dm_history_access :
    Db → (other_user_id caller_id : ℕ) → Result SendError (Unit {0})
unfolding reject_self_dm
ensure_dm_history_access db other caller =
    reject_self_dm other caller >> guard (is_some (get_user db other)) recipient_not_found

dm_pair_comm : (u v : ℕ) → dm_pair u v ≡ dm_pair v u
dm_pair_comm u v = ground arith

-- Both users of a conversation read the same pages of it, with the same limit and cursor.
pub dm_history-symmetric :
    (db : Db) (u v limit : ℕ) (cursor : Option CursorKey)
    → get_dm_message_history db u v limit cursor ≡ get_dm_message_history db v u limit cursor
unfolding get_dm_message_history
dm_history-symmetric db u v limit cursor =
    ap (λ pair. keyset_page message_key (select (in_dm_history pair) db.messages) limit cursor)
      (dm_pair_comm u v)

has_pair_of_users :
    (u v s r : ℕ)
    → has_pair (dm_pair u v) (some r) s ≡ true
    → ((s ≡ u) × (r ≡ v)) ⊎ ((s ≡ v) × (r ≡ u))
has_pair_of_users u v s r h = ground arith

-- A page has rows of its partition only.
page-All :
    {A : Type 0} (P : A → Type 0) (key : A → CursorKey) (rows : List A) (limit : ℕ)
    (cursor : Option CursorKey)
    → All P rows
    → All P (keyset_page key rows limit cursor).items
unfolding keyset_page apply_keyset
page-All P key rows limit none h =
    All-take P limit _
      (All-take P (limit + 1) _ (All-order_by P (λ a b. keyset_order (key a) (key b)) rows h))
page-All P key rows limit (some k) h = All-take P limit _ (
    All-take P (limit + 1) _ (
      All-order_by P (λ a b. keyset_order (key a) (key b)) _
        (All-keep_select P (λ r. keyset_predicate k (key r)) rows h)))

-- The message went from one of the two users to the other, and is not deleted.
abbrev pub IsBetween : ℕ → ℕ → Message → Type 0
IsBetween u v m =
    (m.deleted_at ≡ none)
    × (((m.sender_id ≡ u) × (m.recipient_id ≡ some v))
        ⊎ ((m.sender_id ≡ v) × (m.recipient_id ≡ some u)))

between : (u v : ℕ) (m : Message) → in_dm_history (dm_pair u v) m ≡ true → IsBetween u v m
between u v m h = ground arith

-- A page of the history of two users has only messages from one of them to the other, and no
-- deleted one.
pub dm_history-private :
    (db : Db) (u v limit : ℕ) (cursor : Option CursorKey)
    → All (IsBetween u v) (get_dm_message_history db u v limit cursor).items
unfolding get_dm_message_history
dm_history-private db u v limit cursor =
    page-All (IsBetween u v) message_key (select (in_dm_history (dm_pair u v)) db.messages) limit
      cursor
      (All-weaken (λ m. in_dm_history (dm_pair u v) m ≡ true) (IsBetween u v) (between u v)
        (select (in_dm_history (dm_pair u v)) db.messages)
        (All-select (in_dm_history (dm_pair u v)) db.messages))
