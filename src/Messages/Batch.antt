-- ===== src/Messages/Batch.antt =====
-- The batched read of the attachments of a page, in backend/app/services/messages.py. The dict is
-- a function of the message id, whose missing keys give no attachments.
use chatspace.Prelude.{
  ℕ, ◌≡◌, refl, sym, ap, ◌∙◌, ◌==◌, Bool, true, false, none, some, List, [], ◌∷◌, ◌++◌, any_row,
  select, select-select, select-order_by, order_by, if◌then◌else◌, arith, Option-cases, inl, inr,
}
use mathlib.Core.List.{append-nil, append_assoc}
use chatspace.Db.{Db, Attachment}
use chatspace.Messages.Media.{attached_before, bound_to, is_id, get_message_media}

abbrev pub append_at : ℕ → Attachment → (ℕ → List Attachment) → ℕ → List Attachment
append_at key a grouped m = if key == m then grouped m ++ (a ∷ []) else grouped m

-- The loop; the assertion that each row is bound holds by the WHERE clause.
unfoldable pub group_rows : List Attachment → (ℕ → List Attachment) → ℕ → List Attachment
group_rows [] grouped = grouped
group_rows (a ∷ rows) grouped = elim a.message_id [
  | none ↦ group_rows rows grouped
  | some key ↦ group_rows rows (append_at key a grouped)
]

abbrev pub bound_to_any : List ℕ → Attachment → Bool
bound_to_any ids a = any_row (is_id a.message_id) ids

unfoldable pub get_media_for_messages : Db → (message_ids : List ℕ) → ℕ → List Attachment
unfolding group_rows
get_media_for_messages db [] = λ _. []
get_media_for_messages db (i ∷ ids) =
    group_rows (order_by attached_before (select (bound_to_any (i ∷ ids)) db.attachments)) (λ _. [])

append_if :
    (b : Bool) (g s : List Attachment) (a : Attachment)
    → (if b then g ++ (a ∷ []) else g) ++ s ≡ g ++ (if b then a ∷ s else s)
append_if true g s a = append_assoc g (a ∷ []) s
append_if false g s a = refl

group_rows-select :
    (rows : List Attachment) (grouped : ℕ → List Attachment) (m : ℕ)
    → group_rows rows grouped m ≡ grouped m ++ select (bound_to m) rows
unfolding group_rows select
group_rows-select [] grouped m = sym (append-nil (grouped m))
group_rows-select (a ∷ rows) grouped m = elim (Option-cases a.message_id) [
  | inl e ↦ ground (arith, group_rows-select rows grouped m)
  | inr (key, e) ↦ ground (
    arith,
    group_rows-select rows (append_at key a grouped) m,
    append_if (key == m) (grouped m) (select (bound_to m) rows) a,
  )
]

attached_trans :
    (a b c : Attachment)
    → attached_before a b ≡ true
    → attached_before b c ≡ true
    → attached_before a c ≡ true
attached_trans a b c h k = ground arith

attached_total : (a b : Attachment) → attached_before a b ≡ false → attached_before b a ≡ true
attached_total a b h = ground arith

bound_of_any :
    (ids : List ℕ) (m : ℕ)
    → any_row (λ i. i == m) ids ≡ true
    → (a : Attachment) → bound_to m a ≡ true
    → bound_to_any ids a ≡ true
unfolding any_row
bound_of_any [] m h a k = ground arith
bound_of_any (i ∷ ids) m h a k = elim (Option-cases a.message_id) [
  | inl e ↦ ground arith
  | inr (key, e) ↦ ground (arith, bound_of_any ids m)
]

-- For every message of a page, the batched read gives what the read of that message alone gives,
-- in the same order.
pub batch-get_message_media :
    (db : Db) (ids : List ℕ) (m : ℕ)
    → any_row (λ i. i == m) ids ≡ true
    → get_media_for_messages db ids m ≡ get_message_media db m
unfolding get_media_for_messages get_message_media any_row
batch-get_message_media db [] m h = ground arith
batch-get_message_media db (i ∷ ids) m h =
    let any = bound_to_any (i ∷ ids) in
    group_rows-select (order_by attached_before (select any db.attachments)) (λ _. []) m
    ∙ select-order_by attached_before attached_trans attached_total (bound_to m)
        (select any db.attachments)
    ∙ ap (order_by attached_before)
        (select-select (bound_to m) any (bound_of_any (i ∷ ids) m h) db.attachments)
