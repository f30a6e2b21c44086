-- ===== src/Pagination/Keyset.antt =====
-- The limit, the keyset query and the page envelope of backend/app/core/pagination.py, over rows of
-- any type with a `(created_at, id)` position.
use chatspace.Prelude.{
  ℕ, ◌+◌, ℤ, pos, negsuc, Bool, Option, none, some, List, [], ◌∷◌, ◌&&◌, ◌||◌, ◌==◌, ltb, leb, min,
  if◌then◌else◌, Text, length, take, select, order_by, Result, ok, err,
}
use chatspace.Pagination.Cursor.{CursorKey, PaginationError, limit_not_positive, encode_cursor}

abbrev pub default_limit : ℕ
default_limit = 50

abbrev pub max_limit : ℕ
max_limit = 100

unfoldable pub resolve_limit : Option ℤ → Result PaginationError ℕ
resolve_limit none = ok default_limit
resolve_limit (some (negsuc n)) = err limit_not_positive
resolve_limit (some (pos n)) = if ltb n 1 then err limit_not_positive else ok (min n max_limit)

-- `(created_at, id) < (cursor_created_at, cursor_id)`.
abbrev pub keyset_predicate : CursorKey → CursorKey → Bool
keyset_predicate cursor k =
    ltb k.created_at cursor.created_at || k.created_at == cursor.created_at && ltb k.id cursor.id

-- `ORDER BY created_at DESC, id DESC`.
abbrev pub keyset_order : CursorKey → CursorKey → Bool
keyset_order a b = ltb b.created_at a.created_at || a.created_at == b.created_at && leb b.id a.id

pub record Page (A : Type 0) : Type 0 where
  pub items : List A
  pub next_cursor : Option Text

module _ {A : Type 0} where
  abbrev pub keyset_where : (A → CursorKey) → Option CursorKey → List A → List A
  keyset_where key none rows = rows
  keyset_where key (some cursor) rows = select (λ r. keyset_predicate cursor (key r)) rows

  unfoldable pub apply_keyset : (A → CursorKey) → Option CursorKey → List A → List A
  apply_keyset key cursor rows =
      order_by (λ a b. keyset_order (key a) (key b)) (keyset_where key cursor rows)

  -- The rows of the page, and whether a further row came with them.
  unfoldable pub split_keyset_page : List A → ℕ → List A × Bool
  split_keyset_page rows limit = (take limit rows, ltb limit (length rows))

  abbrev pub last? : List A → Option A
  last? [] = none
  last? (x ∷ []) = some x
  last? (x ∷ y ∷ ys) = last? (y ∷ ys)

  abbrev pub cursor_of : (A → CursorKey) → Option A → Option Text
  cursor_of key none = none
  cursor_of key (some x) = some (encode_cursor (key x))

  unfoldable pub build_page : (A → CursorKey) → List A → Bool → Page A
  build_page key items has_more = record {
    items = items;
    next_cursor = if has_more then cursor_of key (last? items) else none;
  }

  unfoldable pub paginate_rows : (A → CursorKey) → List A → ℕ → Page A
  unfolding split_keyset_page build_page
  paginate_rows key rows limit =
      let (page_rows, has_more) = split_keyset_page rows limit in build_page key page_rows has_more

  -- What the history and list queries do with the rows of their partition: the keyset clauses,
  -- `LIMIT limit + 1`, and the envelope.
  unfoldable pub keyset_page : (A → CursorKey) → List A → ℕ → Option CursorKey → Page A
  unfolding paginate_rows
  keyset_page key rows limit cursor =
      paginate_rows key (take (limit + 1) (apply_keyset key cursor rows)) limit
