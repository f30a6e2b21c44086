-- ===== src/Examples/Paging.antt =====
-- Pagination: cursors, and a walk over the pages of a table.
use chatspace.Prelude.{
  ℕ, ◌<◌, ◌≡◌, refl, true, none, List, [], ◌∷◌, find, order_by, Distinct, length, ok, arith,
}
use chatspace.Pagination.Cursor.{CursorKey, encode_cursor, decode_cursor, all_url_chars}
use chatspace.Pagination.RoundTrip.{IsPosition, decode-encode}
use chatspace.Pagination.Keyset.{keyset_order}
use chatspace.Pagination.Walk.{walk, same_id, walk_complete}

abbrev at : ℕ → ℕ → CursorKey
at t i = record { created_at = t; id = i }

at-IsPosition : (t i : ℕ) → t < 1000 → i < 1000 → IsPosition (at t i)
at-IsPosition t i h k = record { date = omega (arith, h); uuid = omega (arith, k) }

abbrev rows : List CursorKey
rows = at 5 1 ∷ at 7 2 ∷ at 5 3 ∷ []

rows-Distinct : Distinct (same_id (λ r. r)) rows
unfolding find
rows-Distinct = (refl, (refl, (refl, tt)))

walk_complete_example : walk (λ r. r) rows 2 3 none ≡ order_by (λ a b. keyset_order a b) rows
walk_complete_example =
    walk_complete (λ r. r) rows 1 3 rows-Distinct
      (
        at-IsPosition 5 1 (omega arith) (omega arith),
        (
          at-IsPosition 7 2 (omega arith) (omega arith),
          (at-IsPosition 5 3 (omega arith) (omega arith), tt),
        ),
      )
      (omega arith)

one-IsPosition : IsPosition (at 5 1)
one-IsPosition = at-IsPosition 5 1 (omega arith) (omega arith)

decode-encode_example :
    (decode_cursor (encode_cursor (at 5 1)) ≡ ok (at 5 1))
    × (length (encode_cursor (at 5 1)) ≡ 32)
    × (all_url_chars (encode_cursor (at 5 1)) ≡ true)
decode-encode_example = decode-encode (at 5 1) one-IsPosition
