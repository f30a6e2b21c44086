-- ===== src/Pagination/Limit.antt =====
-- The limit that a client asks for, and the length of the page that it gets.
use chatspace.Prelude.{
  ℕ, ◌+◌, ◌≤◌, ◌≡◌, ℤ, pos, negsuc, Option, none, some, List, length, take, length-take, ok, arith,
}
use chatspace.Pagination.Cursor.{CursorKey}
use chatspace.Pagination.Keyset.{max_limit, resolve_limit, apply_keyset, keyset_page}

resolve_limit-range :
    (raw : Option ℤ) (n : ℕ) → resolve_limit raw ≡ ok n → (1 ≤ n) × (n ≤ max_limit)
unfolding resolve_limit
resolve_limit-range none n h = ground arith
resolve_limit-range (some (pos k)) n h = ground arith
resolve_limit-range (some (negsuc k)) n h = ground arith

keyset_page-length :
    {A : Type 0} (key : A → CursorKey) (rows : List A) (n : ℕ) (cursor : Option CursorKey)
    → length (keyset_page key rows n cursor).items ≤ n
unfolding keyset_page
keyset_page-length key rows n cursor =
    omega (arith, length-take n (take (n + 1) (apply_keyset key cursor rows)))

-- Where the limit that a client asks for is accepted, the limit is from 1 to 100 and the page has
-- at most that many rows.
pub resolve_limit-keyset_page :
    {A : Type 0} (key : A → CursorKey) (rows : List A) (raw : Option ℤ) (n : ℕ)
    (cursor : Option CursorKey)
    → resolve_limit raw ≡ ok n
    → (1 ≤ n) × (n ≤ max_limit) × (length (keyset_page key rows n cursor).items ≤ n)
resolve_limit-keyset_page key rows raw n cursor h =
    let (low, high) = resolve_limit-range raw n h in
    (low, high, keyset_page-length key rows n cursor)
