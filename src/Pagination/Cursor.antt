-- ===== src/Pagination/Cursor.antt =====
-- `encode_cursor` and `decode_cursor`. A timestamp counts the microseconds since 0001-01-01 UTC, so
-- that every `datetime` is a number below `max_datetime`; the cursor stores the signed distance from
-- 1970 as a 64-bit two's complement.
use chatspace.Prelude.{
  ℕ, zero, suc, ◌+◌, ◌-◌, ◌%◌, ◌^◌, Bool, true, false, none, some, List, [], ◌∷◌, ◌++◌, ◌&&◌, ◌||◌,
  not, ◌==◌, ltb, leb, if◌then◌else◌, Text, length, take, drop, before_final_newline, holds_of,
  Result, ok, err,
}
use chatspace.Pagination.Bytes.{to_bytes, from_bytes}
use chatspace.Pagination.Base64.{b2a, a2b, first}

abbrev pub epoch : ℕ
epoch = 62135596800000000

abbrev pub max_datetime : ℕ
max_datetime = 315537897600000000

pub record CursorKey : Type 0 where
  pub created_at : ℕ
  pub id : ℕ

-- The `detail` of a `PaginationError`.
pub data PaginationError : Type 0 where
  limit_not_positive cursor_empty cursor_not_base64url cursor_invalid_length cursor_corrupt :
      PaginationError

-- `bytes.rstrip(b"=")`.
unfoldable pub rstrip_pad : Text → Text
rstrip_pad [] = []
rstrip_pad (c ∷ s) = elim (rstrip_pad s) [
  | [] ↦ if c == b'=' then [] else c ∷ []
  | d ∷ t ↦ c ∷ d ∷ t
]

-- `_MICROS_STRUCT.pack(created_at - _EPOCH) + id.bytes`.
unfoldable pub cursor_payload : CursorKey → List ℕ
unfolding to_bytes
cursor_payload k = to_bytes 8 ((k.created_at + 2 ^ 64 - epoch) % 2 ^ 64) ++ to_bytes 16 k.id

unfoldable pub encode_cursor : CursorKey → Text
unfolding rstrip_pad cursor_payload
encode_cursor k = rstrip_pad (b2a (cursor_payload k))

unfoldable pub is_url_char : ℕ → Bool
is_url_char c =
    leb b'A' c && leb c b'Z'
    || leb b'a' c && leb c b'z'
    || leb b'0' c && leb c b'9'
    || c == b'_'
    || c == b'-'

unfoldable pub all_url_chars : Text → Bool
all_url_chars [] = true
all_url_chars (c ∷ s) = is_url_char c && all_url_chars s

abbrev pub is_empty : Text → Bool
is_empty [] = true
is_empty (_ ∷ _) = false

abbrev pub url_text : Text → Bool
url_text s = not (is_empty s) && all_url_chars s

-- `_BASE64URL_RE.match(cursor)`; `$` also matches before a final newline.
unfoldable pub matches_base64url : Text → Bool
matches_base64url s = url_text s || holds_of url_text (before_final_newline s)

abbrev pub pads : ℕ → Text
pads zero = []
pads (suc n) = b'=' ∷ pads n

-- `"=" * (-len(cursor) % 4)`.
abbrev pub padding : ℕ → Text
padding n = pads ((4 - n % 4) % 4)

-- `_EPOCH + timedelta(microseconds=micros)`, where the 64 bits `u` stand for `micros`; a date
-- outside the years 1 to 9999 overflows.
unfoldable pub key_of : (u id : ℕ) → Result PaginationError CursorKey
key_of u id =
    if ltb u (2 ^ 63)
    then (if ltb (epoch + u) max_datetime
        then ok (record { created_at = epoch + u; id = id })
        else err cursor_corrupt)
    else if leb (2 ^ 64) (epoch + u)
    then ok (record { created_at = epoch + u - 2 ^ 64; id = id })
    else err cursor_corrupt

unfoldable pub read_payload : List ℕ → Result PaginationError CursorKey
read_payload payload =
    if length payload == 24
    then key_of (from_bytes 0 (take 8 payload)) (from_bytes 0 (drop 8 payload))
    else err cursor_invalid_length

unfoldable pub decode_cursor : Text → Result PaginationError CursorKey
decode_cursor cursor =
    if is_empty cursor
    then err cursor_empty
    else if not (matches_base64url cursor)
    then err cursor_not_base64url
    else elim (a2b first 0 0 (cursor ++ padding (length cursor))) [
      | none ↦ err cursor_not_base64url
      | some payload ↦ read_payload payload
    ]
