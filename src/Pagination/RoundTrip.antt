-- ===== src/Pagination/RoundTrip.antt =====
-- Cursors are read back, and what is read is a possible position.
use mathlib.Core.Path.{subst}
use mathlib.Core.List.{append-nil, append_assoc}
use chatspace.Prelude.{
  ℕ, ◌+◌, ◌-◌, ◌*◌, ◌/◌, ◌%◌, ◌^◌, ◌<◌, ◌≡◌, refl, true, false, some, List, [], ◌∷◌, ◌∙◌, ◌++◌,
  ◌==◌, arith, All, Text, length, take, drop, before_final_newline-append, ok, length-append,
  length-drop, length-take, All-drop, All-take,
}
use chatspace.Pagination.Bytes.{to_bytes, from_bytes, from_bytes-to_bytes, from_bytes-lt}
use chatspace.Pagination.Base64.{
  b2a, a2b, first, encode_char, decode_char, Triples, a2b-b2a, a2b-AllBytes, AllBytes,
}
use chatspace.Pagination.Cursor.{
  epoch, max_datetime, CursorKey, rstrip_pad, cursor_payload, encode_cursor, is_url_char,
  all_url_chars, is_empty, matches_base64url, padding, key_of, read_payload, decode_cursor,
}

url_sextet :
    (s : ℕ) → s < 64 → (is_url_char (encode_char s) ≡ true) × ((encode_char s == b'=') ≡ false)
unfolding is_url_char encode_char
url_sextet s h = ground arith

rstrip_pad-cons :
    (c : ℕ) (s : Text) → (c == b'=') ≡ false → rstrip_pad s ≡ s → rstrip_pad (c ∷ s) ≡ c ∷ s
unfolding rstrip_pad
rstrip_pad-cons c [] h e = ground arith
rstrip_pad-cons c (d ∷ t) h e = rw e

module _ (a b c : ℕ) (ha : a < 256) (hb : b < 256) (hc : c < 256) where
  s₁ : (is_url_char (encode_char (a / 4)) ≡ true) × ((encode_char (a / 4) == b'=') ≡ false)
  s₁ = url_sextet (a / 4) (omega arith)

  s₂ :
      (is_url_char (encode_char (a % 4 * 16 + b / 16)) ≡ true)
      × ((encode_char (a % 4 * 16 + b / 16) == b'=') ≡ false)
  s₂ = url_sextet (a % 4 * 16 + b / 16) (omega arith)

  s₃ :
      (is_url_char (encode_char (b % 16 * 4 + c / 64)) ≡ true)
      × ((encode_char (b % 16 * 4 + c / 64) == b'=') ≡ false)
  s₃ = url_sextet (b % 16 * 4 + c / 64) (omega arith)

  s₄ : (is_url_char (encode_char (c % 64)) ≡ true) × ((encode_char (c % 64) == b'=') ≡ false)
  s₄ = url_sextet (c % 64) (omega arith)

all_url_chars-b2a : (bs : List ℕ) → Triples bs → all_url_chars (b2a bs) ≡ true
unfolding all_url_chars b2a
all_url_chars-b2a [] t = refl
all_url_chars-b2a (a ∷ []) t = absurd t
all_url_chars-b2a (a ∷ b ∷ []) t = absurd t
all_url_chars-b2a (a ∷ b ∷ c ∷ bs) (ha, hb, hc, t) = rw (
  (s₁ a b c ha hb hc).0,
  (s₂ a b c ha hb hc).0,
  (s₃ a b c ha hb hc).0,
  (s₄ a b c ha hb hc).0,
  all_url_chars-b2a bs t,
)

rstrip_pad-b2a : (bs : List ℕ) → Triples bs → rstrip_pad (b2a bs) ≡ b2a bs
unfolding b2a
rstrip_pad-b2a [] t = unfold rstrip_pad in refl
rstrip_pad-b2a (a ∷ []) t = absurd t
rstrip_pad-b2a (a ∷ b ∷ []) t = absurd t
rstrip_pad-b2a (a ∷ b ∷ c ∷ bs) (ha, hb, hc, t) = rstrip_pad-cons _ _ (s₁ a b c ha hb hc).1 (
    rstrip_pad-cons _ _ (s₂ a b c ha hb hc).1 (
      rstrip_pad-cons _ _ (s₃ a b c ha hb hc).1
        (rstrip_pad-cons _ _ (s₄ a b c ha hb hc).1 (rstrip_pad-b2a bs t))))

length-b2a : (bs : List ℕ) → Triples bs → length (b2a bs) * 3 ≡ length bs * 4
unfolding b2a
length-b2a [] t = refl
length-b2a (a ∷ []) t = absurd t
length-b2a (a ∷ b ∷ []) t = absurd t
length-b2a (a ∷ b ∷ c ∷ bs) (ha, hb, hc, t) = omega (arith, length-b2a bs t)

snoc_not_empty : (s : Text) → is_empty (s ++ (10 ∷ [])) ≡ false
snoc_not_empty [] = refl
snoc_not_empty (c ∷ s) = refl

all_url_chars-newline : (s : Text) → all_url_chars (s ++ (10 ∷ [])) ≡ false
unfolding all_url_chars is_url_char
all_url_chars-newline [] = refl
all_url_chars-newline (c ∷ s) = ground (arith, all_url_chars-newline s)

module _ (bs : List ℕ) (t : Triples bs) (n : length bs ≡ 24) where
  length-32 : length (b2a bs) ≡ 32
  length-32 = omega (arith, length-b2a bs t)

  not_empty : (s : Text) → length s ≡ 32 → is_empty s ≡ false
  not_empty [] h = absurd (omega arith)
  not_empty (c ∷ s) h = refl

  decode-b2a : decode_cursor (b2a bs) ≡ read_payload bs
  unfolding decode_cursor matches_base64url
  decode-b2a =
      let e : a2b first 0 0 (b2a bs ++ []) ≡ some (bs ++ []) =
        a2b-b2a bs [] [] t (unfold a2b in refl) in
      rw (not_empty (b2a bs) length-32, all_url_chars-b2a bs t, length-32, e, append-nil)

  decode-b2a_newline : decode_cursor (b2a bs ++ (10 ∷ [])) ≡ read_payload bs
  unfolding decode_cursor matches_base64url decode_char
  decode-b2a_newline =
      let e : a2b first 0 0 (b2a bs ++ (10 ∷ b'=' ∷ b'=' ∷ b'=' ∷ [])) ≡ some (bs ++ []) =
        a2b-b2a bs (10 ∷ b'=' ∷ b'=' ∷ b'=' ∷ []) [] t (unfold a2b in refl) in
      let len : length (b2a bs ++ (10 ∷ [])) ≡ 33 =
        omega (arith, length-append (b2a bs) (10 ∷ []), length-32) in
      rw (
        snoc_not_empty (b2a bs),
        all_url_chars-newline (b2a bs),
        before_final_newline-append (b2a bs),
        not_empty (b2a bs) length-32,
        all_url_chars-b2a bs t,
        len,
        append_assoc,
        e,
        append-nil,
      )

-- The range of a position: a `datetime` and 128 bits.
pub record IsPosition (k : CursorKey) : Type 0 where
  pub date : k.created_at < max_datetime
  pub uuid : k.id < 2 ^ 128

module _ (k : CursorKey) (p : IsPosition k) where
  payload-Triples : Triples (cursor_payload k)
  unfolding cursor_payload
  payload-Triples = omega arith

  payload-length : length (cursor_payload k) ≡ 24
  unfolding cursor_payload
  payload-length = refl

  payload-head : take 8 (cursor_payload k) ≡ to_bytes 8 ((k.created_at + 2 ^ 64 - epoch) % 2 ^ 64)
  unfolding cursor_payload
  payload-head = refl

  payload-tail : drop 8 (cursor_payload k) ≡ to_bytes 16 k.id
  unfolding cursor_payload
  payload-tail = refl

  key_of-micros : key_of ((k.created_at + 2 ^ 64 - epoch) % 2 ^ 64) k.id ≡ ok k
  unfolding key_of
  key_of-micros = ground (arith, p.date)

  read_payload-cursor_payload : read_payload (cursor_payload k) ≡ ok k
  unfolding read_payload
  read_payload-cursor_payload =
      rw
        (
          payload-length,
          payload-head,
          payload-tail,
          from_bytes-to_bytes 8 ((k.created_at + 2 ^ 64 - epoch) % 2 ^ 64) (omega arith),
          from_bytes-to_bytes 16 k.id (omega (arith, p.uuid)),
        )
        key_of-micros

  encode-eq-b2a : encode_cursor k ≡ b2a (cursor_payload k)
  unfolding encode_cursor
  encode-eq-b2a = rstrip_pad-b2a (cursor_payload k) payload-Triples

  -- The cursor of a possible position is read back to that position; it has 32 characters, all of
  -- the URL-safe alphabet.
  pub decode-encode :
      (decode_cursor (encode_cursor k) ≡ ok k)
      × (length (encode_cursor k) ≡ 32)
      × (all_url_chars (encode_cursor k) ≡ true)
  decode-encode = rw encode-eq-b2a (
    decode-b2a (cursor_payload k) payload-Triples payload-length ∙ read_payload-cursor_payload,
    length-32 (cursor_payload k) payload-Triples payload-length,
    all_url_chars-b2a (cursor_payload k) payload-Triples,
  )

  -- The cursor of a possible position with one newline behind it is no text of the URL-safe
  -- alphabet, and is read all the same, to that position.
  pub decode-newline :
      (decode_cursor (encode_cursor k ++ (10 ∷ [])) ≡ ok k)
      × (all_url_chars (encode_cursor k ++ (10 ∷ [])) ≡ false)
  decode-newline = rw encode-eq-b2a (
    decode-b2a_newline (cursor_payload k) payload-Triples payload-length
        ∙ read_payload-cursor_payload,
    all_url_chars-newline (b2a (cursor_payload k)),
  )

decode-inversion :
    (s : Text) (k : CursorKey)
    → decode_cursor s ≡ ok k
    → (bs : List ℕ) × (a2b first 0 0 (s ++ padding (length s)) ≡ some bs)
      × (length bs ≡ 24)
      × (key_of (from_bytes 0 (take 8 bs)) (from_bytes 0 (drop 8 bs)) ≡ ok k)
unfolding decode_cursor read_payload
decode-inversion s k h = ground arith

key_of-inversion :
    (u id : ℕ) (k : CursorKey)
    → u < 2 ^ 64
    → key_of u id ≡ ok k
    → (k.created_at < max_datetime) × (k.id ≡ id)
unfolding key_of
key_of-inversion u id k small h = ground arith

-- Whatever text a cursor is read from, the position that it gives has a date before the year
-- 10000 and an id of 128 bits.
pub decode-IsPosition : (s : Text) (k : CursorKey) → decode_cursor s ≡ ok k → IsPosition k
decode-IsPosition s k h =
    let (bs, e, n, o) = decode-inversion s k h in
    let bytes : All (λ b. b < 256) bs =
      subst AllBytes e (a2b-AllBytes first 0 0 (s ++ padding (length s)) tt) in
    let head = from_bytes-lt 0 (take 8 bs) (All-take (λ b. b < 256) 8 bs bytes) in
    let tail = from_bytes-lt 0 (drop 8 bs) (All-drop (λ b. b < 256) 8 bs bytes) in
    let head_len : length (take 8 bs) ≡ 8 = omega (arith, length-take 8 bs) in
    let tail_len : length (drop 8 bs) ≡ 16 = omega (arith, length-drop 8 bs) in
    let (date, same) =
      key_of-inversion (from_bytes 0 (take 8 bs)) (from_bytes 0 (drop 8 bs)) k (rw head_len at head)
        o in
    record { date = date; uuid = rw same (rw tail_len at tail) }
