-- ===== src/Pagination/Base64.antt =====
-- `base64.urlsafe_b64encode` and `base64.urlsafe_b64decode` of the Python library, as the cursors
-- use them: the decoder is not strict, so it passes over every character outside its alphabet.
use mathlib.Core.Path.{ap₂}
use chatspace.Prelude.{
  ap, ◌∙◌, ℕ, suc, ◌+◌, ◌-◌, ◌*◌, ◌/◌, ◌%◌, ◌<◌, ◌≡◌, Bool, true, false, Option, none, some, List,
  [], ◌∷◌, ◌++◌, ◌&&◌, ◌||◌, ◌==◌, ltb, leb, if◌then◌else◌, arith, Bool-cases, Option-cases, inl,
  inr, All, Text,
}

unfoldable pub encode_char : ℕ → ℕ
encode_char s =
    if ltb s 26
    then s + 65
    else if ltb s 52
    then s + 71
    else if ltb s 62
    then s - 4
    else if s == 62
    then b'-'
    else b'_'

-- The value of a character, in the standard or the URL-safe alphabet.
unfoldable pub decode_char : ℕ → Option ℕ
decode_char c =
    if leb b'A' c && leb c b'Z'
    then some (c - 65)
    else if leb b'a' c && leb c b'z'
    then some (c - 71)
    else if leb b'0' c && leb c b'9'
    then some (c + 4)
    else if c == b'-' || c == b'+'
    then some 62
    else if c == b'_' || c == b'/'
    then some 63
    else none

-- Three bytes are four characters; what is left over is padded.
unfoldable pub b2a : List ℕ → Text
unfolding encode_char
b2a [] = []
b2a (a ∷ []) = encode_char (a / 4) ∷ encode_char (a % 4 * 16) ∷ b'=' ∷ b'=' ∷ []
b2a (a ∷ b ∷ []) =
    encode_char (a / 4) ∷ encode_char (a % 4 * 16 + b / 16) ∷ encode_char (b % 16 * 4) ∷ b'=' ∷ []
b2a (a ∷ b ∷ c ∷ rest) =
    encode_char (a / 4)
    ∷ encode_char (a % 4 * 16 + b / 16)
    ∷ encode_char (b % 16 * 4 + c / 64)
    ∷ encode_char (c % 64)
    ∷ b2a rest

-- The place in a group of four characters.
pub data Quad : Type 0 where
  first second third fourth : Quad

abbrev pub push : ℕ → Option (List ℕ) → Option (List ℕ)
push b none = none
push b (some bs) = some (b ∷ bs)

abbrev pub ends_group : Quad → ℕ → Bool
ends_group third pads = leb 1 pads
ends_group fourth pads = true
ends_group _ pads = false

abbrev pub count_pad : Quad → ℕ → ℕ
count_pad third pads = suc pads
count_pad fourth pads = suc pads
count_pad _ pads = pads

-- The loop of `binascii.a2b_base64`: the place in the group, the bits left over, and the padding
-- seen in a row. Padding that completes a group ends the input.
unfoldable pub a2b : Quad → ℕ → ℕ → Text → Option (List ℕ)
a2b first left pads [] = some []
a2b quad left pads [] = none
a2b quad left pads (c ∷ cs) =
    let padded : Option (List ℕ) = a2b quad left (count_pad quad pads) cs in
    if c == b'=' then (if ends_group quad pads then some [] else padded) else elim (decode_char c) [
      | none ↦ a2b quad left pads cs
      | some s ↦ elim quad [
        | first ↦ a2b second s 0 cs
        | second ↦ push (left * 4 + s / 16) (a2b third (s % 16) 0 cs)
        | third ↦ push (left * 16 + s / 4) (a2b fourth (s % 4) 0 cs)
        | fourth ↦ push (left * 64 + s) (a2b first 0 0 cs)
      ]
    ]

char_round :
    (s : ℕ) → s < 64 → (decode_char (encode_char s) ≡ some s) × ((encode_char s == b'=') ≡ false)
unfolding decode_char encode_char
char_round s h = ground arith

module _ (s : ℕ) (h : s < 64) (left pads : ℕ) (cs : Text) where
  a2b-first : a2b first left pads (encode_char s ∷ cs) ≡ a2b second s 0 cs
  unfolding a2b
  a2b-first = rw ((char_round s h).1, (char_round s h).0)

  a2b-second :
      a2b second left pads (encode_char s ∷ cs) ≡ push (left * 4 + s / 16) (a2b third (s % 16) 0 cs)
  unfolding a2b
  a2b-second = rw ((char_round s h).1, (char_round s h).0)

  a2b-third :
      a2b third left pads (encode_char s ∷ cs) ≡ push (left * 16 + s / 4) (a2b fourth (s % 4) 0 cs)
  unfolding a2b
  a2b-third = rw ((char_round s h).1, (char_round s h).0)

  a2b-fourth : a2b fourth left pads (encode_char s ∷ cs) ≡ push (left * 64 + s) (a2b first 0 0 cs)
  unfolding a2b
  a2b-fourth = rw ((char_round s h).1, (char_round s h).0)

-- One group of four characters gives its three bytes back.
a2b_group :
    (a b c : ℕ) (cs : Text)
    → a < 256
    → b < 256
    → c < 256
    → a2b first 0 0 (
        encode_char (a / 4)
        ∷ encode_char (a % 4 * 16 + b / 16)
        ∷ encode_char (b % 16 * 4 + c / 64)
        ∷ encode_char (c % 64)
        ∷ cs)
      ≡ push a (push b (push c (a2b first 0 0 cs)))
a2b_group a b c cs ha hb hc =
    let top : a / 4 * 4 + (a % 4 * 16 + b / 16) / 16 ≡ a = omega arith in
    let mid : (a % 4 * 16 + b / 16) % 16 * 16 + (b % 16 * 4 + c / 64) / 4 ≡ b = omega arith in
    let low : (b % 16 * 4 + c / 64) % 4 * 64 + c % 64 ≡ c = omega arith in
    a2b-first (a / 4) (omega arith) 0 0 _
    ∙ a2b-second (a % 4 * 16 + b / 16) (omega arith) (a / 4) 0 _
    ∙ ap₂ push top (
        a2b-third (b % 16 * 4 + c / 64) (omega arith) ((a % 4 * 16 + b / 16) % 16) 0 _
        ∙ ap₂ push mid (
            a2b-fourth (c % 64) (omega arith) ((b % 16 * 4 + c / 64) % 4) 0 cs
            ∙ ap (λ x. push x (a2b first 0 0 cs)) low))

-- Bytes in groups of three.
abbrev pub Triples : List ℕ → Type 0
Triples [] = Unit
Triples (a ∷ []) = ⊥
Triples (a ∷ b ∷ []) = ⊥
Triples (a ∷ b ∷ c ∷ rest) = (a < 256) × (b < 256) × (c < 256) × Triples rest

-- Whole groups decode to the bytes that were encoded, and the rest of the input follows.
pub a2b-b2a :
    (bs : List ℕ) (rest : Text) (out : List ℕ)
    → Triples bs
    → a2b first 0 0 rest ≡ some out
    → a2b first 0 0 (b2a bs ++ rest) ≡ some (bs ++ out)
unfolding b2a
a2b-b2a [] rest out t h = h
a2b-b2a (a ∷ []) rest out t h = absurd t
a2b-b2a (a ∷ b ∷ []) rest out t h = absurd t
a2b-b2a (a ∷ b ∷ c ∷ bs) rest out (ha, hb, hc, hs) h =
    a2b_group a b c (b2a bs ++ rest) ha hb hc
    ∙ ap (λ x. push a (push b (push c x))) (a2b-b2a bs rest out hs h)

-- The bits left over from the characters of a group.
abbrev LeftFits : Quad → ℕ → Type 0
LeftFits first left = Unit
LeftFits second left = left < 64
LeftFits third left = left < 16
LeftFits fourth left = left < 4

abbrev pub AllBytes : Option (List ℕ) → Type 0
AllBytes none = Unit
AllBytes (some bs) = All (λ b. b < 256) bs

decode_char-lt : (c s : ℕ) → decode_char c ≡ some s → s < 64
unfolding decode_char
decode_char-lt c s h = ground arith

AllBytes-push : (b : ℕ) (o : Option (List ℕ)) → b < 256 → AllBytes o → AllBytes (push b o)
AllBytes-push b none h a = tt
AllBytes-push b (some bs) h a = (h, a)

module _ (quad : Quad) (left pads c : ℕ) (cs : Text) where
  step-AllBytes :
      AllBytes (a2b quad left (count_pad quad pads) cs)
      → AllBytes (a2b quad left pads cs)
      → ((s : ℕ)
          → s < 64
          → AllBytes (elim quad [
            | first ↦ a2b second s 0 cs
            | second ↦ push (left * 4 + s / 16) (a2b third (s % 16) 0 cs)
            | third ↦ push (left * 16 + s / 4) (a2b fourth (s % 4) 0 cs)
            | fourth ↦ push (left * 64 + s) (a2b first 0 0 cs)
          ]))
      → AllBytes (a2b quad left pads (c ∷ cs))
  unfolding a2b
  step-AllBytes padded skipped digit = elim (Bool-cases (c == b'=')) [
    | inl e ↦ elim (Bool-cases (ends_group quad pads)) [
      | inl f ↦ rw (e, f) tt
      | inr f ↦ rw (e, f) padded
    ]
    | inr e ↦ elim (Option-cases (decode_char c)) [
      | inl n ↦ rw (e, n) skipped
      | inr (s, n) ↦ rw (e, n) (digit s (decode_char-lt c s n))
    ]
  ]

-- What the decoder gives are bytes.
pub a2b-AllBytes :
    (quad : Quad) (left pads : ℕ) (cs : Text)
    → LeftFits quad left
    → AllBytes (a2b quad left pads cs)
a2b-AllBytes first left pads [] h = unfold a2b in tt
a2b-AllBytes second left pads [] h = unfold a2b in tt
a2b-AllBytes third left pads [] h = unfold a2b in tt
a2b-AllBytes fourth left pads [] h = unfold a2b in tt
a2b-AllBytes first left pads (c ∷ cs) h =
    step-AllBytes first left pads c cs (a2b-AllBytes first left pads cs h)
      (a2b-AllBytes first left pads cs h) (λ s k. a2b-AllBytes second s 0 cs k)
a2b-AllBytes second left pads (c ∷ cs) h =
    step-AllBytes second left pads c cs (a2b-AllBytes second left pads cs h)
      (a2b-AllBytes second left pads cs h)
      (λ s k. AllBytes-push _ _ (omega arith) (a2b-AllBytes third (s % 16) 0 cs (omega arith)))
a2b-AllBytes third left pads (c ∷ cs) h =
    step-AllBytes third left pads c cs (a2b-AllBytes third left (suc pads) cs h)
      (a2b-AllBytes third left pads cs h)
      (λ s k. AllBytes-push _ _ (omega arith) (a2b-AllBytes fourth (s % 4) 0 cs (omega arith)))
a2b-AllBytes fourth left pads (c ∷ cs) h =
    step-AllBytes fourth left pads c cs (a2b-AllBytes fourth left (suc pads) cs h)
      (a2b-AllBytes fourth left pads cs h)
      (λ s k. AllBytes-push _ _ (omega arith) (a2b-AllBytes first 0 0 cs tt))
