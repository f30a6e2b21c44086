-- ===== src/Pagination/Walk.antt =====
-- A client that follows `next_cursor` until it is null gets every row once, in order.
use mathlib.Core.Path.{subst}
use native.Mathlib.Numerals.{add-one}
use chatspace.Prelude.{
  ℕ, zero, suc, ◌≤◌, ◌<◌, ◌≡◌, refl, sym, ap, ◌∙◌, Bool, true, false, Option, none, some, List, [],
  ◌∷◌, ◌++◌, ◌==◌, ltb, if◌then◌else◌, Text, length, take, drop, select, order_by, ok, err, arith,
  All, Distinct, Ordered, Bool-cases, inl, inr, select-order_by, select-select, order_by-Ordered,
  Distinct-order_by, All-of_find-none, All-order_by, length-order_by, take-append-drop, length-take,
  length-drop, All-drop, All-select,
}
use chatspace.Pagination.Cursor.{CursorKey, encode_cursor, decode_cursor}
use chatspace.Pagination.RoundTrip.{IsPosition, decode-encode}
use chatspace.Pagination.Keyset.{
  keyset_predicate, keyset_order, Page, apply_keyset, last?, cursor_of, keyset_page,
}

abbrev read_next : Option Text → Option CursorKey
read_next none = none
read_next (some token) = elim (decode_cursor token) [ ok k ↦ some k | err _ ↦ none ]

read-back :
    (token : Text) (k : CursorKey) → decode_cursor token ≡ ok k → read_next (some token) ≡ some k
read-back token k h = rw (h, read_next)

module _ {A : Type 0} (key : A → CursorKey) where
  -- The rows of a page, and those of the further pages when it has a cursor.
  abbrev follow : List A → (CursorKey → List A) → Option CursorKey → List A
  follow items further none = items
  follow items further (some k) = items ++ further k

  -- The rows that a client collects in at most the given number of requests.
  unfoldable pub walk : List A → (limit requests : ℕ) → Option CursorKey → List A
  walk rows limit zero cursor = []
  walk rows limit (suc n) cursor =
      let page = keyset_page key rows limit cursor in
      follow page.items (λ k. walk rows limit n (some k)) (read_next page.next_cursor)

  walk-step :
      (rows : List A) (limit n : ℕ) (cursor : Option CursorKey) (page : Page A)
      → keyset_page key rows limit cursor ≡ page
      → walk rows limit (suc n) cursor
        ≡ follow page.items (λ k. walk rows limit n (some k)) (read_next page.next_cursor)
  unfolding walk
  walk-step rows limit n cursor page e =
      ap (λ p. follow p.items (λ k. walk rows limit n (some k)) (read_next p.next_cursor)) e

  abbrev pub same_id : A → A → Bool
  same_id a b = (key b).id == (key a).id

  abbrev newest_first : A → A → Bool
  newest_first a b = keyset_order (key a) (key b)

  abbrev before : CursorKey → A → Bool
  before k r = keyset_predicate k (key r)

  -- Every row comes strictly after those before it.
  abbrev Descending : List A → Type 0
  Descending [] = Unit
  Descending (x ∷ xs) = All (λ y. before (key x) y ≡ true) xs × Descending xs

  strictly :
      (x : A) (xs : List A)
      → All (λ y. newest_first x y ≡ true) xs
      → All (λ y. same_id y x ≡ false) xs
      → All (λ y. before (key x) y ≡ true) xs
  strictly x [] h d = tt
  strictly x (y ∷ ys) (h, hs) (d, ds) = (ground arith, strictly x ys hs ds)

  Ordered-Descending : (xs : List A) → Ordered newest_first xs → Distinct same_id xs → Descending xs
  Ordered-Descending [] o d = tt
  Ordered-Descending (x ∷ xs) (o, os) (d, ds) = (
    strictly x xs o (All-of_find-none same_id (λ a b. ground arith) (λ a. ground arith) x xs d),
    Ordered-Descending xs os ds,
  )

  select_whole : (p : A → Bool) (xs : List A) → All (λ y. p y ≡ true) xs → select p xs ≡ xs
  unfolding select
  select_whole p [] h = refl
  select_whole p (x ∷ xs) (h, hs) = ground (arith, select_whole p xs hs)

  select-skip : (p : A → Bool) (x : A) (xs : List A) → p x ≡ false → select p (x ∷ xs) ≡ select p xs
  unfolding select
  select-skip p x xs h = rw h

  -- The last row of a page of `n + 1` rows, and what comes after it.
  cut :
      (n : ℕ) (xs : List A)
      → Descending xs
      → n < length xs
      → (x : A) × (last? (take (suc n) xs) ≡ some x)
        × (select (before (key x)) xs ≡ drop (suc n) xs)
        × ((P : A → Type 0) → All P xs → P x)
  cut n [] d h = absurd (omega arith)
  cut zero (y ∷ ys) (a, d) h = (
    y,
    refl,
    select-skip (before (key y)) y ys (ground arith) ∙ select_whole (before (key y)) ys a,
    λ P h. h.0,
  )
  cut (suc n) (y ∷ []) (a, d) h = absurd (omega arith)
  cut (suc n) (y ∷ z ∷ zs) (a, d) h =
      let (x, l, e, m) = cut n (z ∷ zs) d (omega arith) in
      let later = m (λ w. before (key y) w ≡ true) a in
      (x, l, select-skip (before (key x)) y (z ∷ zs) (ground (arith, later)) ∙ e, λ P h. m P h.1)

  take-all : (n : ℕ) (xs : List A) → length xs ≤ n → take n xs ≡ xs
  take-all zero [] h = refl
  take-all (suc n) [] h = refl
  take-all zero (x ∷ xs) h = absurd (omega arith)
  take-all (suc n) (x ∷ xs) h = ap (λ r. x ∷ r) (take-all n xs (omega arith))

  more-same : (n : ℕ) (xs : List A) → ltb n (length (take (suc n) xs)) ≡ ltb n (length xs)
  more-same n xs = ground (arith, length-take (suc n) xs)

  All-units : (xs : List A) → All (λ _. Unit {0}) xs
  All-units [] = tt
  All-units (x ∷ xs) = (tt, All-units xs)

  take-take : (n : ℕ) (xs : List A) → take n (take (suc n) xs) ≡ take n xs
  take-take zero xs = refl
  take-take (suc n) [] = refl
  take-take (suc n) (x ∷ xs) = ap (λ r. x ∷ r) (take-take n xs)

  Descending-drop : (n : ℕ) (xs : List A) → Descending xs → Descending (drop n xs)
  Descending-drop zero xs d = d
  Descending-drop (suc n) [] d = tt
  Descending-drop (suc n) (x ∷ xs) (a, d) = Descending-drop n xs d

  module _ (rows : List A) (l : ℕ) where
    -- The page of a request whose rows are `rest`.
    page-of :
        (cursor : Option CursorKey) (rest : List A)
        → apply_keyset key cursor rows ≡ rest
        → keyset_page key rows (suc l) cursor ≡ record {
          items = take (suc l) rest;
          next_cursor =
              if ltb (suc l) (length rest) then cursor_of key (last? (take (suc l) rest)) else none;
        }
    unfolding keyset_page
    page-of cursor rest e = rw (e, add-one, take-take (suc l) rest, more-same (suc l) rest)

    abbrev Passes : Option CursorKey → A → Type 0
    Passes none r = Unit
    Passes (some k) r = before k r ≡ true

    sorted-select :
        (k : CursorKey)
        → apply_keyset key (some k) rows ≡ select (before k) (order_by newest_first rows)
    unfolding apply_keyset
    sorted-select k = sym (
        select-order_by newest_first (λ a b c h i. ground arith) (λ a b h. ground arith) (before k)
          rows)

    -- What follows a row of the rest is found among the rest.
    narrow :
        (cursor : Option CursorKey) (x : A)
        → Passes cursor x
        → apply_keyset key (some (key x)) rows
          ≡ select (before (key x)) (apply_keyset key cursor rows)
    narrow none x h = sorted-select (key x) ∙ (unfold apply_keyset in refl)
    narrow (some k) x h =
        sorted-select (key x)
        ∙ sym (
            select-select (before (key x)) (before k) (λ y i. ground (arith, h))
              (order_by newest_first rows))
        ∙ ap (select (before (key x))) (sym (sorted-select k))

    All-Passes : (cursor : Option CursorKey) → All (Passes cursor) (apply_keyset key cursor rows)
    All-Passes none = All-units (apply_keyset key none rows)
    All-Passes (some k) = rw (sorted-select k) (All-select (before k) (order_by newest_first rows))

    -- What follows the first `suc l` rows of the rest, which end in `x`.
    after :
        (cursor : Option CursorKey) (rest : List A) (x : A)
        → apply_keyset key cursor rows ≡ rest
        → select (before (key x)) rest ≡ drop (suc l) rest
        → Passes cursor x
        → apply_keyset key (some (key x)) rows ≡ drop (suc l) rest
    after cursor rest x e tail passes =
        narrow cursor x passes ∙ ap (select (before (key x))) e ∙ tail

    last-page :
        (n : ℕ) (cursor : Option CursorKey) (rest : List A)
        → apply_keyset key cursor rows ≡ rest
        → ltb (suc l) (length rest) ≡ false
        → walk rows (suc l) (suc n) cursor ≡ take (suc l) rest
    last-page n cursor rest e done =
        walk-step rows (suc l) n cursor _ (page-of cursor rest e) ∙ rw done

    full-page :
        (n : ℕ) (cursor : Option CursorKey) (rest : List A) (x : A)
        → apply_keyset key cursor rows ≡ rest
        → ltb (suc l) (length rest) ≡ true
        → last? (take (suc l) rest) ≡ some x
        → decode_cursor (encode_cursor (key x)) ≡ ok (key x)
        → walk rows (suc l) (suc n) cursor ≡ take (suc l) rest ++ walk rows (suc l) n (some (key x))
    full-page n cursor rest x e more last round =
        walk-step rows (suc l) n cursor _ (page-of cursor rest e)
        ∙ rw (more, last)
            (ap (follow (take (suc l) rest) (λ k. walk rows (suc l) n (some k)))
              (read-back (encode_cursor (key x)) (key x) round))

    walk-rest :
        (n : ℕ) (cursor : Option CursorKey) (rest : List A)
        → apply_keyset key cursor rows ≡ rest
        → Descending rest
        → All (λ r. IsPosition (key r)) rest
        → length rest ≤ n
        → walk rows (suc l) n cursor ≡ rest
    unfolding walk
    walk-rest zero cursor [] e d p h = refl
    walk-rest zero cursor (x ∷ xs) e d p h = absurd (omega arith)
    walk-rest (suc n) cursor rest e d p h = elim (Bool-cases (ltb (suc l) (length rest))) [
      | inr done ↦ last-page n cursor rest e done ∙ take-all (suc l) rest (ground arith)
      | inl more ↦
          let (x, last, tail, at_x) = cut l rest d (ground arith) in
          let next =
            after cursor rest x e tail
              (at_x (Passes cursor) (subst (All (Passes cursor)) e (All-Passes cursor))) in
          let round = (decode-encode (key x) (at_x (λ r. IsPosition (key r)) p)).0 in
          full-page n cursor rest x e more last round
          ∙ ap (λ r. take (suc l) rest ++ r)
              (walk-rest n (some (key x)) (drop (suc l) rest) next (Descending-drop (suc l) rest d)
                (All-drop (λ r. IsPosition (key r)) (suc l) rest p)
                (omega (arith, length-drop (suc l) rest)))
          ∙ take-append-drop (suc l) rest
    ]

    -- Where the rows have different ids and possible positions, a client that follows the cursors
    -- from page to page collects exactly the rows in the order of the keyset, newest first,
    -- whatever the positive page size, within any number of requests that is at least the number
    -- of rows.
    pub walk_complete :
        (n : ℕ)
        → Distinct same_id rows
        → All (λ r. IsPosition (key r)) rows
        → length rows ≤ n
        → walk rows (suc l) n none ≡ order_by (λ a b. keyset_order (key a) (key b)) rows
    walk_complete n d p h =
        walk-rest n none (order_by newest_first rows) (unfold apply_keyset in refl)
          (Ordered-Descending (order_by newest_first rows)
            (order_by-Ordered newest_first (λ a b c h i. ground arith) (λ a b h. ground arith) rows)
            (Distinct-order_by same_id (λ a b. ground arith) (λ a. ground arith) newest_first rows
              d))
          (All-order_by (λ r. IsPosition (key r)) newest_first rows p)
          (omega (arith, length-order_by newest_first rows))
