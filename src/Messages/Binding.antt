-- ===== src/Messages/Binding.antt =====
-- The UPDATE that binds attachments takes every requested one, and none that is bound already.
use chatspace.Prelude.{
  ℕ, suc, ◌+◌, ◌≤◌, ◌≡◌, refl, sym, ap, ◌∙◌, ◌≢◌, ◌⊎◌, inl, inr, Bool, true, false, Option, none,
  some, List, [], ◌∷◌, ◌==◌, ◌&&◌, ◌||◌, Bool-cases, arith, find, any_row, select, update_where,
  updated, find-update_where, find-holds, length, Distinct, ok,
}
use chatspace.Db.{Db, Attachment}
use chatspace.Messages.Media.{
  is_null, is_usable, attachment_at, is_requested, bind_to, bind_media_atomically,
}

abbrev pub get_attachment : Db → ℕ → Option Attachment
get_attachment db i = find (attachment_at i) db.attachments

abbrev pub same_attachment : Attachment → Attachment → Bool
same_attachment a b = b.id == a.id

abbrev matches : ℕ → ℕ → Attachment → Bool
matches sender i a = attachment_at i a && is_usable sender a

-- At most one row has the id, and it is the one that a lookup finds.
match-none :
    (sender i : ℕ) (xs : List Attachment)
    → find (attachment_at i) xs ≡ none
    → length (select (matches sender i) xs) ≡ 0
unfolding find select
match-none sender i [] h = refl
match-none sender i (x ∷ xs) h = ground (arith, match-none sender i xs)

match-one :
    (sender i : ℕ) (xs : List Attachment)
    → Distinct same_attachment xs
    → (length (select (matches sender i) xs) ≡ 0)
      ⊎ ((length (select (matches sender i) xs) ≡ 1)
          × ((a : Attachment) × (find (attachment_at i) xs ≡ some a) × (is_usable sender a ≡ true)))
unfolding find select
match-one sender i [] d = inl refl
match-one sender i (x ∷ xs) (f, d) = elim (Bool-cases (attachment_at i x)) [
  | inl e ↦
      let same : x.id ≡ i = ground arith in
      let gone = match-none sender i xs (ap (λ k. find (attachment_at k) xs) (sym same) ∙ f) in
      elim (Bool-cases (is_usable sender x)) [
        | inl u ↦ inr (rw (e, u) (ap suc gone), (x, rw e refl, u))
        | inr u ↦ inl (rw (e, u) gone)
      ]
  | inr e ↦ ground (arith, match-one sender i xs d)
]

-- A union of two conditions matches no more rows than both.
select-or :
    (p q : Attachment → Bool) (xs : List Attachment)
    → length (select (λ a. p a || q a) xs) ≤ length (select p xs) + length (select q xs)
unfolding select
select-or p q [] = omega arith
select-or p q (x ∷ xs) = ground (arith, select-or p q xs)

requested-cons :
    (sender i : ℕ) (ids : List ℕ) (xs : List Attachment)
    → length (select (is_requested (i ∷ ids) sender) xs)
      ≤ length (select (matches sender i) xs) + length (select (is_requested ids sender) xs)
unfolding select any_row
requested-cons sender i ids [] = omega arith
requested-cons sender i ids (x ∷ xs) = ground (arith, requested-cons sender i ids xs)

requested-none :
    (sender : ℕ) (xs : List Attachment) → length (select (is_requested [] sender) xs) ≡ 0
unfolding select any_row
requested-none sender [] = refl
requested-none sender (x ∷ xs) = requested-none sender xs

requested-bound :
    (sender : ℕ) (ids : List ℕ) (xs : List Attachment)
    → Distinct same_attachment xs
    → length (select (is_requested ids sender) xs) ≤ length ids
requested-bound sender [] xs d = omega (arith, requested-none sender xs)
requested-bound sender (i ∷ ids) xs d = elim (match-one sender i xs d) [
  | inl z ↦ omega (arith, requested-cons sender i ids xs, requested-bound sender ids xs d)
  | inr (o, _) ↦ omega (arith, requested-cons sender i ids xs, requested-bound sender ids xs d)
]

-- As many rows as ids: every id has a usable row.
requested-all :
    (sender : ℕ) (ids : List ℕ) (xs : List Attachment)
    → Distinct same_attachment xs
    → length (select (is_requested ids sender) xs) ≡ length ids
    → (i : ℕ) → any_row (λ j. i == j) ids ≡ true
    → (a : Attachment) × (find (attachment_at i) xs ≡ some a) × (is_usable sender a ≡ true)
unfolding any_row
requested-all sender [] xs d h i m = ground arith
requested-all sender (j ∷ ids) xs d h i m =
    let few = requested-cons sender j ids xs in
    let bound = requested-bound sender ids xs d in
    elim (match-one sender j xs d) [
      | inl z ↦ absurd (omega (arith, few, bound, h, z))
      | inr (o, (a, f, u)) ↦ elim (Bool-cases (i == j)) [
        | inl e ↦ let same : i ≡ j = ground arith in rw same (a, f, u)
        | inr e ↦
            requested-all sender ids xs d (omega (arith, few, bound, h, o)) i (ground (arith, e, m))
      ]
    ]

bind-inversion :
    (db : Db) (m sender i : ℕ) (ids : List ℕ) (db' : Db) (media : List Attachment)
    → bind_media_atomically db m (i ∷ ids) sender ≡ ok (db', media)
    → (length (select (is_requested (i ∷ ids) sender) db.attachments) ≡ length (i ∷ ids))
      × (db' ≡ record db {
        attachments = update_where (is_requested (i ∷ ids) sender) (bind_to m) db.attachments;
      })
unfolding bind_media_atomically
bind-inversion db m sender i ids db' media h = ground arith

bind-none :
    (db : Db) (m sender : ℕ) (db' : Db) (media : List Attachment)
    → bind_media_atomically db m [] sender ≡ ok (db', media)
    → db' ≡ db
unfolding bind_media_atomically
bind-none db m sender db' media h = ground arith

no_row : (j : ℕ) → any_row (λ i. j == i) [] ≢ true
unfolding any_row
no_row j h = ground arith

kept :
    (ids : List ℕ) (sender : ℕ) (a : Attachment)
    → is_null a.message_id ≡ false
    → is_requested ids sender a ≡ false
kept ids sender a h = ground arith

taken :
    (j : ℕ) (ids : List ℕ) (sender : ℕ) (a : Attachment)
    → a.id ≡ j
    → any_row (λ i. j == i) ids ≡ true
    → is_usable sender a ≡ true
    → is_requested ids sender a ≡ true
taken j ids sender a same k u =
    let k' : any_row (λ i. a.id == i) ids ≡ true = ap (λ x. any_row (λ i. x == i) ids) same ∙ k in
    ground (arith, k')

-- What the UPDATE leaves of a row.
bind-lookup :
    (db : Db) (m sender j : ℕ) (ids : List ℕ)
    → find (attachment_at j) (update_where (is_requested ids sender) (bind_to m) db.attachments)
      ≡ updated (is_requested ids sender) (bind_to m) (get_attachment db j)
bind-lookup db m sender j ids =
    find-update_where (attachment_at j) (is_requested ids sender) (bind_to m) (λ r. refl)
      db.attachments

-- Where attachments have different ids, a binding that succeeds finds every requested attachment
-- unbound and the sender's own and binds it to the message, and leaves an attachment that was
-- bound already where it was.
pub bind_effect :
    (db : Db) (m sender : ℕ) (ids : List ℕ) (db' : Db) (media : List Attachment)
    → Distinct same_attachment db.attachments
    → bind_media_atomically db m ids sender ≡ ok (db', media)
    → ((j : ℕ)
        → any_row (λ i. j == i) ids ≡ true
        → (a : Attachment) × (get_attachment db j ≡ some a)
          × (is_usable sender a ≡ true)
          × (get_attachment db' j ≡ some (bind_to m a)))
      × ((j : ℕ) (a : Attachment)
          → get_attachment db j ≡ some a
          → is_null a.message_id ≡ false
          → get_attachment db' j ≡ some a)
bind_effect db m sender [] db' media d h =
    let e = bind-none db m sender db' media h in (λ j k. absurd (no_row j k), λ j a f b. rw e f)
bind_effect db m sender (i ∷ ids) db' media d h =
    let (n, e) = bind-inversion db m sender i ids db' media h in
    (
      λ j k.
          let (a, f, u) = requested-all sender (i ∷ ids) db.attachments d n j k in
          let own = find-holds (attachment_at j) db.attachments a f in
          let same : a.id ≡ j = ground arith in
          (
            a,
            f,
            u,
            rw e (
                bind-lookup db m sender j (i ∷ ids)
                ∙ rw (f, taken j (i ∷ ids) sender a same k u) refl),
          ),
      λ j a f b.
          rw e (bind-lookup db m sender j (i ∷ ids) ∙ rw (f, kept (i ∷ ids) sender a b) refl),
    )
