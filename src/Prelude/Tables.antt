-- ===== src/Prelude/Tables.antt =====
-- A database table is the list of its rows: what a SELECT, an UPDATE and a DELETE do with a
-- predicate on rows, and what a later lookup sees.
use mathlib.Core.Path.{◌≡◌, refl}
use mathlib.Core.Bool.{Bool, true, false, ◌&&◌, ◌||◌}
use mathlib.Core.Option.{Option, none, some}
use mathlib.Core.List.{List, [], ◌∷◌, ◌++◌, map}
use native.Mathlib.Omega.{arith}
use chatspace.Prelude.Tests.{if◌then◌else◌}

module _ {ℓ} {A : Type ℓ} where
  -- The first row that satisfies the predicate.
  unfoldable pub find : (A → Bool) → List A → Option A
  find p [] = none
  find p (x ∷ xs) = if p x then some x else find p xs

  -- SELECT … WHERE p, in the table's order.
  unfoldable pub select : (A → Bool) → List A → List A
  select p [] = []
  select p (x ∷ xs) = let rest = select p xs in if p x then x ∷ rest else rest

  -- UPDATE … SET f WHERE p.
  unfoldable pub update_where : (A → Bool) → (A → A) → List A → List A
  update_where p f [] = []
  update_where p f (x ∷ xs) = (if p x then f x else x) ∷ update_where p f xs

  -- DELETE … WHERE p.
  unfoldable pub delete_where : (A → Bool) → List A → List A
  delete_where p [] = []
  delete_where p (x ∷ xs) = let rest = delete_where p xs in if p x then rest else x ∷ rest

  unfoldable pub any_row : (A → Bool) → List A → Bool
  any_row p [] = false
  any_row p (x ∷ xs) = p x || any_row p xs

  -- What an UPDATE does to one row.
  abbrev pub updated : (A → Bool) → (A → A) → Option A → Option A
  updated q f none = none
  updated q f (some x) = some (if q x then f x else x)

  -- A predicate on every row.
  abbrev pub All {κ} : (A → Type κ) → List A → Type κ
  All P [] = Unit
  All P (x ∷ xs) = P x × All P xs

  -- No two rows have the same key.
  abbrev pub Distinct : (A → A → Bool) → List A → Type ℓ
  Distinct same [] = Unit
  Distinct same (x ∷ xs) = (find (same x) xs ≡ none) × Distinct same xs

module _ {ℓ} {A : Type ℓ} (p : A → Bool) where
  pub find-holds : (xs : List A) (a : A) → find p xs ≡ some a → p a ≡ true
  unfolding find
  find-holds [] a h = ground arith
  find-holds (x ∷ xs) a h = ground (arith, find-holds xs a)

  pub find-append : (xs ys : List A) → find p xs ≡ none → find p (xs ++ ys) ≡ find p ys
  unfolding find
  find-append [] ys h = refl
  find-append (x ∷ xs) ys h = ground (arith, find-append xs ys)

  pub find-append_some : (xs ys : List A) (a : A) → find p xs ≡ some a → find p (xs ++ ys) ≡ some a
  unfolding find
  find-append_some [] ys a h = ground arith
  find-append_some (x ∷ xs) ys a h = ground (arith, find-append_some xs ys a)

  pub find-delete_where_self : (xs : List A) → find p (delete_where p xs) ≡ none
  unfolding find delete_where
  find-delete_where_self [] = refl
  find-delete_where_self (x ∷ xs) = ground (arith, find-delete_where_self xs)

  -- What is deleted elsewhere is not noticed.
  pub find-delete_where :
      (q : A → Bool)
      → ((x : A) → p x ≡ true → q x ≡ false)
      → (xs : List A) → find p (delete_where q xs) ≡ find p xs
  unfolding find delete_where
  find-delete_where q apart [] = refl
  find-delete_where q apart (x ∷ xs) = ground (arith, apart x, find-delete_where q apart xs)

  pub find-update_where :
      (q : A → Bool) (f : A → A)
      → ((x : A) → p (f x) ≡ p x)
      → (xs : List A) → find p (update_where q f xs) ≡ updated q f (find p xs)
  unfolding find update_where
  find-update_where q f keep [] = refl
  find-update_where q f keep (x ∷ xs) = ground (arith, keep x, find-update_where q f keep xs)

  pub find-none-delete_where :
      (q : A → Bool) (xs : List A) → find p xs ≡ none → find p (delete_where q xs) ≡ none
  unfolding find delete_where
  find-none-delete_where q [] h = refl
  find-none-delete_where q (x ∷ xs) h = ground (arith, find-none-delete_where q xs)

  -- A DELETE that matches nothing.
  pub find-none-delete_where_id : (xs : List A) → find p xs ≡ none → delete_where p xs ≡ xs
  unfolding find delete_where
  find-none-delete_where_id [] h = refl
  find-none-delete_where_id (x ∷ xs) h = ground (arith, find-none-delete_where_id xs)

  -- An UPDATE that matches nothing.
  pub find-none-update_where_id :
      (f : A → A) (xs : List A) → find p xs ≡ none → update_where p f xs ≡ xs
  unfolding find update_where
  find-none-update_where_id f [] h = refl
  find-none-update_where_id f (x ∷ xs) h = ground (arith, find-none-update_where_id f xs)

  pub any_row-append : (xs ys : List A) → any_row p (xs ++ ys) ≡ (any_row p xs || any_row p ys)
  unfolding any_row
  any_row-append [] ys = refl
  any_row-append (x ∷ xs) ys = ground (arith, any_row-append xs ys)

  pub any_row_of_find : (xs : List A) (a : A) → find p xs ≡ some a → any_row p xs ≡ true
  unfolding find any_row
  any_row_of_find [] a h = ground arith
  any_row_of_find (x ∷ xs) a h = ground (arith, any_row_of_find xs a)

  -- The row that a lookup returns is a row.
  pub any_row_at_find :
      (q : A → Bool) (xs : List A) (a : A) → find p xs ≡ some a → q a ≡ true → any_row q xs ≡ true
  unfolding find any_row
  any_row_at_find q [] a h k = ground arith
  any_row_at_find q (x ∷ xs) a h k = ground (arith, any_row_at_find q xs a)

  -- A row that is found is none of those that are not.
  pub none_at_find :
      (q : A → Bool) (xs : List A) (a : A) → find p xs ≡ some a → find q xs ≡ none → q a ≡ false
  unfolding find
  none_at_find q [] a h n = ground arith
  none_at_find q (x ∷ xs) a h n = ground (arith, none_at_find q xs a)

  -- A row outside what is deleted stays.
  pub any_row-delete_where :
      (q r : A → Bool)
      → ((x : A) → r x ≡ true → (p x ≡ true) × (q x ≡ false))
      → (xs : List A) → any_row r xs ≡ true
      → any_row p (delete_where q xs) ≡ true
  unfolding any_row delete_where
  any_row-delete_where q r keep [] h = ground arith
  any_row-delete_where q r keep (x ∷ xs) h =
      ground (arith, keep x, any_row-delete_where q r keep xs)

  pub All-select : (xs : List A) → All (λ x. p x ≡ true) (select p xs)
  unfolding select
  All-select [] = tt
  All-select (x ∷ xs) = ground (arith, All-select xs)

  pub any_row-select : (xs : List A) → any_row (λ _. true) (select p xs) ≡ any_row p xs
  unfolding select any_row
  any_row-select [] = refl
  any_row-select (x ∷ xs) = ground (arith, any_row-select xs)

  pub any_row-of_select :
      (q : A → Bool) (xs : List A) → any_row q (select p xs) ≡ any_row (λ x. p x && q x) xs
  unfolding select any_row
  any_row-of_select q [] = refl
  any_row-of_select q (x ∷ xs) = ground (arith, any_row-of_select q xs)

pub any_row-map {ℓ κ} :
    {A : Type ℓ} {B : Type κ} (f : A → B) (p : B → Bool) (xs : List A)
    → any_row p (map f xs) ≡ any_row (λ x. p (f x)) xs
unfolding any_row
any_row-map f p [] = refl
any_row-map f p (x ∷ xs) = ground (arith, any_row-map f p xs)

-- To filter twice is to filter once by the stronger test.
pub select-select {ℓ} :
    {A : Type ℓ} (p q : A → Bool)
    → ((x : A) → p x ≡ true → q x ≡ true)
    → (xs : List A) → select p (select q xs) ≡ select p xs
unfolding select
select-select p q k [] = refl
select-select p q k (x ∷ xs) = ground (arith, k x, select-select p q k xs)
