-- ===== src/Prelude/Keys.antt =====
-- Primary keys and unique indexes under INSERT, DELETE and UPDATE.
use mathlib.Core.Path.{◌≡◌, refl}
use mathlib.Core.Bool.{Bool, true, false}
use mathlib.Core.Option.{none, some}
use mathlib.Core.List.{List, [], ◌∷◌, ◌++◌}
use native.Mathlib.Omega.{arith}
use mathlib.Core.Logic.{inl, inr}
use chatspace.Prelude.Tests.{if◌then◌else◌, Bool-cases}
use chatspace.Prelude.OrderBy.{insert_by, order_by}
use chatspace.Prelude.Tables.{
  find, delete_where, update_where, All, Distinct, find-append, find-none-delete_where,
}

module _ {ℓ} {A : Type ℓ} (same : A → A → Bool) where
  pub Distinct-append_one :
      (p : A → Bool) (r : A)
      → ((x : A) → same x r ≡ p x)
      → (xs : List A) → find p xs ≡ none
      → Distinct same xs
      → Distinct same (xs ++ (r ∷ []))
  unfolding find
  Distinct-append_one p r e [] n d = (refl, tt)
  Distinct-append_one p r e (x ∷ xs) n (d, ds) = (
    ground (arith, find-append (same x) xs (r ∷ []), e x),
    Distinct-append_one p r e xs (ground arith) ds,
  )

  pub Distinct-delete_where :
      (q : A → Bool) (xs : List A) → Distinct same xs → Distinct same (delete_where q xs)
  unfolding delete_where
  Distinct-delete_where q [] d = tt
  Distinct-delete_where q (x ∷ xs) (d, ds) =
      let rest = Distinct-delete_where q xs ds in
      let none_left = find-none-delete_where (same x) q xs d in keep (q x) rest none_left
    where
      keep :
          (b : Bool)
          → Distinct same (delete_where q xs)
          → find (same x) (delete_where q xs) ≡ none
          → Distinct same (if b then delete_where q xs else x ∷ delete_where q xs)
      keep true rest n = rest
      keep false rest n = (n, rest)

  module _ (q : A → Bool) (f : A → A) (right : (x y : A) → same x (f y) ≡ same x y)
      (left : (x y : A) → same (f x) y ≡ same x y) where
    find-none-update_where :
        (x : A) (xs : List A) → find (same x) xs ≡ none → find (same x) (update_where q f xs) ≡ none
    unfolding find update_where
    find-none-update_where x [] n = refl
    find-none-update_where x (y ∷ ys) n = ground (arith, right x y, find-none-update_where x ys)

    find-none-set : (x : A) (xs : List A) → find (same x) xs ≡ none → find (same (f x)) xs ≡ none
    unfolding find
    find-none-set x [] n = refl
    find-none-set x (y ∷ ys) n = ground (arith, left x y, find-none-set x ys)

    pub Distinct-update_where :
        (xs : List A) → Distinct same xs → Distinct same (update_where q f xs)
    unfolding update_where
    Distinct-update_where [] d = tt
    Distinct-update_where (x ∷ xs) (d, ds) = (keep (q x), Distinct-update_where xs ds)
      where
        keep : (b : Bool) → find (same (if b then f x else x)) (update_where q f xs) ≡ none
        keep true = find-none-set x (update_where q f xs) (find-none-update_where x xs d)
        keep false = find-none-update_where x xs d

module _ {ℓ} {A : Type ℓ} (P : A → Type 0) where
  pub All-append_one : (r : A) (xs : List A) → P r → All P xs → All P (xs ++ (r ∷ []))
  All-append_one r [] h hs = (h, tt)
  All-append_one r (x ∷ xs) h (hx, hs) = (hx, All-append_one r xs h hs)

  pub All-delete_where : (q : A → Bool) (xs : List A) → All P xs → All P (delete_where q xs)
  unfolding delete_where
  All-delete_where q [] h = tt
  All-delete_where q (x ∷ xs) (hx, hs) = keep (q x) (All-delete_where q xs hs)
    where
      keep :
          (b : Bool)
          → All P (delete_where q xs)
          → All P (if b then delete_where q xs else x ∷ delete_where q xs)
      keep true rest = rest
      keep false rest = (hx, rest)

  pub All-update_where :
      (q : A → Bool) (f : A → A)
      → ((x : A) → P x → P (f x))
      → (xs : List A) → All P xs
      → All P (update_where q f xs)
  unfolding update_where
  All-update_where q f k [] h = tt
  All-update_where q f k (x ∷ xs) (hx, hs) = (keep (q x), All-update_where q f k xs hs)
    where
      keep : (b : Bool) → P (if b then f x else x)
      keep true = k x hx
      keep false = hx

  pub All-weaken {κ} :
      (Q : A → Type κ) → ((x : A) → P x → Q x) → (xs : List A) → All P xs → All Q xs
  All-weaken Q k [] h = tt
  All-weaken Q k (x ∷ xs) (hx, hs) = (k x hx, All-weaken Q k xs hs)

module _ {ℓ} {A : Type ℓ} (same : A → A → Bool) (symmetric : (x y : A) → same x y ≡ same y x)
    (reflexive : (x : A) → same x x ≡ true) where
  pub All-of_find-none :
      (x : A) (ys : List A) → find (same x) ys ≡ none → All (λ y. same y x ≡ false) ys
  unfolding find
  All-of_find-none x [] n = tt
  All-of_find-none x (y ∷ ys) n =
      (ground (arith, symmetric x y), All-of_find-none x ys (ground arith))

  All-found_behind :
      (x : A) (all ys : List A)
      → All (λ y. same y x ≡ false) ys
      → All (λ y. find (same y) all ≡ some y) ys
      → All (λ y. find (same y) (x ∷ all) ≡ some y) ys
  unfolding find
  All-found_behind x all [] a b = tt
  All-found_behind x all (y ∷ ys) (a, as') (b, bs) = (rw a b, All-found_behind x all ys as' bs)

  -- Under a key every row is found by its own key.
  pub All-find_own : (xs : List A) → Distinct same xs → All (λ x. find (same x) xs ≡ some x) xs
  unfolding find
  All-find_own [] d = tt
  All-find_own (x ∷ xs) (d, ds) =
      (rw (reflexive x), All-found_behind x xs xs (All-of_find-none x xs d) (All-find_own xs ds))

  find-none-insert_by :
      (le : A → A → Bool) (p : A → Bool) (x : A) (xs : List A)
      → p x ≡ false
      → find p xs ≡ none
      → find p (insert_by le x xs) ≡ none
  unfolding find insert_by
  find-none-insert_by le p x [] h n = rw h
  find-none-insert_by le p x (y ∷ ys) h n = ground (arith, find-none-insert_by le p x ys)

  Distinct-insert_by :
      (le : A → A → Bool) (x : A) (xs : List A)
      → find (same x) xs ≡ none
      → Distinct same xs
      → Distinct same (insert_by le x xs)
  unfolding find insert_by
  Distinct-insert_by le x [] n d = (refl, tt)
  Distinct-insert_by le x (y ∷ ys) n (d, ds) = elim (Bool-cases (le x y)) [
    | inl e ↦ rw e (n, (d, ds))
    | inr e ↦ rw e (
      find-none-insert_by le (same y) x ys (ground (arith, symmetric x y)) d,
      Distinct-insert_by le x ys (ground arith) ds,
    )
  ]

  find-none-order_by :
      (le : A → A → Bool) (p : A → Bool) (xs : List A)
      → find p xs ≡ none
      → find p (order_by le xs) ≡ none
  unfolding find order_by
  find-none-order_by le p [] n = refl
  find-none-order_by le p (x ∷ xs) n =
      find-none-insert_by le p x (order_by le xs) (ground arith)
        (find-none-order_by le p xs (ground arith))

  -- Sorting keeps a key.
  pub Distinct-order_by :
      (le : A → A → Bool) (xs : List A) → Distinct same xs → Distinct same (order_by le xs)
  unfolding order_by
  Distinct-order_by le [] d = tt
  Distinct-order_by le (x ∷ xs) (d, ds) =
      Distinct-insert_by le x (order_by le xs) (find-none-order_by le (same x) xs d)
        (Distinct-order_by le xs ds)
