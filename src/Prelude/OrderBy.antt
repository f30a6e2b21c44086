-- ===== src/Prelude/OrderBy.antt =====
-- ORDER BY as a stable sort by a Boolean order, and how it meets WHERE.
use mathlib.Core.Path.{◌≡◌, refl}
use mathlib.Core.Bool.{Bool, true, false}
use mathlib.Core.List.{List, [], ◌∷◌}
use Prim.Native.Nat.{suc}
use native.Mathlib.Omega.{arith}
use chatspace.Prelude.Tests.{if◌then◌else◌, Bool-cases}
use chatspace.Prelude.Lists.{length}
use chatspace.Prelude.Tables.{All, select, any_row}
use mathlib.Core.Logic.{inl, inr}

module _ {ℓ} {A : Type ℓ} where
  unfoldable pub insert_by : (A → A → Bool) → A → List A → List A
  insert_by le x [] = x ∷ []
  insert_by le x (y ∷ ys) = let rest = insert_by le x ys in if le x y then x ∷ y ∷ ys else y ∷ rest

  unfoldable pub order_by : (A → A → Bool) → List A → List A
  unfolding insert_by
  order_by le [] = []
  order_by le (x ∷ xs) = insert_by le x (order_by le xs)

  -- Every row is before all rows that follow it.
  abbrev pub Ordered : (A → A → Bool) → List A → Type 0
  Ordered le [] = Unit
  Ordered le (x ∷ xs) = All (λ y. le x y ≡ true) xs × Ordered le xs

module _ {ℓ} {A : Type ℓ} (P : A → Type 0) where
  pub All-keep_select : (q : A → Bool) (xs : List A) → All P xs → All P (select q xs)
  unfolding select
  All-keep_select q [] h = tt
  All-keep_select q (x ∷ xs) (hx, hs) = elim (Bool-cases (q x)) [
    | inl e ↦ rw e (hx, All-keep_select q xs hs)
    | inr e ↦ rw e (All-keep_select q xs hs)
  ]

  All-insert_by :
      (le : A → A → Bool) (x : A) (xs : List A) → P x → All P xs → All P (insert_by le x xs)
  unfolding insert_by
  All-insert_by le x [] h hs = (h, tt)
  All-insert_by le x (y ∷ ys) h (hy, hs) = elim (Bool-cases (le x y)) [
    | inl e ↦ rw e (h, (hy, hs))
    | inr e ↦ rw e (hy, All-insert_by le x ys h hs)
  ]

  pub All-order_by : (le : A → A → Bool) (xs : List A) → All P xs → All P (order_by le xs)
  unfolding order_by
  All-order_by le [] h = tt
  All-order_by le (x ∷ xs) (hx, hs) = All-insert_by le x (order_by le xs) hx (All-order_by le xs hs)

module _ {ℓ} {A : Type ℓ} (P : A → Type 0) (le : A → A → Bool) where
  All-of_insert_by : (x : A) (xs : List A) → All P (insert_by le x xs) → P x × All P xs
  unfolding insert_by
  All-of_insert_by x [] h = h
  All-of_insert_by x (y ∷ ys) h = elim (Bool-cases (le x y)) [
    | inl e ↦ rw e at h
    | inr e ↦
        let h' : P y × All P (insert_by le x ys) = rw e at h in
        let rest = All-of_insert_by x ys h'.1 in (rest.0, (h'.0, rest.1))
  ]

  pub All-of_order_by : (xs : List A) → All P (order_by le xs) → All P xs
  unfolding order_by
  All-of_order_by [] h = tt
  All-of_order_by (x ∷ xs) h =
      let (hx, hs) = All-of_insert_by x (order_by le xs) h in (hx, All-of_order_by xs hs)

module _ {ℓ} {A : Type ℓ} (le : A → A → Bool) where
  any_row-insert_by :
      (p : A → Bool) (x : A) (xs : List A) → any_row p (insert_by le x xs) ≡ any_row p (x ∷ xs)
  unfolding any_row insert_by
  any_row-insert_by p x [] = refl
  any_row-insert_by p x (y ∷ ys) = ground (arith, any_row-insert_by p x ys)

  pub any_row-order_by : (p : A → Bool) (xs : List A) → any_row p (order_by le xs) ≡ any_row p xs
  unfolding any_row order_by
  any_row-order_by p [] = refl
  any_row-order_by p (x ∷ xs) =
      ground (arith, any_row-order_by p xs, any_row-insert_by p x (order_by le xs))

  length-insert_by : (x : A) (xs : List A) → length (insert_by le x xs) ≡ suc (length xs)
  unfolding insert_by
  length-insert_by x [] = refl
  length-insert_by x (y ∷ ys) = ground (arith, length-insert_by x ys)

  pub length-order_by : (xs : List A) → length (order_by le xs) ≡ length xs
  unfolding order_by
  length-order_by [] = refl
  length-order_by (x ∷ xs) = ground (arith, length-order_by xs, length-insert_by x (order_by le xs))

module _ {ℓ} {A : Type ℓ} (le : A → A → Bool)
    (trans : (a b c : A) → le a b ≡ true → le b c ≡ true → le a c ≡ true) where
  All-le_later :
      (x y : A) (xs : List A)
      → le x y ≡ true
      → All (λ z. le y z ≡ true) xs
      → All (λ z. le x z ≡ true) xs
  All-le_later x y [] h hs = tt
  All-le_later x y (z ∷ zs) h (hz, hs) = (trans x y z h hz, All-le_later x y zs h hs)

  insert_by-least : (x : A) (xs : List A) → All (λ z. le x z ≡ true) xs → insert_by le x xs ≡ x ∷ xs
  unfolding insert_by
  insert_by-least x [] h = refl
  insert_by-least x (y ∷ ys) (hy, hs) = rw hy

  module _ (total : (a b : A) → le a b ≡ false → le b a ≡ true) where
    insert_by-Ordered : (x : A) (xs : List A) → Ordered le xs → Ordered le (insert_by le x xs)
    unfolding insert_by
    insert_by-Ordered x [] h = (tt, tt)
    insert_by-Ordered x (y ∷ ys) (hy, hs) = elim (Bool-cases (le x y)) [
      | inl e ↦ rw e ((e, All-le_later x y ys e hy), (hy, hs))
      | inr e ↦
          rw e
            (All-insert_by (λ z. le y z ≡ true) le x ys (total x y e) hy, insert_by-Ordered x ys hs)
    ]

    pub order_by-Ordered : (xs : List A) → Ordered le (order_by le xs)
    unfolding order_by
    order_by-Ordered [] = tt
    order_by-Ordered (x ∷ xs) = insert_by-Ordered x (order_by le xs) (order_by-Ordered xs)

    select-insert_by :
        (q : A → Bool) (x : A) (xs : List A)
        → Ordered le xs
        → select q (insert_by le x xs) ≡ (if q x then insert_by le x (select q xs) else select q xs)
    unfolding select insert_by
    select-insert_by q x [] h = refl
    select-insert_by q x (y ∷ ys) (hy, hs) = elim (Bool-cases (le x y)) [
      | inl e ↦ ground (
        arith,
        insert_by-least x (select q (y ∷ ys))
            (All-keep_select (λ z. le x z ≡ true) q (y ∷ ys) (e, All-le_later x y ys e hy)),
      )
      | inr e ↦ ground (arith, select-insert_by q x ys hs)
    ]

    -- To sort and then filter is to filter and then sort.
    pub select-order_by :
        (q : A → Bool) (xs : List A) → select q (order_by le xs) ≡ order_by le (select q xs)
    unfolding select order_by
    select-order_by q [] = refl
    select-order_by q (x ∷ xs) =
        ground
          (arith, select-order_by q xs, select-insert_by q x (order_by le xs) (order_by-Ordered xs))
