-- ===== src/Prelude/Pages.antt =====
-- A predicate on every row under LIMIT, OFFSET and a projection.
use Prim.Native.Nat.{ℕ, zero, suc}
use mathlib.Core.Bool.{Bool, true}
use mathlib.Core.Path.{◌≡◌}
use mathlib.Core.Logic.{inl, inr}
use mathlib.Core.List.{List, [], ◌∷◌, map}
use chatspace.Prelude.Tests.{Bool-cases}
use chatspace.Prelude.Lists.{take, drop}
use chatspace.Prelude.Tables.{All, select}

module _ {ℓ} {A : Type ℓ} (P : A → Type 0) where
  pub All-take : (n : ℕ) (xs : List A) → All P xs → All P (take n xs)
  All-take zero xs h = tt
  All-take (suc n) [] h = tt
  All-take (suc n) (x ∷ xs) (hx, hs) = (hx, All-take n xs hs)

  pub All-drop : (n : ℕ) (xs : List A) → All P xs → All P (drop n xs)
  All-drop zero xs h = h
  All-drop (suc n) [] h = tt
  All-drop (suc n) (x ∷ xs) (hx, hs) = All-drop n xs hs

  -- What holds of every row of the table, and what the WHERE clause tested.
  pub All-where :
      (q : A → Bool) (Q : A → Type 0)
      → ((x : A) → P x → q x ≡ true → Q x)
      → (xs : List A) → All P xs
      → All Q (select q xs)
  unfolding select
  All-where q Q k [] h = tt
  All-where q Q k (x ∷ xs) (hx, hs) = elim (Bool-cases (q x)) [
    | inl e ↦ rw e (k x hx e, All-where q Q k xs hs)
    | inr e ↦ rw e (All-where q Q k xs hs)
  ]

pub All-map {ℓ κ} :
    {A : Type ℓ} {B : Type κ} (P : B → Type 0) (f : A → B) (xs : List A)
    → All (λ x. P (f x)) xs
    → All P (map f xs)
All-map P f [] h = tt
All-map P f (x ∷ xs) (hx, hs) = (hx, All-map P f xs hs)
