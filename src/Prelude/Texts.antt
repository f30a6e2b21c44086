-- ===== src/Prelude/Texts.antt =====
-- A text is the list of its code points.
use Prim.Native.Nat.{ℕ, ◌+◌}
use Prim.Native.Char.{code}
use Prim.Native.String.{String}
use mathlib.Core.Path.{◌≡◌, refl, ap}
use mathlib.Core.Logic.{inl, inr}
use mathlib.Core.Option.{Option, none, some}
use mathlib.Core.Bool.{Bool, true, false, ◌&&◌}
use mathlib.Core.List.{List, [], ◌∷◌, ◌++◌, map}
use native.Mathlib.Omega.{arith}
use chatspace.Prelude.Tests.{leb, ◌==◌, if◌then◌else◌, Option-cases}

abbrev pub Text : Type 0
Text = List ℕ

abbrev pub codes : String → Text
codes String.[] = []
codes (String.◌∷◌ c s) = code c ∷ codes s

unfoldable pub text_eq : Text → Text → Bool
text_eq [] [] = true
text_eq [] (_ ∷ _) = false
text_eq (_ ∷ _) [] = false
text_eq (a ∷ s) (b ∷ t) = a == b && text_eq s t

pub text_eq_refl : (s : Text) → text_eq s s ≡ true
unfolding text_eq
text_eq_refl [] = refl
text_eq_refl (a ∷ s) = ground (arith, text_eq_refl s)

pub text_eq_sound : (s t : Text) → text_eq s t ≡ true → s ≡ t
unfolding text_eq
text_eq_sound [] [] h = refl
text_eq_sound [] (_ ∷ _) h = ground arith
text_eq_sound (_ ∷ _) [] h = ground arith
text_eq_sound (a ∷ s) (b ∷ t) h = ground (arith, text_eq_sound s t)

-- `lower` on ASCII letters.
unfoldable pub lower_char : ℕ → ℕ
lower_char c = if leb b'A' c && leb c b'Z' then c + 32 else c

unfoldable pub lower : Text → Text
unfolding lower_char
lower s = map lower_char s

-- The text before a final newline, which `$` of a Python pattern also matches before.
unfoldable pub before_final_newline : Text → Option Text
before_final_newline [] = none
before_final_newline (c ∷ []) = if c == 10 then some [] else none
before_final_newline (c ∷ d ∷ s) = elim (before_final_newline (d ∷ s)) [
  | none ↦ none
  | some r ↦ some (c ∷ r)
]

abbrev pub holds_of : (Text → Bool) → Option Text → Bool
holds_of p none = false
holds_of p (some s) = p s

pub before_final_newline-append : (s : Text) → before_final_newline (s ++ (10 ∷ [])) ≡ some s
unfolding before_final_newline
before_final_newline-append [] = refl
before_final_newline-append (c ∷ []) = refl
before_final_newline-append (c ∷ d ∷ s) = rw (before_final_newline-append (d ∷ s))

pub before_final_newline_sound : (s t : Text) → before_final_newline s ≡ some t → s ≡ t ++ (10 ∷ [])
unfolding before_final_newline
before_final_newline_sound [] t h = cc
before_final_newline_sound (c ∷ []) t h = ground arith
before_final_newline_sound (c ∷ d ∷ s) t h = elim (Option-cases (before_final_newline (d ∷ s))) [
  | inl n ↦ ground arith
  | inr (r, e) ↦
      let p : t ≡ c ∷ r = ground arith in
      rw p (ap (λ (x : Text). c ∷ x) (before_final_newline_sound (d ∷ s) r e))
]
