-- ===== src/Messages/Content.antt =====
-- The content rule of backend/app/services/messages.py, and what it promises the database.
use chatspace.Prelude.{
  ℕ, ◌≡◌, refl, Bool, true, [], ◌∷◌, ◌&&◌, ◌||◌, not, ◌==◌, leb, any_row, length, Text, arith, List,
  false, if◌then◌else◌,
}
use chatspace.Db.{content_check}

abbrev pub content_max_length : ℕ
content_max_length = 4000

-- The characters that `str.strip` takes off.
unfoldable pub is_space : ℕ → Bool
is_space c =
    leb 9 c && leb c 13
    || leb 28 c && leb c 32
    || c == 133
    || c == 160
    || c == 5760
    || leb 8192 c && leb c 8202
    || c == 8232
    || c == 8233
    || c == 8239
    || c == 8287
    || c == 12288

abbrev pub is_empty {ℓ} : {A : Type ℓ} → List A → Bool
is_empty [] = true
is_empty (x ∷ xs) = false

unfoldable pub strip_left : Text → Text
strip_left [] = []
strip_left (c ∷ s) = let rest = strip_left s in if is_space c then rest else c ∷ s

unfoldable pub strip_right : Text → Text
strip_right [] = []
strip_right (c ∷ s) =
    let rest = strip_right s in if is_space c && is_empty rest then [] else c ∷ rest

-- `str.strip`.
unfoldable pub strip : Text → Text
strip s = strip_right (strip_left s)

-- `content.strip() != ""`: some character is not stripped.
unfoldable pub is_valid_content : Text → Bool
unfolding is_space
is_valid_content content =
    leb (length content) content_max_length && any_row (λ c. not (is_space c)) content

blank_is_space : (c : ℕ) → (c == 32) ≡ true → is_space c ≡ true
unfolding is_space
blank_is_space c h = let e : c ≡ 32 = ground arith in rw e refl

any_visible :
    (s : Text) → any_row (λ c. not (is_space c)) s ≡ true → any_row (λ c. not (c == 32)) s ≡ true
unfolding any_row
any_visible [] h = h
any_visible (c ∷ s) h = ground (arith, blank_is_space c, any_visible s)

-- Content that the service accepts passes the CHECK constraint on `messages.content`.
pub is_valid_content_sound : (s : Text) → is_valid_content s ≡ true → content_check s ≡ true
unfolding is_valid_content content_check
is_valid_content_sound s h = ground (arith, any_visible s)
