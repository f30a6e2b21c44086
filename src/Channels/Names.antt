-- ===== src/Channels/Names.antt =====
-- The name rule of the service against the CHECK of the table.
use chatspace.Prelude.{
  ℕ, ◌≡◌, refl, Bool, true, false, [], ◌∷◌, ◌++◌, arith, Text, before_final_newline,
  before_final_newline-append, before_final_newline_sound, err, ◌⊎◌, inl, inr, Bool-cases,
  Option-cases,
}
use chatspace.Db.{Db, check_violation, name_check, all_name_chars, insert_channel}
use chatspace.Channels.{is_valid_channel_name, create_channel}

all_name_chars-newline : (s : Text) → all_name_chars (s ++ (10 ∷ [])) ≡ false
unfolding all_name_chars
all_name_chars-newline [] = refl
all_name_chars-newline (c ∷ s) = ground (arith, all_name_chars-newline s)

name_check-newline : (s : Text) → name_check (s ++ (10 ∷ [])) ≡ false
unfolding name_check
name_check-newline s = rw (all_name_chars-newline s)

-- A channel name that the service accepts passes the CHECK constraint on `channels.name`, or does
-- so without its one final newline.
pub is_valid_channel_name_sound :
    (name : Text)
    → is_valid_channel_name name ≡ true
    → (name_check name ≡ true) ⊎ ((s : Text) × (name ≡ s ++ (10 ∷ [])) × (name_check s ≡ true))
unfolding is_valid_channel_name
is_valid_channel_name_sound name h = elim (Bool-cases (name_check name)) [
  | inl e ↦ inl e
  | inr e ↦ elim (Option-cases (before_final_newline name)) [
    | inl n ↦ ground arith
    | inr (s, f) ↦ inr (s, before_final_newline_sound name s f, ground arith)
  ]
]

-- A name that passes the CHECK constraint is accepted by the service also with a newline behind
-- it, and the creation of a channel of that longer name ends in a check violation.
pub newline_name_violates_check :
    (db : Db) (new_id now : ℕ) (s : Text) (is_private : Bool) (creator : ℕ)
    → name_check s ≡ true
    → (is_valid_channel_name (s ++ (10 ∷ [])) ≡ true)
      × (create_channel db new_id now (s ++ (10 ∷ [])) is_private creator ≡ err check_violation)
unfolding is_valid_channel_name create_channel insert_channel
newline_name_violates_check db new_id now s is_private creator h =
    (rw (name_check-newline s, before_final_newline-append s) h, rw (name_check-newline s))
