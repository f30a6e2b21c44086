-- ===== src/Messages/Fits.antt =====
-- What passes the checks of a send passes the constraints of the table.
use chatspace.Prelude.{ℕ, ◌≡◌, refl, true, false, none, List, [], ◌∷◌, ◌++◌, ◌==◌, arith, Text, ok}
use chatspace.Db.{is_storable, Db, target_xor, get_message, get_user, insert_message, is_some}
use chatspace.Messages.Content.{is_valid_content, is_valid_content_sound}
use chatspace.Messages.Deliver.{
  check_body, dm_checks, dm_message, reject_self_dm, ensure_active_recipient_exists,
}

module _ (db : Db) (sender m now : ℕ) (content : Text) (ids : List ℕ)
    (fresh : get_message db m ≡ none) (plain : is_storable content ≡ true) where
  dm-inversion :
      (u : ℕ) (x : Unit {0})
      → dm_checks u sender content ids db ≡ ok x
      → ((u == sender) ≡ false)
        × (is_some (get_user db u) ≡ true)
        × (is_valid_content content ≡ true)
  unfolding dm_checks reject_self_dm ensure_active_recipient_exists check_body
  dm-inversion u x h = ground arith

  -- A direct message with a fresh id and without U+0000, of a sender that exists, that passes the
  -- checks of its send breaks no constraint of the table: the INSERT succeeds and appends the row.
  pub dm_checks-insert_message :
      (u : ℕ)
      → is_some (get_user db sender) ≡ true
      → dm_checks u sender content ids db ≡ ok tt
      → let row = dm_message u sender content m now in
        insert_message db row ≡ ok (record db { messages = db.messages ++ (row ∷ []) })
  unfolding insert_message target_xor
  dm_checks-insert_message u user h =
      let (other, known, valid) = dm-inversion u tt h in
      rw (plain, is_valid_content_sound content valid, other, fresh, user, known) refl
