-- ===== src/Examples/Checks.antt =====
-- The checks of a send against the constraints of its table, and the limit of a page.
use chatspace.Prelude.{◌≡◌, refl, pos, true, some, List, [], ◌∷◌, codes, find, any_row, ok}
use chatspace.Db.{get_user, is_some}
use chatspace.Pagination.Cursor.{CursorKey}
use chatspace.Pagination.Keyset.{resolve_limit}
use chatspace.Messages.Content.{is_valid_content, is_space}
use chatspace.Messages.Media.{validate_and_load_media}
use chatspace.Messages.Deliver.{
  check_body, dm_checks, reject_self_dm, ensure_active_recipient_exists,
}
use chatspace.Examples.Sample.{sample}

ann_known : is_some (get_user sample 1) ≡ true
unfolding get_user find
ann_known = refl

dm_passes : dm_checks 2 1 (codes "hi") [] sample ≡ ok tt
unfolding dm_checks check_body reject_self_dm ensure_active_recipient_exists is_valid_content
    is_space validate_and_load_media get_user find any_row
dm_passes = refl

abbrev rows : List CursorKey
rows = record { created_at = 5; id = 1 } ∷ record { created_at = 7; id = 2 } ∷ []

clamped : resolve_limit (some (pos 500)) ≡ ok 100
unfolding resolve_limit
clamped = refl
