-- ===== src/Examples/Contention.antt =====
-- A send against a rival that claims the same key again and again.
use chatspace.Prelude.{
  ℕ, ◌≡◌, refl, [], ◌∷◌, ◌==◌, ◌||◌, if◌then◌else◌, find, any_row, text_eq, codes, err,
}
use chatspace.Db.{get_channel, get_member, get_message}
use chatspace.Messages.Content.{is_valid_content, is_space}
use chatspace.Messages.Media.{validate_and_load_media, resolution_timeout}
use chatspace.Messages.Send.{
  World, load_claimed_message_id, load_message_with_media, ensure_channel_and_membership, wait,
  resolve_loop, resolve_existing_claim, claim_rounds, send_message,
}
use chatspace.Messages.Deliver.{check_body, channel_checks}
use chatspace.Examples.Sends.{start, key, hi}

-- The rival's claim is on a message that no transaction has written.
abbrev claimed : World → World
claimed w = record w {
  claims = record { sender_id = 1; idempotency_key = key; message_id = 999 } ∷ [];
}

-- The rival gives the key up just before the last look of each resolution, and takes it again.
abbrev rival : ℕ → World → World
rival n w = if n == 6 || n == 16 || n == 25 || n == 34 then record w { claims = [] } else claimed w

-- The send loses the first resolution and all three rounds, and waits as often as it ever can.
loses_every_round :
    let (w, answer) =
      send_message rival (channel_checks 10 1 (codes "hi") []) (claimed start) key [] hi in
    (answer ≡ err resolution_timeout) × (w.waits ≡ 35) × (w.published ≡ []) × (w.db ≡ start.db)
unfolding send_message resolve_existing_claim resolve_loop claim_rounds wait load_claimed_message_id
    load_message_with_media ensure_channel_and_membership check_body channel_checks
    validate_and_load_media is_valid_content is_space get_channel get_member get_message find
    any_row text_eq
loses_every_round = (refl, refl, refl, refl)
