-- ===== src/Messages/Waits.antt =====
-- How often a send waits before it answers.
use chatspace.Prelude.{ℕ, zero, suc, ◌+◌, ◌*◌, ◌≤◌, ◌≡◌, refl, List, arith, Text, Result, ok, err}
use chatspace.Db.{Db, Message, Attachment}
use chatspace.Messages.Media.{SendError}
use chatspace.Messages.Send.{
  World, claim_idempotency_key, publish, persist_message, settle, wait, resolve_loop,
  resolve_existing_claim, claim_rounds, send_message,
}

settle-waits :
    (w : World) (sender : ℕ) (key : Text) (row : Message)
    (res : Result SendError (Db × List Attachment))
    → (settle w sender key row res).0.waits ≡ w.waits
unfolding settle publish
settle-waits w sender key row (ok _) = refl
settle-waits w sender key row (err _) = refl

module _ (others : ℕ → World → World) where
  resolve_loop-waits :
      (n : ℕ) (w : World) (sender : ℕ) (key : Text)
      → (resolve_loop others n w sender key).0.waits ≤ n + w.waits
  unfolding resolve_loop wait
  resolve_loop-waits zero w sender key = omega arith
  resolve_loop-waits (suc zero) w sender key = ground arith
  resolve_loop-waits (suc (suc n)) w sender key =
      ground (arith, resolve_loop-waits (suc n) (wait others w) sender key)

  resolve_existing_claim-waits :
      (w : World) (sender : ℕ) (key : Text)
      → (resolve_existing_claim others w sender key).0.waits ≤ 7 + w.waits
  unfolding resolve_existing_claim
  resolve_existing_claim-waits w sender key = ground (arith, resolve_loop-waits 7 w sender key)

  claim_rounds-waits :
      (sender : ℕ) (key : Text) (ids : List ℕ) (row : Message) (n : ℕ) (w : World)
      → (claim_rounds others sender key ids row n w).0.waits ≤ 9 * n + w.waits
  unfolding claim_rounds wait
  claim_rounds-waits sender key ids row zero w = omega arith
  claim_rounds-waits sender key ids row (suc n) w =
      let v = wait others w in
      let claimed = wait others (claim_idempotency_key v sender key row.id) in
      ground (
        arith,
        settle-waits claimed sender key row (persist_message claimed.db row ids),
        resolve_existing_claim-waits (wait others v) sender key,
        claim_rounds-waits sender key ids row n
            (resolve_existing_claim others (wait others v) sender key).0,
      )

  -- Whatever other requests do, a send gives its answer after at most 35 waits.
  pub send_waits :
      (checks : Db → Result SendError (Unit {0})) (w : World) (key : Text) (ids : List ℕ)
      (row : Message)
      → (send_message others checks w key ids row).0.waits ≤ 35 + w.waits
  unfolding send_message wait
  send_waits checks w key ids row =
      let resolved = (resolve_existing_claim others w row.sender_id key).0 in
      ground (
        arith,
        resolve_existing_claim-waits w row.sender_id key,
        claim_rounds-waits row.sender_id key ids row 3 (wait others resolved),
      )
