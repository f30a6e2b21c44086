-- ===== src/Invites/Redeemed.antt =====
-- An invitation is redeemed once: the requests as steps, and what a registration promises.
use chatspace.Prelude.{
  ℕ, ◌≡◌, sym, ap, Bool, false, none, some, [], ◌∷◌, ◌++◌, find, any_row, update_where, Text, ok,
  err, arith, Option-cases, inl, inr, Result-cases, ==_refl,
}
use mathlib.Core.Path.{subst}
use chatspace.Db.{Db, User}
use chatspace.Messages.Content.{strip}
use chatspace.Invites.{
  Onboarding, Invite, invite_at, invite_hash_is, find_valid_invite_by_token, redeem_invite,
  issue_invite, resend_invite, revoke_invite_route, register, RegisterRequest, same_identity,
  InviteError, new_invite, stale_invite,
}
use chatspace.Invites.Effects.{
  Spent, is_accepted, append-Spent, redeem-Spent, resend-Spent, revoke-Spent,
}

module _ (is_alpha is_digit : ℕ → Bool) (hash_password nfc : Text → Text) where
  pub data Step (w : Onboarding) : Onboarding → Type 0 where
    issue :
        (is_valid_email_format : Text → Bool) (mail_delivers : Bool) (i : ℕ)
        (email token_hash : Text) (admin now : ℕ)
        → Step w (issue_invite is_valid_email_format mail_delivers w i email token_hash admin now).1
    resend :
        (mail_delivers : Bool) (i : ℕ) (token_hash : Text) (now : ℕ)
        → find (invite_hash_is token_hash) w.invites ≡ none
        → Step w (resend_invite mail_delivers w i token_hash now).1
    revoke : (i : ℕ) → Step w (revoke_invite_route w i).1
    redeem :
        (later : Db) (i : ℕ) (token_hash : Text) (body : RegisterRequest) (now : ℕ)
        → Step w (register is_alpha is_digit hash_password nfc w later i token_hash body now).1
    elsewhere : (db : Db) → Step w (record w { db = db })

  pub data Reach (w : Onboarding) : Onboarding → Type 0 where
    here : Reach w w
    next : {a b : Onboarding} → Reach w a → Step a b → Reach w b

  -- A registration that fails leaves the invitations; one that succeeds redeems the one it was given.
  failed :
      (w : Onboarding) (later : Db) (i : ℕ) (token_hash : Text) (body : RegisterRequest) (now : ℕ)
      (e : InviteError)
      → (register is_alpha is_digit hash_password nfc w later i token_hash body now).0 ≡ err e
      → (register is_alpha is_digit hash_password nfc w later i token_hash body now).1.invites
        ≡ w.invites
  unfolding register
  failed w later i token_hash body now e h =
      elim (Option-cases (find_valid_invite_by_token w token_hash now)) [
        | inl n ↦ ground (arith, n)
        | inr (invite, n) ↦ ground (arith, h, n)
      ]

  pub registration :
      (w : Onboarding) (later : Db) (i : ℕ) (token_hash : Text) (body : RegisterRequest) (now : ℕ)
      (user : User)
      → let (answer, v) =
          register is_alpha is_digit hash_password nfc w later i token_hash body now in
        answer ≡ ok user
        → (invite : Invite) × (find_valid_invite_by_token w token_hash now ≡ some invite)
          × (user.email ≡ invite.email)
          × (any_row (same_identity user) later.users ≡ false)
          × (v.db.users ≡ later.users ++ (user ∷ []))
          × (v.invites ≡ update_where (invite_at invite.id) (redeem_invite now) w.invites)
  unfolding register
  registration w later i token_hash body now user h =
      elim (Option-cases (find_valid_invite_by_token w token_hash now)) [
        | inl n ↦ ground (arith, n, h)
        | inr (invite, n) ↦ (
          invite,
          n,
          ground (arith, h, n),
          ground (arith, h, n),
          ground (arith, h, n),
          ground (arith, h, n),
        )
      ]

  row_of_valid :
      (w : Onboarding) (token_hash : Text) (now : ℕ) (r : Invite)
      → find_valid_invite_by_token w token_hash now ≡ some r
      → (find (invite_hash_is token_hash) w.invites ≡ some r) × (is_accepted r.status ≡ false)
  unfolding find_valid_invite_by_token
  row_of_valid w token_hash now r h =
      elim (Option-cases (find (invite_hash_is token_hash) w.invites)) [
        | inl n ↦ ground (arith, h, n)
        | inr (x, n) ↦ (ground (arith, h, n), ground (arith, h, n))
      ]

  stale_of_Spent :
      (w : Onboarding) (later : Db) (i : ℕ) (token_hash : Text) (body : RegisterRequest) (now : ℕ)
      → Spent w.invites token_hash
      → (register is_alpha is_digit hash_password nfc w later i token_hash body now).0
        ≡ err stale_invite
  unfolding register find_valid_invite_by_token
  stale_of_Spent w later i token_hash body now (r, found, own, spent) = ground (arith, found, spent)

  invites-issue_invite :
      (is_valid_email_format : Text → Bool) (mail_delivers : Bool) (w : Onboarding) (i : ℕ)
      (email token_hash : Text) (admin now : ℕ) (h : Text)
      → Spent w.invites h
      → Spent
          (issue_invite is_valid_email_format mail_delivers w i email token_hash admin
            now).1.invites
          h
  unfolding issue_invite
  invites-issue_invite is_valid_email_format mail_delivers w i email token_hash admin now h s =
      elim (Result-cases
        (issue_invite is_valid_email_format mail_delivers w i email token_hash admin now).0) [
          | inr (e, k) ↦ subst (λ rows. Spent rows h) (ground (arith, k)) s
          | inl (r, k) ↦
              subst (λ rows. Spent rows h) (ground (arith, k))
                (append-Spent w.invites h (new_invite i (strip email) token_hash admin now) s)
        ]

  Step-Spent : (w v : Onboarding) (h : Text) → Step w v → Spent w.invites h → Spent v.invites h
  Step-Spent w v h (issue f mail_delivers i email token_hash admin now) s =
      invites-issue_invite f mail_delivers w i email token_hash admin now h s
  Step-Spent w v h (resend mail_delivers i token_hash now n) s =
      resend-Spent mail_delivers w i token_hash now h n s
  Step-Spent w v h (revoke i) s = revoke-Spent w i h s
  Step-Spent w v h (redeem later i token_hash body now) s =
      elim (Result-cases
        (register is_alpha is_digit hash_password nfc w later i token_hash body now).0) [
          | inr (e, k) ↦
              subst (λ rows. Spent rows h) (sym (failed w later i token_hash body now e k)) s
          | inl (user, k) ↦
              let (invite, n, email, free, users, rows) =
                registration w later i token_hash body now user k in
              let (r, found, own, spent) = s in
              subst (λ rows. Spent rows h) (sym rows)
                (redeem-Spent w.invites h invite.id now r found own (λ _. spent))
        ]
  Step-Spent w v h (elsewhere db) s = s

  Reach-Spent : (w v : Onboarding) (h : Text) → Reach w v → Spent w.invites h → Spent v.invites h
  Reach-Spent w v h here s = s
  Reach-Spent w v h (next {a = a} r st) s = Step-Spent a v h st (Reach-Spent w a h r s)

  -- After a registration with an invite that its token and its id both find, and whatever further
  -- requests, where a resent invite gets a hash that no invite has, every further registration
  -- with that token is refused as stale.
  pub redeemed_once :
      (w : Onboarding) (later : Db) (i : ℕ) (token_hash : Text) (body : RegisterRequest) (now : ℕ)
      (user : User) (invite : Invite)
      → (register is_alpha is_digit hash_password nfc w later i token_hash body now).0 ≡ ok user
      → find (invite_hash_is token_hash) w.invites ≡ some invite
      → find (invite_at invite.id) w.invites ≡ some invite
      → (v : Onboarding)
      → Reach (register is_alpha is_digit hash_password nfc w later i token_hash body now).1 v
      → (db : Db) (j : ℕ) (again : RegisterRequest) (t : ℕ)
      → (register is_alpha is_digit hash_password nfc v db j token_hash again t).0
        ≡ err stale_invite
  redeemed_once w later i token_hash body now user invite h found own v after db j again t =
      let (invite', n, email, free, users, rows) =
        registration w later i token_hash body now user h in
      let (found', fresh) = row_of_valid w token_hash now invite' n in
      let same : invite' ≡ invite = ground (arith, found, found') in
      let spent =
        redeem-Spent w.invites token_hash invite'.id now invite found own
          (λ e. ground (arith, e, ap (λ k. k.id) same, ==_refl invite.id)) in
      stale_of_Spent v db j token_hash again t
        (Reach-Spent _ v token_hash after (subst (λ rows. Spent rows token_hash) (sym rows) spent))
