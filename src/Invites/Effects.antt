-- ===== src/Invites/Effects.antt =====
-- What a redemption does, and what later requests do to a redeemed invitation.
use mathlib.Core.Path.{subst}
use chatspace.Prelude.{
  ℕ, ◌≡◌, refl, Bool, true, false, none, some, List, [], ◌∷◌, ◌++◌, ◌&&◌, ◌==◌, find, update_where,
  Text, text_eq, text_eq_sound, arith, Option-cases, Bool-cases, inl, inr, find-append_some,
  find-update_where, ==_iff,
}
use chatspace.Invites.{
  Onboarding, Invite, InviteStatus, accepted, is_pending, invite_at, invite_hash_is,
  rotate_invite_token, revoke_invite, redeem_invite, resend_invite, revoke_invite_route,
}

abbrev pub is_accepted : InviteStatus → Bool
is_accepted accepted = true
is_accepted _ = false

-- The invitation under the hash was redeemed, and is found by its key too.
abbrev pub Spent : List Invite → Text → Type 0
Spent rows token_hash =
    (r : Invite) × (find (invite_hash_is token_hash) rows ≡ some r)
    × (find (invite_at r.id) rows ≡ some r)
    × (is_accepted r.status ≡ true)

pub append-Spent :
    (rows : List Invite) (h : Text) (r : Invite) → Spent rows h → Spent (rows ++ (r ∷ [])) h
append-Spent rows h r (s, found, own, spent) = (
  s,
  find-append_some (invite_hash_is h) rows (r ∷ []) s found,
  find-append_some (invite_at s.id) rows (r ∷ []) s own,
  spent,
)

-- A redemption, of this invitation or another one, leaves it redeemed.
pub redeem-Spent :
    (rows : List Invite) (h : Text) (i now : ℕ) (r : Invite)
    → find (invite_hash_is h) rows ≡ some r
    → find (invite_at r.id) rows ≡ some r
    → (invite_at i r ≡ false → is_accepted r.status ≡ true)
    → Spent (update_where (invite_at i) (redeem_invite now) rows) h
redeem-Spent rows h i now r found own spent =
    let by_hash =
      find-update_where (invite_hash_is h) (invite_at i) (redeem_invite now) (λ _. refl) rows in
    let by_id =
      find-update_where (invite_at r.id) (invite_at i) (redeem_invite now) (λ _. refl) rows in
    elim (Bool-cases (invite_at i r)) [
      | inl e ↦ (
        redeem_invite now r,
        ground (arith, by_hash, found, e),
        ground (arith, by_id, own, e),
        refl,
      )
      | inr e ↦ (r, ground (arith, by_hash, found, e), ground (arith, by_id, own, e), spent e)
    ]

find-rotated :
    (h fresh : Text) (i now : ℕ) (rows : List Invite) (r : Invite)
    → find (invite_hash_is h) rows ≡ some r
    → text_eq fresh h ≡ false
    → (r.id == i) ≡ false
    → find (invite_hash_is h) (update_where (invite_at i) (rotate_invite_token fresh now) rows)
      ≡ some r
unfolding find update_where
find-rotated h fresh i now [] r n a d = ground (arith, n)
find-rotated h fresh i now (x ∷ xs) r n a d =
    ground (arith, n, a, d, find-rotated h fresh i now xs r)

apart_of_fresh :
    (rows : List Invite) (h fresh : Text) (r : Invite)
    → find (invite_hash_is h) rows ≡ some r
    → find (invite_hash_is fresh) rows ≡ none
    → text_eq fresh h ≡ false
apart_of_fresh rows h fresh r found n = elim (Bool-cases (text_eq fresh h)) [
  | inr e ↦ e
  | inl e ↦
      let missing = subst (λ t. find (invite_hash_is t) rows ≡ none) (text_eq_sound fresh h e) n in
      ground (arith, found, missing)
]

-- An invitation that is not redeemed is another one.
apart_of_spent :
    (rows : List Invite) (i : ℕ) (r other : Invite)
    → find (invite_at r.id) rows ≡ some r
    → is_accepted r.status ≡ true
    → find (invite_at i) rows ≡ some other
    → is_accepted other.status ≡ false
    → (r.id == i) ≡ false
apart_of_spent rows i r other own spent n unspent = elim (Bool-cases (r.id == i)) [
  | inr e ↦ e
  | inl e ↦
      let same = subst (λ j. find (invite_at j) rows ≡ some r) ((==_iff r.id i).0 e) own in
      ground (arith, same, spent, n, unspent)
]

pub resend-Spent :
    (mail_delivers : Bool) (w : Onboarding) (i : ℕ) (fresh : Text) (now : ℕ) (h : Text)
    → find (invite_hash_is fresh) w.invites ≡ none
    → Spent w.invites h
    → Spent (resend_invite mail_delivers w i fresh now).1.invites h
unfolding resend_invite
resend-Spent mail_delivers w i fresh now h n (r, found, own, spent) =
    elim (Option-cases (find (invite_at i) w.invites)) [
      | inl m ↦ (r, ground (arith, m, found), ground (arith, m, own), spent)
      | inr (other, m) ↦ elim (Bool-cases (is_pending other.status && mail_delivers)) [
        | inr k ↦ (r, ground (arith, m, k, found), ground (arith, m, k, own), spent)
        | inl k ↦
            let apart = apart_of_spent w.invites i r other own spent m (ground (arith, k)) in
            let by_hash =
              find-rotated h fresh i now w.invites r found
                (apart_of_fresh w.invites h fresh r found n) apart in
            let by_id =
              find-update_where (invite_at r.id) (invite_at i) (rotate_invite_token fresh now)
                (λ _. refl) w.invites in
            (r, ground (arith, m, k, by_hash), ground (arith, m, k, by_id, own, apart), spent)
      ]
    ]

pub revoke-Spent :
    (w : Onboarding) (i : ℕ) (h : Text)
    → Spent w.invites h
    → Spent (revoke_invite_route w i).1.invites h
unfolding revoke_invite_route
revoke-Spent w i h (r, found, own, spent) = elim (Option-cases (find (invite_at i) w.invites)) [
  | inl m ↦ (r, ground (arith, m, found), ground (arith, m, own), spent)
  | inr (other, m) ↦ elim (Bool-cases (is_accepted other.status)) [
    | inl k ↦ (r, ground (arith, m, k, found), ground (arith, m, k, own), spent)
    | inr k ↦
        let apart = apart_of_spent w.invites i r other own spent m k in
        let by_hash =
          find-update_where (invite_hash_is h) (invite_at i) revoke_invite (λ _. refl) w.invites in
        let by_id =
          find-update_where (invite_at r.id) (invite_at i) revoke_invite (λ _. refl) w.invites in
        (
          r,
          ground (arith, m, k, by_hash, found, apart),
          ground (arith, m, k, by_id, own, apart),
          spent,
        )
  ]
]
