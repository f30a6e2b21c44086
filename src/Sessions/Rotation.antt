-- ===== src/Sessions/Rotation.antt =====
-- What an exchanged refresh token is worth.
use mathlib.Core.Path.{subst}
use chatspace.Prelude.{
  none_at_find, text_eq_refl, ℕ, ◌≡◌, refl, Bool, true, false, none, some, List, [], ◌∷◌, ok, err,
  arith, Option-cases, inl, inr, ◌<◌, ◌↔◌, ap, sym, ◌∙◌, Distinct, find, update_where, Text,
  text_eq, text_eq_sound, Bool-cases, ◌+◌,
}
use chatspace.Sessions.{
  Session, Auth, session_at, token_is, rotate, refresh_session, invalid_refresh_token, days,
  active_user,
}

-- The primary key and `uq_sessions_refresh_hash`.
abbrev pub same_session : Session → Session → Bool
same_session a b = session_at a.id b

abbrev pub same_token : Session → Session → Bool
same_token a b = token_is a.refresh_token_hash b

module _ (old_hash new_hash : Text) (ttl_days now : ℕ) where
  find_old-none :
      (apart : text_eq new_hash old_hash ≡ false) (s : ℕ) (xs : List Session)
      → find (token_is old_hash) xs ≡ none
      → find (token_is old_hash) (update_where (session_at s) (rotate new_hash ttl_days now) xs)
        ≡ none
  unfolding find update_where
  find_old-none apart s [] h = refl
  find_old-none apart s (x ∷ xs) h = ground (arith, apart, find_old-none apart s xs)

  find_old :
      (apart : text_eq new_hash old_hash ≡ false) (xs : List Session) (r : Session)
      → find (token_is old_hash) xs ≡ some r
      → Distinct same_token xs
      → find (token_is old_hash) (update_where (session_at r.id) (rotate new_hash ttl_days now) xs)
        ≡ none
  unfolding find update_where
  find_old apart [] r h d = ground arith
  find_old apart (x ∷ xs) r h (dx, ds) = elim (Bool-cases (token_is old_hash x)) [
    | inl e ↦
        let same = text_eq_sound x.refresh_token_hash old_hash e in
        let none_left : find (token_is old_hash) xs ≡ none =
          subst (λ t. find (token_is t) xs ≡ none) same dx in
        ground (arith, e, h, apart, find_old-none apart r.id xs none_left)
    | inr e ↦ ground (arith, e, h, apart, find_old apart xs r (ground (arith, e, h)) ds)
  ]

  find_new :
      (xs : List Session) (r : Session)
      → find (token_is old_hash) xs ≡ some r
      → find (token_is new_hash) xs ≡ none
      → Distinct same_session xs
      → find (token_is new_hash) (update_where (session_at r.id) (rotate new_hash ttl_days now) xs)
        ≡ some (rotate new_hash ttl_days now r)
  unfolding find update_where
  find_new [] r h n d = ground arith
  find_new (x ∷ xs) r h n (dx, ds) = elim (Bool-cases (token_is old_hash x)) [
    | inl e ↦ ground (arith, e, h, text_eq_refl new_hash)
    | inr e ↦
        let found : find (token_is old_hash) xs ≡ some r = ground (arith, e, h) in
        let missing : find (token_is new_hash) xs ≡ none = ground (arith, n) in
        let apart = none_at_find (token_is old_hash) (session_at x.id) xs r found dx in
        ground (arith, n, apart, find_new xs r found missing ds)
  ]

-- A refresh that succeeds is one of a live session's current token, for an active user.
pub refresh_iff :
    (w : Auth) (old_hash new_hash : Text) (ttl_days now : ℕ) (r : Session)
    → find (token_is old_hash) w.sessions ≡ some r
    → ((refresh_session w old_hash new_hash ttl_days now).0 ≡ ok (rotate new_hash ttl_days now r))
      ↔ ((r.revoked_at ≡ none) × (now < r.expires_at) × (active_user w r.user_id ≡ true))
unfolding refresh_session
refresh_iff w old_hash new_hash ttl_days now r h = ground (arith, h)

found_of_refresh :
    (w : Auth) (old_hash new_hash : Text) (ttl_days now : ℕ) (r' : Session)
    → (refresh_session w old_hash new_hash ttl_days now).0 ≡ ok r'
    → (r : Session) × (find (token_is old_hash) w.sessions ≡ some r)
      × (r' ≡ rotate new_hash ttl_days now r)
      × ((refresh_session w old_hash new_hash ttl_days now).1.sessions
          ≡ update_where (session_at r.id) (rotate new_hash ttl_days now) w.sessions)
unfolding refresh_session
found_of_refresh w old_hash new_hash ttl_days now r' h =
    elim (Option-cases (find (token_is old_hash) w.sessions)) [
      | inl n ↦ ground (arith, n)
      | inr (r, n) ↦ (r, n, ground (arith, n), ground (arith, n))
    ]

refused_unknown :
    (w : Auth) (old_hash new_hash : Text) (ttl_days now : ℕ)
    → find (token_is old_hash) w.sessions ≡ none
    → refresh_session w old_hash new_hash ttl_days now ≡ (err invalid_refresh_token, w)
unfolding refresh_session
refused_unknown w old_hash new_hash ttl_days now h = ground (arith, h)

-- A hash that no row has is not that of a row.
apart_of_fresh :
    (xs : List Session) (old_hash new_hash : Text) (r : Session)
    → find (token_is old_hash) xs ≡ some r
    → find (token_is new_hash) xs ≡ none
    → text_eq new_hash old_hash ≡ false
apart_of_fresh xs old_hash new_hash r h n = elim (Bool-cases (text_eq new_hash old_hash)) [
  | inr e ↦ e
  | inl e ↦
      let missing =
        subst (λ t. find (token_is t) xs ≡ none) (text_eq_sound new_hash old_hash e) n in
      ground (arith, h, missing)
]

-- Where sessions have different ids and different token hashes, and the new hash is that of none,
-- a refresh that succeeds leaves the session under the new hash with the expiry slid forward, and
-- every further refresh with the old token is refused and changes nothing.
pub rotated_once :
    (w : Auth) (old_hash new_hash : Text) (ttl_days now : ℕ) (r' : Session)
    → Distinct same_session w.sessions
    → Distinct same_token w.sessions
    → find (token_is new_hash) w.sessions ≡ none
    → let (answer, v) = refresh_session w old_hash new_hash ttl_days now in
      answer ≡ ok r'
      → (find (token_is new_hash) v.sessions ≡ some r')
        × (r'.expires_at ≡ now + days ttl_days)
        × ((next_hash : Text) (later : ℕ)
            → refresh_session v old_hash next_hash ttl_days later ≡ (err invalid_refresh_token, v))
rotated_once w old_hash new_hash ttl_days now r' ids tokens fresh h =
    let (r, n, same, table) = found_of_refresh w old_hash new_hash ttl_days now r' h in
    let v = (refresh_session w old_hash new_hash ttl_days now).1 in
    let gone =
      find_old old_hash new_hash ttl_days now
        (apart_of_fresh w.sessions old_hash new_hash r n fresh) w.sessions r n tokens in
    let found = find_new old_hash new_hash ttl_days now w.sessions r n fresh ids in
    (
      ap (find (token_is new_hash)) table ∙ found ∙ ap some (sym same),
      ap (λ k. k.expires_at) same,
      λ next_hash later.
          refused_unknown v old_hash next_hash ttl_days later
            (ap (find (token_is old_hash)) table ∙ gone),
    )
