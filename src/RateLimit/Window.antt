-- ===== src/RateLimit/Window.antt =====
-- The frame counter of a connection is a true sliding window.
use mathlib.Core.List.{append-nil, append_assoc}
use chatspace.Prelude.{
  All-weaken, All-keep_select, All-append_one, select-select, ℕ, ◌+◌, ◌≤◌, ◌≡◌, refl, sym, ap, ◌∙◌,
  Bool, List, [], ◌∷◌, ◌++◌, ltb, leb, length, arith, select, All, Bool-cases, inl, inr,
}
use chatspace.RateLimit.{evict, record_and_check}
use chatspace.RateLimit.Admission.{Ascending, last_of}

-- The frame is not older than the window.
abbrev pub in_window : (window now : ℕ) → ℕ → Bool
in_window window now t = leb now (t + window)

-- The timestamps kept after frames at these times.
unfoldable pub recorded : (max_frames window : ℕ) → List ℕ → List ℕ → List ℕ
recorded max_frames window kept [] = kept
recorded max_frames window kept (now ∷ later) =
    recorded max_frames window (record_and_check max_frames window now kept).1 later

Ascending-weaken : (s t : ℕ) (xs : List ℕ) → s ≤ t → Ascending t xs → Ascending s xs
Ascending-weaken s t [] h a = tt
Ascending-weaken s t (x ∷ xs) h (k, a) = (omega (arith, h, k), a)

Ascending-select : (p : ℕ → Bool) (t : ℕ) (xs : List ℕ) → Ascending t xs → Ascending t (select p xs)
unfolding select
Ascending-select p t [] a = tt
Ascending-select p t (x ∷ xs) (k, a) = elim (Bool-cases (p x)) [
  | inl e ↦ rw e (k, Ascending-select p x xs a)
  | inr e ↦ rw e (Ascending-weaken t x (select p xs) k (Ascending-select p x xs a))
]

Ascending-append_one :
    (t now : ℕ) (xs : List ℕ)
    → Ascending t xs
    → All (λ x. x ≤ now) (t ∷ xs)
    → Ascending t (xs ++ (now ∷ []))
Ascending-append_one t now [] a (h, _) = (h, tt)
Ascending-append_one t now (x ∷ xs) (k, a) (h, hs) = (k, Ascending-append_one x now xs a hs)

-- Where the oldest timestamp is in the window, so are the others.
all_in_window :
    (window now t : ℕ) (xs : List ℕ)
    → now ≤ t + window
    → Ascending t xs
    → select (in_window window now) xs ≡ xs
unfolding select
all_in_window window now t [] h a = refl
all_in_window window now t (x ∷ xs) h (k, a) =
    ground (arith, all_in_window window now x xs (omega (arith, h, k)) a)

evict-select :
    (window now t : ℕ) (xs : List ℕ)
    → Ascending t xs
    → evict window now xs ≡ select (in_window window now) xs
unfolding evict select
evict-select window now t [] a = refl
evict-select window now t (x ∷ xs) (k, a) = elim (Bool-cases (ltb (x + window) now)) [
  | inl old ↦ ground (arith, evict-select window now x xs a)
  | inr new ↦ ground (arith, all_in_window window now x xs (ground arith) a)
]

select-append : (p : ℕ → Bool) (xs ys : List ℕ) → select p (xs ++ ys) ≡ select p xs ++ select p ys
unfolding select
select-append p [] ys = refl
select-append p (x ∷ xs) ys = ground (arith, select-append p xs ys)

-- The timestamps `hs` of all frames up to the time `t`, in order.
abbrev IsHistory : ℕ → List ℕ → Type 0
IsHistory t hs = Ascending 0 hs × All (λ x. x ≤ t) hs

last-ge : (t : ℕ) (xs : List ℕ) → Ascending t xs → t ≤ last_of t xs
last-ge t [] a = omega arith
last-ge t (x ∷ xs) (k, a) = omega (arith, k, last-ge x xs a)

up_to_last : (t : ℕ) (xs : List ℕ) → Ascending t xs → All (λ x. x ≤ last_of t xs) xs
up_to_last t [] a = tt
up_to_last t (x ∷ xs) (k, a) = (last-ge x xs a, up_to_last x xs a)

module _ (max_frames window : ℕ) where
  keep-step :
      (t now : ℕ) (hs : List ℕ)
      → t ≤ now
      → IsHistory t hs
      → record_and_check max_frames window now (select (in_window window t) hs) ≡ (
        ltb max_frames (length (select (in_window window now) (hs ++ (now ∷ [])))),
        select (in_window window now) (hs ++ (now ∷ [])),
      )
  unfolding record_and_check
  keep-step t now hs h (a, b) =
      let kept = select (in_window window t) hs in
      let early = All-weaken (λ x. x ≤ t) (λ x. x ≤ now) (λ x k. omega (arith, k, h)) hs b in
      let ordered =
        Ascending-append_one 0 now kept (Ascending-select (in_window window t) 0 hs a)
          (omega arith, All-keep_select (λ x. x ≤ now) (in_window window t) hs early) in
      let same : evict window now (kept ++ (now ∷ []))
          ≡ select (in_window window now) (hs ++ (now ∷ [])) =
        evict-select window now 0 (kept ++ (now ∷ [])) ordered
        ∙ select-append (in_window window now) kept (now ∷ [])
        ∙ ap (λ xs. xs ++ select (in_window window now) (now ∷ []))
            (select-select (in_window window now) (in_window window t) (λ x k. ground (arith, h))
              hs)
        ∙ sym (select-append (in_window window now) hs (now ∷ [])) in
      ap (λ xs. (ltb max_frames (length xs), xs)) same

  recorded-select :
      (t : ℕ) (hs times : List ℕ)
      → IsHistory t hs
      → Ascending t times
      → recorded max_frames window (select (in_window window t) hs) times
        ≡ select (in_window window (last_of t times)) (hs ++ times)
  unfolding recorded
  recorded-select t hs [] i a = ap (select (in_window window t)) (sym (append-nil hs))
  recorded-select t hs (now ∷ later) (o, b) (h, a) =
      let early = All-weaken (λ x. x ≤ t) (λ x. x ≤ now) (λ x k. omega (arith, k, h)) hs b in
      let next : IsHistory now (hs ++ (now ∷ [])) = (
        Ascending-append_one 0 now hs o (omega arith, early),
        All-append_one (λ x. x ≤ now) now hs (omega arith) early,
      ) in
      ap (λ r. recorded max_frames window r.1 later) (keep-step t now hs h (o, b))
      ∙ recorded-select now (hs ++ (now ∷ [])) later next a
      ∙ ap (select (in_window window (last_of now later))) (append_assoc hs (now ∷ []) later)

  -- After frames at times that do not go back, the next frame is over the limit exactly if more
  -- than the allowed number of frames, itself included, are not older than the window.
  pub frames_in_window :
      (times : List ℕ) (now : ℕ)
      → Ascending 0 times
      → last_of 0 times ≤ now
      → (record_and_check max_frames window now (recorded max_frames window [] times)).0
        ≡ ltb max_frames (length (select (in_window window now) (times ++ (now ∷ []))))
  unfolding select
  frames_in_window times now a h =
      let kept = recorded-select 0 [] times (tt, tt) a in
      ap (λ r. (record_and_check max_frames window now r).0) kept
      ∙ ap (λ r. r.0) (keep-step (last_of 0 times) now times h (a, up_to_last 0 times a))
