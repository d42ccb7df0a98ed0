-- ===== src/Indicators/Window/Forgotten.antt =====
-- Forgetting a ring (cmd/fmsgd/indicators.go).
use fmsgd.Prelude.{
  ◌≡◌, refl, sym, ap, ◌∙◌, inl, inr, ℕ, ◌+◌, ◌-◌, ◌%◌, ◌≤◌, ◌<◌, Bool, true, false, [], ◌∷◌, Option,
  none, arith, ltb, Bool-cases, length, Bytes, bytes_eq, bytes_eq_iff,
}
use fmsgd.Indicators.Window.{
  WindowRing, time_at, allow_ring, is_stale, Rings, ring_of, ring_or_new, allow, prune,
}

-- The oldest time of a ring is at most the latest.
abbrev pub IsOrdered : WindowRing → Type 0
IsOrdered r =
    time_at r.times r.next ≤ time_at r.times ((r.next + length r.times - 1) % length r.times)

module _ (n window : ℕ) where
  stale-allow_ring :
      (r : WindowRing) (now later : ℕ)
      → 0 < window
      → IsOrdered r
      → is_stale n window r now ≡ true
      → now ≤ later
      → (allow_ring n window r later).1 ≡ true
  unfolding is_stale allow_ring
  stale-allow_ring r now later apart ordered stale h = elim (Bool-cases (ltb (length r.times) n)) [
    | inl more ↦ rw more refl
    | inr full ↦ rw (full, old) refl
  ]
    where
      old : ltb (later - time_at r.times r.next) window ≡ false
      old = ground (arith, stale, ordered, apart, h)

  -- No key has two rings.
  abbrev pub IsDistinct : Rings n window → Type 0
  IsDistinct [] = Unit
  IsDistinct ((k, r) ∷ m) = (ring_of n window k m ≡ none) × IsDistinct m

  -- Each ring is in order.
  abbrev pub AllOrdered : Rings n window → Type 0
  AllOrdered [] = Unit
  AllOrdered ((k, r) ∷ m) = IsOrdered r × AllOrdered m

  prune-none :
      (key : Bytes) (now : ℕ) (m : Rings n window)
      → ring_of n window key m ≡ none
      → ring_of n window key (prune n window now m) ≡ none
  unfolding ring_of prune
  prune-none key now [] e = refl
  prune-none key now ((k, r) ∷ m) e = elim (Bool-cases (bytes_eq k key)) [
    | inl t ↦ absurd (ground (arith, e, t))
    | inr f ↦ elim (Bool-cases (is_stale n window r now)) [
      | inl s ↦ rw s (prune-none key now m (rw f at e))
      | inr s ↦ rw (s, f) (prune-none key now m (rw f at e))
    ]
  ]

  -- The answer to an event from the ring of its key.
  abbrev answer : ℕ → Option WindowRing → Bool
  answer later o = (allow_ring n window (ring_or_new n window o) later).1

  new_ring : (later : ℕ) → 0 < n → answer later none ≡ true
  unfolding allow_ring ring_or_new
  new_ring later positive = rw (answer, more) refl
    where
      more : ltb 0 n ≡ true
      more = ground (arith, positive)

  -- That rings are forgotten changes no answer to a next event, at that time or later, where no key
  -- has two rings, the oldest time of each ring is at most its latest, and n and the window are not
  -- 0.
  pub allow-prune :
      (key : Bytes) (now later : ℕ) (m : Rings n window)
      → 0 < n
      → 0 < window
      → now ≤ later
      → IsDistinct m
      → AllOrdered m
      → (allow n window key later (prune n window now m)).1 ≡ (allow n window key later m).1
  unfolding ring_of prune allow ring_or_new
  allow-prune key now later [] positive apart h distinct ordered = refl
  allow-prune key now later ((k, r) ∷ m) positive apart h (fresh, distinct) (o, ordered) =
      elim (Bool-cases (is_stale n window r now)) [
        | inl s ↦ elim (Bool-cases (bytes_eq k key)) [
          | inl t ↦
              rw (s, t)
                (ap (answer later) (
                    prune-none key now m
                      (ap (λ x. ring_of n window x m) (sym ((bytes_eq_iff k key).0 t)) ∙ fresh))
                  ∙ new_ring later positive
                  ∙ sym (stale-allow_ring r now later apart o s h))
          | inr f ↦ rw (s, f) (allow-prune key now later m positive apart h distinct ordered)
        ]
        | inr s ↦ elim (Bool-cases (bytes_eq k key)) [
          | inl t ↦ rw (s, t) refl
          | inr f ↦ rw (s, f) (allow-prune key now later m positive apart h distinct ordered)
        ]
      ]
