-- ===== src/Indicators/Window/Keys.antt =====
-- The window limit on the events of many keys (cmd/fmsgd/indicators.go).
use fmsgd.Prelude.{
  ◌≡◌, refl, sym, ap, ◌∙◌, inl, inr, ℕ, ◌+◌, ◌≤◌, ◌<◌, true, false, List, [], ◌∷◌, some, ◌&&◌,
  Bool-cases, length, Bytes, bytes_eq, bytes_eq_iff,
}
use mathlib.Core.Path.{subst}
use fmsgd.Indicators.Window.{WindowRing, time_at, Rings, ring_of, put_ring, ring_or_new, allow}
use fmsgd.Indicators.Window.Spread.{keep, let_through, IsSpread, let_through-IsSpread}

same_key : (key : Bytes) → bytes_eq key key ≡ true
same_key key = (bytes_eq_iff key key).1 refl

module _ (n window : ℕ) where
  -- The times that the limiter lets through for one key, of the events of all keys.
  unfoldable pub allowed : Bytes → List (Bytes × ℕ) → Rings n window → List ℕ
  allowed key [] m = []
  allowed key ((k, t) ∷ es) m =
      let (next, ok) = allow n window k t m in keep (bytes_eq k key && ok) t (allowed key es next)

  unfoldable events_of : Bytes → List (Bytes × ℕ) → List ℕ
  events_of key [] = []
  events_of key ((k, t) ∷ es) = keep (bytes_eq k key) t (events_of key es)

  ring_of-put_ring :
      (key : Bytes) (r : WindowRing) (m : Rings n window)
      → ring_of n window key (put_ring n window key r m) ≡ some r
  unfolding ring_of put_ring
  ring_of-put_ring key r [] = rw (same_key key) refl
  ring_of-put_ring key r ((k, old) ∷ m) = elim (Bool-cases (bytes_eq k key)) [
    | inl t ↦ rw (t, t) refl
    | inr f ↦ rw (f, f) (ring_of-put_ring key r m)
  ]

  ring_of-other :
      (key k : Bytes) (r : WindowRing) (m : Rings n window)
      → bytes_eq k key ≡ false
      → ring_of n window key (put_ring n window k r m) ≡ ring_of n window key m
  unfolding ring_of put_ring
  ring_of-other key k r [] ne = rw ne refl
  ring_of-other key k r ((j, old) ∷ m) ne = elim (Bool-cases (bytes_eq j k)) [
    | inl t ↦ rw (t, ap (λ x. bytes_eq x key) ((bytes_eq_iff j k).0 t) ∙ ne) refl
    | inr f ↦ elim (Bool-cases (bytes_eq j key)) [
      | inl u ↦ rw (f, u) refl
      | inr v ↦ rw (f, v) (ring_of-other key k r m ne)
    ]
  ]

  -- The limiter on one key is the ring on the events of that key.
  allowed-let_through :
      (key : Bytes) (es : List (Bytes × ℕ)) (m : Rings n window)
      → allowed key es m
        ≡ let_through n window (events_of key es) (ring_or_new n window (ring_of n window key m))
  unfolding allowed events_of let_through allow ring_or_new
  allowed-let_through key [] m = refl
  allowed-let_through key ((k, t) ∷ es) m = elim (Bool-cases (bytes_eq k key)) [
    | inl same ↦
        rw (same, ap (λ x. ring_of n window x m) (sym ((bytes_eq_iff k key).0 same)))
          (ap (keep (allow n window k t m).1 t) (
            allowed-let_through key es (allow n window k t m).0
            ∙ ap (λ o. let_through n window (events_of key es) (ring_or_new n window o))
                (ap (λ x. ring_of n window x (allow n window k t m).0)
                    (sym ((bytes_eq_iff k key).0 same))
                  ∙ ring_of-put_ring k _ m)))
    | inr other ↦ rw other (
        allowed-let_through key es (allow n window k t m).0
        ∙ ap (λ o. let_through n window (events_of key es) (ring_or_new n window o))
            (ring_of-other key k _ m other))
  ]

  -- Of the events of one key, among those of others, each that is let through and the n-th let
  -- through behind it are at least the window apart, if n and the window are not 0.
  pub allowed_apart :
      (key : Bytes) (es : List (Bytes × ℕ)) (i : ℕ)
      → 0 < n
      → 0 < window
      → i + n < length (allowed key es [])
      → time_at (allowed key es []) i + window ≤ time_at (allowed key es []) (i + n)
  unfolding ring_of ring_or_new
  allowed_apart key es i positive apart lt =
      subst (IsSpread n window) (sym (allowed-let_through key es []))
        (let_through-IsSpread n window (events_of key es) positive apart) i lt
