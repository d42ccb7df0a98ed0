-- ===== src/Indicators/Window.antt =====
-- The sliding window limit per receiving domain (cmd/fmsgd/indicators.go): `windowLimiter`. Times
-- are nanoseconds; a difference of times below 0 is below the window, as 0 is.
pub mod Ring
pub mod Spread
pub mod Keys
pub mod Forgotten
use fmsgd.Prelude.{
  ℕ, zero, suc, ◌+◌, ◌-◌, ◌%◌, Bool, true, false, List, [], ◌∷◌, ◌++◌, Option, none, some, ltb,
  if◌then◌else◌, length, set, Bytes, bytes_eq,
}

-- `windowRing`: the times of the last events, the oldest at `next` once it is full.
pub record WindowRing : Type 0 where
  pub times : List ℕ
  pub next : ℕ

abbrev pub empty_ring : WindowRing
empty_ring = record { times = []; next = 0 }

-- `times[i]`; a read out of range does not occur below.
unfoldable pub time_at : List ℕ → ℕ → ℕ
time_at [] i = 0
time_at (t ∷ ts) zero = t
time_at (t ∷ ts) (suc i) = time_at ts i

module _ (n window : ℕ) where
  -- `allow` on the ring of its key.
  unfoldable pub allow_ring : WindowRing → ℕ → WindowRing × Bool
  unfolding time_at
  allow_ring r now =
      if ltb (length r.times) n
      then (record r { times = r.times ++ now ∷ [] }, true)
      else if ltb (now - time_at r.times r.next) window
      then (r, false)
      else (record { times = set r.times r.next now; next = (r.next + 1) % n }, true)

  -- `prune` on one ring: whether it is forgotten.
  unfoldable pub is_stale : WindowRing → ℕ → Bool
  unfolding time_at
  is_stale r now =
      if ltb (now - time_at r.times ((r.next + length r.times - 1) % length r.times)) window
      then false
      else true

  -- The limiter's map of rings.
  abbrev pub Rings : Type 0
  Rings = List (Bytes × WindowRing)

  unfoldable pub ring_of : Bytes → Rings → Option WindowRing
  ring_of key [] = none
  ring_of key ((k, r) ∷ rest) = if bytes_eq k key then some r else ring_of key rest

  unfoldable pub put_ring : Bytes → WindowRing → Rings → Rings
  put_ring key r [] = (key, r) ∷ []
  put_ring key r ((k, old) ∷ rest) =
      if bytes_eq k key then (k, r) ∷ rest else (k, old) ∷ put_ring key r rest

  unfoldable pub ring_or_new : Option WindowRing → WindowRing
  ring_or_new none = empty_ring
  ring_or_new (some r) = r

  -- `windowLimiter.allow`.
  unfoldable pub allow : Bytes → ℕ → Rings → Rings × Bool
  unfolding allow_ring ring_of put_ring ring_or_new
  allow key now m =
      let (r, ok) = allow_ring (ring_or_new (ring_of key m)) now in (put_ring key r m, ok)

  -- `windowLimiter.prune`.
  unfoldable pub prune : ℕ → Rings → Rings
  unfolding is_stale
  prune now [] = []
  prune now ((k, r) ∷ rest) =
      let kept = prune now rest in if is_stale r now then kept else (k, r) ∷ kept
