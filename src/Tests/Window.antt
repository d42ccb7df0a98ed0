-- ===== src/Tests/Window.antt =====
-- Two events in ten, for one of two keys, and an old ring.
use fmsgd.Prelude.{◌≡◌, refl, ℕ, ◌+◌, ◌≤◌, arith, List, [], ◌∷◌, bytes_eq, Bytes}
use fmsgd.Text.{codes}
use fmsgd.Indicators.Window.{time_at, ring_of, allow, prune, Rings}
use fmsgd.Indicators.Window.Forgotten.{allow-prune}
use fmsgd.Indicators.Window.Keys.{allowed, allowed_apart}

abbrev events : List (Bytes × ℕ)
events =
    (codes "a.net", 1)
    ∷ (codes "b.net", 1)
    ∷ (codes "a.net", 2)
    ∷ (codes "a.net", 5)
    ∷ (codes "a.net", 12)
    ∷ []

allowed_apart_example :
    time_at (allowed 2 10 (codes "a.net") events []) 0 + 10
    ≤ time_at (allowed 2 10 (codes "a.net") events []) (0 + 2)
unfolding allowed bytes_eq allow
allowed_apart_example =
    allowed_apart 2 10 (codes "a.net") events 0 (omega arith) (omega arith) (omega arith)

abbrev old_rings : Rings 2 10
old_rings = (codes "a.net", record { times = 1 ∷ 2 ∷ []; next = 0 }) ∷ []

allow-prune_example :
    (allow 2 10 (codes "a.net") 21 (prune 2 10 20 old_rings)).1
    ≡ (allow 2 10 (codes "a.net") 21 old_rings).1
unfolding ring_of time_at
allow-prune_example =
    allow-prune 2 10 (codes "a.net") 20 21 old_rings (omega arith) (omega arith) (omega arith)
      (refl, tt) (omega arith, tt)
