-- ===== src/Indicators/Window/Ring.antt =====
-- The ring of the window limit as a queue (cmd/fmsgd/indicators.go).
use fmsgd.Prelude.{
  ◌≡◌, refl, sym, ap, ◌∙◌, inl, inr, ℕ, zero, suc, ◌+◌, ◌-◌, ◌%◌, ◌≤◌, ◌<◌, Bool, true, false, List,
  [], ◌∷◌, ◌++◌, append-nil, append_assoc, arith, ltb, if◌then◌else◌, Bool-cases, length,
  length-append, length-set, length-take, length-drop, take, drop, set,
}
use native.Mathlib.Nat.{mod_self}
use fmsgd.Indicators.Window.{WindowRing, time_at, allow_ring}

time_at-drop : (xs : List ℕ) (i : ℕ) → i < length xs → drop i xs ≡ time_at xs i ∷ drop (suc i) xs
unfolding time_at
time_at-drop [] i h = absurd (omega (arith, h))
time_at-drop (x ∷ xs) zero h = refl
time_at-drop (x ∷ xs) (suc i) h = time_at-drop xs i (omega (arith, h))

take-set : (xs : List ℕ) (i v : ℕ) → i < length xs → take (suc i) (set xs i v) ≡ take i xs ++ v ∷ []
take-set [] i v h = absurd (omega (arith, h))
take-set (x ∷ xs) zero v h = refl
take-set (x ∷ xs) (suc i) v h = ap (λ ys. x ∷ ys) (take-set xs i v (omega (arith, h)))

drop-set : (xs : List ℕ) (i v : ℕ) → drop (suc i) (set xs i v) ≡ drop (suc i) xs
drop-set [] i v = refl
drop-set (x ∷ xs) zero v = refl
drop-set (x ∷ xs) (suc i) v = drop-set xs i v

take_all : (n : ℕ) (xs : List ℕ) → length xs ≤ n → take n xs ≡ xs
take_all zero [] h = refl
take_all zero (x ∷ xs) h = absurd (omega (arith, h))
take_all (suc n) [] h = refl
take_all (suc n) (x ∷ xs) h = ap (λ ys. x ∷ ys) (take_all n xs (omega (arith, h)))

drop_all : (n : ℕ) (xs : List ℕ) → length xs ≤ n → drop n xs ≡ []
drop_all zero [] h = refl
drop_all zero (x ∷ xs) h = absurd (omega (arith, h))
drop_all (suc n) [] h = refl
drop_all (suc n) (x ∷ xs) h = drop_all n xs (omega (arith, h))

-- The last events of a ring, the oldest first.
abbrev pub unroll : WindowRing → List ℕ
unroll r = drop r.next r.times ++ take r.next r.times

module _ (n window : ℕ) where
  -- The limit on a queue: the oldest event leaves it for a new one.
  abbrev pub pass : List ℕ → ℕ → List ℕ × Bool
  pass [] now = ([], false)
  pass (t ∷ ts) now = if ltb (now - t) window then (t ∷ ts, false) else (ts ++ now ∷ [], true)

  abbrev pub allow_queue : List ℕ → ℕ → List ℕ × Bool
  allow_queue q now = if ltb (length q) n then (q ++ now ∷ [], true) else pass q now

  -- Until the ring is full it is in order from its start.
  pub record IsRing (r : WindowRing) : Type 0 where
    pub next : r.next < n
    pub size : length r.times ≤ n
    pub in_order : length r.times < n → r.next ≡ 0

  -- The step of a ring is that of its queue.
  pub record IsStep (r : WindowRing) (now : ℕ) : Type 0 where
    pub is_ring : IsRing (allow_ring n window r now).0
    pub queue : unroll (allow_ring n window r now).0 ≡ (allow_queue (unroll r) now).0
    pub answer : (allow_ring n window r now).1 ≡ (allow_queue (unroll r) now).1

  pub length-unroll : (r : WindowRing) → length (unroll r) ≡ length r.times
  length-unroll r = omega (
    arith,
    length-append (drop r.next r.times) (take r.next r.times),
    length-drop r.next r.times,
    length-take r.next r.times,
  )

  -- A ring that has room takes the event at its end.
  room-IsStep : (r : WindowRing) (now : ℕ) → IsRing r → length r.times < n → IsStep r now
  unfolding allow_ring
  room-IsStep r now ring h = record {
    is_ring = rw room (record {
      next = ring.next;
      size = omega (arith, h, length-append r.times (now ∷ []));
      in_order = λ _. ring.in_order h;
    });
    queue =
        rw (room, length-unroll r, room, ring.in_order h)
          (append-nil (r.times ++ now ∷ []) ∙ ap (λ xs. xs ++ now ∷ []) (sym (append-nil r.times)));
    answer = rw (room, length-unroll r, room) refl;
  }
    where
      room : ltb (length r.times) n ≡ true
      room = ground (arith, h)

  -- A full ring whose oldest event is recent is left as it is.
  recent-IsStep :
      (r : WindowRing) (now : ℕ)
      → IsRing r
      → length r.times ≡ n
      → ltb (now - time_at r.times r.next) window ≡ true
      → IsStep r now
  unfolding allow_ring
  recent-IsStep r now ring h recent = record {
    is_ring = rw (full, recent) ring;
    queue = rw (full, recent, length-unroll r, full, oldest, recent) refl;
    answer = rw (full, recent, length-unroll r, full, oldest, recent) refl;
  }
    where
      full : ltb (length r.times) n ≡ false
      full = ground (arith, h)

      oldest :
          unroll r ≡ time_at r.times r.next ∷ (drop (suc r.next) r.times ++ take r.next r.times)
      oldest =
          ap (λ xs. xs ++ take r.next r.times)
            (time_at-drop r.times r.next (omega (arith, h, ring.next)))

  next_within : (i : ℕ) → i + 1 < n → (i + 1) % n ≡ suc i
  next_within i h = grind (arith, h)

  next_wraps : (i : ℕ) → n ≡ i + 1 → (i + 1) % n ≡ 0
  next_wraps i h = rw h (mod_self (i + 1))

  -- The slot behind a replaced event, whether it is the next one or the first.
  behind :
      (xs : List ℕ) (i now : ℕ)
      → length xs ≡ n
      → i < n
      → drop ((i + 1) % n) (set xs i now) ++ take ((i + 1) % n) (set xs i now)
        ≡ (drop (suc i) xs ++ take i xs) ++ now ∷ []
  behind xs i now h lt = elim (Bool-cases (ltb (i + 1) n)) [
    | inl more ↦
        rw
          (
            next_within i (ground (arith, more)),
            drop-set xs i now,
            take-set xs i now (omega (arith, h, lt)),
          )
          (sym (append_assoc (drop (suc i) xs) (take i xs) (now ∷ [])))
    | inr last ↦
        rw
          (
            next_wraps i (ground (arith, lt, last)),
            append-nil (set xs i now),
            drop_all (suc i) xs (ground (arith, h, lt, last)),
          )
          (sym (take_all (suc i) (set xs i now) (ground (arith, length-set xs i now, h, lt, last)))
            ∙ take-set xs i now (omega (arith, h, lt)))
  ]

  -- In a full ring whose oldest event is old enough the new one takes its place.
  replaced-IsStep :
      (r : WindowRing) (now : ℕ)
      → IsRing r
      → length r.times ≡ n
      → ltb (now - time_at r.times r.next) window ≡ false
      → IsStep r now
  unfolding allow_ring
  replaced-IsStep r now ring h old = record {
    is_ring =
        rw (full, old)
          (record {
            next = ground (arith, ring.next);
            size = omega (arith, h, length-set r.times r.next now);
            in_order = λ lt. absurd (omega (arith, h, lt, length-set r.times r.next now));
          });
    queue =
        rw (full, old, length-unroll r, full, oldest, old) (behind r.times r.next now h ring.next);
    answer = rw (full, old, length-unroll r, full, oldest, old) refl;
  }
    where
      full : ltb (length r.times) n ≡ false
      full = ground (arith, h)

      oldest :
          unroll r ≡ time_at r.times r.next ∷ (drop (suc r.next) r.times ++ take r.next r.times)
      oldest =
          ap (λ xs. xs ++ take r.next r.times)
            (time_at-drop r.times r.next (omega (arith, h, ring.next)))

  pub allow_ring-IsStep : (r : WindowRing) (now : ℕ) → IsRing r → IsStep r now
  allow_ring-IsStep r now ring = elim (Bool-cases (ltb (length r.times) n)) [
    | inl more ↦ room-IsStep r now ring (ground (arith, more))
    | inr full ↦ elim (Bool-cases (ltb (now - time_at r.times r.next) window)) [
      | inl recent ↦ recent-IsStep r now ring (ground (arith, full, ring.size)) recent
      | inr old ↦ replaced-IsStep r now ring (ground (arith, full, ring.size)) old
    ]
  ]
