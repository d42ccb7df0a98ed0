-- ===== src/Indicators/Window/Spread.antt =====
-- What the window limit promises of the events of one key (cmd/fmsgd/indicators.go).
use fmsgd.Prelude.{
  ◌≡◌, refl, sym, ap, ◌∙◌, inl, inr, ℕ, zero, suc, ◌+◌, ◌-◌, ◌≤◌, ◌<◌, Bool, true, List, [], ◌∷◌,
  ◌++◌, append-nil, append_assoc, arith, ltb, if◌then◌else◌, Bool-cases, length, length-append,
}
use mathlib.Core.Path.{subst}
use fmsgd.Indicators.Window.{WindowRing, empty_ring, time_at, allow_ring}
use fmsgd.Indicators.Window.Ring.{unroll, allow_queue, IsRing, IsStep, allow_ring-IsStep}

time_at-append : (xs ys : List ℕ) (t : ℕ) → time_at (xs ++ t ∷ ys) (length xs) ≡ t
unfolding time_at
time_at-append [] ys t = refl
time_at-append (x ∷ xs) ys t = time_at-append xs ys t

-- Whether an event is kept in a list of those let through.
abbrev pub keep : Bool → ℕ → List ℕ → List ℕ
keep ok t ts = if ok then t ∷ ts else ts

suc-add : (i n : ℕ) → suc (i + n) ≡ suc i + n
suc-add i n = omega arith

module _ (n window : ℕ) where
  -- The times that a ring lets through, of a sequence of events.
  unfoldable pub let_through : List ℕ → WindowRing → List ℕ
  let_through [] r = []
  let_through (t ∷ ts) r =
      let (next, ok) = allow_ring n window r t in keep ok t (let_through ts next)

  -- The same for a queue.
  unfoldable through_queue : List ℕ → List ℕ → List ℕ
  through_queue [] q = []
  through_queue (t ∷ ts) q =
      let (next, ok) = allow_queue n window q t in keep ok t (through_queue ts next)

  ltb_zero : 0 < n → ltb 0 n ≡ true
  ltb_zero h = ground (arith, h)

  -- Each time and the n-th behind it are at least the window apart.
  abbrev pub IsSpread : List ℕ → Type 0
  IsSpread ts = (i : ℕ) → i + n < length ts → time_at ts i + window ≤ time_at ts (i + n)

  let_through-queue :
      (ts : List ℕ) (r : WindowRing)
      → IsRing n window r
      → let_through ts r ≡ through_queue ts (unroll r)
  unfolding let_through through_queue
  let_through-queue [] r ring = refl
  let_through-queue (t ∷ ts) r ring = rw step.answer (
      ap (keep (allow_queue n window (unroll r) t).1 t) (
        let_through-queue ts (allow_ring n window r t).0 step.is_ring
        ∙ ap (through_queue ts) step.queue))
    where
      step : IsStep n window r t
      step = allow_ring-IsStep n window r t ring

  short-IsSpread : (q : List ℕ) → length q ≤ n → IsSpread q
  short-IsSpread q h i lt = absurd (omega (arith, h, lt))

  -- A queue with the oldest event taken out.
  oldest-IsSpread :
      (o t : ℕ) (q later : List ℕ)
      → suc (length q) ≡ n
      → o + window ≤ t
      → IsSpread ((q ++ t ∷ []) ++ later)
      → IsSpread ((o ∷ q) ++ t ∷ later)
  unfolding time_at
  oldest-IsSpread o t q later h apart spread zero lt =
      subst (λ x. o + window ≤ x)
        (sym (time_at-append (o ∷ q) later t) ∙ ap (time_at ((o ∷ q) ++ t ∷ later)) index) apart
    where
      index : length (o ∷ q) ≡ 0 + n
      index = omega (arith, h)
  oldest-IsSpread o t q later h apart spread (suc i) lt =
      subst (λ k. time_at (q ++ t ∷ later) i + window ≤ time_at (o ∷ (q ++ t ∷ later)) k)
        (suc-add i n) (behind i (omega (arith, lt)))
    where
      behind : IsSpread (q ++ t ∷ later)
      behind = subst IsSpread (append_assoc q (t ∷ []) later) spread

  -- The queue and what it lets through later.
  queue-IsSpread :
      (ts q : List ℕ) → 0 < n → 0 < window → length q ≤ n → IsSpread (q ++ through_queue ts q)
  unfolding through_queue
  queue-IsSpread [] q positive apart h = subst IsSpread (sym (append-nil q)) (short-IsSpread q h)
  queue-IsSpread (t ∷ ts) [] positive apart h =
      rw (ltb_zero positive) (queue-IsSpread ts (t ∷ []) positive apart (omega (arith, positive)))
  queue-IsSpread (t ∷ ts) (o ∷ q) positive apart h = elim (Bool-cases (ltb (suc (length q)) n)) [
    | inl more ↦ rw more (
        subst IsSpread (append_assoc (o ∷ q) (t ∷ []) (through_queue ts ((o ∷ q) ++ t ∷ []))) (
          queue-IsSpread ts ((o ∷ q) ++ t ∷ []) positive apart
            (ground (arith, more, length-append (o ∷ q) (t ∷ [])))))
    | inr full ↦ elim (Bool-cases (ltb (t - o) window)) [
      | inl recent ↦ rw (full, recent) (queue-IsSpread ts (o ∷ q) positive apart h)
      | inr old ↦
          rw (full, old)
            (oldest-IsSpread o t q (through_queue ts (q ++ t ∷ [])) (ground (arith, full, h))
              (ground (arith, old, apart))
              (queue-IsSpread ts (q ++ t ∷ []) positive apart
                (omega (arith, h, length-append q (t ∷ [])))))
    ]
  ]

  -- What a ring lets through is spread.
  pub let_through-IsSpread :
      (ts : List ℕ) → 0 < n → 0 < window → IsSpread (let_through ts empty_ring)
  let_through-IsSpread ts positive apart =
      subst IsSpread
        (sym (
          let_through-queue ts empty_ring
            (record { next = positive; size = omega arith; in_order = λ _. refl })))
        (queue-IsSpread ts [] positive apart (omega arith))
