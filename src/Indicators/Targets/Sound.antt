-- ===== src/Indicators/Targets/Sound.antt =====
-- The targets that `selectIndicatorTargets` (cmd/fmsgd/indicators.go) gives.
use fmsgd.Prelude.{
  ℕ, ◌≡◌, refl, ◌∙◌, ap, Bool, true, ◌||◌, not, ltb, ◌==◌, Bool-cases, Option-cases, inl, inr,
  arith, List, [], ◌∷◌, Option, none, some, length, Bytes, All, All-append,
}
use fmsgd.Text.{Unicode}
use fmsgd.Wire.{Address}
use fmsgd.Indicators.Targets.{
  IndicatorSubject, participant_index, has_domain, choose, target_of, targets_at, subjects,
  select_indicator_targets, IsTarget,
}
use mathlib.Core.List.{Mem, mem-cons_self, mem-cons_of_mem}

module _ (u : Unicode) (from : Address) where
  abbrev Chosen : Bytes → List IndicatorSubject → IndicatorSubject → ℕ → Type 0
  Chosen d ss s i = (has_domain u s d ≡ true) × (participant_index u s from ≡ some i) × Mem s ss

  later :
      (d : Bytes) (x : IndicatorSubject) (ss : List IndicatorSubject) (s : IndicatorSubject) (i : ℕ)
      → Chosen d ss s i
      → Chosen d (x ∷ ss) s i
  later d x ss s i (held, indexed, listed) = (held, indexed, mem-cons_of_mem x listed)

  now :
      (d : Bytes) (x s : IndicatorSubject) (ss : List IndicatorSubject) (i j : ℕ)
      → has_domain u x d ≡ true
      → participant_index u x from ≡ some j
      → ◌≡◌ {A = Option (IndicatorSubject × ℕ)} (some (x, j)) (some (s, i))
      → Chosen d (x ∷ ss) s i
  now d x s ss i j held indexed e =
      let same : ◌≡◌ {A = IndicatorSubject × ℕ} (x, j) (s, i) = cc in
      let e1 : x ≡ s = ap (λ p. p.0) same in
      let e2 : j ≡ i = ap (λ p. p.1) same in
      (rw (← e1) held, rw (← e1) (indexed ∙ ap some e2), rw (← e1) mem-cons_self)

  choose_sound :
      (d : Bytes) (ss : List IndicatorSubject) (s : IndicatorSubject) (i : ℕ)
      → choose u from d ss ≡ some (s, i)
      → Chosen d ss s i
  unfolding choose
  choose_sound d [] s i e = cc
  choose_sound d (x ∷ ss) s i e = elim (Bool-cases (has_domain u x d)) [
    | inr f ↦ later d x ss s i (choose_sound d ss s i (rw f at e))
    | inl f ↦ elim (Option-cases (participant_index u x from)) [
      | inl g ↦ later d x ss s i (choose_sound d ss s i (rw (f, g) at e))
      | inr (j, g) ↦
          let p : ◌≡◌ {A = Option (IndicatorSubject × ℕ)} (some (x, j)) (some (s, i)) =
            rw (f, g) at e in
          now d x s ss i j f g p
    ]
  ]

  target_of_sound :
      (d : Bytes) (ss : List IndicatorSubject) (o : Option (IndicatorSubject × ℕ))
      → choose u from d ss ≡ o
      → All (IsTarget u from ss) (target_of u from d o)
  unfolding target_of
  target_of_sound d ss none e = tt
  target_of_sound d ss (some (s, i)) e =
      let (held, indexed, listed) = choose_sound d ss s i e in
      elim (Bool-cases (not (length s.hash == 32) || ltb 65535 i)) [
        | inl f ↦ rw f tt
        | inr f ↦ rw f (
          record {
            subject = s;
            held = held;
            indexed = indexed;
            hash = refl;
            sized = ground arith;
            small = ground arith;
            listed = listed;
          },
          tt,
        )
      ]

  targets_at_sound :
      (ss : List IndicatorSubject) (ds : List Bytes)
      → All (IsTarget u from ss) (targets_at u from ss ds)
  unfolding targets_at
  targets_at_sound ss [] = tt
  targets_at_sound ss (d ∷ ds) =
      All-append (IsTarget u from ss) (target_of u from d (choose u from d ss))
        (targets_at u from ss ds) (target_of_sound d ss (choose u from d ss) refl)
        (targets_at_sound ss ds)

  -- Every target names one of the subjects, by its hash of 32 bytes; the receiving domain has a
  -- participant in it, and the index, a uint16, is the sender's participant index in it.
  pub select_indicator_targets_sound :
      (is_local : Bytes → Bool) (original : Option IndicatorSubject)
      (batches : List IndicatorSubject)
      → All
          (IsTarget u from (subjects u from original batches))
          (select_indicator_targets u from is_local original batches)
  unfolding select_indicator_targets
  select_indicator_targets_sound is_local original batches = targets_at_sound _ _
