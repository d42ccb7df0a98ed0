-- ===== src/Indicators/Pending/Spacing.antt =====
-- The interval between the datagrams of one participant on one subject (cmd/fmsgd/indicators.go).
use fmsgd.Prelude.{
  ◌≡◌, refl, sym, ap, ◌⊎◌, inl, inr, ℕ, ◌+◌, ◌≤◌, false, List, [], ◌∷◌, Option, none, some, arith,
  if◌then◌else◌, Bool-cases, Bytes,
}
use mathlib.Core.Option
use mathlib.Core.Path.{subst}
use fmsgd.Indicators.Datagram.{IndicatorDatagram, is_clear}
use fmsgd.Indicators.Pending.{
  Outbound, IndicatorPending, indicator_min_interval, is_recent, or_fresh, offer_entry, flush_held,
  flush_entry,
}

-- What happens to the entry of one key, in order: an offer, or a run of the flusher.
pub data Happening : Type 0 where
  offered : ℕ → IndicatorDatagram → List Bytes → Happening
  flushed : ℕ → Happening

abbrev pub time_of : Happening → ℕ
time_of (offered now d domains) = now
time_of (flushed now) = now

-- The flusher on a key that may have no entry.
unfoldable pub flush_at : ℕ → Option IndicatorPending → Option IndicatorPending × Option Outbound
flush_at now none = (none, none)
flush_at now (some p) = flush_entry now p

unfoldable pub happen :
    Happening → Option IndicatorPending → Option IndicatorPending × Option Outbound
happen (offered now d domains) o =
    let (p, sent) = offer_entry now d domains (or_fresh o) in (some p, sent)
happen (flushed now) o = flush_at now o

-- The time of a datagram that is sent and does not clear.
unfoldable pub spaced_time : ℕ → Option Outbound → List ℕ → List ℕ
spaced_time now none ts = ts
spaced_time now (some (d, domains)) ts = if is_clear d then ts else now ∷ ts

unfoldable pub times_sent : List Happening → Option IndicatorPending → List ℕ
times_sent [] o = []
times_sent (h ∷ hs) o =
    let (next, sent) = happen h o in spaced_time (time_of h) sent (times_sent hs next)

-- The clock does not go back.
abbrev pub IsOrdered : ℕ → List Happening → Type 0
IsOrdered from [] = Unit
IsOrdered from (h ∷ hs) = (from ≤ time_of h) × IsOrdered (time_of h) hs

-- The interval has passed since the last time, when there is one.
abbrev IsDue : Option ℕ → ℕ → Type 0
IsDue none now = Unit
IsDue (some last) now = last + indicator_min_interval ≤ now

-- Each time is at least the interval behind the one before.
abbrev pub IsSpacedFrom : Option ℕ → List ℕ → Type 0
IsSpacedFrom last [] = Unit
IsSpacedFrom none (t ∷ ts) = IsSpacedFrom (some t) ts
IsSpacedFrom (some l) (t ∷ ts) = (l + indicator_min_interval ≤ t) × IsSpacedFrom (some t) ts

due-IsSpacedFrom :
    (last : Option ℕ) (now : ℕ) (ts : List ℕ)
    → IsDue last now
    → IsSpacedFrom (some now) ts
    → IsSpacedFrom last (now ∷ ts)
due-IsSpacedFrom none now ts d s = s
due-IsSpacedFrom (some l) now ts d s = (d, s)

-- The entry knows the last time, or the interval has passed since; a change that is held does not
-- clear.
abbrev Knows : Option ℕ → ℕ → Option IndicatorPending → Type 0
Knows last from none = (now : ℕ) → from ≤ now → IsDue last now
Knows last from (some p) =
    ((p.last_sent ≡ last) ⊎ ((now : ℕ) → from ≤ now → IsDue last now))
    × ((o : Outbound) → p.latest ≡ some o → is_clear o.0 ≡ false)

is_recent-IsDue : (now : ℕ) (last : Option ℕ) → is_recent now last ≡ false → IsDue last now
unfolding is_recent
is_recent-IsDue now none e = tt
is_recent-IsDue now (some l) e = ground arith

last_sent-IsDue :
    (now from : ℕ) (sent last : Option ℕ)
    → from ≤ now
    → is_recent now sent ≡ false
    → (sent ≡ last) ⊎ ((t : ℕ) → from ≤ t → IsDue last t)
    → IsDue last now
last_sent-IsDue now from sent last le e (inl k) =
    subst (λ l. IsDue l now) k (is_recent-IsDue now sent e)
last_sent-IsDue now from sent last le e (inr k) = k now le

or_fresh-Knows :
    (last : Option ℕ) (from : ℕ) (o : Option IndicatorPending)
    → Knows last from o
    → Knows last from (some (or_fresh o))
unfolding or_fresh
or_fresh-Knows last from none k = (inr k, λ o e. absurd (Option.none-ne-some _ e))
or_fresh-Knows last from (some p) k = k

-- Later, what was known is known.
later-Knows :
    (last : Option ℕ) (from now : ℕ) (o : Option IndicatorPending)
    → from ≤ now
    → Knows last from o
    → Knows last now o
later-Knows last from now none le k = λ t h. k t (omega arith)
later-Knows last from now (some p) le (inl e, held) = (inl e, held)
later-Knows last from now (some p) le (inr k, held) = (inr (λ t h. k t (omega arith)), held)

abbrev Later : List Happening → Type 0
Later hs =
    (o : Option IndicatorPending) (last : Option ℕ) (from : ℕ)
    → Knows last from o
    → IsOrdered from hs
    → IsSpacedFrom last (times_sent hs o)

-- An offer to an entry, and what follows it.
offered-IsSpacedFrom :
    (now : ℕ) (d : IndicatorDatagram) (domains : List Bytes) (p : IndicatorPending)
    (last : Option ℕ) (hs : List Happening)
    → Knows last now (some p)
    → IsOrdered now hs
    → Later hs
    → IsSpacedFrom last (
        spaced_time now
          (offer_entry now d domains p).1
          (times_sent hs (some (offer_entry now d domains p).0)))
unfolding offer_entry spaced_time
offered-IsSpacedFrom now d domains p last hs (k, held) ordered ih = elim (Bool-cases (is_clear d)) [
  | inl c ↦
      rw (c, c)
        (ih (some (record p { latest = none })) last now
          (k, λ o e. absurd (Option.none-ne-some _ e)) ordered)
  | inr c ↦ elim (Bool-cases (is_recent now p.last_sent)) [
    | inl r ↦
        rw (c, r)
          (ih (some (record p { latest = some (d, domains) })) last now
            (k, λ o e. rw (ap (λ x. x.0) (sym (Option.some-injective _ _ e))) c) ordered)
    | inr r ↦
        rw (c, r, c)
          (due-IsSpacedFrom last now _ (last_sent-IsDue now now p.last_sent last (omega arith) r k)
            (ih (some (record { last_sent = some now; latest = none })) (some now) now
              (inl refl, λ o e. absurd (Option.none-ne-some _ e)) ordered))
  ]
]

-- A run of the flusher on an entry, and what follows it.
flush_held-IsSpacedFrom :
    (now : ℕ) (p : IndicatorPending) (held : Option Outbound) (last : Option ℕ)
    (hs : List Happening)
    → p.latest ≡ held
    → Knows last now (some p)
    → IsOrdered now hs
    → Later hs
    → IsSpacedFrom last
        (spaced_time now (flush_held now p held).1 (times_sent hs (flush_held now p held).0))
unfolding flush_held spaced_time
flush_held-IsSpacedFrom now p none last hs z (k, held) ordered ih =
    elim (Bool-cases (is_recent now p.last_sent)) [
      | inl r ↦ rw r (ih (some p) last now (k, held) ordered)
      | inr r ↦ rw r (
          ih none last now
            (λ t h. due_later t h (last_sent-IsDue now now p.last_sent last (omega arith) r k))
            ordered)
    ]
  where
    due_later : (t : ℕ) → now ≤ t → IsDue last now → IsDue last t
    due_later t h d = still last d
      where
        still : (l : Option ℕ) → IsDue l now → IsDue l t
        still none d = tt
        still (some l) d = omega arith
flush_held-IsSpacedFrom now p (some (d, domains)) last hs z (k, held) ordered ih =
    elim (Bool-cases (is_recent now p.last_sent)) [
      | inl r ↦ rw r (ih (some p) last now (k, held) ordered)
      | inr r ↦
          rw (r, held (d, domains) z)
            (due-IsSpacedFrom last now _
              (last_sent-IsDue now now p.last_sent last (omega arith) r k)
              (ih (some (record { last_sent = some now; latest = none })) (some now) now
                (inl refl, λ o e. absurd (Option.none-ne-some _ e)) ordered))
    ]

times_sent-Later : (hs : List Happening) → Later hs
unfolding times_sent happen flush_at flush_entry spaced_time
times_sent-Later [] o last from k ordered = tt
times_sent-Later (offered now d domains ∷ hs) o last from k (le, ordered) =
    offered-IsSpacedFrom now d domains (or_fresh o) last hs
      (or_fresh-Knows last now o (later-Knows last from now o le k)) ordered (times_sent-Later hs)
times_sent-Later (flushed now ∷ hs) none last from k (le, ordered) =
    times_sent-Later hs none last now (later-Knows last from now none le k) ordered
times_sent-Later (flushed now ∷ hs) (some p) last from k (le, ordered) =
    flush_held-IsSpacedFrom now p p.latest last hs refl (later-Knows last from now (some p) le k)
      ordered (times_sent-Later hs)

-- Whatever is offered for a participant on a subject, and whenever the flusher runs, the datagrams
-- that are sent and do not clear are at least the interval apart, while the clock does not go back.
pub times_sent-IsSpacedFrom :
    (from : ℕ) (hs : List Happening) → IsOrdered from hs → IsSpacedFrom none (times_sent hs none)
times_sent-IsSpacedFrom from hs ordered = times_sent-Later hs none none from (λ now h. tt) ordered
