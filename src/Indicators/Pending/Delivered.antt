-- ===== src/Indicators/Pending/Delivered.antt =====
-- A change that is held goes out with the flusher (cmd/fmsgd/indicators.go).
use fmsgd.Prelude.{
  ◌≡◌, refl, ap, inl, inr, ℕ, ◌+◌, ◌≤◌, false, List, [], ◌∷◌, Option, none, some, arith, Bool-cases,
  Bytes,
}
use fmsgd.Indicators.Datagram.{IndicatorDatagram, is_clear}
use fmsgd.Indicators.Pending.{
  Outbound, IndicatorPending, indicator_min_interval, is_recent, offer_entry, flush_held,
  flush_entry, and_send,
}
use fmsgd.Indicators.Pending.Spacing.{flush_at}

-- What the flusher sends for a key, at the times of its runs.
unfoldable pub sent_by : List ℕ → Option IndicatorPending → List Outbound
sent_by [] o = []
sent_by (t ∷ ts) o = let (next, out) = flush_at t o in and_send out (sent_by ts next)

-- Some run is at a time or later.
pub data IsReached (from : ℕ) : List ℕ → Type 0 where
  reached : (t : ℕ) (ts : List ℕ) → from ≤ t → IsReached from (t ∷ ts)
  onward : (t : ℕ) (ts : List ℕ) → IsReached from ts → IsReached from (t ∷ ts)

not_recent :
    (last : Option ℕ) (now later : ℕ)
    → ((l : ℕ) → last ≡ some l → l ≤ now)
    → now + indicator_min_interval ≤ later
    → is_recent later last ≡ false
unfolding is_recent
not_recent none now later past h = refl
not_recent (some l) now later past h = ground (arith, past l refl)

none-sent_by : (ts : List ℕ) → sent_by ts none ≡ []
unfolding sent_by flush_at and_send
none-sent_by [] = refl
none-sent_by (t ∷ ts) = none-sent_by ts

-- An entry that holds nothing gives nothing to send.
empty-sent_by :
    (ts : List ℕ) (last : Option ℕ)
    → sent_by ts (some (record { last_sent = last; latest = none })) ≡ []
unfolding sent_by flush_at and_send flush_entry flush_held
empty-sent_by [] last = refl
empty-sent_by (t ∷ ts) last = elim (Bool-cases (is_recent t last)) [
  | inl r ↦ rw r (empty-sent_by ts last)
  | inr r ↦ rw r (none-sent_by ts)
]

-- An entry that holds a change gives it once.
held-sent_by :
    (now : ℕ) (runs : List ℕ) (last : Option ℕ) (held : Outbound)
    → ((l : ℕ) → last ≡ some l → l ≤ now)
    → IsReached (now + indicator_min_interval) runs
    → sent_by runs (some (record { last_sent = last; latest = some held })) ≡ held ∷ []
unfolding sent_by flush_at and_send flush_entry flush_held
held-sent_by now _ last held past (reached t ts h) =
    rw (not_recent last now t past h) (ap (λ out. held ∷ out) (empty-sent_by ts (some t)))
held-sent_by now _ last held past (onward t ts h) = elim (Bool-cases (is_recent t last)) [
  | inl r ↦ rw r (held-sent_by now ts last held past h)
  | inr r ↦ rw r (ap (λ out. held ∷ out) (empty-sent_by ts (some t)))
]

-- A change that does not clear is sent exactly once, at once or by the flusher, however often the
-- flusher runs, if one of its runs is the interval later and no other offer comes in between; the
-- clock was not ahead when a datagram was last sent.
pub sent_by-offer_entry :
    (now : ℕ) (runs : List ℕ) (d : IndicatorDatagram) (domains : List Bytes) (p : IndicatorPending)
    → is_clear d ≡ false
    → ((l : ℕ) → p.last_sent ≡ some l → l ≤ now)
    → IsReached (now + indicator_min_interval) runs
    → and_send (offer_entry now d domains p).1 (sent_by runs (some (offer_entry now d domains p).0))
      ≡ (d, domains) ∷ []
unfolding offer_entry and_send
sent_by-offer_entry now runs d domains p c past h = elim (Bool-cases (is_recent now p.last_sent)) [
  | inl r ↦ simp (c, r) (held-sent_by now runs p.last_sent (d, domains) past h)
  | inr r ↦ simp (c, r) (ap (λ out. (d, domains) ∷ out) (empty-sent_by runs (some now)))
]
