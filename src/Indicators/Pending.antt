-- ===== src/Indicators/Pending.antt =====
-- The coalescing of indicators (cmd/fmsgd/indicators.go): `offer` and `flush`. Times are nanoseconds.
pub mod Spacing
pub mod Delivered
use fmsgd.Prelude.{
  ℕ, ◌+◌, ◌-◌, Bool, true, false, not, ◌&&◌, ◌||◌, List, [], ◌∷◌, ◌++◌, Option, none, some, ltb,
  if◌then◌else◌, Bytes, bytes_eq,
}
use fmsgd.Indicators.Datagram.{IndicatorDatagram, is_clear}

-- A datagram with the domains that it goes to.
abbrev pub Outbound : Type 0
Outbound = IndicatorDatagram × List Bytes

-- `indicatorPending`; `last_sent` is none for the zero time.
pub record IndicatorPending : Type 0 where
  pub last_sent : Option ℕ
  pub latest : Option Outbound

abbrev pub indicator_min_interval : ℕ
indicator_min_interval = 2000000000

-- `now.Sub(last) < indicatorMinInterval`; the zero time is long ago.
unfoldable pub is_recent : ℕ → Option ℕ → Bool
is_recent now none = false
is_recent now (some last) = ltb (now - last) indicator_min_interval

-- The entry of a key as `offer` finds it.
unfoldable pub or_fresh : Option IndicatorPending → IndicatorPending
or_fresh none = record { last_sent = none; latest = none }
or_fresh (some p) = p

-- What `offer` does under the mutex: the entry, and what is sent at once.
unfoldable pub offer_entry :
    ℕ → IndicatorDatagram → List Bytes → IndicatorPending → IndicatorPending × Option Outbound
offer_entry now d domains p =
    if is_clear d
    then (record p { latest = none }, some (d, domains))
    else if is_recent now p.last_sent
    then (record p { latest = some (d, domains) }, none)
    else (record { last_sent = some now; latest = none }, some (d, domains))

-- What `flush` does with one entry: the entry if it is kept, and what is sent.
unfoldable pub flush_held :
    ℕ → IndicatorPending → Option Outbound → Option IndicatorPending × Option Outbound
flush_held now p none = if is_recent now p.last_sent then (some p, none) else (none, none)
flush_held now p (some held) =
    if is_recent now p.last_sent
    then (some p, none)
    else (some (record { last_sent = some now; latest = none }), some held)

unfoldable pub flush_entry : ℕ → IndicatorPending → Option IndicatorPending × Option Outbound
flush_entry now p = flush_held now p p.latest

-- The map of the service.
abbrev pub PendingMap : Type 0
PendingMap = List (Bytes × IndicatorPending)

unfoldable pub pending_at : Bytes → PendingMap → Option IndicatorPending
pending_at key [] = none
pending_at key ((k, p) ∷ rest) = if bytes_eq k key then some p else pending_at key rest

unfoldable pub put_pending : Bytes → IndicatorPending → PendingMap → PendingMap
put_pending key p [] = (key, p) ∷ []
put_pending key p ((k, old) ∷ rest) =
    if bytes_eq k key then (k, p) ∷ rest else (k, old) ∷ put_pending key p rest

-- `offer`, up to what it sends.
unfoldable pub offer :
    ℕ → Bytes → IndicatorDatagram → List Bytes → PendingMap → PendingMap × Option Outbound
offer now key d domains m =
    let (p, sent) = offer_entry now d domains (or_fresh (pending_at key m)) in
    (put_pending key p m, sent)

unfoldable pub keep_entry : Bytes → Option IndicatorPending → PendingMap → PendingMap
keep_entry key none m = m
keep_entry key (some p) m = (key, p) ∷ m

unfoldable pub and_send : Option Outbound → List Outbound → List Outbound
and_send none out = out
and_send (some o) out = o ∷ out

-- `flush`, up to what it sends; the order of a map is not fixed.
unfoldable pub flush : ℕ → PendingMap → PendingMap × List Outbound
flush now [] = ([], [])
flush now ((key, p) ∷ rest) =
    let (kept, out) = flush now rest in
    let (entry, sent) = flush_entry now p in (keep_entry key entry kept, and_send sent out)
