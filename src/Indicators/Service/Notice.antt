-- ===== src/Indicators/Service/Notice.antt =====
-- The notice of a datagram, and where the datagram comes from (cmd/fmsgd/indicators.go).
use fmsgd.Prelude.{
  ◌≡◌, ◌≢◌, ◌⊎◌, refl, ap, inl, inr, ℕ, Bool, true, false, List, [], ◌∷◌, ◌++◌, ◌==◌, min, length,
  Bool-cases, Option, none, some, arith, Bytes,
}
use fmsgd.Prelude.Int.{pos}
use fmsgd.Wire.{Address, to_string}
use fmsgd.Indicators.Datagram.{IndicatorDatagram, is_clear}
use fmsgd.Receive.Host.{contains_ip}
use fmsgd.Indicators.Service.{IndicatorNotice, Service, notice_of, is_among}

-- What a notice shows of a datagram: nothing, of one with no text or for no time; or the text, for
-- the datagram's time, but at most 120 seconds.
pub data IsShown (d : IndicatorDatagram) (n : IndicatorNotice) : Type 0 where
  cleared : (d.text ≡ []) ⊎ (d.ttl ≡ 0) → n.emoji ≡ [] → n.ttl ≡ pos 0 → IsShown d n
  shown : d.text ≢ [] → d.ttl ≢ 0 → n.emoji ≡ d.text → n.ttl ≡ pos (min d.ttl 120) → IsShown d n

-- The notice of a participant, "@user@domain", on a subject.
pub record IsNotice (id : ℕ) (from : Address) (d : IndicatorDatagram) (n : IndicatorNotice)
    : Type 0 where
  pub is_id : n.id ≡ pos id
  pub is_from : n.from ≡ b'@' ∷ (from.user ++ b'@' ∷ from.domain)
  pub shows : IsShown d n

empty_text : (bs : Bytes) → (length bs == 0) ≡ true → bs ≡ []
empty_text [] e = refl
empty_text (b ∷ bs) e = absurd (ground arith)

pub notice_of-IsNotice :
    (id : ℕ) (from : Address) (d : IndicatorDatagram) → IsNotice id from d (notice_of id from d)
unfolding notice_of is_clear to_string
notice_of-IsNotice id from d = elim (Bool-cases (length d.text == 0)) [
  | inl t ↦ rw t (record {
    is_id = refl;
    is_from = refl;
    shows = cleared (inl (empty_text d.text t)) refl refl;
  })
  | inr f ↦ elim (Bool-cases (d.ttl == 0)) [
    | inl z ↦
        rw (f, z)
          (record { is_id = refl; is_from = refl; shows = cleared (inr (ground arith)) refl refl })
    | inr z ↦
        rw (f, z)
          (record {
            is_id = refl;
            is_from = refl;
            shows = shown (λ e. ground (arith, ap length e)) (λ e. ground arith) refl refl;
          })
  ]
]

shown-notice_of :
    (id : ℕ) (from : Address) (d : IndicatorDatagram) (n : IndicatorNotice)
    → IsShown d n
    → n.id ≡ pos id
    → n.from ≡ to_string from
    → n ≡ notice_of id from d
unfolding notice_of is_clear
shown-notice_of id from d n (cleared (inl e) t z) i f = rw (e, i, f, t, z) refl
shown-notice_of id from d n (cleared (inr e) t z) i f = elim (Bool-cases (length d.text == 0)) [
  | inl y ↦ rw (y, i, f, t, z) refl
  | inr y ↦ rw (y, e, i, f, t, z) refl
]
shown-notice_of id from d n (shown ne nz t z) i f =
    let some_text : (length d.text == 0) ≡ false = has_text d.text ne in
    let some_time : (d.ttl == 0) ≡ false = ground arith in
    rw (some_text, some_time, i, f, t, z) refl
  where
    has_text : (bs : Bytes) → bs ≢ [] → (length bs == 0) ≡ false
    has_text [] ne = absurd (ne refl)
    has_text (b ∷ bs) ne = ground arith

pub IsNotice-notice_of :
    (id : ℕ) (from : Address) (d : IndicatorDatagram) (n : IndicatorNotice)
    → IsNotice id from d n
    → n ≡ notice_of id from d
IsNotice-notice_of id from d n v =
    shown-notice_of id from d n v.shows v.is_id (unfold to_string in v.is_from)

-- One of the addresses is the source.
pub data IsOneOf (same : Bytes → Bytes → Bool) (src : Bytes) : List Bytes → Type 0 where
  this : (ip : Bytes) (ips : List Bytes) → same src ip ≡ true → IsOneOf same src (ip ∷ ips)
  another : (ip : Bytes) (ips : List Bytes) → IsOneOf same src ips → IsOneOf same src (ip ∷ ips)

-- The lookup succeeds, and the source is among the addresses that it gives.
pub data IsAddressOf (s : Service) (src : Bytes) : Option (List Bytes) → Type 0 where
  address_of : (ips : List Bytes) → IsOneOf s.ip_equal src ips → IsAddressOf s src (some ips)

contains_ip-IsOneOf :
    (same : Bytes → Bytes → Bool) (src : Bytes) (ips : List Bytes)
    → contains_ip same src ips ≡ true
    → IsOneOf same src ips
unfolding contains_ip
contains_ip-IsOneOf same src [] e = absurd cc
contains_ip-IsOneOf same src (ip ∷ ips) e = elim (Bool-cases (same src ip)) [
  | inl t ↦ this ip ips t
  | inr f ↦ another ip ips (contains_ip-IsOneOf same src ips (rw f at e))
]

IsOneOf-contains_ip :
    (same : Bytes → Bytes → Bool) (src : Bytes) (ips : List Bytes)
    → IsOneOf same src ips
    → contains_ip same src ips ≡ true
unfolding contains_ip
IsOneOf-contains_ip same src _ (this ip ips t) = rw t refl
IsOneOf-contains_ip same src _ (another ip ips h) =
    ground (arith, IsOneOf-contains_ip same src ips h)

pub is_among-IsAddressOf :
    (s : Service) (src : Bytes) (o : Option (List Bytes))
    → is_among s src o ≡ true
    → IsAddressOf s src o
unfolding is_among
is_among-IsAddressOf s src none e = absurd cc
is_among-IsAddressOf s src (some ips) e = address_of ips (contains_ip-IsOneOf s.ip_equal src ips e)

pub IsAddressOf-is_among :
    (s : Service) (src : Bytes) (o : Option (List Bytes))
    → IsAddressOf s src o
    → is_among s src o ≡ true
unfolding is_among
IsAddressOf-is_among s src _ (address_of ips h) = IsOneOf-contains_ip s.ip_equal src ips h
