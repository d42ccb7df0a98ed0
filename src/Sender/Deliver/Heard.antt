-- ===== src/Sender/Deliver/Heard.antt =====
-- What a unit may record, and from where (cmd/fmsgd/sender.go).
use fmsgd.Prelude.{
  ◌≡◌, refl, sym, ap, ◌∙◌, ◌≤◌, ◌++◌, append-nil, append_assoc, ◌⊎◌, inl, inr, ℕ, suc, true, false,
  List, [], ◌∷◌, Option, none, some, ◌==◌, if◌then◌else◌, Bool-cases, Option-cases, length, Bytes,
}
use fmsgd.Prelude.Int.{pos, negsuc}
use fmsgd.Text.{Unicode}
use fmsgd.Conn.{Conn}
use mathlib.Core.Option
use fmsgd.Wire.{Address, Header, has, flag_has_add_to, to_string}
use fmsgd.Sender.Rows.{Table, Update, recipient, notified}
use fmsgd.Sender.Exchange.{DomainRecip, append_domain, domain_recips}
use fmsgd.Sender.Deliver.{Network, dial_target_ips}

-- The code that stands in the second list where the address stands in the first.
pub data IsPaired (a : Bytes) (code : ℕ) : List Bytes → Bytes → Type 0 where
  here : (as_ : List Bytes) (codes : Bytes) → IsPaired a code (a ∷ as_) (code ∷ codes)
  behind :
      (x : Bytes) (y : ℕ) (as_ : List Bytes) (codes : Bytes)
      → IsPaired a code as_ codes
      → IsPaired a code (x ∷ as_) (y ∷ codes)

-- An initial code behind which codes of recipients follow.
abbrev pub IsAccepting : Header → ℕ → Type 0
IsAccepting h init = (init ≡ 64) ⊎ ((init ≡ 65) × (has h.flags flag_has_add_to ≡ true))

-- An update that says no more than the other host has: `IsHeard` holds of the bytes that it has
-- written, and `there` are the recipients for which it has codes. What failed is recorded as -1.
pub data IsTrue (h : Header) (there : List Bytes) (IsHeard : Bytes → Type 0) : Update → Type 0 where
  failed : (t : Table) (a : Bytes) → IsTrue h there IsHeard (recipient t a (negsuc 0) false)
  failed_notice : (id : ℕ) → IsTrue h there IsHeard (notified id (negsuc 0) false)
  noted_there :
      (t : Table) (a left : Bytes)
      → IsHeard (11 ∷ left)
      → has h.flags flag_has_add_to ≡ true
      → IsTrue h there IsHeard (recipient t a (pos 11) true)
  noted_notice :
      (id : ℕ) (left : Bytes)
      → IsHeard (11 ∷ left)
      → has h.flags flag_has_add_to ≡ true
      → IsTrue h there IsHeard (notified id (pos 11) true)
  refused :
      (t : Table) (a : Bytes) (code : ℕ) (left : Bytes)
      → IsHeard (code ∷ left)
      → 1 ≤ code
      → code ≤ 10
      → IsTrue h there IsHeard (recipient t a (pos code) false)
  refused_notice :
      (id code : ℕ) (left : Bytes)
      → IsHeard (code ∷ left)
      → 1 ≤ code
      → code ≤ 10
      → IsTrue h there IsHeard (notified id (pos code) false)
  coded :
      (t : Table) (a : Bytes) (code init : ℕ) (codes left : Bytes)
      → IsHeard (init ∷ (codes ++ left))
      → IsAccepting h init
      → length codes ≡ length there
      → IsPaired a code there codes
      → IsTrue h there IsHeard (recipient t a (pos code) (code == 200))
  coded_notice :
      (id init : ℕ) (left : Bytes)
      → IsHeard (init ∷ left)
      → IsAccepting h init
      → IsTrue h there IsHeard (notified id (pos init) true)

-- The recipients at a domain, in the order of their codes.
unfoldable pub at_domain : Unicode → Bytes → List Address → List Bytes
at_domain u domain [] = []
at_domain u domain (a ∷ as_) =
    let rest = at_domain u domain as_ in
    if u.equal_fold a.domain domain then to_string a ∷ rest else rest

unfoldable pub recipients_there : Unicode → Bytes → Header → List Bytes
recipients_there u domain h =
    if has h.flags flag_has_add_to
    then at_domain u domain h.to ++ at_domain u domain h.add_to
    else at_domain u domain h.to

-- The first address that takes a connection, and that connection.
pub data IsConnected (dial : Bytes → Option (Conn × Bytes)) (found : Conn × Bytes)
    : List Bytes → Type 0 where
  connected :
      (ip : Bytes) (ips : List Bytes) → dial ip ≡ some found → IsConnected dial found (ip ∷ ips)
  unreachable :
      (ip : Bytes) (ips : List Bytes)
      → dial ip ≡ none
      → IsConnected dial found ips
      → IsConnected dial found (ip ∷ ips)

-- What the host of a domain writes, on the first of its addresses that takes a connection.
pub record IsWritten (net : Network) (domain said : Bytes) : Type 0 where
  pub ips : List Bytes
  pub conn : Conn
  pub ip : Bytes
  pub looked_up : net.lookup_authorised_ips domain ≡ some ips
  pub dialled : IsConnected net.dial (conn, ip) ips
  pub is_said : said ≡ conn.input

pub dial_target_ips-IsConnected :
    (dial : Bytes → Option (Conn × Bytes)) (ips : List Bytes) (found : Conn × Bytes)
    → dial_target_ips dial ips ≡ some found
    → IsConnected dial found ips
unfolding dial_target_ips
dial_target_ips-IsConnected dial [] found e = absurd (Option.none-ne-some _ e)
dial_target_ips-IsConnected dial (ip ∷ ips) found e = elim (Option-cases (dial ip)) [
  | inl z ↦
      unreachable ip ips z
        (dial_target_ips-IsConnected dial ips found (rw (z, dial_target_ips) at e))
  | inr (x, z) ↦ connected ip ips (z ∙ (rw (z, dial_target_ips) at e))
]

unfoldable pub addrs_of : List DomainRecip → List Bytes
addrs_of [] = []
addrs_of (r ∷ recips) = r.addr ∷ addrs_of recips

pub length-addrs_of : (recips : List DomainRecip) → length (addrs_of recips) ≡ length recips
unfolding addrs_of
length-addrs_of [] = refl
length-addrs_of (r ∷ recips) = ap suc (length-addrs_of recips)

module _ (u : Unicode) (domain : Bytes) (locked : List Bytes) where
  addrs_of-append : (as_ bs : List DomainRecip) → addrs_of (as_ ++ bs) ≡ addrs_of as_ ++ addrs_of bs
  unfolding addrs_of
  addrs_of-append [] bs = refl
  addrs_of-append (a ∷ as_) bs = ap (λ x. a.addr ∷ x) (addrs_of-append as_ bs)

  append_domain-at_domain :
      (as_ : List Address) (recips : List DomainRecip)
      → addrs_of (append_domain u domain locked as_ recips)
        ≡ addrs_of recips ++ at_domain u domain as_
  unfolding append_domain at_domain addrs_of
  append_domain-at_domain [] recips = sym (append-nil (addrs_of recips))
  append_domain-at_domain (a ∷ as_) recips = elim (Bool-cases (u.equal_fold a.domain domain)) [
    | inl t ↦ rw t (
        append_domain-at_domain as_ _
        ∙ (ap (λ x. x ++ at_domain u domain as_) (addrs_of-append recips _)
            ∙ append_assoc (addrs_of recips) (to_string a ∷ []) (at_domain u domain as_)))
    | inr f ↦ rw f (append_domain-at_domain as_ recips)
  ]

  pub domain_recips-there :
      (h : Header) → addrs_of (domain_recips u domain locked h) ≡ recipients_there u domain h
  unfolding domain_recips recipients_there addrs_of
  domain_recips-there h =
      let both = append_domain-at_domain h.to [] in
      elim (Bool-cases (has h.flags flag_has_add_to)) [
        | inl t ↦
            rw t
              (append_domain-at_domain h.add_to _ ∙ ap (λ x. x ++ at_domain u domain h.add_to) both)
        | inr f ↦ rw f both
      ]
