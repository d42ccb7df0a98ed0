-- ===== src/Receive/Limits/Bounds.antt =====
-- What an accepting code says of the limits (cmd/fmsgd/host.go).
use fmsgd.Prelude.{
  ap, ℕ, ◌+◌, ◌^◌, ◌≤◌, ◌<◌, ◌≡◌, ◌↔◌, refl, Bool, true, false, none, some, Option, sym, arith,
}
use fmsgd.Prelude.Int.{ℤ, pos, negsuc, add64-pos}
use fmsgd.Wire.{Header}
use mathlib.Core.Option
use mathlib.Core.Path.{subst}
use fmsgd.Receive.Delivery.{stored_size}
use fmsgd.Receive.Limits.{
  AddressDetail, is_exceeded, recv_limit_exceeded, code_of_limit, code_of_detail, code_of_duplicate,
  validate_msg_recv_for_addr,
}

-- A limit leaves room: it is negative, or the sum is within it.
pub data IsRoom (limit : ℤ) (used : ℤ) (more : ℕ) : Type 0 where
  unlimited : (n : ℕ) → limit ≡ negsuc n → IsRoom limit used more
  within : (n k : ℕ) → limit ≡ pos n → used ≡ pos k → k + more ≤ n → IsRoom limit used more

-- A count that is not negative, and whose sum is an int64.
pub record IsCount (used : ℤ) (more : ℕ) : Type 0 where
  pub count : ℕ
  pub is_count : used ≡ pos count
  pub is_small : count + more < 2 ^ 63

-- What is counted for an address.
pub record IsCounted (h : Header) (d : AddressDetail) : Type 0 where
  pub messages : IsCount d.recv_count_per_1d 1
  pub today : IsCount d.recv_size_per_1d (stored_size h)
  pub whole : IsCount d.recv_size_total (stored_size h)

-- An address that takes new messages, with room for the message within each of its limits.
pub record IsOpen (h : Header) (d : AddressDetail) : Type 0 where
  pub accepting : d.accepting_new ≡ true
  pub messages : IsRoom d.limit_recv_count_per_1d d.recv_count_per_1d 1
  pub today : IsRoom d.limit_recv_size_per_1d d.recv_size_per_1d (stored_size h)
  pub whole : IsRoom d.limit_recv_size_total d.recv_size_total (stored_size h)

is_exceeded_iff :
    (limit : ℤ) (used more : ℕ)
    → used + more < 2 ^ 63
    → (is_exceeded limit (pos used) (pos more) ≡ false) ↔ IsRoom limit (pos used) more
unfolding is_exceeded
is_exceeded_iff (pos n) used more small = rw (add64-pos used more small) (
  (λ e. within n used refl refl (ground arith)),
  λ r. elim r [ unlimited k p ↦ cc | within k j p e q ↦ ground arith ],
)
is_exceeded_iff (negsuc n) used more small = ((λ e. unlimited n refl), λ r. ground arith)

is_exceeded-IsRoom :
    (limit used : ℤ) (more : ℕ)
    → IsCount used more
    → (is_exceeded limit used (pos more) ≡ false) ↔ IsRoom limit used more
is_exceeded-IsRoom limit used more c = rw c.is_count (is_exceeded_iff limit c.count more c.is_small)

code_of_detail_iff :
    (h : Header) (d : AddressDetail)
    → (code_of_detail h (some d) ≡ 200) ↔ (
        (d.accepting_new ≡ true)
        × (is_exceeded d.limit_recv_count_per_1d d.recv_count_per_1d (pos 1) ≡ false)
        × (is_exceeded d.limit_recv_size_per_1d d.recv_size_per_1d (pos (stored_size h)) ≡ false)
        × (is_exceeded d.limit_recv_size_total d.recv_size_total (pos (stored_size h)) ≡ false))
unfolding code_of_detail recv_limit_exceeded code_of_limit
code_of_detail_iff h d = ground arith

code_of_detail-IsOpen :
    (h : Header) (d : AddressDetail)
    → IsCounted h d
    → (code_of_detail h (some d) ≡ 200) ↔ IsOpen h d
code_of_detail-IsOpen h d c =
    let size : ℕ = stored_size h in
    let (sound, complete) = code_of_detail_iff h d in
    let (m, m') = is_exceeded-IsRoom d.limit_recv_count_per_1d d.recv_count_per_1d 1 c.messages in
    let (t, t') = is_exceeded-IsRoom d.limit_recv_size_per_1d d.recv_size_per_1d size c.today in
    let (w, w') = is_exceeded-IsRoom d.limit_recv_size_total d.recv_size_total size c.whole in
    (
      λ e.
          let (a, x, y, z) = sound e in
          record { accepting = a; messages = m x; today = t y; whole = w z },
      λ o. complete (o.accepting, m' o.messages, t' o.today, w' o.whole),
    )

-- A recipient is accepted exactly when the store says that it has not got the message, the address
-- is known, with a detail, and takes new messages, and every limit leaves room for the message; where
-- there is a detail, its counts are not negative and the sums stay below 2^63. So an error of either
-- lookup, a duplicate, and an address that is not known are not accepted.
pub validate_msg_recv_for_addr_iff :
    (h : Header) (duplicate : Option Bool) (detail : Option (Option AddressDetail))
    → ((d : AddressDetail) → detail ≡ some (some d) → IsCounted h d)
    → (validate_msg_recv_for_addr h duplicate detail ≡ some 200)
      ↔ ((duplicate ≡ some false) × (d : AddressDetail) × (detail ≡ some (some d)) × IsOpen h d)
unfolding validate_msg_recv_for_addr code_of_duplicate
validate_msg_recv_for_addr_iff h none detail counted =
    ((λ e. absurd (ground arith)), λ r. absurd (ground (arith, r.0)))
validate_msg_recv_for_addr_iff h (some true) detail counted =
    ((λ e. absurd (ground arith)), λ r. absurd (ground (arith, r.0)))
validate_msg_recv_for_addr_iff h (some false) none counted =
    ((λ e. absurd (ground arith)), λ (n, d, e, o). absurd (Option.none-ne-some _ e))
validate_msg_recv_for_addr_iff h (some false) (some none) counted = (
  (λ e. absurd (unfold code_of_detail in ground arith)),
  λ (n, d, e, o). absurd (Option.none-ne-some _ (Option.some-injective _ _ e)),
)
validate_msg_recv_for_addr_iff h (some false) (some (some d)) counted =
    let (sound, complete) = code_of_detail-IsOpen h d (counted d refl) in
    (
      λ e. (refl, d, refl, sound (Option.some-injective _ _ e)),
      λ (n, k, e, o). ap some (
          complete
            (subst (IsOpen h) (sym (Option.some-injective _ _ (Option.some-injective _ _ e))) o)),
    )
