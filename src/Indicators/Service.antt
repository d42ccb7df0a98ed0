-- ===== src/Indicators/Service.antt =====
-- The indicator service (cmd/fmsgd/indicators.go): `verifyAndPublish`, `handleNotice` up to its
-- offers, and `sendTo`. JSON and the database are parameters.
pub mod Notice
pub mod Published
use fmsgd.Prelude.{
  ℕ, ◌+◌, ◌-◌, ◌%◌, ◌^◌, Bool, true, false, not, ◌&&◌, ◌||◌, List, [], ◌∷◌, ◌++◌, Option, none,
  some, ltb, leb, ◌==◌, if◌then◌else◌, length, get_elem?, min, Bytes, bytes_eq,
}
use fmsgd.Prelude.Int.{ℤ, pos, negsuc, ltb_ℤ, pos_part}
use fmsgd.Text.{Unicode}
use fmsgd.Wire.{Address, to_string}
use fmsgd.Address.{AddressResult, parsed, refused, parse_address}
use fmsgd.Receive.Host.{contains_ip}
use fmsgd.Indicators.Datagram.{
  IndicatorDatagram, is_clear, marshal, is_indicator_emoji, parse_indicator_datagram,
}
use fmsgd.Indicators.Targets.{IndicatorSubject, IndicatorTarget, select_indicator_targets}

abbrev pub indicator_ttl_max : ℕ
indicator_ttl_max = 120

-- `indicatorNotice`, in which the numbers are signed.
pub record IndicatorNotice : Type 0 where
  pub id : ℤ
  pub from : Bytes
  pub emoji : Bytes
  pub ttl : ℤ

-- Why a datagram is dropped.
pub data Drop : Type 0 where
  malformed store_failed unknown_subject bad_index local_sender bad_source : Drop

pub data Verified : Type 0 where
  dropped : Drop → Verified
  published : IndicatorNotice → Verified

-- The service and what it asks: the subject of a hash, with its participants, and the addresses of a
-- domain. None is an error.
pub record Service : Type 0 where
  pub is_rgi : Bytes → Bool
  pub subject_by_hash : Bytes → Option (Option (ℕ × List Address))
  pub subjects_of : ℤ → Option (Option IndicatorSubject × List IndicatorSubject)
  pub is_local : Bytes → Bool
  pub skip_ip_check : Bool
  pub resolve : Bytes → Option (List Bytes)
  pub ip_equal : Bytes → Bytes → Bool

unfoldable pub notice_of : ℕ → Address → IndicatorDatagram → IndicatorNotice
notice_of id from d =
    if is_clear d
    then record { id = pos id; from = to_string from; emoji = []; ttl = pos 0 }
    else record {
      id = pos id;
      from = to_string from;
      emoji = d.text;
      ttl = pos (min d.ttl indicator_ttl_max);
    }

module _ (s : Service) where
  -- The source must be one of the addresses of the sender's domain.
  unfoldable pub is_among : Bytes → Option (List Bytes) → Bool
  is_among src none = false
  is_among src (some ips) = contains_ip s.ip_equal src ips

  unfoldable pub check_source : ℕ → IndicatorDatagram → Bytes → Address → Verified
  check_source id d src from =
      if s.is_local from.domain
      then dropped local_sender
      else if not s.skip_ip_check && not (is_among src (s.resolve from.domain))
      then dropped bad_source
      else published (notice_of id from d)

  unfoldable pub with_sender : ℕ → IndicatorDatagram → Bytes → Option Address → Verified
  with_sender id d src none = dropped bad_index
  with_sender id d src (some from) = check_source id d src from

  unfoldable pub with_subject :
      IndicatorDatagram → Bytes → Option (Option (ℕ × List Address)) → Verified
  with_subject d src none = dropped store_failed
  with_subject d src (some none) = dropped unknown_subject
  with_subject d src (some (some (id, parts))) = with_sender id d src (get_elem? parts d.index)

  unfoldable pub with_datagram : Bytes → Option IndicatorDatagram → Verified
  with_datagram src none = dropped malformed
  with_datagram src (some d) = with_subject d src (s.subject_by_hash d.hash)

  -- `verifyAndPublish`, up to the notice that it publishes.
  unfoldable pub verify_and_publish : Bytes → Bytes → Verified
  verify_and_publish b src = with_datagram src (parse_indicator_datagram s.is_rgi b)

-- The groups of `handleNotice`: the domains to notify of one participant on one subject.
pub record Group : Type 0 where
  pub datagram : IndicatorDatagram
  pub domains : List Bytes

unfoldable pub is_same_key : IndicatorTarget → Group → Bool
is_same_key t g = bytes_eq g.datagram.hash t.hash && g.datagram.index == t.index

unfoldable pub add_to_group : Bytes → ℕ → IndicatorTarget → List Group → List Group
add_to_group text ttl t [] =
    record {
      datagram = record { hash = t.hash; index = t.index; ttl = ttl; text = text };
      domains = t.domain ∷ [];
    }
    ∷ []
add_to_group text ttl t (g ∷ groups) =
    if is_same_key t g
    then record g { domains = g.domains ++ t.domain ∷ [] } ∷ groups
    else g ∷ add_to_group text ttl t groups

unfoldable pub group_targets : Bytes → ℕ → List IndicatorTarget → List Group → List Group
group_targets text ttl [] groups = groups
group_targets text ttl (t ∷ ts) groups = group_targets text ttl ts (add_to_group text ttl t groups)

-- What `handleNotice` does: an error, nothing, or the offers in their order.
pub data Handled : Type 0 where
  notice_failed ignored : Handled
  offers : List Group → Handled

module _ (u : Unicode) (s : Service) where
  unfoldable pub with_subjects :
      Address → Bytes → ℕ → Option (Option IndicatorSubject × List IndicatorSubject) → Handled
  with_subjects from text ttl none = notice_failed
  with_subjects from text ttl (some (original, batches)) =
      offers
        (group_targets text ttl (select_indicator_targets u from s.is_local original batches) [])

  -- An empty emoji or a zero time clears.
  unfoldable pub offers_of : IndicatorNotice → Address → Handled
  offers_of n from =
      let ttl = min (pos_part n.ttl) indicator_ttl_max in
      if length n.emoji == 0 || ttl == 0
      then with_subjects from [] 0 (s.subjects_of n.id)
      else with_subjects from n.emoji ttl (s.subjects_of n.id)

  unfoldable pub with_from : IndicatorNotice → AddressResult → Handled
  with_from n (refused e) = notice_failed
  with_from n (parsed from) =
      if not (s.is_local from.domain)
      then ignored
      else if not (ltb_ℤ (pos 0) n.id)
          || (ltb_ℤ n.ttl (pos 0) || not (is_indicator_emoji s.is_rgi n.emoji))
      then notice_failed
      else offers_of n from

  -- `handleNotice`; none is a payload that is not a notice.
  unfoldable pub handle_notice : Option IndicatorNotice → Handled
  handle_notice none = notice_failed
  handle_notice (some n) = with_from n (parse_address u n.from)

-- The address that `sendTo` takes by a counter of 32 bits.
unfoldable pub pick_ip : List Bytes → ℕ → Option Bytes
pick_ip ips i = if length ips == 0 then none else get_elem? ips (i % length ips)

-- `sendTo` behind the rate limit: the counter, and the address that the datagram goes to.
unfoldable pub send_to : ℕ → Option (List Bytes) → ℕ × Option Bytes
send_to i none = (i, none)
send_to i (some ips) = if length ips == 0 then (i, none) else ((i + 1) % 2 ^ 32, pick_ip ips i)
