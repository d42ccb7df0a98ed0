-- ===== src/Receive/Host.antt =====
-- What the checks behind the wire fields ask of the services around the host (cmd/fmsgd/host.go):
-- the message store, the files, DNS and the connection's address. A missing result is an error.
use fmsgd.Prelude.{
  ℕ, zero, suc, Bool, true, false, not, ◌&&◌, ◌||◌, List, [], ◌∷◌, Option, none, some, ◌==◌,
  if◌then◌else◌, length, Bytes, bytes_eq,
}
use fmsgd.Conn.{Error, dns_failed, M, pure, fail, ◌>>=◌}
use fmsgd.Text.{Unicode}
use fmsgd.Wire.{Address, Header}
use fmsgd.Wire.Hash.{Files}
use fmsgd.Receive.Recipients.{address_key, is_address_in}
use mathlib.Core.Option

pub record Host : Type 0 where
  pub files : Files
  pub is_file : Bytes → Bool
  pub msg_id_by_hash : Bytes → Option ℕ
  pub msg_by_id : ℕ → Option (Option Header)
  pub msg_by_batch_hash : Bytes → Option (Option Header)
  pub batch_recorded : ℕ → Bytes → Option Bool
  pub skip_authorised_ips : Bool
  pub remote_host : Option Bytes
  pub parse_ip : Bytes → Option Bytes
  pub authorised_ips : Bytes → Option (List Bytes)
  pub ip_equal : Bytes → Bytes → Bool

-- The result of a service, or the error given.
abbrev pub or_fail {ℓ} : {A : Type ℓ} → Error → Option A → M A
or_fail e none = fail e
or_fail e (some a) = pure a

unfoldable pub by_id : Host → Option ℕ → Option (Option Header)
by_id host none = none
by_id host (some id) = if id == 0 then none else host.msg_by_id id

-- The message that the pid names, when every lookup of it succeeds.
unfoldable pub parent_of : Host → Header → Option Header
parent_of host m = Option.get_or (by_id host (host.msg_id_by_hash m.pid)) none

-- `msg.Filepath != ""`, and a file stands there.
unfoldable pub is_stored : Host → Header → Bool
is_stored host m = not (length m.filepath == 0) && host.is_file m.filepath

-- `isMessageRetrievable` on at most the given number of messages of the chain of parents; none when
-- the chain is longer, where the source keeps calling itself until the program stops.
unfoldable pub is_message_retrievable : Host → ℕ → Option Header → Option Bool
is_message_retrievable host fuel none = some false
is_message_retrievable host zero (some m) = none
is_message_retrievable host (suc fuel) (some m) =
    let above = is_message_retrievable host fuel (parent_of host m) in
    if is_stored host m then some true else if length m.pid == 0 then some false else above

-- `isOriginalParticipant`.
unfoldable pub is_original_participant : Unicode → Header → Option Address → Bool
is_original_participant u m none = false
is_original_participant u m (some a) =
    bytes_eq (address_key u m.from) (address_key u a) || is_address_in u (address_key u a) m.to

unfoldable pub is_adder : Unicode → Bytes → Option Address → Bool
is_adder u key none = false
is_adder u key (some a) = bytes_eq (address_key u a) key

-- `isParentParticipant`.
unfoldable pub is_parent_participant : Unicode → Header → Address → Bool
is_parent_participant u parent a =
    let key = address_key u a in
    bytes_eq (address_key u parent.from) key
    || (is_address_in u key parent.to
        || (is_adder u key parent.add_to_from || is_address_in u key parent.add_to))

-- `determineSenderDomain`.
unfoldable pub determine_sender_domain : Header → Bytes
determine_sender_domain h = elim h.add_to_from [
  | some a ↦ if length h.add_to == 0 then h.from.domain else a.domain
  | none ↦ h.from.domain
]

-- `slices.ContainsFunc(authorisedIPs, remoteIP.Equal)`.
unfoldable pub contains_ip : (Bytes → Bytes → Bool) → Bytes → List Bytes → Bool
contains_ip same ip [] = false
contains_ip same ip (x ∷ xs) = same ip x || contains_ip same ip xs

-- `verifySenderIP`: every failure is the one error, without a response code.
unfoldable pub verify_sender_ip : Host → Bytes → M (Unit {0})
verify_sender_ip host domain = if host.skip_authorised_ips then pure tt else (do
  remote ← or_fail dns_failed host.remote_host
  ip ← or_fail dns_failed (host.parse_ip remote)
  ips ← or_fail dns_failed (host.authorised_ips domain)
  if contains_ip host.ip_equal ip ips then pure tt else fail dns_failed)
