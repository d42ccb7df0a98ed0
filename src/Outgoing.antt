-- ===== src/Outgoing.antt =====
-- The record of outgoing messages (cmd/fmsgd/outgoing.go), by which challenges are answered. Every
-- function of the file holds the mutex throughout, so calls from concurrent deliveries are a
-- sequence of calls. A Go map is an association list; `ips` is a map used as a set.
pub mod Laws
pub mod Trace
use fmsgd.Prelude.{
  Bool, true, false, List, [], ◌∷◌, Option, none, some, if◌then◌else◌, Bytes, bytes_eq,
}
use fmsgd.Receive.{contains}
use mathlib.Core.Option

module _ {ℓ} (H : Type ℓ) where
  pub record OutgoingEntry : Type ℓ where
    pub header : H
    pub ips : List Bytes

module _ {ℓ} {H : Type ℓ} where
  -- `outgoingMap[hash]`.
  unfoldable pub entry_at : Bytes → List (Bytes × OutgoingEntry H) → Option (OutgoingEntry H)
  entry_at hash [] = none
  entry_at hash ((k, e) ∷ rest) = if bytes_eq k hash then some e else entry_at hash rest

  -- A write to the map, or to the entry that it points to.
  unfoldable pub put :
      Bytes → OutgoingEntry H → List (Bytes × OutgoingEntry H) → List (Bytes × OutgoingEntry H)
  put hash e [] = (hash, e) ∷ []
  put hash e ((k, old) ∷ rest) =
      if bytes_eq k hash then (k, e) ∷ rest else (k, old) ∷ put hash e rest

  -- `delete(outgoingMap, hash)`.
  unfoldable pub delete : Bytes → List (Bytes × OutgoingEntry H) → List (Bytes × OutgoingEntry H)
  delete hash [] = []
  delete hash ((k, e) ∷ rest) =
      let kept = delete hash rest in if bytes_eq k hash then kept else (k, e) ∷ kept

-- `ips[ip] = struct{}{}` and `delete(ips, ip)`.
unfoldable pub add_ip : Bytes → List Bytes → List Bytes
add_ip ip ips = if contains ip ips then ips else ip ∷ ips

unfoldable pub delete_ip : Bytes → List Bytes → List Bytes
delete_ip ip [] = []
delete_ip ip (j ∷ ips) = let kept = delete_ip ip ips in if bytes_eq j ip then kept else j ∷ kept

module _ {ℓ} {H : Type ℓ} where
  -- The entry that `registerOutgoing` adds the address to: the one there, or a new one.
  unfoldable pub entry_or_new : H → Option (OutgoingEntry H) → OutgoingEntry H
  entry_or_new h none = record { header = h; ips = [] }
  entry_or_new h (some e) = e

  unfoldable pub with_ip : Bytes → OutgoingEntry H → OutgoingEntry H
  with_ip ip e = record e { ips = add_ip ip e.ips }

  -- `registerOutgoing`.
  unfoldable pub register_outgoing :
      Bytes → H → Bytes → List (Bytes × OutgoingEntry H) → List (Bytes × OutgoingEntry H)
  register_outgoing hash h ip m = put hash (with_ip ip (entry_or_new h (entry_at hash m))) m

  unfoldable pub header_for : Bytes → Option (OutgoingEntry H) → Option H
  header_for ip none = none
  header_for ip (some e) = if contains ip e.ips then some e.header else none

  -- `lookupOutgoing`.
  unfoldable pub lookup_outgoing : Bytes → Bytes → List (Bytes × OutgoingEntry H) → Option H
  lookup_outgoing hash ip m = header_for ip (entry_at hash m)

  -- The entry is written back without the address, or deleted with its last one.
  unfoldable pub store_ips :
      Bytes → H → List Bytes → List (Bytes × OutgoingEntry H) → List (Bytes × OutgoingEntry H)
  store_ips hash h [] m = delete hash m
  store_ips hash h (j ∷ ips) m = put hash (record { header = h; ips = j ∷ ips }) m

  unfoldable pub remove_from :
      Bytes
      → Bytes
      → Option (OutgoingEntry H)
      → List (Bytes × OutgoingEntry H)
      → List (Bytes × OutgoingEntry H)
  remove_from hash ip none m = m
  remove_from hash ip (some e) m = store_ips hash e.header (delete_ip ip e.ips) m

  -- `removeOutgoingIP`.
  unfoldable pub remove_outgoing_ip :
      Bytes → Bytes → List (Bytes × OutgoingEntry H) → List (Bytes × OutgoingEntry H)
  remove_outgoing_ip hash ip m = remove_from hash ip (entry_at hash m) m
