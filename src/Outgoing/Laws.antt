-- ===== src/Outgoing/Laws.antt =====
-- What a lookup finds after a registration and after a removal (cmd/fmsgd/outgoing.go).
use fmsgd.Prelude.{
  ◌≡◌, refl, true, false, ◌&&◌, List, [], ◌∷◌, Option, none, some, arith, if◌then◌else◌, Bytes,
  bytes_eq, bytes_eq_iff,
}
use fmsgd.Receive.{contains}
use fmsgd.Outgoing.{
  OutgoingEntry, entry_at, put, delete, add_ip, delete_ip, entry_or_new, with_ip, register_outgoing,
  header_for, lookup_outgoing, store_ips, remove_from, remove_outgoing_ip,
}

pub bytes_eq_refl : (a : Bytes) → bytes_eq a a ≡ true
bytes_eq_refl a = (bytes_eq_iff a a).1 refl

contains-add_ip :
    (j ip : Bytes) (ips : List Bytes)
    → contains j (add_ip ip ips) ≡ (if bytes_eq ip j then true else contains j ips)
unfolding add_ip contains
contains-add_ip j ip ips = ground (arith, bytes_eq_iff ip j)

contains-delete_ip :
    (j ip : Bytes) (ips : List Bytes)
    → contains j (delete_ip ip ips) ≡ (if bytes_eq ip j then false else contains j ips)
unfolding delete_ip contains
contains-delete_ip j ip [] = ground arith
contains-delete_ip j ip (i ∷ ips) =
    ground
      (arith, bytes_eq_iff ip j, bytes_eq_iff i ip, bytes_eq_iff i j, contains-delete_ip j ip ips)

module _ {ℓ} {H : Type ℓ} where
  pub entry_at-put :
      (k hash : Bytes) (e : OutgoingEntry H) (m : List (Bytes × OutgoingEntry H))
      → entry_at k (put hash e m) ≡ (if bytes_eq hash k then some e else entry_at k m)
  unfolding entry_at put
  entry_at-put k hash e [] = refl
  entry_at-put k hash e ((i, old) ∷ m) =
      ground
        (arith, bytes_eq_iff hash k, bytes_eq_iff i hash, bytes_eq_iff i k, entry_at-put k hash e m)

  pub entry_at-delete :
      (k hash : Bytes) (m : List (Bytes × OutgoingEntry H))
      → entry_at k (delete hash m) ≡ (if bytes_eq hash k then none else entry_at k m)
  unfolding entry_at delete
  entry_at-delete k hash [] = ground arith
  entry_at-delete k hash ((i, old) ∷ m) =
      ground (
        arith,
        bytes_eq_iff hash k,
        bytes_eq_iff i hash,
        bytes_eq_iff i k,
        entry_at-delete k hash m,
      )

  -- The header that a registration files: that of the first one for the hash.
  unfoldable pub filed : H → Option (OutgoingEntry H) → H
  unfolding entry_or_new
  filed h e = (entry_or_new h e).header

  header_for-with_ip :
      (j ip : Bytes) (h : H) (e : Option (OutgoingEntry H))
      → header_for j (some (with_ip ip (entry_or_new h e)))
        ≡ (if bytes_eq ip j then some (filed h e) else header_for j e)
  unfolding header_for with_ip filed contains
  header_for-with_ip j ip h none = ground (arith, contains-add_ip j ip [])
  header_for-with_ip j ip h (some e) = ground (arith, contains-add_ip j ip e.ips)

  -- After a registration the pair is found, with the header first registered for the hash; every
  -- other pair is found as before.
  pub lookup_outgoing-register_outgoing :
      (k j hash ip : Bytes) (h : H) (m : List (Bytes × OutgoingEntry H))
      → lookup_outgoing k j (register_outgoing hash h ip m) ≡ (
          if bytes_eq hash k && bytes_eq ip j
          then some (filed h (entry_at hash m))
          else lookup_outgoing k j m)
  unfolding lookup_outgoing register_outgoing
  lookup_outgoing-register_outgoing k j hash ip h m = ground (
    arith,
    entry_at-put k hash (with_ip ip (entry_or_new h (entry_at hash m))) m,
    bytes_eq_iff hash k,
    header_for-with_ip j ip h (entry_at hash m),
  )

  header_for-store_ips :
      (k j hash : Bytes) (e : OutgoingEntry H) (ips : List Bytes)
      (m : List (Bytes × OutgoingEntry H))
      → header_for j (entry_at k (store_ips hash e.header ips m)) ≡ (
          if bytes_eq hash k
          then (if contains j ips then some e.header else none)
          else header_for j (entry_at k m))
  unfolding store_ips header_for
  header_for-store_ips k j hash e [] m = unfold contains in ground (arith, entry_at-delete k hash m)
  header_for-store_ips k j hash e (i ∷ ips) m =
      ground (arith, entry_at-put k hash (record { header = e.header; ips = i ∷ ips }) m)

  header_for-remove_from :
      (k j hash ip : Bytes) (o : Option (OutgoingEntry H)) (m : List (Bytes × OutgoingEntry H))
      → entry_at hash m ≡ o
      → header_for j (entry_at k (remove_from hash ip o m))
        ≡ (if bytes_eq hash k && bytes_eq ip j then none else header_for j (entry_at k m))
  unfolding remove_from header_for
  header_for-remove_from k j hash ip none m e = ground (arith, bytes_eq_iff hash k)
  header_for-remove_from k j hash ip (some e) m found = ground (
    arith,
    bytes_eq_iff hash k,
    header_for-store_ips k j hash e (delete_ip ip e.ips) m,
    contains-delete_ip j ip e.ips,
  )

  -- After a removal the pair is not found; every other pair is found as before.
  pub lookup_outgoing-remove_outgoing_ip :
      (k j hash ip : Bytes) (m : List (Bytes × OutgoingEntry H))
      → lookup_outgoing k j (remove_outgoing_ip hash ip m)
        ≡ (if bytes_eq hash k && bytes_eq ip j then none else lookup_outgoing k j m)
  unfolding lookup_outgoing remove_outgoing_ip
  lookup_outgoing-remove_outgoing_ip k j hash ip m =
      header_for-remove_from k j hash ip (entry_at hash m) m refl
