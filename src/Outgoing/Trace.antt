-- ===== src/Outgoing/Trace.antt =====
-- Sequences of registrations and removals (cmd/fmsgd/outgoing.go), in the order in which the
-- deliveries take the mutex.
use fmsgd.Prelude.{
  ◌≡◌, ◌≢◌, refl, ◌∙◌, Bool, true, false, ◌&&◌, List, [], ◌∷◌, Option, none, some, arith,
  if◌then◌else◌, Bytes, bytes_eq,
}
use fmsgd.Receive.{contains}
use fmsgd.Outgoing.{
  OutgoingEntry, entry_at, add_ip, delete_ip, entry_or_new, with_ip, register_outgoing,
  lookup_outgoing, store_ips, remove_from, remove_outgoing_ip,
}
use fmsgd.Outgoing.Laws.{
  entry_at-put, entry_at-delete, lookup_outgoing-register_outgoing,
  lookup_outgoing-remove_outgoing_ip,
}

pub data Event {ℓ} (H : Type ℓ) : Type ℓ where
  register : Bytes → H → Bytes → Event H
  remove : Bytes → Bytes → Event H

abbrev pub is_some {ℓ} : {A : Type ℓ} → Option A → Bool
is_some none = false
is_some (some a) = true

add_ip-ne-nil : (ip : Bytes) (ips : List Bytes) → add_ip ip ips ≢ []
unfolding add_ip contains
add_ip-ne-nil ip [] = λ e. ground arith
add_ip-ne-nil ip (i ∷ ips) = λ e. ground arith

module _ {ℓ} {H : Type ℓ} where
  unfoldable pub apply : Event H → List (Bytes × OutgoingEntry H) → List (Bytes × OutgoingEntry H)
  apply (register hash h ip) m = register_outgoing hash h ip m
  apply (remove hash ip) m = remove_outgoing_ip hash ip m

  unfoldable pub run :
      List (Event H) → List (Bytes × OutgoingEntry H) → List (Bytes × OutgoingEntry H)
  unfolding apply
  run [] m = m
  run (e ∷ es) m = run es (apply e m)

  -- Whether the last call about the pair was a registration; `before` where there was none.
  unfoldable pub is_active : Bytes → Bytes → Bool → List (Event H) → Bool
  is_active k j before [] = before
  is_active k j before (register hash h ip ∷ es) =
      is_active k j (if bytes_eq hash k && bytes_eq ip j then true else before) es
  is_active k j before (remove hash ip ∷ es) =
      is_active k j (if bytes_eq hash k && bytes_eq ip j then false else before) es

  -- A challenger's address is accepted for a header hash exactly when the last call about that pair
  -- was a registration, whatever calls about other pairs came in between.
  pub lookup_outgoing-run :
      (k j : Bytes) (es : List (Event H)) (m : List (Bytes × OutgoingEntry H))
      → is_some (lookup_outgoing k j (run es m))
        ≡ is_active k j (is_some (lookup_outgoing k j m)) es
  unfolding run is_active apply
  lookup_outgoing-run k j [] m = refl
  lookup_outgoing-run k j (register hash h ip ∷ es) m =
      lookup_outgoing-run k j es (register_outgoing hash h ip m)
      ∙ ground (arith, lookup_outgoing-register_outgoing k j hash ip h m)
  lookup_outgoing-run k j (remove hash ip ∷ es) m =
      lookup_outgoing-run k j es (remove_outgoing_ip hash ip m)
      ∙ ground (arith, lookup_outgoing-remove_outgoing_ip k j hash ip m)

  -- No entry is kept without an address.
  abbrev pub IsTidy : List (Bytes × OutgoingEntry H) → Type ℓ
  IsTidy m = (k : Bytes) (e : OutgoingEntry H) → entry_at k m ≡ some e → e.ips ≢ []

  register_outgoing-IsTidy :
      (hash ip : Bytes) (h : H) (m : List (Bytes × OutgoingEntry H))
      → IsTidy m
      → IsTidy (register_outgoing hash h ip m)
  unfolding register_outgoing
  register_outgoing-IsTidy hash ip h m tidy k e found empty =
      let new = with_ip ip (entry_or_new h (entry_at hash m)) in
      unfold with_ip in
      ground (
        arith,
        entry_at-put k hash new m,
        tidy k e,
        add_ip-ne-nil ip (entry_or_new h (entry_at hash m)).ips,
      )

  store_ips-IsTidy :
      (hash : Bytes) (h : H) (ips : List Bytes) (m : List (Bytes × OutgoingEntry H))
      → IsTidy m
      → IsTidy (store_ips hash h ips m)
  unfolding store_ips
  store_ips-IsTidy hash h [] m tidy k e found empty =
      ground (arith, entry_at-delete k hash m, tidy k e)
  store_ips-IsTidy hash h (i ∷ ips) m tidy k e found empty =
      ground (arith, entry_at-put k hash (record { header = h; ips = i ∷ ips }) m, tidy k e)

  remove_from-IsTidy :
      (hash ip : Bytes) (o : Option (OutgoingEntry H)) (m : List (Bytes × OutgoingEntry H))
      → IsTidy m
      → IsTidy (remove_from hash ip o m)
  unfolding remove_from
  remove_from-IsTidy hash ip none m tidy = tidy
  remove_from-IsTidy hash ip (some e) m tidy =
      store_ips-IsTidy hash e.header (delete_ip ip e.ips) m tidy

  -- Along every history from a map in which no entry is without an address, such as the empty map,
  -- no entry is: the last removal deletes the entry.
  pub run-IsTidy :
      (es : List (Event H)) (m : List (Bytes × OutgoingEntry H)) → IsTidy m → IsTidy (run es m)
  unfolding run apply
  run-IsTidy [] m tidy = tidy
  run-IsTidy (register hash h ip ∷ es) m tidy =
      run-IsTidy es (register_outgoing hash h ip m) (register_outgoing-IsTidy hash ip h m tidy)
  run-IsTidy (remove hash ip ∷ es) m tidy =
      run-IsTidy es (remove_outgoing_ip hash ip m)
        (unfold remove_outgoing_ip in remove_from-IsTidy hash ip (entry_at hash m) m tidy)
