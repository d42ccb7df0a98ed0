-- ===== src/Indicators/Cache.antt =====
-- The cache of addresses (cmd/fmsgd/indicators.go): `ipCache`. Times are nanoseconds.
pub mod Bounded
use fmsgd.Prelude.{
  ℕ, ◌+◌, Bool, true, false, List, [], ◌∷◌, Option, none, some, ltb, if◌then◌else◌, length, Bytes,
  bytes_eq,
}
use fmsgd.Text.{Unicode}

abbrev pub indicator_dns_cache_ttl : ℕ
indicator_dns_cache_ttl = 60000000000

abbrev pub indicator_dns_negative_ttl : ℕ
indicator_dns_negative_ttl = 10000000000

abbrev pub indicator_dns_cache_max : ℕ
indicator_dns_cache_max = 10000

-- `ipCacheEntry`; `ips` is none for an error.
pub record IpCacheEntry : Type 0 where
  pub ips : Option (List Bytes)
  pub expires : ℕ

abbrev pub Entries : Type 0
Entries = List (Bytes × IpCacheEntry)

unfoldable pub entry_of : Bytes → Entries → Option IpCacheEntry
entry_of domain [] = none
entry_of domain ((k, e) ∷ rest) = if bytes_eq k domain then some e else entry_of domain rest

-- An entry is written where its key is, or at the end.
unfoldable pub put_entry : Bytes → IpCacheEntry → Entries → Entries
put_entry domain e [] = (domain, e) ∷ []
put_entry domain e ((k, old) ∷ rest) =
    if bytes_eq k domain then (k, e) ∷ rest else (k, old) ∷ put_entry domain e rest

-- The entries that have not expired.
unfoldable pub drop_expired : ℕ → Entries → Entries
drop_expired now [] = []
drop_expired now ((k, e) ∷ rest) =
    let kept = drop_expired now rest in if ltb now e.expires then (k, e) ∷ kept else kept

unfoldable pub expires_at : ℕ → Option (List Bytes) → ℕ
expires_at now none = now + indicator_dns_negative_ttl
expires_at now (some ips) = now + indicator_dns_cache_ttl

-- The entries behind a lookup: a full cache drops what has expired, and takes nothing new while it
-- is still full.
unfoldable pub store_entry : ℕ → Bytes → IpCacheEntry → Entries → Entries
store_entry now domain e entries =
    let kept =
      if ltb (length entries) indicator_dns_cache_max then entries else drop_expired now entries in
    if ltb (length kept) indicator_dns_cache_max then put_entry domain e kept else kept

-- What is known at the time, if anything.
unfoldable pub if_fresh : ℕ → Option IpCacheEntry → Option (Option (List Bytes))
if_fresh now none = none
if_fresh now (some e) = if ltb now e.expires then some e.ips else none

unfoldable pub or_lookup :
    ℕ
    → Bytes
    → Option (List Bytes)
    → Entries
    → Option (Option (List Bytes))
    → Option (List Bytes) × Entries
or_lookup now domain found entries none =
    (found, store_entry now domain (record { ips = found; expires = expires_at now found }) entries)
or_lookup now domain found entries (some ips) = (ips, entries)

-- `ipCache.get`; `lookup` is asked only where nothing fresh is cached.
unfoldable pub get :
    Unicode → (Bytes → Option (List Bytes)) → ℕ → Bytes → Entries → Option (List Bytes) × Entries
get u lookup now domain entries =
    let key = u.to_lower domain in
    or_lookup now key (lookup key) entries (if_fresh now (entry_of key entries))
