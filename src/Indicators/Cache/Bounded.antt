-- ===== src/Indicators/Cache/Bounded.antt =====
-- The size of the cache and the age of what it gives (cmd/fmsgd/indicators.go).
use fmsgd.Prelude.{
  ◌≡◌, refl, inl, inr, ℕ, suc, ◌≤◌, ◌<◌, ◌+◌, if◌then◌else◌, true, false, List, [], ◌∷◌, Option,
  none, some, arith, ltb, Bool-cases, length, Bytes, bytes_eq, bytes_eq_iff,
}
use fmsgd.Text.{Unicode}
use fmsgd.Indicators.Cache.{
  IpCacheEntry, Entries, entry_of, put_entry, drop_expired, expires_at, store_entry, if_fresh,
  or_lookup, get, indicator_dns_cache_max,
}

put_entry-le :
    (domain : Bytes) (e : IpCacheEntry) (m : Entries)
    → length (put_entry domain e m) ≤ suc (length m)
unfolding put_entry
put_entry-le domain e [] = omega arith
put_entry-le domain e ((k, old) ∷ rest) = ground (arith, put_entry-le domain e rest)

drop_expired-le : (now : ℕ) (m : Entries) → length (drop_expired now m) ≤ length m
unfolding drop_expired
drop_expired-le now [] = omega arith
drop_expired-le now ((k, e) ∷ rest) = ground (arith, drop_expired-le now rest)

store_entry-le :
    (now : ℕ) (domain : Bytes) (e : IpCacheEntry) (m : Entries)
    → length m ≤ indicator_dns_cache_max
    → length (store_entry now domain e m) ≤ indicator_dns_cache_max
unfolding store_entry
store_entry-le now domain e m h = ground (
  arith,
  drop_expired-le now m,
  put_entry-le domain e m,
  put_entry-le domain e (drop_expired now m),
)

or_lookup-le :
    (now : ℕ) (domain : Bytes) (found : Option (List Bytes)) (m : Entries)
    (fresh : Option (Option (List Bytes)))
    → length m ≤ indicator_dns_cache_max
    → length (or_lookup now domain found m fresh).1 ≤ indicator_dns_cache_max
unfolding or_lookup
or_lookup-le now domain found m none h = store_entry-le now domain _ m h
or_lookup-le now domain found m (some ips) h = h

entry_of-put_entry :
    (domain : Bytes) (e : IpCacheEntry) (m : Entries)
    → entry_of domain (put_entry domain e m) ≡ some e
unfolding entry_of put_entry
entry_of-put_entry domain e [] = rw ((bytes_eq_iff domain domain).1 refl) refl
entry_of-put_entry domain e ((k, old) ∷ rest) = elim (Bool-cases (bytes_eq k domain)) [
  | inl t ↦ rw (t, t) refl
  | inr f ↦ rw (f, f) (entry_of-put_entry domain e rest)
]

-- The calls of the cache, in order: at which time, for which domain, and what the lookup would give.
pub data Call : Type 0 where
  call : ℕ → Bytes → Option (List Bytes) → Call

unfoldable pub entries_after : Unicode → List Call → Entries → Entries
entries_after u [] m = m
entries_after u (call now domain found ∷ calls) m =
    entries_after u calls (get u (λ d. found) now domain m).1

-- However the cache is used, it never holds more than its greatest number of entries.
pub entries_after-le :
    (u : Unicode) (calls : List Call) (m : Entries)
    → length m ≤ indicator_dns_cache_max
    → length (entries_after u calls m) ≤ indicator_dns_cache_max
unfolding entries_after get
entries_after-le u [] m h = h
entries_after-le u (call now domain found ∷ calls) m h =
    entries_after-le u calls _ (or_lookup-le now (u.to_lower domain) found m _ h)

-- How long an answer is known: a minute, and an error ten seconds.
abbrev pub lifetime : Option (List Bytes) → ℕ
lifetime none = 10000000000
lifetime (some ips) = 60000000000

expires_at-lifetime :
    (now : ℕ) (found : Option (List Bytes)) → expires_at now found ≡ now + lifetime found
unfolding expires_at
expires_at-lifetime now none = refl
expires_at-lifetime now (some ips) = refl

-- With room in the cache and no entry for the domain, what a first call has given, which is what its
-- lookup gives, is what a second call gives for less than a minute, and an error for less than ten
-- seconds; from then on the second call gives what its own lookup gives.
pub get-get :
    (u : Unicode) (lookup later_lookup : Bytes → Option (List Bytes)) (now later : ℕ)
    (domain : Bytes) (m : Entries)
    → length m < indicator_dns_cache_max
    → entry_of (u.to_lower domain) m ≡ none
    → ((get u lookup now domain m).0 ≡ lookup (u.to_lower domain))
      × ((get u later_lookup later domain (get u lookup now domain m).1).0 ≡ (
          if ltb later (now + lifetime (lookup (u.to_lower domain)))
          then lookup (u.to_lower domain)
          else later_lookup (u.to_lower domain)))
unfolding get if_fresh or_lookup store_entry
get-get u lookup later_lookup now later domain m room absent =
    let key = u.to_lower domain in
    let e : IpCacheEntry = record { ips = lookup key; expires = expires_at now (lookup key) } in
    let small : ltb (length m) indicator_dns_cache_max ≡ true = ground arith in
    (
      rw absent refl,
      elim (Bool-cases (ltb later (now + lifetime (lookup key)))) [
        | inl t ↦
            let fresh : ltb later (expires_at now (lookup key)) ≡ true =
              rw (expires_at-lifetime now (lookup key)) t in
            rw (absent, small, small, entry_of-put_entry key e m, fresh, t) refl
        | inr f ↦
            let old : ltb later (expires_at now (lookup key)) ≡ false =
              rw (expires_at-lifetime now (lookup key)) f in
            rw (absent, small, small, entry_of-put_entry key e m, old, f) refl
      ],
    )
