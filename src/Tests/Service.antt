-- ===== src/Tests/Service.antt =====
-- Offers of indicators, the cache of addresses, a datagram that is published, and a prepared part.
use fmsgd.Prelude.{
  ◌≡◌, ◌↔◌, ℕ, ◌+◌, Option, Bytes, if◌then◌else◌, refl, ◌≤◌, true, false, arith, ltb, List, [], ◌∷◌,
  none, some, length, bytes_eq,
}
use mathlib.Core.Option
use fmsgd.Text.{codes}
use fmsgd.Wire.Hash.{Files, hash_payload}
use fmsgd.Indicators.Datagram.{IndicatorDatagram, is_clear, marshal}
use fmsgd.Indicators.Pending.{IndicatorPending, offer_entry, and_send}
use fmsgd.Indicators.Pending.Spacing.{
  Happening, offered, flushed, IsSpacedFrom, times_sent, times_sent-IsSpacedFrom,
}
use fmsgd.Indicators.Pending.Delivered.{sent_by, reached, onward, sent_by-offer_entry}
use fmsgd.Indicators.Cache.{entry_of, get}
use fmsgd.Indicators.Cache.Bounded.{call, entries_after, entries_after-le, lifetime, get-get}
use fmsgd.Indicators.Service.{Service, notice_of, published, verify_and_publish}
use fmsgd.Indicators.Service.Published.{IsGenuine, verify_and_publish_iff}
use fmsgd.Prepare.{Part, prepare_part, copy_part}
use fmsgd.Prepare.Deflate.{should_compress}
use fmsgd.Prepare.Payloads.{prepare_part-hash_payload}
use fmsgd.Tests.{ascii, alice, bob, thirty_two}
use fmsgd.Tests.Receive.{disk}

abbrev typing : IndicatorDatagram
typing = record { hash = thirty_two; index = 0; ttl = 10; text = 1 ∷ [] }

abbrev happenings : List Happening
happenings = offered 5 typing [] ∷ (offered 7 typing [] ∷ (flushed 100 ∷ (flushed 3000000000 ∷ [])))

times_sent-IsSpacedFrom_example : IsSpacedFrom none (times_sent happenings none)
times_sent-IsSpacedFrom_example =
    times_sent-IsSpacedFrom 0 happenings
      (omega arith, (omega arith, (omega arith, (omega arith, tt))))

abbrev sent_before : IndicatorPending
sent_before = record { last_sent = some 5; latest = none }

typing-is_clear : is_clear typing ≡ false
unfolding is_clear
typing-is_clear = refl

abbrev runs : List ℕ
runs = 8 ∷ 1000000000 ∷ 2000000007 ∷ 5000000000 ∷ []

sent_by-offer_entry_example :
    and_send
      (offer_entry 7 typing [] sent_before).1
      (sent_by runs (some (offer_entry 7 typing [] sent_before).0))
    ≡ (typing, []) ∷ []
sent_by-offer_entry_example =
    sent_by-offer_entry 7 runs typing [] sent_before typing-is_clear
      (λ l e. omega (arith, Option.some-injective _ _ e))
      (onward _ _ (onward _ _ (reached 2000000007 (5000000000 ∷ []) (omega arith))))

entries_after-le_example :
    length (
      entries_after ascii
        (call 3 (codes "a.com") none ∷ (call 4 (codes "b.com") (some (codes "1" ∷ [])) ∷ []))
        [])
    ≤ 10000
entries_after-le_example =
    entries_after-le ascii
      (call 3 (codes "a.com") none ∷ (call 4 (codes "b.com") (some (codes "1" ∷ [])) ∷ [])) []
      (omega arith)

nothing_cached : entry_of (ascii.to_lower (codes "A.com")) [] ≡ none
unfolding entry_of
nothing_cached = refl

abbrev one_ip : Bytes → Option (List Bytes)
one_ip domain = some (codes "1" ∷ [])

get-get_example :
    ((get ascii one_ip 3 (codes "A.com") []).0 ≡ one_ip (ascii.to_lower (codes "A.com")))
    × ((get ascii (λ d. none) 50 (codes "A.com") (get ascii one_ip 3 (codes "A.com") []).1).0 ≡ (
        if ltb 50 (3 + lifetime (one_ip (ascii.to_lower (codes "A.com"))))
        then one_ip (ascii.to_lower (codes "A.com"))
        else none))
get-get_example =
    get-get ascii one_ip (λ d. none) 3 50 (codes "A.com") [] (omega arith) nothing_cached

abbrev service : Service
service = record {
  is_rgi = λ s. true;
  subject_by_hash = λ hash. some (some (4, alice ∷ bob ∷ []));
  subjects_of = λ id. some (none, []);
  is_local = λ domain. bytes_eq domain (codes "b.com");
  skip_ip_check = false;
  resolve = λ domain. some (codes "1" ∷ []);
  ip_equal = bytes_eq;
}

verify_and_publish_iff_example :
    (verify_and_publish service (marshal typing) (codes "1") ≡ published (notice_of 4 alice typing))
    ↔ IsGenuine service (marshal typing) (codes "1") (notice_of 4 alice typing)
verify_and_publish_iff_example =
    verify_and_publish_iff service (marshal typing) (codes "1") (notice_of 4 alice typing)

abbrev three_bytes : Part
three_bytes = record { size = 3; expanded_size = 0; content = 1 ∷ 2 ∷ 3 ∷ [] }

-- A disk whose zlib does nothing.
abbrev plain_disk : Files
plain_disk = record disk { inflate = λ bytes. some (1 ∷ 2 ∷ 3 ∷ []) }

three-run :
    prepare_part ascii (λ bytes. bytes) (some (1 ∷ 2 ∷ 3 ∷ [])) 3 (codes "text/html")
    ≡ some three_bytes
unfolding prepare_part should_compress copy_part
three-run = refl

prepare_part-hash_payload_example :
    hash_payload plain_disk (codes "w") 3 (ltb 0 0) 0 ≡ some (1 ∷ 2 ∷ 3 ∷ [])
prepare_part-hash_payload_example =
    prepare_part-hash_payload ascii (λ bytes. bytes) plain_disk (codes "w") (1 ∷ 2 ∷ 3 ∷ []) 3
      (codes "text/html") three_bytes (omega arith) (omega arith) refl three-run refl
