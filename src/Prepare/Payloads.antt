-- ===== src/Prepare/Payloads.antt =====
-- The payload of a prepared part is the original (pkg/fmsg/prepare.go, pkg/fmsg/deflate.go).
use fmsgd.Prelude.{
  ◌≡◌, refl, sym, ap, ◌∙◌, inl, inr, ℕ, ◌*◌, ◌/◌, ◌%◌, ◌^◌, ◌<◌, Bool, true, false, [], Option,
  none, some, arith, ltb, leb, ◌==◌, Bool-cases, length, take, take-append_eq, append-nil, Bytes,
}
use mathlib.Core.Option
use fmsgd.Text.{Unicode}
use fmsgd.Wire.Hash.{Files, hash_payload}
use fmsgd.Prepare.Deflate.{should_compress, probe_sample, compress_all, by_sample, try_compress}
use fmsgd.Prepare.{Part, copy_part, part_of, prepare_part}

take_whole : (n : ℕ) (bs : Bytes) → length bs ≡ n → take n bs ≡ bs
take_whole n bs e = ap (take n) (sym (append-nil bs)) ∙ take-append_eq n bs [] e

module _ (u : Unicode) (deflate : Bytes → Bytes) where
  -- A compressed file is that of the source.
  abbrev IsPacked : Bytes → Option (Option Bytes) → Type 0
  IsPacked source none = Unit
  IsPacked source (some none) = Unit
  IsPacked source (some (some packed)) = packed ≡ deflate source

  compress_all-IsPacked :
      (source : Bytes) (size : ℕ) → IsPacked source (some (compress_all deflate source size))
  unfolding compress_all
  compress_all-IsPacked source size =
      elim (Bool-cases (leb (size * 8 % 2 ^ 32 / 10) (length (deflate source) % 2 ^ 32))) [
        | inl e ↦ rw e tt
        | inr e ↦ rw e refl
      ]

  by_sample-IsPacked :
      (source : Bytes) (size : ℕ) (o : Option Bool)
      → IsPacked source (by_sample deflate source size o)
  unfolding by_sample
  by_sample-IsPacked source size none = tt
  by_sample-IsPacked source size (some true) = compress_all-IsPacked source size
  by_sample-IsPacked source size (some false) = tt

  try_compress-IsPacked :
      (source : Bytes) (size : ℕ) → IsPacked source (try_compress deflate source size)
  unfolding try_compress
  try_compress-IsPacked source size = elim (Bool-cases (ltb 8192 size)) [
    | inl e ↦ rw e (by_sample-IsPacked source size (probe_sample deflate source size))
    | inr e ↦ rw e (compress_all-IsPacked source size)
  ]

  module _ (fs : Files) (path source : Bytes) where
    -- What `HashPayload` reads of the part at the path.
    abbrev Reads : Part → Type 0
    Reads part =
        fs.content path ≡ some part.content
        → hash_payload fs path part.size (ltb 0 part.expanded_size) part.expanded_size ≡ some source

    copy_part-plain :
        (size : ℕ) (part : Part)
        → length source ≡ size
        → copy_part u deflate source size 0 ≡ some part
        → Reads part
    unfolding copy_part hash_payload
    copy_part-plain size part n e found =
        let whole : part ≡ record { size = size; expanded_size = 0; content = source } =
          ground (arith, take_whole size source n) in
        rw
          (
            found,
            ap (λ p. p.size) whole,
            ap (λ p. p.expanded_size) whole,
            ap (λ p. p.content) whole,
            take_whole size source n,
          )
          (ground arith)

    copy_part-packed :
        (size : ℕ) (packed : Bytes) (part : Part)
        → length source ≡ size
        → 0 < size
        → size < 2 ^ 32
        → length packed < 2 ^ 32
        → fs.inflate packed ≡ some source
        → copy_part u deflate packed (length packed % 2 ^ 32) size ≡ some part
        → Reads part
    unfolding copy_part hash_payload
    copy_part-packed size packed part n some_ small fits opens e found =
        let exact : length packed % 2 ^ 32 ≡ length packed = omega arith in
        let whole : part ≡ record { size = length packed; expanded_size = size; content = packed } =
          ground (arith, take_whole (length packed) packed refl) in
        let long : ltb 0 size ≡ true = ground arith in
        let same : (length source % 2 ^ 32 == size) ≡ true = ground arith in
        rw
          (
            found,
            ap (λ p. p.size) whole,
            ap (λ p. p.expanded_size) whole,
            ap (λ p. p.content) whole,
            take_whole (length packed) packed refl,
            long,
            opens,
            same,
          )
          refl

    part_of-Reads :
        (size : ℕ) (o : Option (Option Bytes)) (part : Part)
        → IsPacked source o
        → length source ≡ size
        → 0 < size
        → size < 2 ^ 32
        → length (deflate source) < 2 ^ 32
        → fs.inflate (deflate source) ≡ some source
        → part_of u deflate source size o ≡ some part
        → Reads part
    unfolding part_of
    part_of-Reads size none part p n z small fits opens e = absurd (Option.none-ne-some _ e)
    part_of-Reads size (some none) part p n z small fits opens e = copy_part-plain size part n e
    part_of-Reads size (some (some packed)) part p n z small fits opens e =
        copy_part-packed size packed part n z small (rw p fits) (rw p opens) e

    -- Where zlib gives back what it has compressed, and that is shorter than 2^32 bytes, a part that
    -- is prepared, compressed or not, is read at its new path as the original content: that is what
    -- goes into the message hash.
    pub prepare_part-hash_payload :
        (size : ℕ) (media_type : Bytes) (part : Part)
        → size < 2 ^ 32
        → length (deflate source) < 2 ^ 32
        → fs.inflate (deflate source) ≡ some source
        → prepare_part u deflate (some source) size media_type ≡ some part
        → fs.content path ≡ some part.content
        → hash_payload fs path part.size (ltb 0 part.expanded_size) part.expanded_size ≡ some source
    unfolding prepare_part
    prepare_part-hash_payload size media_type part small fits opens e =
        elim (Bool-cases (length source == size)) [
          | inl n ↦ elim (Bool-cases (should_compress u media_type size)) [
            | inl c ↦
                part_of-Reads size (try_compress deflate source size) part
                  (try_compress-IsPacked source size) (ground arith) (positive c) small fits opens
                  (rw (n, c) at e)
            | inr c ↦ copy_part-plain size part (ground arith) (rw (n, c) at e)
          ]
          | inr n ↦ absurd (Option.none-ne-some _ (rw n at e))
        ]
      where
        positive : should_compress u media_type size ≡ true → 0 < size
        positive c = unfold should_compress in ground arith
