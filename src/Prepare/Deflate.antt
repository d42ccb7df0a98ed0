-- ===== src/Prepare/Deflate.antt =====
-- When a payload is compressed (pkg/fmsg/deflate.go): `ShouldCompress`, `probeSample` and
-- `TryCompress`. zlib is the function `deflate`.
use fmsgd.Prelude.{
  ℕ, ◌*◌, ◌/◌, ◌%◌, ◌^◌, Bool, false, not, ◌&&◌, List, [], ◌∷◌, Option, none, some, ltb, leb, ◌==◌,
  if◌then◌else◌, length, take, min, Bytes,
}
use fmsgd.Text.{Unicode, codes}
use fmsgd.Text.Search.{index}
use fmsgd.Receive.{contains}

abbrev pub min_deflate_size : ℕ
min_deflate_size = 512

abbrev pub deflate_sample_size : ℕ
deflate_sample_size = 8192

-- `incompressibleTypes`.
unfoldable pub incompressible_types : List Bytes
incompressible_types =
    codes "image/jpeg"
    ∷ codes "image/png"
    ∷ codes "image/gif"
    ∷ codes "image/webp"
    ∷ codes "image/heic"
    ∷ codes "image/avif"
    ∷ codes "image/apng"
    ∷ codes "audio/aac"
    ∷ codes "audio/mpeg"
    ∷ codes "audio/ogg"
    ∷ codes "audio/opus"
    ∷ codes "audio/webm"
    ∷ codes "video/h264"
    ∷ codes "video/h265"
    ∷ codes "video/h266"
    ∷ codes "video/ogg"
    ∷ codes "video/vp8"
    ∷ codes "video/vp9"
    ∷ codes "video/webm"
    ∷ codes "application/gzip"
    ∷ codes "application/zip"
    ∷ codes "application/epub+zip"
    ∷ codes "application/octet-stream"
    ∷ codes "application/vnd.oasis.opendocument.presentation"
    ∷ codes "application/vnd.oasis.opendocument.spreadsheet"
    ∷ codes "application/vnd.oasis.opendocument.text"
    ∷ codes "application/vnd.openxmlformats-officedocument.presentationml.presentation"
    ∷ codes "application/vnd.openxmlformats-officedocument.spreadsheetml.sheet"
    ∷ codes "application/vnd.openxmlformats-officedocument.wordprocessingml.document"
    ∷ codes "application/vnd.amazon.ebook"
    ∷ codes "font/woff"
    ∷ codes "font/woff2"
    ∷ codes "application/pdf"
    ∷ codes "model/3mf"
    ∷ codes "model/gltf-binary"
    ∷ codes "model/vnd.usdz+zip"
    ∷ []

-- `strings.TrimRight(s, " ")`.
unfoldable pub trim_right : Bytes → Bytes
trim_right [] = []
trim_right (b ∷ bs) =
    let rest = trim_right bs in if length rest == 0 && b == b' ' then [] else b ∷ rest

unfoldable pub up_to : Bytes → Option ℕ → Bytes
up_to t none = t
up_to t (some i) = trim_right (take i t)

-- `ShouldCompress`.
unfoldable pub should_compress : Unicode → Bytes → ℕ → Bool
should_compress u media_type size =
    if ltb size min_deflate_size
    then false
    else let t = u.to_lower media_type in
      not (contains (up_to t (index b';' t)) incompressible_types)

module _ (deflate : Bytes → Bytes) where
  -- `probeSample`; none is a source that ends before the sample does.
  unfoldable pub probe_sample : Bytes → ℕ → Option Bool
  probe_sample source size =
      let n = min size deflate_sample_size in
      if ltb (length source) n
      then none
      else some (ltb (length (deflate (take n source))) (n * 8 / 10))

  -- The full pass. The sizes are uint32 values, and so is eight times the size.
  unfoldable pub compress_all : Bytes → ℕ → Option Bytes
  compress_all source size =
      let packed = deflate source in
      if leb (size * 8 % 2 ^ 32 / 10) (length packed % 2 ^ 32) then none else some packed

  unfoldable pub by_sample : Bytes → ℕ → Option Bool → Option (Option Bytes)
  by_sample source size none = none
  by_sample source size (some promising) =
      some (if promising then compress_all source size else none)

  -- `TryCompress`: none is an error; else the compressed file, if it is worthwhile.
  unfoldable pub try_compress : Bytes → ℕ → Option (Option Bytes)
  try_compress source size =
      if ltb deflate_sample_size size
      then by_sample source size (probe_sample source size)
      else some (compress_all source size)
