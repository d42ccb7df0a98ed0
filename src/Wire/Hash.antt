-- ===== src/Wire/Hash.antt =====
-- The hashes of a message (pkg/fmsg/fmsg.go): `GetHeaderHash`, `GetMessageHash` and `HashPayload`.
-- SHA-256, zlib and the file system are the record `Files`.
pub mod Cached
use fmsgd.Prelude.{
  ℕ, ◌+◌, ◌%◌, ◌^◌, Bool, true, false, List, [], ◌∷◌, ◌++◌, Option, none, some, ltb, ◌==◌,
  if◌then◌else◌, length, take, Bytes,
}
use fmsgd.Wire.{Header, AttachmentHeader, has, flag_deflate, attachment_deflate}
use fmsgd.Wire.Encode.{encode}
use fmsgd.Prelude.Options.{◌>>=◌}

-- `sha256` of all that was written; `content` of the file at a path, when it opens; `inflate`, what
-- a zlib reader gives for a whole stream, when it meets no error.
pub record Files : Type 0 where
  pub sha256 : Bytes → Bytes
  pub content : Bytes → Option Bytes
  pub inflate : Bytes → Option Bytes

unfoldable pub get_header_hash : Files → Header → Header × Bytes
get_header_hash fs h = elim h.header_hash [
  | some x ↦ (h, x)
  | none ↦ let x = fs.sha256 (encode h) in (record h { header_hash = some x }, x)
]

-- `HashPayload`: the bytes written to the hash.
unfoldable pub hash_payload : Files → Bytes → ℕ → Bool → ℕ → Option Bytes
hash_payload fs path size deflated expanded = do
  f ← fs.content path
  if deflated
      then (do
        written ← fs.inflate (take size f)
        if length written % 2 ^ 32 == expanded then some written else none)
      else if ltb (length f) size
      then none
      else some (take size f)

unfoldable pub hash_attachments : Files → List AttachmentHeader → Option Bytes
hash_attachments fs [] = some []
hash_attachments fs (a ∷ as_) = do
  data_ ← hash_payload fs a.filepath a.size (has a.flags attachment_deflate) a.expanded_size
  rest ← hash_attachments fs as_
  some (data_ ++ rest)

-- All that `GetMessageHash` writes to the hash.
unfoldable pub message_bytes : Files → Header → Option Bytes
message_bytes fs h = do
  body ← hash_payload fs h.filepath h.size (has h.flags flag_deflate) h.expanded_size
  attached ← hash_attachments fs h.attachments
  some (encode h ++ (body ++ attached))

unfoldable pub keep_hash : Files → Header → Option Bytes → Option (Header × Bytes)
keep_hash fs h none = none
keep_hash fs h (some bytes) =
    let x = fs.sha256 bytes in some (record h { message_hash = some x }, x)

-- The hash kept in the header, or a new one.
unfoldable pub kept_or_new : Files → Header → Option Bytes → Option (Header × Bytes)
kept_or_new fs h (some x) = some (h, x)
kept_or_new fs h none = keep_hash fs h (message_bytes fs h)

-- `GetMessageHash`: the header with the hash kept in it, and the hash.
unfoldable pub get_message_hash : Files → Header → Option (Header × Bytes)
get_message_hash fs h = kept_or_new fs h h.message_hash
