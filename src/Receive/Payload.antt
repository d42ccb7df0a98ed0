-- ===== src/Receive/Payload.antt =====
-- Reading the payload of a message (cmd/fmsgd/host.go): `prepareMessageData`, and
-- `canonicalMsgHash` of cmd/fmsgd/store.go.
use fmsgd.Prelude.{
  ℕ, ◌+◌, Bool, not, List, [], ◌∷◌, Option, none, some, ltb, ◌==◌, if◌then◌else◌, length, take,
  drop, Bytes, bytes_eq,
}
use fmsgd.Conn.{
  eof, lookup_failed, parent_data_unavailable, attachment_mismatch, temp_failed, ok, err, M, pure,
  fail, ◌>>=◌,
}
use fmsgd.Conn.Read.{ending_error}
use fmsgd.Wire.{AttachmentHeader, Header, has, flag_has_add_to}
use fmsgd.Wire.Hash.{Files, get_message_hash}
use fmsgd.Receive.Host.{Host, or_fail}

-- `io.CopyN` of `n` bytes of the connection to a file: all of them, or an error.
unfoldable pub copy_n : ℕ → M Bytes
unfolding ending_error
copy_n n c =
    if ltb (length c.input) n
    then err (ending_error c.ending eof) (record c { input = [] })
    else ok (take n c.input) (record c { input = drop n c.input })

-- The files that the download has created, with their contents, before those there already.
abbrev pub Created : Type 0
Created = List (Bytes × Bytes)

unfoldable pub content_of : Created → (Bytes → Option Bytes) → Bytes → Option Bytes
content_of [] old path = old path
content_of ((p, content) ∷ rest) old path =
    if bytes_eq p path then some content else content_of rest old path

unfoldable pub with_created : Created → Files → Files
with_created created fs = record fs { content = content_of created fs.content }

-- The paths of a stored parent, mapped in one by one; each must be there.
unfoldable pub map_paths : List AttachmentHeader → List AttachmentHeader → M (List AttachmentHeader)
map_paths [] parents = pure []
map_paths (a ∷ as_) [] = pure (a ∷ as_)
map_paths (a ∷ as_) (p ∷ ps) =
    if length p.filepath == 0
    then fail parent_data_unavailable
    else (do rest ← map_paths as_ ps; pure (record a { filepath = p.filepath } ∷ rest))

unfoldable pub map_parent : Header → Option Header → M Header
map_parent h none = fail parent_data_unavailable
map_parent h (some parent) =
    if length parent.filepath == 0
    then fail parent_data_unavailable
    else if not (length parent.attachments == length h.attachments)
    then fail attachment_mismatch
    else (do
      attachments ← map_paths h.attachments parent.attachments
      pure (record h { filepath = parent.filepath; attachments = attachments }))

-- The half for code 65: the stored parent's data.
unfoldable pub use_parent_data : Host → Header → M Header
use_parent_data host h = do
  id ← or_fail lookup_failed (host.msg_id_by_hash h.pid)
  if id == 0
      then fail parent_data_unavailable
      else (do parent ← or_fail lookup_failed (host.msg_by_id id); map_parent h parent)

module _ (create_temp : ℕ → Option Bytes) where
  -- The attachment payloads in order, each in a new file. `i` numbers the files.
  unfoldable pub read_attachments :
      ℕ → List AttachmentHeader → Created → M (List AttachmentHeader × Created)
  read_attachments i [] created = pure ([], created)
  read_attachments i (a ∷ as_) created = do
    path ← or_fail temp_failed (create_temp i)
    content ← copy_n a.size
    (rest, all) ← read_attachments (i + 1) as_ ((path, content) ∷ created)
    pure (record a { filepath = path } ∷ rest, all)

  -- The half for code 64: the body, and the attachments behind it.
  unfoldable pub read_data : Header → M (Header × Created)
  read_data h = do
    path ← or_fail temp_failed (create_temp 0)
    content ← copy_n h.size
    (attachments, created) ← read_attachments 1 h.attachments ((path, content) ∷ [])
    pure (record h { filepath = path; attachments = attachments }, created)

  -- `prepareMessageData`, but for the errors of closing and of writing a temporary file. What it
  -- created is removed on an error, and so given only on success.
  unfoldable pub prepare_message_data : Host → Header → Bool → M (Header × Created)
  prepare_message_data host h skip_data =
      if skip_data then (do mapped ← use_parent_data host h; pure (mapped, [])) else read_data h

-- `canonicalMsgHash`: the header, with the hash kept when one is computed, and the hash.
unfoldable pub canonical_msg_hash : Files → Header → Option (Header × Bytes)
canonical_msg_hash fs h =
    if has h.flags flag_has_add_to then some (h, h.pid) else get_message_hash fs h
