-- ===== src/Prepare.antt =====
-- Preparing a message for the wire (pkg/fmsg/prepare.go, pkg/fmsg/deflate.go): `Clone`,
-- `ApplyCommonTypes`, `preparePart`, `Prepare` and `UnmarshalPrepared`.
pub mod Deflate
pub mod Payloads
use fmsgd.Prelude.{
  ℕ, ◌+◌, ◌-◌, ◌%◌, ◌^◌, Bool, true, false, not, ◌&&◌, ◌||◌, List, [], ◌∷◌, ◌++◌, Option, none,
  some, ltb, leb, ◌==◌, if◌then◌else◌, length, take, Bytes, bytes_eq,
}
use fmsgd.Prelude.Options.{◌>>=◌}
use fmsgd.Text.{Unicode}
use fmsgd.Wire.{
  AttachmentHeader, Header, has, flag_has_pid, flag_common_type, flag_deflate,
  attachment_common_type, attachment_deflate,
}
use fmsgd.Wire.Hash.{Files, get_message_hash}
use fmsgd.Wire.MediaTypes.{get_common_media_type_id}
use fmsgd.Receive.Payload.{Created, with_created}
use fmsgd.Prepare.Deflate.{should_compress, try_compress}

-- `Clone`: a header without its cached hashes.
unfoldable pub clone : Header → Header
clone h = record h { header_hash = none; message_hash = none }

-- A flag of one bit set, and cleared.
unfoldable pub set_flag : ℕ → ℕ → ℕ
set_flag flags mask = if has flags mask then flags else flags + mask

unfoldable pub clear_flag : ℕ → ℕ → ℕ
clear_flag flags mask = if has flags mask then flags - mask else flags

-- `ApplyCommonTypes`: the compact form of the types that have a number.
unfoldable pub with_common : Header → Option ℕ → Header
with_common h none = h
with_common h (some id) =
    if has h.flags flag_common_type
    then h
    else record h { flags = set_flag h.flags flag_common_type; type_id = id }

unfoldable pub attachment_with_common : AttachmentHeader → Option ℕ → AttachmentHeader
attachment_with_common a none = a
attachment_with_common a (some id) =
    if has a.flags attachment_common_type
    then a
    else record a { flags = set_flag a.flags attachment_common_type; type_id = id }

unfoldable pub common_attachments : List AttachmentHeader → List AttachmentHeader
common_attachments [] = []
common_attachments (a ∷ as_) =
    attachment_with_common a (get_common_media_type_id a.media_type) ∷ common_attachments as_

unfoldable pub apply_common_types : Header → Header
apply_common_types h =
    let typed = with_common h (get_common_media_type_id h.media_type) in
    record typed { attachments = common_attachments h.attachments }

-- A part as it is written: its size and content, and the expanded size, 0 if it is not compressed.
pub record Part : Type 0 where
  pub size : ℕ
  pub expanded_size : ℕ
  pub content : Bytes

module _ (u : Unicode) (deflate : Bytes → Bytes) where
  -- The copy of `size` bytes of the source.
  unfoldable pub copy_part : Bytes → ℕ → ℕ → Option Part
  copy_part source size expanded =
      if ltb (length source) size
      then none
      else some (record { size = size; expanded_size = expanded; content = take size source })

  -- The file that `TryCompress` gives, if it is worthwhile; its size is a uint32.
  unfoldable pub part_of : Bytes → ℕ → Option (Option Bytes) → Option Part
  part_of source size none = none
  part_of source size (some none) = copy_part source size 0
  part_of source size (some (some packed)) = copy_part packed (length packed % 2 ^ 32) size

  -- `preparePart` on the content of the source, when it can be read.
  unfoldable pub prepare_part : Option Bytes → ℕ → Bytes → Option Part
  prepare_part none size media_type = none
  prepare_part (some source) size media_type =
      if not (length source == size)
      then none
      else if should_compress u media_type size
      then part_of source size (try_compress deflate source size)
      else copy_part source size 0

  module _ (fs : Files) (part_path : ℕ → Bytes) where
    unfoldable pub prepare_attachment : ℕ → AttachmentHeader → Option (AttachmentHeader × Bytes)
    prepare_attachment i a =
        if length a.filename == 0
          || (ltb 255 (length a.filename)
              || (length a.media_type == 0 || ltb 255 (length a.media_type)))
        then none
        else (do
          part ← prepare_part (fs.content a.filepath) a.size a.media_type
          let flags = clear_flag a.flags attachment_deflate
          some (
            record a {
              flags = if ltb 0 part.expanded_size then set_flag flags attachment_deflate else flags;
              filepath = part_path i;
              size = part.size;
              expanded_size = part.expanded_size;
            },
            part.content,
          ))

    unfoldable pub prepare_attachments :
        ℕ → List AttachmentHeader → Created → Option (List AttachmentHeader × Created)
    prepare_attachments i [] created = some ([], created)
    prepare_attachments i (a ∷ as_) created = do
      (prepared, content) ← prepare_attachment i a
      (rest, all) ← prepare_attachments (i + 1) as_ ((part_path i, content) ∷ created)
      some (prepared ∷ rest, all)

    -- The checks of `Prepare` on the header.
    unfoldable pub is_preparable : Header → Bool
    is_preparable h =
        h.version == 1
        && (not (length h.to == 0)
            && (leb (length h.to) 255
                && (leb (length h.attachments) 255
                    && (leb (length h.topic) 255
                        && (not (length h.media_type == 0)
                            && (leb (length h.media_type) 255
                                && (if has h.flags flag_has_pid
                                    then length h.pid == 32
                                    else not (length h.pid == 32))))))))

    -- `Prepare`: the header with its hash kept, and the files that were created.
    unfoldable pub prepare : Header → Option (Header × Created)
    prepare input =
        let h = clone input in
        if not (is_preparable h) then none else (do
          part ← prepare_part (fs.content h.filepath) h.size h.media_type
          (attachments, created) ←
              prepare_attachments 1 h.attachments ((part_path 0, part.content) ∷ [])
          let flags = clear_flag h.flags flag_deflate
          let written : Header = record h {
            flags = if ltb 0 part.expanded_size then set_flag flags flag_deflate else flags;
            filepath = part_path 0;
            size = part.size;
            expanded_size = part.expanded_size;
            attachments = attachments;
          }
          (hashed, hash) ← get_message_hash (with_created created fs) (apply_common_types written)
          some (hashed, created))

-- `UnmarshalPrepared` on the snapshot that the JSON holds: its version and its header.
unfoldable pub unmarshal_prepared : Files → Option (ℕ × Option Header) → Bytes → Option Header
unmarshal_prepared fs none expected = none
unmarshal_prepared fs (some (version, none)) expected = none
unmarshal_prepared fs (some (version, some header)) expected =
    if not (version == 1) then none else (do
      (h, hash) ← get_message_hash fs (clone header)
      if not (length expected == 32) || not (bytes_eq hash expected) then none else some h)
