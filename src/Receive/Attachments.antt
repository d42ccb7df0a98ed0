-- ===== src/Receive/Attachments.antt =====
-- The attachment headers (cmd/fmsgd/host.go): `validateAttachmentFlags` and
-- `readAttachmentHeaders`. Sizes are uint32, so both totals wrap at 2^32.
use fmsgd.Prelude.{ℕ, zero, suc, ◌+◌, ◌%◌, ◌^◌, not, List, [], ◌∷◌, ◌++◌, ltb, if◌then◌else◌, Bytes}
use fmsgd.Address.{is_valid_attachment_filename}
use fmsgd.Conn.{
  reserved_attachment_flags, bad_filename, duplicate_filename, too_big, M, pure, ◌>>=◌, ◌>>◌,
  reject,
}
use fmsgd.Conn.Read.{read_byte, read_little, read_uint8_slice}
use fmsgd.Text.{Unicode}
use fmsgd.Wire.{Header, AttachmentHeader, has, flag_deflate, attachment_deflate}
use fmsgd.Receive.{reject_code_invalid, reject_code_too_big, Config, contains}
use fmsgd.Receive.Fields.{read_attachment_type}

abbrev pub attachment_reserved_bits_mask : ℕ
attachment_reserved_bits_mask = 252

abbrev pub add32 : ℕ → ℕ → ℕ
add32 a b = (a + b) % 2 ^ 32

unfoldable pub validate_attachment_flags : ℕ → M (Unit {0})
unfolding has
validate_attachment_flags flags =
    if has flags attachment_reserved_bits_mask
    then reject reject_code_invalid reserved_attachment_flags
    else pure tt

-- The variables of the loop.
pub record Totals : Type 0 where
  pub size : ℕ
  pub expanded : ℕ
  pub seen : List Bytes
  pub read : List AttachmentHeader

-- The expanded size is on the wire only with the deflate flag.
unfoldable pub read_expanded : ℕ → ℕ → M ℕ
read_expanded flags mask = if has flags mask then read_little 4 else pure 0

-- What one attachment adds to the totals.
unfoldable pub add_attachment : Totals → Bytes → AttachmentHeader → Totals
add_attachment t key a = record {
  size = add32 t.size a.size;
  expanded = add32 t.expanded (if has a.flags attachment_deflate then a.expanded_size else a.size);
  seen = key ∷ t.seen;
  read = t.read ++ a ∷ [];
}

-- The part of one attachment header behind the filename.
unfoldable pub read_sizes : Totals → ℕ → Bytes × ℕ → Bytes → Bytes → M Totals
read_sizes t flags (name, id) filename key = do
  size ← read_little 4
  expanded ← read_expanded flags attachment_deflate
  pure (
      add_attachment t key (record {
        flags = flags;
        type_id = id;
        media_type = name;
        filename = filename;
        size = size;
        expanded_size = expanded;
        filepath = [];
      }))

unfoldable pub read_attachment : Unicode → Totals → M Totals
read_attachment u t = do
  flags ← read_byte
  validate_attachment_flags flags
  typed ← read_attachment_type flags
  filename ← read_uint8_slice
  if not (is_valid_attachment_filename u filename)
      then reject reject_code_invalid bad_filename
      else if contains (u.to_lower filename) t.seen
      then reject reject_code_invalid duplicate_filename
      else read_sizes t flags typed filename (u.to_lower filename)

unfoldable pub read_attachment_loop : Unicode → ℕ → Totals → M Totals
read_attachment_loop u zero t = pure t
read_attachment_loop u (suc n) t = do t' ← read_attachment u t; read_attachment_loop u n t'

-- The totals before the first attachment: the message's own sizes.
unfoldable pub body_totals : Header → Totals
body_totals h = record {
  size = h.size;
  expanded = if has h.flags flag_deflate then h.expanded_size else h.size;
  seen = [];
  read = h.attachments;
}

unfoldable pub check_totals : Config → Header → Totals → M Header
check_totals cfg h t =
    if ltb cfg.max_message_size t.size
    then reject reject_code_too_big too_big
    else if ltb cfg.max_expanded_size t.expanded
    then reject reject_code_too_big too_big
    else pure (record h { attachments = t.read })

unfoldable pub read_attachment_headers : Config → Header → M Header
read_attachment_headers cfg h = do
  count ← read_little 1
  t ← read_attachment_loop cfg.unicode count (body_totals h)
  check_totals cfg h t
