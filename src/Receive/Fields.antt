-- ===== src/Receive/Fields.antt =====
-- The time and the media types of a header (cmd/fmsgd/host.go): `readAndValidateTimestamp`,
-- `readMessageType` and `readAttachmentType`.
use fmsgd.Prelude.{ℕ, Bool, true, ◌&&◌, [], ◌∷◌, Option, none, some, leb, if◌then◌else◌, Bytes}
use fmsgd.Conn.{past_time, future_time, unmapped_type, non_ascii_type, M, pure, ◌>>=◌, reject}
use fmsgd.Conn.Read.{read_byte, read_little, read_uint8_slice}
use fmsgd.Wire.{Header, has, flag_common_type, attachment_common_type}
use fmsgd.Wire.MediaTypes.{get_common_media_type}
use fmsgd.Receive.{reject_code_invalid, reject_code_past_time, reject_code_future_time, Config}

-- Whether the time lies too far back, and too far ahead. Both deltas are off at 0.
unfoldable pub is_past : Config → ℕ → Bool
is_past cfg t =
    cfg.float.gt cfg.past_time_delta 0 && cfg.float.gt (cfg.float.sub cfg.now t) cfg.past_time_delta

unfoldable pub is_future : Config → ℕ → Bool
is_future cfg t =
    let delta = cfg.float.sub cfg.now t in
    cfg.float.gt cfg.future_time_delta 0
    && cfg.float.gt 0 delta
    && cfg.float.gt (cfg.float.abs delta) cfg.future_time_delta

unfoldable pub read_and_validate_timestamp : Config → Header → M Header
read_and_validate_timestamp cfg h = do
  t ← read_little 8
  if is_past cfg t
      then reject reject_code_past_time past_time
      else if is_future cfg t
      then reject reject_code_future_time future_time
      else pure (record h { timestamp = t })

-- `isASCIIBytes`.
unfoldable pub is_ascii_bytes : Bytes → Bool
is_ascii_bytes [] = true
is_ascii_bytes (b ∷ bs) = leb b 127 && is_ascii_bytes bs

unfoldable pub mapped : ℕ → Option Bytes → M (Bytes × ℕ)
unfolding reject
mapped id none = reject reject_code_invalid unmapped_type
mapped id (some name) = pure (name, id)

-- The two type fields are read alike: the name, and the id or 0. (`readMessageType` leaves the
-- header's `TypeID` as it is without the flag; it is 0 there.)
unfoldable pub read_type : ℕ → ℕ → M (Bytes × ℕ)
unfolding mapped
read_type flags mask =
    if has flags mask then (do id ← read_byte; mapped id (get_common_media_type id)) else (do
      name ← read_uint8_slice
      if is_ascii_bytes name then pure (name, 0) else reject reject_code_invalid non_ascii_type)

unfoldable pub read_attachment_type : ℕ → M (Bytes × ℕ)
read_attachment_type flags = read_type flags attachment_common_type

unfoldable pub read_message_type : Header → M Header
read_message_type h = do
  (name, id) ← read_type h.flags flag_common_type
  pure (record h {
    media_type = name;
    type_id = if has h.flags flag_common_type then id else h.type_id;
  })
