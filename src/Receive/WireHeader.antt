-- ===== src/Receive/WireHeader.antt =====
-- The fields of a header in the order of `readHeader` (cmd/fmsgd/host.go), from the flags to the
-- attachment headers. The read deadline and the log line are left out.
use fmsgd.Prelude.{false, [], ◌++◌, Option, none, some, ltb, if◌then◌else◌, take, replicate, Bytes}
use fmsgd.Conn.{too_big, M, pure, ◌>>=◌, ◌>>◌, reject}
use fmsgd.Conn.Read.{read_byte, read_little, read_at_most, read_uint8_slice, read_address}
use fmsgd.Wire.{Header, has, flag_has_pid, flag_deflate}
use fmsgd.Receive.{reject_code_too_big, accept_code_continue, Config}
use fmsgd.Receive.Version.{Answer, read_version_or_challenge, validate_message_flags}
use fmsgd.Receive.Recipients.{read_to_recipients, read_add_to_recipients}
use fmsgd.Receive.Fields.{read_and_validate_timestamp, read_message_type}
use fmsgd.Receive.Attachments.{read_attachment_headers}

-- The header as `readHeader` makes it: zero values, and response code 64.
abbrev pub blank : Header
blank = record {
  version = 0;
  flags = 0;
  pid = [];
  from = record { user = []; domain = [] };
  to = [];
  add_to_from = none;
  add_to = [];
  timestamp = 0;
  type_id = 0;
  topic = [];
  media_type = [];
  size = 0;
  expanded_size = 0;
  attachments = [];
  header_hash = none;
  challenge_hash = replicate 32 0;
  challenge_completed = false;
  initial_response_code = accept_code_continue;
  filepath = [];
  stored_wire = [];
  message_hash = none;
}

-- `make([]byte, 32)` with the bytes read copied to its front.
unfoldable pub padded : Bytes → Bytes
padded bs = take 32 (bs ++ replicate 32 0)

unfoldable pub read_flags : Header → M Header
read_flags h = do flags ← read_byte; validate_message_flags flags; pure (record h { flags = flags })

unfoldable pub read_pid : Header → M Header
unfolding padded
read_pid h =
    if has h.flags flag_has_pid
    then (do pid ← read_at_most 32; pure (record h { pid = padded pid }))
    else pure h

unfoldable pub read_from : Config → Header → M Header
read_from cfg h = do from ← read_address cfg.unicode; pure (record h { from = from })

unfoldable pub read_topic : Header → M Header
read_topic h =
    if has h.flags flag_has_pid
    then pure h
    else (do topic ← read_uint8_slice; pure (record h { topic = topic }))

unfoldable pub read_size : Header → M Header
read_size h = do size ← read_little 4; pure (record h { size = size })

unfoldable pub read_expanded_size : Config → Header → M Header
read_expanded_size cfg h =
    if has h.flags flag_deflate
    then (do
      expanded ← read_little 4
      if ltb cfg.max_expanded_size expanded
          then reject reject_code_too_big too_big
          else pure (record h { expanded_size = expanded }))
    else pure h

-- Everything behind the version byte.
unfoldable pub read_fields : Config → Header → M Header
read_fields cfg h = do
  flagged ← read_flags h
  replying ← read_pid flagged
  sent_by ← read_from cfg replying
  sent_to ← read_to_recipients cfg.unicode sent_by
  added ← read_add_to_recipients cfg.unicode sent_to
  timed ← read_and_validate_timestamp cfg added
  titled ← read_topic timed
  typed ← read_message_type titled
  measured ← read_size typed
  expanded ← read_expanded_size cfg measured
  read_attachment_headers cfg expanded

-- The reading half of `readHeader`: none for a challenge, which has then been answered.
unfoldable pub read_wire : (Bytes → Answer) → Config → M (Option Header)
read_wire outgoing cfg = do
  (handled, h) ← read_version_or_challenge outgoing blank
  if handled then pure none else (do read ← read_fields cfg h; pure (some read))
