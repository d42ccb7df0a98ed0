-- ===== src/Receive/Version.antt =====
-- The first byte of a connection and the flags (cmd/fmsgd/host.go): `handleChallenge`,
-- `readVersionOrChallenge` and `validateMessageFlags`.
use fmsgd.Prelude.{ℕ, ◌-◌, Bool, true, false, ◌&&◌, ◌++◌, leb, ◌==◌, if◌then◌else◌, length, Bytes}
use fmsgd.Conn.{
  unknown_challenge, unsupported_version, reserved_flags, terminal_add_to, hash_failed,
  write_failed, ok, err, panicked, M, pure, fail, ◌>>=◌, ◌>>◌, reject,
}
use fmsgd.Conn.Read.{read_byte, read_at_most}
use fmsgd.Wire.{Header, has, flag_has_add_to, flag_terminal}
use fmsgd.Receive.{reject_code_invalid}

abbrev pub message_reserved_bits_mask : ℕ
message_reserved_bits_mask = 128

-- `validateMessageFlags`.
unfoldable pub validate_message_flags : ℕ → M (Unit {0})
unfolding has reject
validate_message_flags flags =
    if has flags message_reserved_bits_mask
    then reject reject_code_invalid reserved_flags
    else if has flags flag_has_add_to && has flags flag_terminal
    then reject reject_code_invalid terminal_add_to
    else pure tt

-- What the challenge handler finds for a header hash and the challenger's address: the message
-- hash to answer with (`lookupOutgoing`, then `GetMessageHash`).
pub data Answer : Type 0 where
  not_outgoing hash_error : Answer
  answer : Bytes → Answer

unfoldable pub write_bytes : Bytes → M (Unit {0})
write_bytes bs c =
    if c.writable then ok tt (record c { sent = c.sent ++ bs }) else err write_failed c

unfoldable pub respond : Answer → M (Unit {0})
unfolding write_bytes
respond not_outgoing = fail unknown_challenge
respond hash_error = fail hash_failed
respond (answer bs) = write_bytes bs

-- `handleChallenge`. Converting fewer than 32 bytes to an array panics.
unfoldable pub handle_challenge : (Bytes → Answer) → M (Unit {0})
unfolding respond read_at_most
handle_challenge outgoing = do
  hash ← read_at_most 32
  if length hash == 32 then respond (outgoing hash) else panicked

-- `readVersionOrChallenge`: whether the connection was a challenge, and the header.
unfoldable pub read_version_or_challenge : (Bytes → Answer) → Header → M (Bool × Header)
unfolding read_byte handle_challenge
read_version_or_challenge outgoing h = do
  v ← read_byte
  if leb 129 v
      then (if 256 - v == 1
          then (do handle_challenge outgoing; pure (true, h))
          else fail unsupported_version)
      else if v == 1
      then pure (false, record h { version = v })
      else fail unsupported_version
