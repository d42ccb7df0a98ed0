-- ===== src/Receive/Serve.antt =====
-- One connection from header to close (cmd/fmsgd/host.go): `handleConn`, `challenge` and
-- `closedWithoutData`. Log lines and deadlines are left out.
pub mod Asked
use fmsgd.Prelude.{
  ℕ, Bool, true, false, not, ◌&&◌, ◌||◌, List, [], ◌∷◌, ◌++◌, Option, none, some, ◌==◌,
  if◌then◌else◌, length, Bytes,
}
use fmsgd.Conn.{
  Conn, Error, eof, read_failed, bad_challenge_response, Outcome, ok, err, panicked, M, pure, fail,
  then_with, ◌>>=◌, ◌>>◌, send_code,
}
use fmsgd.Conn.Read.{read_at_most}
use fmsgd.Wire.{Address, Header, has, flag_has_add_to}
use fmsgd.Wire.Hash.{Files, get_header_hash}
use fmsgd.Receive.{
  Config, reject_code_undisclosed, reject_code_duplicate, accept_code_add_to, accept_code_skip_data,
  accept_code_continue,
}
use fmsgd.Receive.Version.{Answer, write_bytes}
use fmsgd.Receive.Host.{Host}
use fmsgd.Receive.Admit.{read_header}
use fmsgd.Receive.Delivery.{
  ChallengeMode, should_challenge, local_recipients, all_local_recipients_have_message_hash,
  resolve_post_challenge_code,
}
use fmsgd.Receive.Download.{Inbox, download_message}

-- How the connection ends: closed in order, reset, or left to the runtime after a panic.
pub data Closing : Type 0 where
  closed_in_order aborted recovered : Closing

-- What `handleConn` has beside the header's checks. `second` is the connection that `tls.Dial`
-- opens for a challenge, with whether it closes without an error.
pub record Server : Type 0 where
  pub host : Host
  pub cfg : Config
  pub fuel : ℕ
  pub outgoing : Bytes → Answer
  pub mode : ChallengeMode
  pub participated : Bytes → Bytes → Option Bool
  pub second : Option (Conn × Bool)
  pub inbox : Inbox
  pub store_header_only : Header → Bool

-- `closedWithoutData`, on the connection as it was before the first read. A read that fails is taken
-- for that of a connection that was reset.
unfoldable pub closed_without_data : Conn → Error → Bool
closed_without_data c eof = length c.input == 0
closed_without_data c read_failed = length c.input == 0
closed_without_data c e = false

-- `challenge` on the second connection: version 255, the header hash, and 32 bytes back.
unfoldable pub ask : Files → Header → M Header
ask fs h =
    let (hashed, hash) = get_header_hash fs h in
    (do
      write_bytes (255 ∷ [])
      write_bytes hash
      resp ← read_at_most 32
      if not (length resp == 32)
          then fail bad_challenge_response
          else pure (record hashed { challenge_hash = resp; challenge_completed = true }))

unfoldable pub answer_of : Bool → Outcome Header → Option Header
answer_of closes (ok h c) = if closes then some h else none
answer_of closes (err e c) = none
answer_of closes (panicked c) = none

unfoldable pub ask_second : Files → Header → Option (Conn × Bool) → Option Header
ask_second fs h none = none
ask_second fs h (some (c, closes)) = answer_of closes (ask fs h c)

unfoldable pub from_remote : Server → Header → Option Bytes → Option Header
from_remote s h none = none
from_remote s h (some remote) = ask_second s.host.files h s.second

-- `challenge`: none is an error.
unfoldable pub challenge : Server → Header → Option Header
challenge s h = from_remote s h s.host.remote_host

-- `sendCode`, and how the connection ends behind it: by the flag after an error.
unfoldable pub closed_with : Closing → Outcome (Unit {0}) → Conn × Closing
closed_with failed (ok x d) = (d, closed_in_order)
closed_with failed (err e d) = (d, failed)
closed_with failed (panicked d) = (d, recovered)

unfoldable pub end_with : ℕ → Closing → Conn → Conn × Closing
end_with code failed c = closed_with failed (send_code code c)

module _ (s : Server) where
  unfoldable pub end_of_download : Outcome (Unit {0}) → Conn × Closing
  end_of_download (ok x c) = (c, closed_in_order)
  end_of_download (err e c) = (c, aborted)
  end_of_download (panicked c) = (c, recovered)

  -- Codes 64 and 65: the code is sent, and the download follows.
  unfoldable pub accept_with : ℕ → Bool → Header → Outcome (Unit {0}) → Conn × Closing
  accept_with code skip_data h (ok x c) =
      end_of_download (download_message s.inbox s.cfg s.host h skip_data c)
  accept_with code skip_data h (err e c) = (c, aborted)
  accept_with code skip_data h (panicked c) = (c, recovered)

  -- The switch on the initial response code.
  unfoldable pub respond_with : ℕ → Header → Conn → Conn × Closing
  respond_with code h c =
      if code == accept_code_add_to
      then if s.store_header_only h
        then end_with accept_code_add_to aborted c
        else end_with reject_code_undisclosed aborted c
      else if code == reject_code_duplicate
      then end_with reject_code_duplicate closed_in_order c
      else if code == accept_code_skip_data
      then accept_with accept_code_skip_data true h (send_code accept_code_skip_data c)
      else accept_with accept_code_continue false h (send_code accept_code_continue c)

  -- The hash by which a message is a duplicate.
  unfoldable pub dup_hash : Header → Bytes
  dup_hash h = if has h.flags flag_has_add_to then h.pid else h.challenge_hash

  unfoldable pub on_duplicates : Header → Conn → Option Bool → Conn × Closing
  on_duplicates h c none = end_with reject_code_undisclosed aborted c
  on_duplicates h c (some all_local_dup) =
      respond_with
        (resolve_post_challenge_code h.initial_response_code h.challenge_completed all_local_dup) h
        c

  -- The duplicate check is made for a completed challenge, but not for code 11.
  unfoldable pub check_duplicates : Header → Option Bool
  check_duplicates h =
      if h.challenge_completed && not (h.initial_response_code == accept_code_add_to)
      then all_local_recipients_have_message_hash (s.inbox.received (dup_hash h))
          (local_recipients s.cfg h).0
      else some false

  unfoldable pub after_challenge : Conn → Option Header → Conn × Closing
  after_challenge c none = (c, aborted)
  after_challenge c (some h) = on_duplicates h c (check_duplicates h)

  unfoldable pub on_challenge_mode : Header → Conn → Option Bool → Conn × Closing
  on_challenge_mode h c none = (c, aborted)
  on_challenge_mode h c (some true) = after_challenge c (challenge s h)
  on_challenge_mode h c (some false) = after_challenge c (some h)

  -- `first` is the connection before the header was read.
  unfoldable pub after_header : Conn → Outcome (Option Header) → Conn × Closing
  after_header first (ok none c) = (c, closed_in_order)
  after_header first (ok (some h) c) =
      on_challenge_mode h c (should_challenge s.mode s.participated s.cfg.domain h)
  after_header first (err e c) =
      if closed_without_data first e
      then (c, aborted)
      else if length c.sent == 0
      then (c, aborted)
      else (c, closed_in_order)
  after_header first (panicked c) = (c, recovered)

  -- `handleConn`, from a connection that nothing has been sent on.
  unfoldable pub handle_conn : Conn → Conn × Closing
  handle_conn c = after_header c (read_header s.cfg s.host s.fuel s.outgoing c)
