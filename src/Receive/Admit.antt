-- ===== src/Receive/Admit.antt =====
-- The whole of `readHeader` (cmd/fmsgd/host.go): the wire fields, then the participants, the
-- sender's address and the parent.
use fmsgd.Prelude.{ℕ, Bool, not, ◌&&◌, ◌||◌, Option, none, some, ◌==◌, if◌then◌else◌, length, Bytes}
use fmsgd.Conn.{no_participants, M, pure, ◌>>=◌, ◌>>◌, reject}
use fmsgd.Wire.{Header}
use fmsgd.Receive.{Config, has_domain_recipient, reject_code_invalid}
use fmsgd.Receive.Version.{Answer}
use fmsgd.Receive.WireHeader.{read_wire}
use fmsgd.Receive.Host.{Host, determine_sender_domain, verify_sender_ip}
use fmsgd.Receive.Parents.{handle_add_to_path, validate_pid_reply_path}

module _ (cfg : Config) (host : Host) (fuel : ℕ) where
  -- A recipient of the domain, or for an add-to its sender.
  unfoldable pub has_local_participant : Header → Bool
  has_local_participant h =
      has_domain_recipient cfg.unicode h.to cfg.domain
      || (has_domain_recipient cfg.unicode h.add_to cfg.domain
          || (not (length h.add_to == 0) && cfg.unicode.equal_fold h.from.domain cfg.domain))

  -- What `readHeader` checks behind the attachment headers.
  unfoldable pub admit : Header → M Header
  admit h =
      if not (has_local_participant h) then reject reject_code_invalid no_participants else (do
        verify_sender_ip host (determine_sender_domain h)
        resolved ← handle_add_to_path cfg host fuel h
        validate_pid_reply_path cfg host fuel resolved
        pure resolved)

  unfoldable pub admit_read : Option Header → M (Option Header)
  admit_read none = pure none
  admit_read (some h) = do admitted ← admit h; pure (some admitted)

  -- `readHeader`.
  unfoldable pub read_header : (Bytes → Answer) → M (Option Header)
  read_header outgoing = do read ← read_wire outgoing cfg; admit_read read
