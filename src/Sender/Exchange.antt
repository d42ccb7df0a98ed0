-- ===== src/Sender/Exchange.antt =====
-- One exchange with a host (cmd/fmsgd/sender.go): what `deliverUnit` writes and reads on its
-- connection, and `sendMsgData`.
pub mod Answered
pub mod Agreement
use fmsgd.Prelude.{
  ℕ, Bool, true, false, not, ◌&&◌, ◌||◌, List, [], ◌∷◌, ◌++◌, Option, none, some, ltb, leb, ◌==◌,
  if◌then◌else◌, length, take, Bytes,
}
use fmsgd.Text.{Unicode}
use fmsgd.Conn.{
  Conn, Error, eof, open_failed, invalid_code, unexpected_code, Outcome, ok, err, panicked, M, pure,
  fail, ◌>>=◌, ◌>>◌,
}
use fmsgd.Conn.Read.{read_byte, read_full}
use fmsgd.Wire.{Address, AttachmentHeader, Header, has, flag_has_add_to, to_string}
use fmsgd.Wire.Encode.{encode}
use fmsgd.Receive.{contains, accept_code_add_to, accept_code_skip_data, accept_code_continue}
use fmsgd.Receive.Version.{write_bytes}

-- A recipient of the message at the target's domain, and whether its row is locked.
pub record DomainRecip : Type 0 where
  pub addr : Bytes
  pub is_locked : Bool

module _ (u : Unicode) (domain : Bytes) (locked_set : List Bytes) where
  unfoldable pub append_domain : List Address → List DomainRecip → List DomainRecip
  append_domain [] recips = recips
  append_domain (a ∷ as_) recips = append_domain as_ (
      if u.equal_fold a.domain domain
      then recips
        ++ record { addr = to_string a; is_locked = contains (u.to_lower (to_string a)) locked_set }
          ∷ []
      else recips)

  -- The recipients of `to`, and behind them those of an add-to message.
  unfoldable pub domain_recips : Header → List DomainRecip
  domain_recips h =
      let from_to = append_domain h.to [] in
      if has h.flags flag_has_add_to then append_domain h.add_to from_to else from_to

-- `lockedSet`.
unfoldable pub lower_all : Unicode → List Bytes → List Bytes
lower_all u [] = []
lower_all u (a ∷ as_) = u.to_lower a ∷ lower_all u as_

-- `io.CopyN` of a file to the connection: a file that is too short is sent, and is an error.
unfoldable pub copy_file : Option Bytes → ℕ → M (Unit {0})
copy_file none size = fail open_failed
copy_file (some content) size =
    if ltb (length content) size
    then (do write_bytes content; fail eof)
    else write_bytes (take size content)

unfoldable pub send_attachments : (Bytes → Option Bytes) → List AttachmentHeader → M (Unit {0})
send_attachments content [] = pure tt
send_attachments content (a ∷ as_) = do
  copy_file (content a.filepath) a.size
  send_attachments content as_

-- `sendMsgData`.
unfoldable pub send_msg_data : (Bytes → Option Bytes) → Header → M (Unit {0})
send_msg_data content h = do
  copy_file (content h.filepath) h.size
  send_attachments content h.attachments

-- What the host answers: an add-to message is noted; the message is refused; or one code for each
-- recipient there, behind the initial code.
pub data Verdict : Type 0 where
  noted : Verdict
  rejected : ℕ → Verdict
  told : ℕ → Bytes → Verdict

module _ (content : Bytes → Option Bytes) (h : Header) (num : ℕ) where
  -- The codes of the recipients, of which there are `num`.
  unfoldable pub read_codes : ℕ → M Verdict
  read_codes init = do codes ← read_full num; pure (told init codes)

  -- The switch on the initial code.
  unfoldable pub on_init_code : ℕ → M Verdict
  on_init_code init =
      if init == accept_code_continue
      then (do send_msg_data content h; read_codes init)
      else if init == accept_code_skip_data
      then if not (has h.flags flag_has_add_to) then fail invalid_code else read_codes init
      else if init == accept_code_add_to
      then if not (has h.flags flag_has_add_to) then fail invalid_code else pure noted
      else if leb 1 init && leb init 10
      then pure (rejected init)
      else fail unexpected_code

  -- The header, one byte back, and the rest by that byte.
  unfoldable pub exchange : M Verdict
  exchange = do write_bytes (encode h); init ← read_byte; on_init_code init
