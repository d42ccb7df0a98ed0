-- ===== src/Receive/Download.antt =====
-- The recipients of a downloaded message (cmd/fmsgd/host.go): `downloadMessage`,
-- `storeAcceptedMessage`, and `inboundRecipientRow` of cmd/fmsgd/store.go.
pub mod Codes
pub mod Stored
use fmsgd.Prelude.{
  ℕ, zero, suc, ◌+◌, Bool, true, false, not, ◌&&◌, ◌||◌, List, [], ◌∷◌, ◌++◌, Option, none, some,
  ltb, ◌==◌, if◌then◌else◌, length, Bytes, bytes_eq, map,
}
use fmsgd.Prelude.Int.{ℤ, pos, negsuc}
use fmsgd.Text.{Unicode}
use fmsgd.Conn.{
  Conn, Error, not_in_recipients, hash_failed, hash_mismatch, open_failed, recipient_failed,
  Outcome, ok, err, panicked, M, pure, fail, ◌>>=◌, ◌>>◌,
}
use fmsgd.Wire.{Address, AttachmentHeader, Header}
use fmsgd.Wire.Hash.{Files, get_message_hash}
use fmsgd.Receive.{Config, reject_code_accept, reject_code_user_undisclosed}
use fmsgd.Receive.Version.{write_bytes}
use fmsgd.Receive.Recipients.{address_key}
use fmsgd.Receive.Host.{Host, or_fail}
use fmsgd.Receive.Delivery.{local_recipients}
use fmsgd.Receive.Limits.{AddressDetail, validate_msg_recv_for_addr}
use fmsgd.Receive.Payload.{Created, with_created, prepare_message_data, canonical_msg_hash}

-- What the download asks of the store, the address service and the recipients' directories. The
-- fields from `unique_path` to `persist` stand for functions of the repository that name, copy and
-- keep files, by what they give.
pub record Inbox : Type 0 where
  pub received : Bytes → Address → Option Bool
  pub detail : Address → Option (Option AddressDetail)
  pub make_dir : Address → Bool
  pub unique_path : Header → Address → Bytes
  pub copy_payload : Header → Bytes → Bool
  pub preserve : Header → Bytes → Option Bytes
  pub persist : List AttachmentHeader → Bytes → List AttachmentHeader × Bool
  pub store_msg_detail : Header → List (Bytes × ℕ) → Bool
  pub create_temp : ℕ → Option Bytes

-- The variables of the loop over the recipients; `codes` are those given so far.
pub record Progress : Type 0 where
  pub header : Header
  pub codes : List ℕ
  pub accepted_to : List Address
  pub accepted_add_to : List Address
  pub primary : Bytes

module _ (inbox : Inbox) where
  unfoldable pub refused_with : ℕ → Progress → Progress
  refused_with code p = record p { codes = p.codes ++ code ∷ [] }

  unfoldable pub accepted_by : Bool → Address → Progress → Progress
  accepted_by from_to a p =
      if from_to
      then record p {
        codes = p.codes ++ reject_code_accept ∷ [];
        accepted_to = p.accepted_to ++ a ∷ [];
      }
      else record p {
        codes = p.codes ++ reject_code_accept ∷ [];
        accepted_add_to = p.accepted_add_to ++ a ∷ [];
      }

  -- The wire form is kept once, for the first recipient who accepts.
  unfoldable pub with_wire : Bytes → Header → Option Header
  with_wire path h =
      if length h.stored_wire == 0
      then elim (inbox.preserve h path) [
        | none ↦ none
        | some wire ↦ some (record h { stored_wire = wire })
      ]
      else some h

  -- The attachments are kept with it. Where that fails the recipient is refused after all, and the
  -- next one is the first again.
  unfoldable pub with_attachments :
      Bool → Address → Bytes → Progress → List AttachmentHeader × Bool → Progress
  with_attachments from_to a path p (attachments, persisted) =
      if persisted
      then accepted_by from_to a
          (record p { header = record p.header { attachments = attachments }; primary = path })
      else record p {
        header = record p.header { attachments = attachments };
        codes = p.codes ++ reject_code_user_undisclosed ∷ [];
        accepted_to = [];
        accepted_add_to = [];
        primary = [];
      }

  unfoldable pub first_accepted :
      Bool → Address → Bytes → Progress → Option Header → Option Progress
  first_accepted from_to a path p none = none
  first_accepted from_to a path p (some h) =
      some (
        with_attachments from_to a path (record p { header = h })
          (inbox.persist h.attachments path))

  unfoldable pub copied : Bool → Address → Bytes → Progress → Option Progress
  copied from_to a path p =
      if not (inbox.copy_payload p.header path)
      then some (refused_with reject_code_user_undisclosed p)
      else if length p.primary == 0
      then first_accepted from_to a path p (with_wire path p.header)
      else some (accepted_by from_to a p)

  unfoldable pub on_code : Bool → Address → Progress → Option ℕ → Option Progress
  on_code from_to a p none = none
  on_code from_to a p (some code) =
      if not (code == reject_code_accept)
      then some (refused_with code p)
      else if not (inbox.make_dir a)
      then none
      else copied from_to a (inbox.unique_path p.header a) p

  -- One turn of the loop; none is an error, which ends the download.
  unfoldable pub recipient_step : Bytes → Bool → Address → Progress → Option Progress
  recipient_step dup_hash from_to a p =
      on_code from_to a p
        (validate_msg_recv_for_addr p.header (inbox.received dup_hash a) (inbox.detail a))

  unfoldable pub and_then : (Progress → Option Progress) → Option Progress → Option Progress
  and_then f none = none
  and_then f (some p) = f p

  -- The loop; `num_to` is how many of the addresses left come from `to`.
  unfoldable pub recipient_loop : Bytes → ℕ → List Address → Option Progress → Option Progress
  recipient_loop dup_hash num_to [] p = p
  recipient_loop dup_hash zero (a ∷ as_) p =
      recipient_loop dup_hash zero as_ (and_then (recipient_step dup_hash false a) p)
  recipient_loop dup_hash (suc n) (a ∷ as_) p =
      recipient_loop dup_hash n as_ (and_then (recipient_step dup_hash true a) p)

  -- `localOutcome`: a map, in which the code of a later entry for an address replaces an earlier.
  unfoldable pub put_outcome : Bytes → ℕ → List (Bytes × ℕ) → List (Bytes × ℕ)
  put_outcome key code [] = (key, code) ∷ []
  put_outcome key code ((k, c) ∷ rest) =
      if bytes_eq k key then (k, code) ∷ rest else (k, c) ∷ put_outcome key code rest

  unfoldable pub local_outcome :
      Unicode → List Address → List ℕ → List (Bytes × ℕ) → List (Bytes × ℕ)
  local_outcome u [] codes m = m
  local_outcome u (a ∷ as_) [] m = m
  local_outcome u (a ∷ as_) (c ∷ cs) m = local_outcome u as_ cs (put_outcome (address_key u a) c m)

  unfoldable pub not_stored : List ℕ → List ℕ
  not_stored [] = []
  not_stored (c ∷ cs) =
      (if c == reject_code_accept then reject_code_user_undisclosed else c) ∷ not_stored cs

  -- `storeAcceptedMessage`: the codes as they are sent, and whether the message was stored.
  unfoldable pub store_accepted_message : Progress → List (Bytes × ℕ) → List ℕ × Bool
  store_accepted_message p outcome =
      if length p.accepted_to == 0 && length p.accepted_add_to == 0
      then (p.codes, false)
      else if inbox.store_msg_detail (record p.header { filepath = p.primary }) outcome
      then (p.codes, true)
      else (not_stored p.codes, false)

  module _ (cfg : Config) (host : Host) where
    -- The challenge response must be the hash of what has come.
    unfoldable pub check_challenge : Header → Bytes → M (Unit {0})
    check_challenge h msg_hash =
        if h.challenge_completed && not (bytes_eq h.challenge_hash msg_hash)
        then fail hash_mismatch
        else pure tt

    unfoldable pub deliver_to : List Address → ℕ → Header → Bytes → M (Unit {0})
    deliver_to addrs num_to h dup_hash = do
      p ← or_fail recipient_failed (
          recipient_loop dup_hash num_to addrs (
            some (record {
              header = h;
              codes = [];
              accepted_to = [];
              accepted_add_to = [];
              primary = [];
            })))
      write_bytes (store_accepted_message p (local_outcome cfg.unicode addrs p.codes [])).0

    -- `downloadMessage`.
    unfoldable pub download_message : Header → Bool → M (Unit {0})
    download_message h skip_data =
        let (addrs, num_to) = local_recipients cfg h in
        if length addrs == 0 then fail not_in_recipients else (do
          (prepared, created) ← prepare_message_data inbox.create_temp host h skip_data
          (hashed, msg_hash) ←
              or_fail hash_failed (get_message_hash (with_created created host.files) prepared)
          check_challenge hashed msg_hash
          (kept, dup_hash) ←
              or_fail hash_failed (canonical_msg_hash (with_created created host.files) hashed)
          content ← or_fail open_failed ((with_created created host.files).content kept.filepath)
          deliver_to addrs num_to kept dup_hash)

-- `inboundRecipientRow`: whether the row is delivered, and its code.
unfoldable pub outcome_at : Bytes → List (Bytes × ℕ) → Option ℕ
outcome_at key [] = none
outcome_at key ((k, c) ∷ rest) = if bytes_eq k key then some c else outcome_at key rest

unfoldable pub row_of : Option ℕ → Bool × Option ℤ
row_of none = (false, some (negsuc 1))
row_of (some c) = if c == reject_code_accept then (true, none) else (false, some (pos c))

unfoldable pub inbound_recipient_row : Unicode → Address → List (Bytes × ℕ) → Bool × Option ℤ
inbound_recipient_row u a outcome = row_of (outcome_at (address_key u a) outcome)
