-- ===== src/Receive/Parents.antt =====
-- The parent of an add-to and of a reply (cmd/fmsgd/host.go): `handleAddToPath` and
-- `validatePidReplyPath`.
pub mod Retrievable
pub mod Steps
pub mod Reply
pub mod AddTo
use fmsgd.Prelude.{
  ℕ, zero, suc, Bool, true, false, not, ◌&&◌, ◌||◌, List, [], ◌∷◌, Option, none, some, ◌==◌,
  if◌then◌else◌, length, Bytes,
}
use fmsgd.Conn.{
  Conn, Error, lookup_failed, parent_not_found, parent_terminal, time_travel, not_participant,
  duplicate_batch, hash_failed, Outcome, ok, err, panicked, M, pure, fail, ◌>>=◌, ◌>>◌, reject,
}
use fmsgd.Wire.{Address, AttachmentHeader, Header, has, flag_terminal, flag_has_pid}
use fmsgd.Wire.Hash.{get_message_hash}
use fmsgd.Receive.{
  Config, has_domain_recipient, accept_code_continue, accept_code_add_to, accept_code_skip_data,
  reject_code_invalid, reject_code_parent_not_found, reject_code_time_travel, reject_code_duplicate,
}
use fmsgd.Receive.Host.{
  Host, or_fail, is_message_retrievable, is_original_participant, is_parent_participant,
}

-- The answer of `isMessageRetrievable`; a chain that is too long exhausts the stack.
abbrev pub or_panic {ℓ} : {A : Type ℓ} → Option A → M A
or_panic none = panicked
or_panic (some a) = pure a

-- `handleAddToParentNotStored`.
unfoldable pub handle_add_to_parent_not_stored : Header → Bool → M Header
handle_add_to_parent_not_stored h has_local_recipient =
    if has_local_recipient
    then pure (record h { initial_response_code = accept_code_continue })
    else reject reject_code_parent_not_found parent_not_found

-- The parent's attachment files, mapped in by position.
unfoldable pub with_files : List AttachmentHeader → List AttachmentHeader → List AttachmentHeader
with_files [] parents = []
with_files (a ∷ as_) [] = a ∷ as_
with_files (a ∷ as_) (p ∷ ps) = record a { filepath = p.filepath } ∷ with_files as_ ps

unfoldable pub with_payload_of : Header → Header → Header
with_payload_of parent h = record h {
  filepath = parent.filepath;
  attachments = with_files h.attachments parent.attachments;
}

module _ (cfg : Config) (host : Host) (fuel : ℕ) where
  -- `parentMsg.Timestamp-FutureTimeDelta > h.Timestamp`.
  unfoldable pub is_time_travel : Header → Header → Bool
  is_time_travel parent h =
      cfg.float.gt (cfg.float.sub parent.timestamp cfg.future_time_delta) h.timestamp

  -- The batch hash, with the parent's payload mapped in, and the duplicate check.
  unfoldable pub record_batch : ℕ → Header → Bool → M Header
  record_batch id h add_to_has_our_domain = do
    (hashed, batch_hash) ← or_fail hash_failed (get_message_hash host.files h)
    recorded ← or_fail lookup_failed (host.batch_recorded id batch_hash)
    if recorded
        then reject reject_code_duplicate duplicate_batch
        else if add_to_has_our_domain
        then pure (record hashed { initial_response_code = accept_code_skip_data })
        else pure (record hashed { initial_response_code = accept_code_add_to })

  -- The checks on a parent that is stored and retrievable.
  unfoldable pub check_parent : ℕ → Header → Header → Bool → M Header
  check_parent id parent h add_to_has_our_domain =
      if has parent.flags flag_terminal
      then reject reject_code_invalid parent_terminal
      else if is_time_travel parent h
      then reject reject_code_time_travel time_travel
      else if not (is_original_participant cfg.unicode parent h.add_to_from)
      then reject reject_code_invalid not_participant
      else record_batch id (with_payload_of parent h) add_to_has_our_domain

  unfoldable pub on_parent : ℕ → Option Header → Bool → Header → Bool → Bool → M Header
  on_parent id none retrievable h ours local = handle_add_to_parent_not_stored h local
  on_parent id (some parent) retrievable h ours local =
      if retrievable then check_parent id parent h ours else handle_add_to_parent_not_stored h local

  -- `handleAddToPath`.
  unfoldable pub handle_add_to_path : Header → M Header
  handle_add_to_path h =
      let ours = has_domain_recipient cfg.unicode h.add_to cfg.domain in
      let local = ours || has_domain_recipient cfg.unicode h.to cfg.domain in
      if length h.add_to == 0 then pure h else (do
        id ← or_fail lookup_failed (host.msg_id_by_hash h.pid)
        if id == 0 then handle_add_to_parent_not_stored h local else (do
          parent ← or_fail lookup_failed (host.msg_by_id id)
          retrievable ← or_panic (is_message_retrievable host fuel parent)
          on_parent id parent retrievable h ours local))

  -- The checks of a reply on its parent.
  unfoldable pub check_reply : Option Header → Header → M (Unit {0})
  check_reply none h = reject reject_code_parent_not_found parent_not_found
  check_reply (some parent) h = do
    retrievable ← or_panic (is_message_retrievable host fuel (some parent))
    if not retrievable
        then reject reject_code_parent_not_found parent_not_found
        else if is_time_travel parent h
        then reject reject_code_time_travel time_travel
        else if not (is_parent_participant cfg.unicode parent h.from)
        then reject reject_code_invalid not_participant
        else if has parent.flags flag_terminal
        then reject reject_code_invalid parent_terminal
        else pure tt

  -- `validatePidReplyPath`.
  unfoldable pub validate_pid_reply_path : Header → M (Unit {0})
  validate_pid_reply_path h =
      if not (length h.add_to == 0) || not (has h.flags flag_has_pid) then pure tt else (do
        id ← or_fail lookup_failed (host.msg_id_by_hash h.pid)
        parent ←
            or_fail lookup_failed
              (if id == 0 then host.msg_by_batch_hash h.pid else host.msg_by_id id)
        check_reply parent h)
