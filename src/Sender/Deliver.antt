-- ===== src/Sender/Deliver.antt =====
-- The delivery of one unit (cmd/fmsgd/sender.go): `deliverUnit`, with its transaction and its entry
-- in the outgoing table, `dialTargetIPs`, `recordRetryableFailure` and `recordUnitInvalid`.
pub mod Heard
pub mod Outcomes
pub mod Pairs
use fmsgd.Prelude.{
  ℕ, Bool, true, false, not, ◌&&◌, ◌||◌, List, [], ◌∷◌, ◌++◌, Option, none, some, ◌==◌,
  if◌then◌else◌, length, Bytes,
}
use fmsgd.Prelude.Int.{ℤ, pos}
use fmsgd.Text.{Unicode}
use fmsgd.Conn.{Conn, Error, Outcome, ok, err, panicked}
use fmsgd.Wire.{Header}
use fmsgd.Wire.Hash.{Files, get_header_hash}
use fmsgd.Receive.{reject_code_invalid, reject_code_accept, accept_code_add_to}
use fmsgd.Outgoing.Trace.{Event, register, remove}
use fmsgd.Sender.Rows.{
  Table, msg_to, msg_add_to, Row, local_response_code_no_response, Schedule,
  lock_pending_recipients, Update, recipient, notified, update_locked, update_notify,
}
use fmsgd.Sender.Exchange.{
  DomainRecip, domain_recips, lower_all, Verdict, noted, rejected, told, exchange,
}

-- `pendingTarget`.
pub record PendingTarget : Type 0 where
  pub msg_id : ℕ
  pub domain : Bytes

-- What the transaction of a unit finds in the database; none is an error. `notify_row` is the row of
-- `lockPendingNotify`'s query, 0 where there is none.
pub record Database : Type 0 where
  pub begins : Bool
  pub rows : Table → Option (List Row)
  pub free : Table → Row → Bool
  pub is_sent : Bool
  pub since : Table → ℕ → ℕ
  pub notify_row : ℕ → Option ℕ
  pub commits : Bool

-- What the unit finds on the network: the addresses of a domain, and the connection that a dialled
-- address gives, with the other end's address as text.
pub record Network : Type 0 where
  pub lookup_authorised_ips : Bytes → Option (List Bytes)
  pub dial : Bytes → Option (Conn × Bytes)
  pub files : Files

-- What a unit has done: the updates of its transaction, whether they are committed, and the calls on
-- the outgoing table.
pub record Report : Type 0 where
  pub updates : List Update
  pub is_committed : Bool
  pub events : List (Event Header)

unfoldable pub nothing_done : Report
nothing_done = record { updates = []; is_committed = false; events = [] }

-- `dialTargetIPs`: the first address that connects.
unfoldable pub dial_target_ips :
    (Bytes → Option (Conn × Bytes)) → List Bytes → Option (Conn × Bytes)
dial_target_ips dial [] = none
dial_target_ips dial (ip ∷ ips) =
    let rest = dial_target_ips dial ips in elim (dial ip) [ none ↦ rest | some found ↦ some found ]

module _ (u : Unicode) (s : Schedule) (db : Database) (target : PendingTarget) where
  -- The locked addresses of a unit, and its notify row.
  unfoldable pub lock_rows : Table → ℕ → Option (List Row) → Option (List Bytes)
  lock_rows table batch none = none
  lock_rows table batch (some rows) = some (
      lock_pending_recipients u s table target.msg_id target.domain batch db.is_sent
        (db.since table batch) (db.free table) rows)

  -- `lockPendingNotify`, which is called for the units of msg_add_to.
  unfoldable pub lock_pending_notify : Table → ℕ → Option ℕ
  lock_pending_notify msg_to batch = some 0
  lock_pending_notify msg_add_to batch = if batch == 0 then some 0 else db.notify_row batch

  -- The rows of a unit are locked, and `work` is done where there are any.
  unfoldable pub with_notify : List Bytes → (List Bytes → ℕ → Report) → Option ℕ → Report
  with_notify locked work none = nothing_done
  with_notify locked work (some notify) =
      if length locked == 0 && notify == 0 then nothing_done else work locked notify

  unfoldable pub with_locked : Table → ℕ → (List Bytes → ℕ → Report) → Option (List Bytes) → Report
  with_locked table batch work none = nothing_done
  with_locked table batch work (some locked) =
      with_notify locked work (lock_pending_notify table batch)

  unfoldable pub in_transaction : Table → ℕ → (List Bytes → ℕ → Report) → Report
  in_transaction table batch work =
      if not db.begins
      then nothing_done
      else with_locked table batch work (lock_rows table batch (db.rows table))

  module _ (table : Table) (locked : List Bytes) (notify : ℕ) where
    -- One outcome for the whole unit.
    unfoldable pub for_all : ℤ → Bool → List Update
    for_all code done = update_locked table locked code done ++ update_notify notify code done

    -- `recordRetryableFailure`.
    unfoldable pub record_retryable_failure : List (Event Header) → Report
    record_retryable_failure events = record {
      updates = for_all local_response_code_no_response false;
      is_committed = db.commits;
      events = events;
    }

    -- The loop over the recipients and their codes.
    unfoldable pub record_codes : List DomainRecip → Bytes → List Update
    record_codes [] codes = []
    record_codes (r ∷ recips) [] = []
    record_codes (r ∷ recips) (c ∷ codes) =
        let rest = record_codes recips codes in
        if r.is_locked
        then recipient table r.addr (pos c) (c == reject_code_accept) ∷ rest
        else rest

    unfoldable pub updates_of : List DomainRecip → Verdict → List Update
    updates_of recips noted = for_all (pos accept_code_add_to) true
    updates_of recips (rejected code) = for_all (pos code) false
    updates_of recips (told init codes) =
        record_codes recips codes ++ update_notify notify (pos init) true

    unfoldable pub on_verdict : List DomainRecip → List (Event Header) → Outcome Verdict → Report
    on_verdict recips events (ok v c) = record {
      updates = updates_of recips v;
      is_committed = db.commits;
      events = events;
    }
    on_verdict recips events (err e c) = record_retryable_failure events
    on_verdict recips events (panicked c) = record_retryable_failure events

    module _ (net : Network) (h : Header) where
      unfoldable pub unit_recips : List DomainRecip
      unit_recips = domain_recips u target.domain (lower_all u locked) h

      unfoldable pub on_connection : Option (Conn × Bytes) → Report
      on_connection none = record_retryable_failure []
      on_connection (some (c, ip)) =
          let (hashed, hash) = get_header_hash net.files h in
          on_verdict unit_recips (register hash hashed ip ∷ (remove hash ip ∷ []))
            (exchange net.files.content hashed (length unit_recips) c)

      unfoldable pub on_addresses : Option (List Bytes) → Report
      on_addresses none = record_retryable_failure []
      on_addresses (some ips) = on_connection (dial_target_ips net.dial ips)

  -- `deliverUnit`.
  unfoldable pub deliver_unit : Network → Header → Table → ℕ → Report
  deliver_unit net h table batch = in_transaction table batch (λ locked notify.
      on_addresses table locked notify net h (net.lookup_authorised_ips target.domain))

  -- `recordUnitInvalid`.
  unfoldable pub record_unit_invalid : Table → ℕ → Report
  record_unit_invalid table batch = in_transaction table batch (λ locked notify. record {
    updates = for_all table locked notify (pos reject_code_invalid) false;
    is_committed = db.commits;
    events = [];
  })
