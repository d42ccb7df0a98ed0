-- ===== src/Sender/Deliver/Outcomes.antt =====
-- What a unit records (cmd/fmsgd/sender.go).
use fmsgd.Prelude.{
  ℕ, Bool, true, false, not, ◌&&◌, List, Option, none, some, ◌==◌, if◌then◌else◌, length, Bytes,
}
use fmsgd.Text.{Unicode}
use fmsgd.Conn.{Conn}
use fmsgd.Wire.{Header}
use fmsgd.Sender.Rows.{Table, Schedule, Update}
use fmsgd.Sender.Deliver.{
  PendingTarget, Database, Network, Report, nothing_done, with_notify, with_locked, lock_rows,
  lock_pending_notify, in_transaction,
}
use fmsgd.Sender.Deliver.Heard.{IsTrue, recipients_there, IsWritten}

module _ (u : Unicode) (s : Schedule) (db : Database) (target : PendingTarget) where
  module _ (table : Table) (locked : List Bytes) (notify : ℕ) where
    module _ (h : Header) (Heard : Bytes → Type 0) where
      abbrev IsTrueOf : Update → Type 0
      IsTrueOf = IsTrue h (recipients_there u target.domain h) Heard

    module _ (net : Network) (h : Header) where
      abbrev IsTrueUpdate : Update → Type 0
      IsTrueUpdate = IsTrueOf h (IsWritten net target.domain)

  -- A predicate of the reports of a unit's work, and of the report of none.
  module _ (P : Report → Type 0) (none_done : P nothing_done) (work : List Bytes → ℕ → Report)
      (each : (locked : List Bytes) (notify : ℕ) → P (work locked notify)) where
    if_report : (b : Bool) (r : Report) → P r → P (if b then nothing_done else r)
    if_report true r p = none_done
    if_report false r p = p

    with_notify_lem :
        (locked : List Bytes) (o : Option ℕ) → P (with_notify u s db target locked work o)
    unfolding with_notify
    with_notify_lem locked none = none_done
    with_notify_lem locked (some n) =
        if_report (length locked == 0 && n == 0) (work locked n) (each locked n)

    with_locked_lem :
        (table : Table) (batch : ℕ) (o : Option (List Bytes))
        → P (with_locked u s db target table batch work o)
    unfolding with_locked
    with_locked_lem table batch none = none_done
    with_locked_lem table batch (some locked) =
        with_notify_lem locked (lock_pending_notify u s db target table batch)

    pub in_transaction_lem :
        (table : Table) (batch : ℕ) → P (in_transaction u s db target table batch work)
    unfolding in_transaction
    in_transaction_lem table batch =
        if_report (not db.begins) _
          (with_locked_lem table batch (lock_rows u s db target table batch (db.rows table)))
