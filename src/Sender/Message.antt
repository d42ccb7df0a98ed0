-- ===== src/Sender/Message.antt =====
-- The units of a message (cmd/fmsgd/sender.go): `deliverMessage` and `markLocalDelivered`.
pub mod Allowed
use fmsgd.Prelude.{
  ℕ, Bool, true, false, not, ◌&&◌, List, [], ◌∷◌, ◌++◌, Option, none, some, ◌==◌, if◌then◌else◌,
  length, Bytes, bytes_eq, get_elem?,
}
use fmsgd.Prelude.Int.{ℤ, pos}
use fmsgd.Text.{Unicode}
use fmsgd.Text.Search.{split}
use fmsgd.Wire.{Address, Header}
use fmsgd.Sender.Rows.{
  Table, msg_to, msg_add_to, Row, Schedule, is_undelivered, update_recipient, set_outcome,
}
use fmsgd.Sender.Deliver.{
  PendingTarget, Database, Network, Report, nothing_done, deliver_unit, record_unit_invalid,
}

-- A batch of recipients added, with the header that `UnmarshalPrepared` gives for it.
pub record Batch : Type 0 where
  pub id : ℕ
  pub recipients : List Address
  pub prepared : Option Header

-- A message as `loadMsgFields` gives it; `wire` is its own header, where there is one.
pub record StoredMsg : Type 0 where
  pub wire : Option Header
  pub parent_pid : Bytes
  pub is_terminal : Bool

-- What a delivery asks of the database; none is an error. `load` stands for the connection and the
-- transaction in which the message and its batches are read.
pub record Loads : Type 0 where
  pub load : Option (StoredMsg × List Batch)
  pub is_stored_msg_terminal : Bytes → Option Bool
  pub parent_pending_for_domain : Bytes → Bytes → Option Bool

-- What the delivery does, in order.
pub data Action : Type 0 where
  mark_local : Action
  send : Header → Table → ℕ → Action
  mark_invalid : Table → ℕ → Action

unfoldable pub send_prepared : Option Header → ℕ → List Action
send_prepared none id = []
send_prepared (some h) id = send h msg_add_to id ∷ []

unfoldable pub batch_actions : Bool → Batch → List Action
batch_actions terminal b =
    if length b.recipients == 0
    then []
    else if terminal
    then mark_invalid msg_add_to b.id ∷ []
    else send_prepared b.prepared b.id

unfoldable pub all_batches : Bool → List Batch → List Action
all_batches terminal [] = []
all_batches terminal (b ∷ batches) = batch_actions terminal b ++ all_batches terminal batches

unfoldable pub send_original : Option Header → Bool → List Action
send_original none pending = []
send_original (some h) pending = if pending then [] else send h msg_to 0 ∷ []

unfoldable pub units_of : StoredMsg → List Batch → Option Bool → Option Bool → List Action
units_of m batches none pending = []
units_of m batches (some terminal) none = []
units_of m batches (some terminal) (some pending) =
    (if terminal then mark_invalid msg_to 0 ∷ [] else send_original m.wire pending)
    ++ all_batches m.is_terminal batches

unfoldable pub on_loaded : Loads → Bytes → Option (StoredMsg × List Batch) → List Action
on_loaded l domain none = []
on_loaded l domain (some (m, batches)) =
    units_of m batches (l.is_stored_msg_terminal m.parent_pid)
      (l.parent_pending_for_domain m.parent_pid domain)

-- `deliverMessage`.
unfoldable pub deliver_message : Unicode → Bytes → Loads → PendingTarget → List Action
deliver_message u own l target =
    if u.equal_fold target.domain own then mark_local ∷ [] else on_loaded l target.domain l.load

-- `split_part(addr, '@', 3)`, in lower case.
unfoldable pub third : Option Bytes → Bytes
third none = []
third (some part) = part

-- `markLocalDelivered`: the rows of msg_to behind it.
unfoldable pub mark_local_delivered : Unicode → Schedule → PendingTarget → ℕ → List Row → List Row
mark_local_delivered u s target now [] = []
mark_local_delivered u s target now (r ∷ rows) =
    let rest = mark_local_delivered u s target now rows in
    (if (r.msg_id == target.msg_id && is_undelivered s r.time_delivered)
        && bytes_eq (u.to_lower (third (get_elem? (split b'@' r.addr) 2)))
            (u.to_lower target.domain)
      then set_outcome now (pos 200) true r
      else r)
    ∷ rest

-- One action on the network and the database, each in its own transaction.
unfoldable pub perform :
    Unicode → Schedule → PendingTarget → (Action → Database) → Network → Action → Report
perform u s target db net mark_local = nothing_done
perform u s target db net (send h table batch) =
    deliver_unit u s (db (send h table batch)) target net h table batch
perform u s target db net (mark_invalid table batch) =
    record_unit_invalid u s (db (mark_invalid table batch)) target table batch
