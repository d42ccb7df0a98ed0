-- ===== src/Store.antt =====
-- The links between messages in the table msg (cmd/fmsgd/store.go): `resolveMsgParentLinks`, what it
-- calls, and what `storeMsgDetail` gives it.
pub mod Linked
pub mod Parents
pub mod Kept
pub mod Resolved
pub mod Arrivals
use fmsgd.Prelude.{
  ℕ, Bool, true, false, not, ◌&&◌, ◌||◌, List, [], ◌∷◌, ◌++◌, Option, none, some, ◌==◌,
  if◌then◌else◌, length, Bytes, bytes_eq,
}
use fmsgd.Prelude.Options.{◌>>=◌}
use fmsgd.Wire.{Header, has, flag_has_add_to}

-- The columns of msg that the links are about. An empty psha256 is NULL.
pub record MsgRow : Type 0 where
  pub id : ℕ
  pub sha256 : Bytes
  pub psha256 : Bytes
  pub pid : Option ℕ

-- The batches, as pairs of a message's id and a hash.
abbrev pub Batches : Type 0
Batches = List (ℕ × Bytes)

-- The two queries of `lookupParentID`.
unfoldable pub id_by_hash : Bytes → List MsgRow → Option ℕ
id_by_hash hash [] = none
id_by_hash hash (r ∷ rows) = if bytes_eq r.sha256 hash then some r.id else id_by_hash hash rows

unfoldable pub batch_by_hash : Bytes → Batches → ℕ
batch_by_hash hash [] = 0
batch_by_hash hash ((id, h) ∷ rest) = if bytes_eq h hash then id else batch_by_hash hash rest

unfoldable pub or_batch : Bytes → Batches → Option ℕ → ℕ
or_batch hash batches none = batch_by_hash hash batches
or_batch hash batches (some id) = id

-- `lookupParentID`; 0 where there is none.
unfoldable pub lookup_parent_id : Bytes → List MsgRow → Batches → ℕ
lookup_parent_id hash rows batches = or_batch hash batches (id_by_hash hash rows)

-- `setParentID`.
unfoldable pub set_parent_id : ℕ → ℕ → List MsgRow → List MsgRow
set_parent_id id parent [] = []
set_parent_id id parent (r ∷ rows) =
    (if r.id == id then record r { pid = some parent } else r) ∷ set_parent_id id parent rows

unfoldable pub is_unlinked : Option ℕ → Bool
is_unlinked none = true
is_unlinked (some p) = false

-- `setPendingChildrenParentID`.
unfoldable pub set_pending_children_parent_id : ℕ → Bytes → List MsgRow → List MsgRow
set_pending_children_parent_id parent hash [] = []
set_pending_children_parent_id parent hash (r ∷ rows) =
    (if bytes_eq r.psha256 hash && is_unlinked r.pid then record r { pid = some parent } else r)
    ∷ set_pending_children_parent_id parent hash rows

-- `resolveStoredParent`; none is the error of a parent that is required and missing.
unfoldable pub link_to : ℕ → Bool → List MsgRow → ℕ → Option (List MsgRow)
link_to id required rows parent =
    if parent == 0
    then if required then none else some rows
    else some (set_parent_id id parent rows)

unfoldable pub resolve_stored_parent :
    Batches → ℕ → Bytes → Bool → List MsgRow → Option (List MsgRow)
resolve_stored_parent batches id parent_hash required rows =
    if length parent_hash == 0
    then some rows
    else link_to id required rows (lookup_parent_id parent_hash rows batches)

-- `resolvePendingChildLinks`.
unfoldable pub resolve_pending_child_links : ℕ → Bytes → List MsgRow → List MsgRow
resolve_pending_child_links id hash rows =
    if length hash == 0 then rows else set_pending_children_parent_id id hash rows

-- `resolveMsgParentLinks`.
unfoldable pub resolve_msg_parent_links :
    Batches → ℕ → Bytes → Bytes → Bool → List MsgRow → Option (List MsgRow)
resolve_msg_parent_links batches id hash parent_hash required rows = do
  linked ← resolve_stored_parent batches id parent_hash required rows
  some (resolve_pending_child_links id hash linked)

-- `relationalParentHash`; the empty string for nil.
unfoldable pub relational_parent_hash : Header → Bytes
relational_parent_hash h = if has h.flags flag_has_add_to then [] else h.pid

-- `requiresStoredParent`.
unfoldable pub requires_stored_parent : Header → Bool
requires_stored_parent h = not (length h.pid == 0) && not (has h.flags flag_has_add_to)

-- The tables msg and msg_add_to_batch.
pub record Tables : Type 0 where
  pub rows : List MsgRow
  pub batches : Batches

-- The batch that a message with recipients added records, in `storeMsgDetail` and in
-- `attachAddToRecipients`; `batch_hash` is what `GetMessageHash` gives, and none is an error.
unfoldable pub add_batch : ℕ → Option Bytes → Batches → Option Batches
add_batch id none batches = none
add_batch id (some hash) batches = some (batches ++ (id, hash) ∷ [])

unfoldable pub record_batch_of : ℕ → Header → Option Bytes → Batches → Option Batches
record_batch_of id h batch_hash batches =
    if length h.add_to == 0 then some batches else add_batch id batch_hash batches

unfoldable pub id_or_zero : Option ℕ → ℕ
id_or_zero none = 0
id_or_zero (some id) = id

-- `existingMsgIDForAddTo`; 0 where there is none.
unfoldable pub existing_msg_id_for_add_to : Header → Bytes → List MsgRow → ℕ
existing_msg_id_for_add_to h hash rows =
    if not (has h.flags flag_has_add_to) || length hash == 0
    then 0
    else id_or_zero (id_by_hash hash rows)

-- The rows of a message that is not held yet: its own, its batch, and the links.
unfoldable pub insert_row : ℕ → Bytes → Option Bytes → Header → Tables → Option Tables
insert_row id hash batch_hash h t = do
  batches ← record_batch_of id h batch_hash t.batches
  rows ←
      resolve_msg_parent_links batches id hash (relational_parent_hash h) (requires_stored_parent h)
        (t.rows
          ++ record { id = id; sha256 = hash; psha256 = relational_parent_hash h; pid = none } ∷ [])
  some (record { rows = rows; batches = batches })

-- A message that is held gets a batch.
unfoldable pub attach_batch : ℕ → Option Bytes → Header → Tables → Option Tables
attach_batch id batch_hash h t = do
  batches ← record_batch_of id h batch_hash t.batches
  some (record { rows = t.rows; batches = batches })

-- What `storeMsgDetail` does to the two tables. `id` is the next id, `hash` the canonical hash.
unfoldable pub store_message : ℕ → Bytes → Option Bytes → Header → Tables → Option Tables
store_message id hash batch_hash h t =
    let existing = existing_msg_id_for_add_to h hash t.rows in
    if not (existing == 0)
    then attach_batch existing batch_hash h t
    else insert_row id hash batch_hash h t
