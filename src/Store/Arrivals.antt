-- ===== src/Store/Arrivals.antt =====
-- Messages in whatever order they arrive (cmd/fmsgd/store.go).
use fmsgd.Prelude.{
  ◌≡◌, refl, inl, inr, ℕ, suc, ◌+◌, ◌<◌, List, [], ◌∷◌, ◌++◌, Option, none, some, arith, ◌==◌,
  Bool-cases, length, Bytes,
}
use mathlib.Core.Option
use mathlib.Core.Path.{subst}
use fmsgd.Prelude.Options.{>>=-eq-some}
use fmsgd.Wire.{Header}
use fmsgd.Store.{
  MsgRow, Batches, Tables, add_batch, record_batch_of, insert_row, attach_batch, store_message,
  relational_parent_hash, requires_stored_parent, resolve_msg_parent_links,
  existing_msg_id_for_add_to,
}
use fmsgd.Store.Parents.{HoldsBatch, append-HoldsBatch, onto-HasParent}
use fmsgd.Store.Kept.{IsKept, IsNumbered-suc}
use fmsgd.Store.Resolved.{links-IsKept}

-- A message that arrives: its canonical hash, the hash of its batch or none for an error, and its
-- header.
pub data Arrival : Type 0 where
  arrival : Bytes → Option Bytes → Header → Arrival

-- A message that cannot be stored leaves the tables as they were.
unfoldable pub or_as_before : Tables → Option Tables → Tables
or_as_before t none = t
or_as_before t (some after) = after

-- Each message takes the next id of the table, also one that is not stored.
unfoldable pub store_all : ℕ → List Arrival → Tables → Tables
store_all next [] t = t
store_all next (arrival hash batch_hash header ∷ arrivals) t =
    store_all (suc next) arrivals (or_as_before t (store_message next hash batch_hash header t))

add_batch-HoldsBatch :
    (of : ℕ) (o : Option Bytes) (before after : Batches) (id : ℕ) (hash : Bytes)
    → add_batch of o before ≡ some after
    → HoldsBatch id hash before
    → HoldsBatch id hash after
unfolding add_batch
add_batch-HoldsBatch of none before after id hash e h = absurd (Option.none-ne-some _ e)
add_batch-HoldsBatch of (some b) before after id hash e h =
    subst (HoldsBatch id hash) (Option.some-injective _ _ e)
      (append-HoldsBatch id hash before ((of, b) ∷ []) h)

-- No batch is lost.
record_batch_of-HoldsBatch :
    (of : ℕ) (header : Header) (o : Option Bytes) (before after : Batches)
    → record_batch_of of header o before ≡ some after
    → (id : ℕ) (hash : Bytes) → HoldsBatch id hash before
    → HoldsBatch id hash after
unfolding record_batch_of
record_batch_of-HoldsBatch of header o before after e id hash h =
    elim (Bool-cases (length header.add_to == 0)) [
      | inl z ↦ subst (HoldsBatch id hash) (Option.some-injective _ _ (rw z at e)) h
      | inr z ↦ add_batch-HoldsBatch of o before after id hash (rw z at e) h
    ]

batches-IsKept :
    (next : ℕ) (t : Tables) (after : Batches)
    → ((id : ℕ) (hash : Bytes) → HoldsBatch id hash t.batches → HoldsBatch id hash after)
    → IsKept next t
    → IsKept next (record { rows = t.rows; batches = after })
batches-IsKept next t after grows k = record {
  linked = k.linked;
  parents = onto-HasParent t.batches after t.rows t.rows t.rows (λ id hash h. h) grows k.parents;
  numbered = k.numbered;
}

onward-IsKept : (next : ℕ) (t : Tables) → IsKept next t → IsKept (suc next) t
onward-IsKept next t k = record {
  linked = k.linked;
  parents = k.parents;
  numbered = IsNumbered-suc next t.rows k.numbered;
}

attach_batch-IsKept :
    (next id : ℕ) (batch_hash : Option Bytes) (header : Header) (t after : Tables)
    → attach_batch id batch_hash header t ≡ some after
    → IsKept next t
    → IsKept next after
unfolding attach_batch
attach_batch-IsKept next id batch_hash header t after e k =
    let (batches, recorded, e') =
      >>=-eq-some (record_batch_of id header batch_hash t.batches) _ e in
    subst (IsKept next) (Option.some-injective _ _ e') (
      batches-IsKept next t batches
        (record_batch_of-HoldsBatch id header batch_hash t.batches batches recorded) k)

insert_row-IsKept :
    (next : ℕ) (hash : Bytes) (batch_hash : Option Bytes) (header : Header) (t after : Tables)
    → 0 < next
    → insert_row next hash batch_hash header t ≡ some after
    → IsKept next t
    → IsKept (suc next) after
unfolding insert_row
insert_row-IsKept next hash batch_hash header t after number e k =
    let (batches, recorded, e') =
      >>=-eq-some (record_batch_of next header batch_hash t.batches) _ e in
    let new : MsgRow = record {
      id = next;
      sha256 = hash;
      psha256 = relational_parent_hash header;
      pid = none;
    } in
    let (rows, linked, e'') =
      >>=-eq-some
        (resolve_msg_parent_links batches next hash (relational_parent_hash header)
          (requires_stored_parent header) (t.rows ++ new ∷ []))
        _ e' in
    let grown =
      batches-IsKept next t batches
        (record_batch_of-HoldsBatch next header batch_hash t.batches batches recorded) k in
    subst (IsKept (suc next)) (Option.some-injective _ _ e'') (
      links-IsKept batches t.rows new refl grown number (requires_stored_parent header) rows linked)

store_message-IsKept :
    (next : ℕ) (hash : Bytes) (batch_hash : Option Bytes) (header : Header) (t after : Tables)
    → 0 < next
    → store_message next hash batch_hash header t ≡ some after
    → IsKept next t
    → IsKept (suc next) after
unfolding store_message
store_message-IsKept next hash batch_hash header t after number e k =
    elim (Bool-cases (existing_msg_id_for_add_to header hash t.rows == 0)) [
      | inl z ↦ insert_row-IsKept next hash batch_hash header t after number (rw z at e) k
      | inr z ↦
          attach_batch-IsKept (suc next) (existing_msg_id_for_add_to header hash t.rows) batch_hash
            header t after (rw z at e) (onward-IsKept next t k)
    ]

or_as_before-IsKept :
    (next : ℕ) (t : Tables) (o : Option Tables)
    → IsKept next t
    → ((after : Tables) → o ≡ some after → IsKept (suc next) after)
    → IsKept (suc next) (or_as_before t o)
unfolding or_as_before
or_as_before-IsKept next t none k stored = onward-IsKept next t k
or_as_before-IsKept next t (some after) k stored = stored after refl

-- Whatever messages are stored, in whatever order, with ids that are given out in turn from above 0,
-- the tables stay well kept if they were at first: no row is without its parent while a row with the
-- parent's hash is there; and the parent that a row has is a message with the hash that the row
-- names, or one with a batch of that hash.
pub store_all-IsKept :
    (next : ℕ) (arrivals : List Arrival) (t : Tables)
    → 0 < next
    → IsKept next t
    → IsKept (length arrivals + next) (store_all next arrivals t)
unfolding store_all
store_all-IsKept next [] t number k = subst (λ m. IsKept m t) (omega arith) k
store_all-IsKept next (arrival hash batch_hash header ∷ arrivals) t number k =
    subst
      (λ m. IsKept m (
        store_all (suc next) arrivals
          (or_as_before t (store_message next hash batch_hash header t))))
      (omega arith)
      (store_all-IsKept (suc next) arrivals _ (omega arith) (
        or_as_before-IsKept next t _ k
          (λ after e. store_message-IsKept next hash batch_hash header t after number e k)))
