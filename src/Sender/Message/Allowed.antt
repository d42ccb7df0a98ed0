-- ===== src/Sender/Message/Allowed.antt =====
-- What a delivery may send (cmd/fmsgd/sender.go).
use fmsgd.Prelude.{
  ◌≡◌, refl, ℕ, Bool, true, false, List, [], ◌∷◌, Option, none, some, ◌==◌, if◌then◌else◌, length,
  Bytes, Bool-cases, inl, inr, All, All-append,
}
use fmsgd.Text.{Unicode}
use fmsgd.Wire.{Header}
use fmsgd.Sender.Rows.{msg_to, msg_add_to}
use fmsgd.Sender.Deliver.{PendingTarget}
use fmsgd.Sender.Message.{
  Batch, StoredMsg, Loads, Action, mark_local, send, mark_invalid, send_prepared, batch_actions,
  all_batches, send_original, units_of, on_loaded, deliver_message,
}

-- What may be done for a message with the given answers of the database.
abbrev pub IsAllowed : StoredMsg → Loads → Bytes → Action → Type 0
IsAllowed m l domain mark_local = Unit
IsAllowed m l domain (send h msg_to batch) =
    (m.wire ≡ some h)
    × (l.is_stored_msg_terminal m.parent_pid ≡ some false)
    × (l.parent_pending_for_domain m.parent_pid domain ≡ some false)
IsAllowed m l domain (send h msg_add_to batch) = m.is_terminal ≡ false
IsAllowed m l domain (mark_invalid msg_to batch) = l.is_stored_msg_terminal m.parent_pid ≡ some true
IsAllowed m l domain (mark_invalid msg_add_to batch) = m.is_terminal ≡ true

module _ (m : StoredMsg) (l : Loads) (domain : Bytes) where
  send_prepared-IsAllowed :
      (o : Option Header) (id : ℕ)
      → m.is_terminal ≡ false
      → All (IsAllowed m l domain) (send_prepared o id)
  unfolding send_prepared
  send_prepared-IsAllowed none id e = tt
  send_prepared-IsAllowed (some h) id e = (e, tt)

  batch_actions-IsAllowed :
      (terminal : Bool) (b : Batch)
      → m.is_terminal ≡ terminal
      → All (IsAllowed m l domain) (batch_actions terminal b)
  unfolding batch_actions
  batch_actions-IsAllowed terminal b e = elim (Bool-cases (length b.recipients == 0)) [
    | inl z ↦ rw z tt
    | inr z ↦ rw z (by_terminal terminal e)
  ]
    where
      by_terminal :
          (t : Bool)
          → m.is_terminal ≡ t
          → All
              (IsAllowed m l domain)
              (if t then mark_invalid msg_add_to b.id ∷ [] else send_prepared b.prepared b.id)
      by_terminal true e = (e, tt)
      by_terminal false e = send_prepared-IsAllowed b.prepared b.id e

  all_batches-IsAllowed :
      (batches : List Batch) → All (IsAllowed m l domain) (all_batches m.is_terminal batches)
  unfolding all_batches
  all_batches-IsAllowed [] = tt
  all_batches-IsAllowed (b ∷ batches) =
      All-append (IsAllowed m l domain) (batch_actions m.is_terminal b)
        (all_batches m.is_terminal batches) (batch_actions-IsAllowed m.is_terminal b refl)
        (all_batches-IsAllowed batches)

  send_original-IsAllowed :
      (wire : Option Header) (pending : Bool)
      → m.wire ≡ wire
      → l.is_stored_msg_terminal m.parent_pid ≡ some false
      → l.parent_pending_for_domain m.parent_pid domain ≡ some pending
      → All (IsAllowed m l domain) (send_original wire pending)
  unfolding send_original
  send_original-IsAllowed none pending w e p = tt
  send_original-IsAllowed (some h) true w e p = tt
  send_original-IsAllowed (some h) false w e p = ((w, e, p), tt)

  units_of-IsAllowed :
      (batches : List Batch) (terminal pending : Option Bool)
      → l.is_stored_msg_terminal m.parent_pid ≡ terminal
      → l.parent_pending_for_domain m.parent_pid domain ≡ pending
      → All (IsAllowed m l domain) (units_of m batches terminal pending)
  unfolding units_of
  units_of-IsAllowed batches none pending e p = tt
  units_of-IsAllowed batches (some t) none e p = tt
  units_of-IsAllowed batches (some true) (some pending) e p = (e, all_batches-IsAllowed batches)
  units_of-IsAllowed batches (some false) (some pending) e p =
      All-append (IsAllowed m l domain) (send_original m.wire pending)
        (all_batches m.is_terminal batches) (send_original-IsAllowed m.wire pending refl e p)
        (all_batches-IsAllowed batches)

-- Of a message that has been loaded, the message itself is sent only under its own header, to
-- msg_to, when its parent is not terminal and no longer owed to the domain; batches are sent only
-- for a message that is not terminal; and what is marked invalid instead is a message with a
-- terminal parent, or a batch of a terminal message.
pub deliver_message-IsAllowed :
    (u : Unicode) (own : Bytes) (l : Loads) (target : PendingTarget) (m : StoredMsg)
    (batches : List Batch)
    → l.load ≡ some (m, batches)
    → All (IsAllowed m l target.domain) (deliver_message u own l target)
unfolding deliver_message on_loaded
deliver_message-IsAllowed u own l target m batches e =
    elim (Bool-cases (u.equal_fold target.domain own)) [
      | inl z ↦ rw z (tt, tt)
      | inr z ↦ rw (z, e) (units_of-IsAllowed m l target.domain batches _ _ refl refl)
    ]
