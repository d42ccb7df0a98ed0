-- ===== src/Sender/Deliver/Pairs.antt =====
-- The outgoing table around a unit (cmd/fmsgd/sender.go, cmd/fmsgd/outgoing.go).
use fmsgd.Prelude.{
  ◌≡◌, refl, sym, ◌∙◌, ℕ, true, List, [], ◌∷◌, Option, none, some, arith, length, Bytes,
}
use fmsgd.Text.{Unicode}
use fmsgd.Conn.{Conn, Outcome, ok, err, panicked}
use fmsgd.Wire.{Header}
use fmsgd.Wire.Hash.{get_header_hash}
use fmsgd.Outgoing.{OutgoingEntry, lookup_outgoing}
use fmsgd.Outgoing.Trace.{Event, register, remove, is_some, run, is_active, lookup_outgoing-run}
use fmsgd.Sender.Rows.{Table, Schedule}
use fmsgd.Sender.Exchange.{DomainRecip, Verdict, exchange}
use fmsgd.Sender.Deliver.{
  PendingTarget, Database, Network, nothing_done, dial_target_ips, record_retryable_failure,
  on_verdict, unit_recips, on_connection, on_addresses, deliver_unit,
}
use fmsgd.Sender.Deliver.Outcomes.{in_transaction_lem}

-- Calls behind which only pairs are found that were found before.
abbrev pub IsClean : List (Event Header) → Type 0
IsClean events =
    (m : List (Bytes × OutgoingEntry Header)) (hash ip : Bytes)
    → is_some (lookup_outgoing hash ip (run events m)) ≡ true
    → is_some (lookup_outgoing hash ip m) ≡ true

none-IsClean : IsClean []
unfolding run
none-IsClean m hash ip e = e

pair-IsClean : (k j : Bytes) (h : Header) → IsClean (register k h j ∷ (remove k j ∷ []))
unfolding is_active
pair-IsClean k j h m hash ip e =
    let active = sym (lookup_outgoing-run hash ip (register k h j ∷ (remove k j ∷ [])) m) ∙ e in
    ground arith

module _ (u : Unicode) (s : Schedule) (db : Database) (target : PendingTarget) where
  module _ (table : Table) (locked : List Bytes) (notify : ℕ) where
    on_verdict-events :
        (recips : List DomainRecip) (events : List (Event Header)) (o : Outcome Verdict)
        → (on_verdict u s db target table locked notify recips events o).events ≡ events
    unfolding on_verdict record_retryable_failure
    on_verdict-events recips events (ok v d) = refl
    on_verdict-events recips events (err e d) = refl
    on_verdict-events recips events (panicked d) = refl

    on_connection-IsClean :
        (net : Network) (h : Header) (o : Option (Conn × Bytes))
        → IsClean (on_connection u s db target table locked notify net h o).events
    unfolding on_connection record_retryable_failure
    on_connection-IsClean net h none = none-IsClean
    on_connection-IsClean net h (some (c, ip)) =
        let (hashed, hash) = get_header_hash net.files h in
        let recips = unit_recips u s db target table locked notify net h in
        rw
          (on_verdict-events recips (register hash hashed ip ∷ (remove hash ip ∷ []))
            (exchange net.files.content hashed (length recips) c))
          (pair-IsClean hash ip hashed)

    on_addresses-IsClean :
        (net : Network) (h : Header) (o : Option (List Bytes))
        → IsClean (on_addresses u s db target table locked notify net h o).events
    unfolding on_addresses record_retryable_failure
    on_addresses-IsClean net h none = none-IsClean
    on_addresses-IsClean net h (some ips) =
        on_connection-IsClean net h (dial_target_ips net.dial ips)

  -- However a unit ends, it leaves no pair of its own in the outgoing table: behind its calls, a
  -- challenger's address is accepted for a header hash only if it was accepted before them.
  pub deliver_unit-IsClean :
      (net : Network) (h : Header) (table : Table) (batch : ℕ)
      → IsClean (deliver_unit u s db target net h table batch).events
  unfolding deliver_unit nothing_done
  deliver_unit-IsClean net h table batch =
      in_transaction_lem u s db target (λ r. IsClean r.events) none-IsClean _
        (λ locked notify.
          on_addresses-IsClean table locked notify net h (net.lookup_authorised_ips target.domain))
        table batch
