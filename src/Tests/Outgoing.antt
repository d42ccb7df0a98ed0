-- ===== src/Tests/Outgoing.antt =====
-- Histories of the table of outgoing messages.
use fmsgd.Prelude.{ℕ, ◌≡◌, ◌&&◌, List, [], ◌∷◌, none, some, if◌then◌else◌, Bytes, bytes_eq}
use fmsgd.Outgoing.{OutgoingEntry, entry_at, register_outgoing, lookup_outgoing, remove_outgoing_ip}
use fmsgd.Outgoing.Laws.{
  filed, lookup_outgoing-register_outgoing, lookup_outgoing-remove_outgoing_ip,
}
use fmsgd.Outgoing.Trace.{
  Event, register, remove, is_some, run, is_active, lookup_outgoing-run, IsTidy, run-IsTidy,
}

abbrev here : Bytes
here = 10 ∷ []

abbrev there : Bytes
there = 11 ∷ []

abbrev table : List (Bytes × OutgoingEntry ℕ)
table = (1 ∷ [], record { header = 5; ips = here ∷ there ∷ [] }) ∷ []

abbrev history : List (Event ℕ)
history = register (1 ∷ []) 5 here ∷ remove (1 ∷ []) here ∷ register (2 ∷ []) 6 here ∷ []

none-IsTidy : IsTidy {H = ℕ} []
unfolding entry_at
none-IsTidy k e h = cc

lookup_outgoing-register_outgoing_example :
    lookup_outgoing (1 ∷ []) there (register_outgoing (1 ∷ []) 7 here table) ≡ (
      if bytes_eq (1 ∷ []) (1 ∷ []) && bytes_eq here there
      then some (filed 7 (entry_at (1 ∷ []) table))
      else lookup_outgoing (1 ∷ []) there table)
lookup_outgoing-register_outgoing_example =
    lookup_outgoing-register_outgoing (1 ∷ []) there (1 ∷ []) here 7 table

lookup_outgoing-remove_outgoing_ip_example :
    lookup_outgoing (1 ∷ []) here (remove_outgoing_ip (1 ∷ []) here table) ≡ (
      if bytes_eq (1 ∷ []) (1 ∷ []) && bytes_eq here here
      then none
      else lookup_outgoing (1 ∷ []) here table)
lookup_outgoing-remove_outgoing_ip_example =
    lookup_outgoing-remove_outgoing_ip (1 ∷ []) here (1 ∷ []) here table

lookup_outgoing-run_example :
    is_some (lookup_outgoing (1 ∷ []) here (run history table))
    ≡ is_active (1 ∷ []) here (is_some (lookup_outgoing (1 ∷ []) here table)) history
lookup_outgoing-run_example = lookup_outgoing-run (1 ∷ []) here history table

run-IsTidy_example : IsTidy (run history [])
run-IsTidy_example = run-IsTidy history [] none-IsTidy
