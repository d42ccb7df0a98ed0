-- ===== src/Tests/Store.antt =====
-- A parent that is stored behind its reply.
use fmsgd.Prelude.{◌+◌, length, refl, arith, List, [], ◌∷◌, none, bytes_eq}
use fmsgd.Text.{codes}
use fmsgd.Wire.{Header}
use mathlib.Core.Option
use fmsgd.Store.{MsgRow, Tables, id_by_hash, is_unlinked}
use fmsgd.Store.Kept.{IsKept}
use fmsgd.Store.Arrivals.{Arrival, arrival, store_all, store_all-IsKept}
use fmsgd.Tests.Header.{sample}

abbrev parent_header : Header
parent_header = record sample { flags = 0; pid = [] }

abbrev reply_header : Header
reply_header = record sample { flags = 1; pid = codes "parent" }

abbrev waiting_reply : MsgRow
waiting_reply = record { id = 1; sha256 = codes "reply"; psha256 = codes "parent"; pid = none }

abbrev arrivals : List Arrival
arrivals =
    arrival (codes "parent") none parent_header ∷ (arrival (codes "other") none reply_header ∷ [])

abbrev tables : Tables
tables = record { rows = waiting_reply ∷ []; batches = [] }

store_all-IsKept_example : IsKept (length arrivals + 2) (store_all 2 arrivals tables)
unfolding is_unlinked id_by_hash bytes_eq
store_all-IsKept_example = store_all-IsKept 2 arrivals tables (omega arith) (record {
  linked = ((λ e ne. refl), tt);
  parents = ((λ p e. absurd (Option.none-ne-some _ e)), tt);
  numbered = ((omega arith, omega arith), tt);
})
