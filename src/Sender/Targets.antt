-- ===== src/Sender/Targets.antt =====
-- The targets of a poll (cmd/fmsgd/sender.go): `findPendingTargets`. The rows of its two queries are
-- parameters.
pub mod Distinct
use fmsgd.Prelude.{
  ◌≡◌, ◌≢◌, ◌⊎◌, inl, inr, refl, ap, sym, ◌∙◌, ℕ, suc, Bool, true, false, ◌&&◌, ◌||◌, List, [], ◌∷◌,
  ◌++◌, Option, none, some, ◌==◌, if◌then◌else◌, Bytes, bytes_eq, bytes_eq_iff, drop, Bool-cases,
  arith, All, All-append,
}
use fmsgd.Text.{Unicode}
use fmsgd.Text.Search.{last_index}
use fmsgd.Sender.Rows.{domain_of}
use fmsgd.Sender.Deliver.{PendingTarget}

-- The variables of the search: `seen`, the keys of the targets, and the targets in order.
pub record Search : Type 0 where
  pub seen : List (ℕ × Bytes)
  pub targets : List PendingTarget

unfoldable pub is_seen : ℕ → Bytes → List (ℕ × Bytes) → Bool
is_seen id domain [] = false
is_seen id domain ((i, d) ∷ rest) = (i == id && bytes_eq d domain) || is_seen id domain rest

module _ (u : Unicode) (own : Bytes) where
  -- `addTarget`.
  unfoldable pub add_target : ℕ → Bytes → Search → Search
  add_target id domain s =
      if u.equal_fold domain own
      then s
      else if is_seen id (u.to_lower domain) s.seen
      then s
      else record {
        seen = (id, u.to_lower domain) ∷ s.seen;
        targets = s.targets ++ record { msg_id = id; domain = domain } ∷ [];
      }

  unfoldable pub add_domain : ℕ → Option Bytes → Search → Search
  add_domain id none s = s
  add_domain id (some domain) s = add_target id domain s

  -- The rows of recipients; an address without an @ is passed over.
  unfoldable pub add_recipients : List (ℕ × Bytes) → Search → Search
  add_recipients [] s = s
  add_recipients ((id, addr) ∷ rows) s =
      add_recipients rows (add_domain id (domain_of addr (last_index b'@' addr)) s)

  -- The rows of domains that are owed a notice.
  unfoldable pub add_notices : List (ℕ × Bytes) → Search → Search
  add_notices [] s = s
  add_notices ((id, domain) ∷ rows) s = add_notices rows (add_target id domain s)

  unfoldable pub with_notices : Search → Option (List (ℕ × Bytes)) → Option (List PendingTarget)
  with_notices s none = none
  with_notices s (some rows) = some (add_notices rows s).targets

  -- `findPendingTargets`; none is an error of a query.
  unfoldable pub find_pending_targets :
      Option (List (ℕ × Bytes)) → Option (List (ℕ × Bytes)) → Option (List PendingTarget)
  find_pending_targets none notices = none
  find_pending_targets (some rows) notices =
      with_notices (add_recipients rows (record { seen = []; targets = [] })) notices
