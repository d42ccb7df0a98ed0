-- ===== src/Store/Resolved.antt =====
-- The links of a new row (cmd/fmsgd/store.go).
use fmsgd.Prelude.{
  suc, ◌<◌, ◌≡◌, ◌≢◌, refl, sym, ap, ◌∙◌, inl, inr, ℕ, Bool, true, false, List, [], ◌∷◌, ◌++◌,
  Option, none, some, arith, ◌==◌, if◌then◌else◌, Bool-cases, length, Bytes, All, All-append,
}
use mathlib.Core.Option
use mathlib.Core.Path.{subst}
use fmsgd.Prelude.Options.{>>=-eq-some}
use fmsgd.Store.{
  MsgRow, Batches, id_by_hash, or_batch, lookup_parent_id, set_parent_id, is_unlinked, link_to,
  resolve_stored_parent, resolve_pending_child_links, resolve_msg_parent_links,
}
use fmsgd.Store.Parents.{
  HoldsRow, IsParent, HasParent, append-HoldsRow, last-HoldsRow, set_parent_id-HoldsRow,
  set_pending-HoldsRow, lookup_parent_id-IsParent, onto-HasParent, set_parent_id-HasParent,
  set_pending-HasParent,
}
use fmsgd.Store.Linked.{
  is_held, IsWaiting, IsNumbered, id_by_hash-set_parent_id, id_by_hash-set_pending, id_by_hash-ne,
  set_parent_id-IsWaiting, set_pending-IsLinked,
}
use fmsgd.Store.Kept.{
  IsKept, IsNumbered-suc, IsNumbered-lt, set_parent_id-append, set_parent_id-IsNumbered,
  set_pending-IsNumbered, same_hashes-IsLinked, linked-IsWaiting, waiting-IsLinked,
}

module _ (batches : Batches) (rows : List MsgRow) (n : MsgRow) (fresh : n.pid ≡ none)
    (kept : IsKept n.id (record { rows = rows; batches = batches })) (number : 0 < n.id) where
  abbrev all_rows : List MsgRow
  all_rows = rows ++ n ∷ []

  all_rows-IsNumbered : All (IsNumbered (suc n.id)) all_rows
  all_rows-IsNumbered =
      All-append (IsNumbered (suc n.id)) rows (n ∷ []) (IsNumbered-suc n.id rows kept.numbered)
        ((number, omega arith), tt)

  rows-HasParent : All (HasParent batches all_rows) rows
  rows-HasParent =
      onto-HasParent batches batches rows all_rows rows
        (λ id hash. append-HoldsRow id hash rows (n ∷ [])) (λ id hash h. h) kept.parents

  -- A row whose parent is not found waits for none.
  not_found-IsWaiting :
      (o : Option ℕ)
      → id_by_hash n.psha256 all_rows ≡ o
      → or_batch n.psha256 batches o ≡ 0
      → is_held n.psha256 all_rows ≡ false
  unfolding or_batch is_unlinked
  not_found-IsWaiting none e z = rw e refl
  not_found-IsWaiting (some id) e z =
      absurd (id_by_hash-ne n.psha256 (suc n.id) all_rows all_rows-IsNumbered (e ∙ ap some z))

  -- The rows behind `resolveStoredParent`.
  record IsResolved (linked : List MsgRow) : Type 0 where
    waiting : All (IsWaiting n.sha256 all_rows) linked
    same : (hash : Bytes) → id_by_hash hash linked ≡ id_by_hash hash all_rows
    numbered : All (IsNumbered (suc n.id)) linked
    parents : All (HasParent batches all_rows) linked
    holds : (id : ℕ) (hash : Bytes) → HoldsRow id hash all_rows → HoldsRow id hash linked

  unchanged-IsResolved : IsWaiting n.sha256 all_rows n → IsResolved all_rows
  unchanged-IsResolved w = record {
    waiting =
        All-append (IsWaiting n.sha256 all_rows) rows (n ∷ [])
          (linked-IsWaiting rows rows n kept.linked) (w, tt);
    same = λ hash. refl;
    numbered = all_rows-IsNumbered;
    parents =
        All-append (HasParent batches all_rows) rows (n ∷ []) rows-HasParent
          ((λ p e. absurd (Option.none-ne-some _ (sym fresh ∙ e))), tt);
    holds = λ id hash h. h;
  }

  new_row-IsWaiting :
      (parent : ℕ) → All (IsWaiting n.sha256 all_rows) (set_parent_id n.id parent (n ∷ []))
  unfolding set_parent_id
  new_row-IsWaiting parent = elim (Bool-cases (n.id == n.id)) [
    | inl t ↦ rw t (λ e. absurd (Option.none-ne-some _ (sym e)), tt)
    | inr f ↦ ground arith
  ]

  new_row-HasParent :
      (parent : ℕ)
      → IsParent batches all_rows parent n.psha256
      → All (HasParent batches all_rows) (set_parent_id n.id parent (n ∷ []))
  unfolding set_parent_id
  new_row-HasParent parent named = elim (Bool-cases (n.id == n.id)) [
    | inl t ↦ rw t (
      (λ p e.
          subst (λ i. IsParent batches all_rows i n.psha256) (Option.some-injective _ _ e) named),
      tt,
    )
    | inr f ↦ ground arith
  ]

  parent-IsResolved :
      (parent : ℕ)
      → IsParent batches all_rows parent n.psha256
      → IsResolved (set_parent_id n.id parent all_rows)
  parent-IsResolved parent named = record {
    waiting = rw (set_parent_id-append n.id parent rows (n ∷ [])) (
        All-append (IsWaiting n.sha256 all_rows) (set_parent_id n.id parent rows)
          (set_parent_id n.id parent (n ∷ []))
          (set_parent_id-IsWaiting all_rows n.sha256 n.id parent rows
            (linked-IsWaiting rows rows n kept.linked))
          (new_row-IsWaiting parent));
    same = λ hash. id_by_hash-set_parent_id hash n.id parent all_rows;
    numbered = set_parent_id-IsNumbered (suc n.id) n.id parent all_rows all_rows-IsNumbered;
    parents = rw (set_parent_id-append n.id parent rows (n ∷ [])) (
        All-append (HasParent batches all_rows) (set_parent_id n.id parent rows)
          (set_parent_id n.id parent (n ∷ []))
          (set_parent_id-HasParent batches all_rows n.id parent rows
            (IsNumbered-lt n.id rows kept.numbered) rows-HasParent)
          (new_row-HasParent parent named));
    holds = λ id hash. set_parent_id-HoldsRow id hash n.id parent all_rows;
  }

  pending-IsKept :
      (linked : List MsgRow)
      → IsResolved linked
      → IsKept
          (suc n.id)
          (record { rows = resolve_pending_child_links n.id n.sha256 linked; batches = batches })
  unfolding resolve_pending_child_links
  pending-IsKept linked r = elim (Bool-cases (length n.sha256 == 0)) [
    | inl z ↦ rw z (record {
      linked =
          same_hashes-IsLinked all_rows linked linked r.same
            (waiting-IsLinked all_rows linked n.sha256 (ground arith) r.waiting);
      parents =
          onto-HasParent batches batches all_rows linked linked r.holds (λ id hash h. h) r.parents;
      numbered = r.numbered;
    })
    | inr z ↦ rw z (record {
      linked =
          same_hashes-IsLinked all_rows _ _
            (λ hash. id_by_hash-set_pending hash n.sha256 n.id linked ∙ r.same hash)
            (set_pending-IsLinked all_rows n.sha256 n.id linked r.waiting);
      parents =
          onto-HasParent batches batches all_rows _ _
            (λ id hash h. set_pending-HoldsRow id hash n.id n.sha256 linked (r.holds id hash h))
            (λ id hash h. h)
            (set_pending-HasParent batches all_rows n.id n.sha256 linked
              (inl (last-HoldsRow rows n)) r.parents);
      numbered = set_pending-IsNumbered (suc n.id) n.id n.sha256 linked r.numbered;
    })
  ]

  link_to-IsResolved :
      (required : Bool) (parent : ℕ) (linked : List MsgRow)
      → (parent ≡ 0 → is_held n.psha256 all_rows ≡ false)
      → (parent ≢ 0 → IsParent batches all_rows parent n.psha256)
      → link_to n.id required all_rows parent ≡ some linked
      → IsResolved linked
  unfolding link_to
  link_to-IsResolved required parent linked absent named e = elim (Bool-cases (parent == 0)) [
    | inl z ↦ not_required required (absent (ground arith)) (rw z at e)
    | inr z ↦
        subst IsResolved (Option.some-injective _ _ (rw z at e))
          (parent-IsResolved parent (named (ground arith)))
  ]
    where
      not_required :
          (b : Bool)
          → is_held n.psha256 all_rows ≡ false
          → (if b then none else some all_rows) ≡ some linked
          → IsResolved linked
      not_required true gone e = absurd (Option.none-ne-some _ e)
      not_required false gone e =
          subst IsResolved (Option.some-injective _ _ e) (unchanged-IsResolved (λ p ne held. cc))

  resolve_stored_parent-IsResolved :
      (required : Bool) (linked : List MsgRow)
      → resolve_stored_parent batches n.id n.psha256 required all_rows ≡ some linked
      → IsResolved linked
  unfolding resolve_stored_parent lookup_parent_id
  resolve_stored_parent-IsResolved required linked e = elim (Bool-cases (length n.psha256 == 0)) [
    | inl z ↦
        subst IsResolved (Option.some-injective _ _ (rw z at e))
          (unchanged-IsResolved (λ p ne held. absurd (ne (empty n.psha256 (ground arith)))))
    | inr z ↦
        link_to-IsResolved required (lookup_parent_id n.psha256 all_rows batches) linked
          (not_found-IsWaiting (id_by_hash n.psha256 all_rows) refl)
          (λ ne. lookup_parent_id-IsParent batches all_rows _ n.psha256 ne refl) (rw z at e)
  ]
    where
      empty : (bs : Bytes) → length bs ≡ 0 → bs ≡ []
      empty [] e = refl
      empty (b ∷ bs) e = absurd (omega (arith, e))

  pub links-IsKept :
      (required : Bool) (after : List MsgRow)
      → resolve_msg_parent_links batches n.id n.sha256 n.psha256 required all_rows ≡ some after
      → IsKept (suc n.id) (record { rows = after; batches = batches })
  unfolding resolve_msg_parent_links
  links-IsKept required after e =
      let (linked, resolved, e') =
        >>=-eq-some (resolve_stored_parent batches n.id n.psha256 required all_rows) _ e in
      subst (λ rows. IsKept (suc n.id) (record { rows = rows; batches = batches }))
        (Option.some-injective _ _ e')
        (pending-IsKept linked (resolve_stored_parent-IsResolved required linked resolved))
