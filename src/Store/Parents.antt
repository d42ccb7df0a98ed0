-- ===== src/Store/Parents.antt =====
-- The parent that a row is linked to is the one that its hash names (cmd/fmsgd/store.go).
use fmsgd.Prelude.{
  ◌≡◌, ◌≢◌, refl, sym, ap, ◌∙◌, ◌⊎◌, inl, inr, ℕ, ◌<◌, false, ◌&&◌, List, [], ◌∷◌, ◌++◌, Option,
  none, some, arith, ◌==◌, Bool-cases, Bytes, bytes_eq, bytes_eq_iff, All,
}
use mathlib.Core.Option
use mathlib.Core.Path.{subst}
use fmsgd.Store.{
  MsgRow, Batches, id_by_hash, batch_by_hash, or_batch, lookup_parent_id, set_parent_id,
  is_unlinked, set_pending_children_parent_id,
}

-- A row with the id and the hash.
pub data HoldsRow (id : ℕ) (hash : Bytes) : List MsgRow → Type 0 where
  here :
      (r : MsgRow) (rows : List MsgRow) → r.id ≡ id → r.sha256 ≡ hash → HoldsRow id hash (r ∷ rows)
  behind : (r : MsgRow) (rows : List MsgRow) → HoldsRow id hash rows → HoldsRow id hash (r ∷ rows)

-- A batch of the message with the id, and with the hash.
pub data HoldsBatch (id : ℕ) (hash : Bytes) : Batches → Type 0 where
  first : (i : ℕ) (h : Bytes) (bs : Batches) → i ≡ id → h ≡ hash → HoldsBatch id hash ((i, h) ∷ bs)
  further :
      (i : ℕ) (h : Bytes) (bs : Batches) → HoldsBatch id hash bs → HoldsBatch id hash ((i, h) ∷ bs)

-- The id is that of the message with the hash, or of one with a batch of the hash.
abbrev pub IsParent : Batches → List MsgRow → ℕ → Bytes → Type 0
IsParent batches rows id hash = HoldsRow id hash rows ⊎ HoldsBatch id hash batches

-- A row's parent, if it has one, is one that its parent hash names.
abbrev pub HasParent : Batches → List MsgRow → MsgRow → Type 0
HasParent batches rows r = (p : ℕ) → r.pid ≡ some p → IsParent batches rows p r.psha256

pub append-HoldsRow :
    (id : ℕ) (hash : Bytes) (rows others : List MsgRow)
    → HoldsRow id hash rows
    → HoldsRow id hash (rows ++ others)
append-HoldsRow id hash _ others (here r rows e h) = here r (rows ++ others) e h
append-HoldsRow id hash _ others (behind r rows m) =
    behind r (rows ++ others) (append-HoldsRow id hash rows others m)

pub last-HoldsRow : (rows : List MsgRow) (n : MsgRow) → HoldsRow n.id n.sha256 (rows ++ n ∷ [])
last-HoldsRow [] n = here n [] refl refl
last-HoldsRow (r ∷ rows) n = behind r (rows ++ n ∷ []) (last-HoldsRow rows n)

pub append-HoldsBatch :
    (id : ℕ) (hash : Bytes) (batches others : Batches)
    → HoldsBatch id hash batches
    → HoldsBatch id hash (batches ++ others)
append-HoldsBatch id hash _ others (first i h bs e p) = first i h (bs ++ others) e p
append-HoldsBatch id hash _ others (further i h bs m) =
    further i h (bs ++ others) (append-HoldsBatch id hash bs others m)

pub set_parent_id-HoldsRow :
    (id : ℕ) (hash : Bytes) (of parent : ℕ) (rows : List MsgRow)
    → HoldsRow id hash rows
    → HoldsRow id hash (set_parent_id of parent rows)
unfolding set_parent_id
set_parent_id-HoldsRow id hash of parent _ (here r rows e h) = elim (Bool-cases (r.id == of)) [
  | inl t ↦ rw t (here (record r { pid = some parent }) (set_parent_id of parent rows) e h)
  | inr f ↦ rw f (here r (set_parent_id of parent rows) e h)
]
set_parent_id-HoldsRow id hash of parent _ (behind r rows m) =
    behind _ _ (set_parent_id-HoldsRow id hash of parent rows m)

pub set_pending-HoldsRow :
    (id : ℕ) (hash : Bytes) (parent : ℕ) (key : Bytes) (rows : List MsgRow)
    → HoldsRow id hash rows
    → HoldsRow id hash (set_pending_children_parent_id parent key rows)
unfolding set_pending_children_parent_id
set_pending-HoldsRow id hash parent key _ (here r rows e h) =
    elim (Bool-cases (bytes_eq r.psha256 key && is_unlinked r.pid)) [
      | inl t ↦ rw t (
          here (record r { pid = some parent }) (set_pending_children_parent_id parent key rows) e
            h)
      | inr f ↦ rw f (here r (set_pending_children_parent_id parent key rows) e h)
    ]
set_pending-HoldsRow id hash parent key _ (behind r rows m) =
    behind _ _ (set_pending-HoldsRow id hash parent key rows m)

-- What the query of `lookupParentID` gives.
id_by_hash-HoldsRow :
    (id : ℕ) (hash : Bytes) (rows : List MsgRow)
    → id_by_hash hash rows ≡ some id
    → HoldsRow id hash rows
unfolding id_by_hash
id_by_hash-HoldsRow id hash [] e = absurd (Option.none-ne-some _ e)
id_by_hash-HoldsRow id hash (r ∷ rows) e = elim (Bool-cases (bytes_eq r.sha256 hash)) [
  | inl t ↦ here r rows (Option.some-injective _ _ (rw t at e)) ((bytes_eq_iff r.sha256 hash).0 t)
  | inr f ↦ behind r rows (id_by_hash-HoldsRow id hash rows (rw f at e))
]

batch_by_hash-HoldsBatch :
    (id : ℕ) (hash : Bytes) (batches : Batches)
    → id ≢ 0
    → batch_by_hash hash batches ≡ id
    → HoldsBatch id hash batches
unfolding batch_by_hash
batch_by_hash-HoldsBatch id hash [] ne e = absurd (ne (sym e))
batch_by_hash-HoldsBatch id hash ((i, h) ∷ batches) ne e = elim (Bool-cases (bytes_eq h hash)) [
  | inl t ↦ first i h batches (rw t at e) ((bytes_eq_iff h hash).0 t)
  | inr f ↦ further i h batches (batch_by_hash-HoldsBatch id hash batches ne (rw f at e))
]

or_batch-IsParent :
    (batches : Batches) (rows : List MsgRow) (id : ℕ) (hash : Bytes) (o : Option ℕ)
    → id_by_hash hash rows ≡ o
    → id ≢ 0
    → or_batch hash batches o ≡ id
    → IsParent batches rows id hash
unfolding or_batch
or_batch-IsParent batches rows id hash none f ne e =
    inr (batch_by_hash-HoldsBatch id hash batches ne e)
or_batch-IsParent batches rows id hash (some i) f ne e =
    inl (id_by_hash-HoldsRow id hash rows (f ∙ ap some e))

pub lookup_parent_id-IsParent :
    (batches : Batches) (rows : List MsgRow) (id : ℕ) (hash : Bytes)
    → id ≢ 0
    → lookup_parent_id hash rows batches ≡ id
    → IsParent batches rows id hash
unfolding lookup_parent_id
lookup_parent_id-IsParent batches rows id hash ne e =
    or_batch-IsParent batches rows id hash (id_by_hash hash rows) refl ne e

-- More rows and more batches leave a parent one.
pub onto-HasParent :
    (batches others : Batches) (all wider rows : List MsgRow)
    → ((id : ℕ) (hash : Bytes) → HoldsRow id hash all → HoldsRow id hash wider)
    → ((id : ℕ) (hash : Bytes) → HoldsBatch id hash batches → HoldsBatch id hash others)
    → All (HasParent batches all) rows
    → All (HasParent others wider) rows
onto-HasParent batches others all wider [] f g h = tt
onto-HasParent batches others all wider (r ∷ rows) f g (has, h) = (
  λ p e. elim (has p e) [ inl x ↦ inl (f p r.psha256 x) | inr x ↦ inr (g p r.psha256 x) ],
  onto-HasParent batches others all wider rows f g h,
)

-- The rows that get no parent keep theirs.
pub set_parent_id-HasParent :
    (batches : Batches) (all : List MsgRow) (id parent : ℕ) (rows : List MsgRow)
    → All (λ r. r.id < id) rows
    → All (HasParent batches all) rows
    → All (HasParent batches all) (set_parent_id id parent rows)
unfolding set_parent_id
set_parent_id-HasParent batches all id parent [] below h = tt
set_parent_id-HasParent batches all id parent (r ∷ rows) (lt, below) (has, h) =
    let other : (r.id == id) ≡ false = ground arith in
    rw other (has, set_parent_id-HasParent batches all id parent rows below h)

pub set_pending-HasParent :
    (batches : Batches) (all : List MsgRow) (parent : ℕ) (key : Bytes) (rows : List MsgRow)
    → IsParent batches all parent key
    → All (HasParent batches all) rows
    → All (HasParent batches all) (set_pending_children_parent_id parent key rows)
unfolding set_pending_children_parent_id
set_pending-HasParent batches all parent key [] new h = tt
set_pending-HasParent batches all parent key (r ∷ rows) new (has, h) =
    elim (Bool-cases (bytes_eq r.psha256 key && is_unlinked r.pid)) [
      | inl t ↦
          let same : r.psha256 ≡ key = (bytes_eq_iff r.psha256 key).0 (ground arith) in
          rw t (
            λ p e.
                subst (λ i. IsParent batches all i r.psha256) (Option.some-injective _ _ e)
                  (subst (IsParent batches all parent) (sym same) new),
            set_pending-HasParent batches all parent key rows new h,
          )
      | inr f ↦ rw f (has, set_pending-HasParent batches all parent key rows new h)
    ]
