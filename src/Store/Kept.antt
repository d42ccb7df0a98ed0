-- ===== src/Store/Kept.antt =====
-- Tables that are well kept (cmd/fmsgd/store.go).
use fmsgd.Prelude.{
  suc, ◌<◌, ◌≡◌, ◌≢◌, ◌⊎◌, refl, sym, ap, ◌∙◌, inl, inr, ℕ, true, false, not, ◌&&◌, List, [], ◌∷◌,
  ◌++◌, none, arith, ◌==◌, Bool-cases, length, Bytes, bytes_eq, All,
}
use fmsgd.Store.{
  MsgRow, id_by_hash, set_parent_id, is_unlinked, set_pending_children_parent_id, Tables,
}
use fmsgd.Store.Parents.{HasParent}
use fmsgd.Store.Linked.{is_held, IsLinked, IsWaiting, IsNumbered, is_held-append}

-- The tables are well kept: no row is without its parent while that is there, each parent is one
-- that the row's parent hash names, and ids have been given out in turn.
pub record IsKept (next : ℕ) (t : Tables) : Type 0 where
  pub linked : All (IsLinked t.rows) t.rows
  pub parents : All (HasParent t.batches t.rows) t.rows
  pub numbered : All (IsNumbered next) t.rows

pub IsNumbered-suc :
    (next : ℕ) (rows : List MsgRow) → All (IsNumbered next) rows → All (IsNumbered (suc next)) rows
IsNumbered-suc next [] h = tt
IsNumbered-suc next (r ∷ rows) ((some_id, lt), h) =
    ((some_id, omega (arith, lt)), IsNumbered-suc next rows h)

pub IsNumbered-lt :
    (next : ℕ) (rows : List MsgRow) → All (IsNumbered next) rows → All (λ r. r.id < next) rows
IsNumbered-lt next [] h = tt
IsNumbered-lt next (r ∷ rows) ((p, lt), h) = (lt, IsNumbered-lt next rows h)

pub set_parent_id-append :
    (id parent : ℕ) (rows others : List MsgRow)
    → set_parent_id id parent (rows ++ others)
      ≡ set_parent_id id parent rows ++ set_parent_id id parent others
unfolding set_parent_id
set_parent_id-append id parent [] others = refl
set_parent_id-append id parent (r ∷ rows) others =
    rw (set_parent_id-append id parent rows others) refl

pub set_parent_id-IsNumbered :
    (next id parent : ℕ) (rows : List MsgRow)
    → All (IsNumbered next) rows
    → All (IsNumbered next) (set_parent_id id parent rows)
unfolding set_parent_id
set_parent_id-IsNumbered next id parent [] h = tt
set_parent_id-IsNumbered next id parent (r ∷ rows) (n, h) = elim (Bool-cases (r.id == id)) [
  | inl t ↦ rw t (n, set_parent_id-IsNumbered next id parent rows h)
  | inr f ↦ rw f (n, set_parent_id-IsNumbered next id parent rows h)
]

pub set_pending-IsNumbered :
    (next parent : ℕ) (hash : Bytes) (rows : List MsgRow)
    → All (IsNumbered next) rows
    → All (IsNumbered next) (set_pending_children_parent_id parent hash rows)
unfolding set_pending_children_parent_id
set_pending-IsNumbered next parent hash [] h = tt
set_pending-IsNumbered next parent hash (r ∷ rows) (n, h) =
    elim (Bool-cases (bytes_eq r.psha256 hash && is_unlinked r.pid)) [
      | inl t ↦ rw t (n, set_pending-IsNumbered next parent hash rows h)
      | inr f ↦ rw f (n, set_pending-IsNumbered next parent hash rows h)
    ]

-- The links are about the hashes of the rows alone.
pub same_hashes-IsLinked :
    (a b rows : List MsgRow)
    → ((hash : Bytes) → id_by_hash hash b ≡ id_by_hash hash a)
    → All (IsLinked a) rows
    → All (IsLinked b) rows
same_hashes-IsLinked a b [] same h = tt
same_hashes-IsLinked a b (r ∷ rows) same (l, h) = (
  λ e ne. ap (λ o. not (is_unlinked o)) (same r.psha256) ∙ l e ne,
  same_hashes-IsLinked a b rows same h,
)

-- What is linked waits at most for a new row.
pub linked-IsWaiting :
    (all rows : List MsgRow) (n : MsgRow)
    → All (IsLinked all) rows
    → All (IsWaiting n.sha256 (all ++ n ∷ [])) rows
linked-IsWaiting all [] n h = tt
linked-IsWaiting all (r ∷ rows) n (l, h) =
    (λ e ne held. sym (is_held-append r.psha256 all n held (l e ne)), linked-IsWaiting all rows n h)

-- Nothing waits for an empty hash.
pub waiting-IsLinked :
    (all rows : List MsgRow) (hash : Bytes)
    → length hash ≡ 0
    → All (IsWaiting hash all) rows
    → All (IsLinked all) rows
waiting-IsLinked all [] hash z h = tt
waiting-IsLinked all (r ∷ rows) hash z (w, h) =
    (λ e ne. not_held (Bool-cases (is_held r.psha256 all)) e ne, waiting-IsLinked all rows hash z h)
  where
    empty : (bs : Bytes) → length bs ≡ 0 → bs ≡ []
    empty [] e = refl
    empty (b ∷ bs) e = absurd (omega (arith, e))

    not_held :
        (is_held r.psha256 all ≡ true) ⊎ (is_held r.psha256 all ≡ false)
        → r.pid ≡ none
        → r.psha256 ≢ []
        → is_held r.psha256 all ≡ false
    not_held (inr k) e ne = k
    not_held (inl k) e ne = absurd (ne (w e ne k ∙ empty hash z))
