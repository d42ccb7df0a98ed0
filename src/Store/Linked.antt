-- ===== src/Store/Linked.antt =====
-- No message waits for a parent that is stored (cmd/fmsgd/store.go).
use fmsgd.Prelude.{
  ◌<◌, ◌≡◌, ◌≢◌, refl, sym, ◌⊎◌, inl, inr, ℕ, Bool, true, false, not, ◌&&◌, List, [], ◌∷◌, ◌++◌,
  none, some, arith, ◌==◌, Bool-cases, Bytes, bytes_eq, bytes_eq_iff, All,
}
use mathlib.Core.Option
use fmsgd.Store.{MsgRow, id_by_hash, set_parent_id, is_unlinked, set_pending_children_parent_id}

-- Whether a message with the hash is stored.
abbrev pub is_held : Bytes → List MsgRow → Bool
is_held hash rows = not (is_unlinked (id_by_hash hash rows))

-- A row without a parent has none that is stored.
abbrev pub IsLinked : List MsgRow → MsgRow → Type 0
IsLinked rows r = r.pid ≡ none → r.psha256 ≢ [] → is_held r.psha256 rows ≡ false

-- The same, but for a parent with the given hash.
abbrev pub IsWaiting : Bytes → List MsgRow → MsgRow → Type 0
IsWaiting hash rows r =
    r.pid ≡ none → r.psha256 ≢ [] → is_held r.psha256 rows ≡ true → r.psha256 ≡ hash

pub is_held-append :
    (hash : Bytes) (rows : List MsgRow) (n : MsgRow)
    → is_held hash (rows ++ n ∷ []) ≡ true
    → is_held hash rows ≡ false
    → n.sha256 ≡ hash
unfolding id_by_hash is_unlinked
is_held-append hash [] n h e = elim (Bool-cases (bytes_eq n.sha256 hash)) [
  | inl t ↦ (bytes_eq_iff n.sha256 hash).0 t
  | inr f ↦ ground arith
]
is_held-append hash (r ∷ rows) n h e = elim (Bool-cases (bytes_eq r.sha256 hash)) [
  | inl t ↦ ground arith
  | inr f ↦ is_held-append hash rows n (rw f at h) (rw f at e)
]

pub id_by_hash-set_parent_id :
    (hash : Bytes) (id parent : ℕ) (rows : List MsgRow)
    → id_by_hash hash (set_parent_id id parent rows) ≡ id_by_hash hash rows
unfolding id_by_hash set_parent_id
id_by_hash-set_parent_id hash id parent [] = refl
id_by_hash-set_parent_id hash id parent (r ∷ rows) = elim (Bool-cases (r.id == id)) [
  | inl t ↦ rw (t, id_by_hash-set_parent_id hash id parent rows) refl
  | inr f ↦ rw (f, id_by_hash-set_parent_id hash id parent rows) refl
]

pub id_by_hash-set_pending :
    (hash key : Bytes) (parent : ℕ) (rows : List MsgRow)
    → id_by_hash hash (set_pending_children_parent_id parent key rows) ≡ id_by_hash hash rows
unfolding id_by_hash set_pending_children_parent_id
id_by_hash-set_pending hash key parent [] = refl
id_by_hash-set_pending hash key parent (r ∷ rows) =
    elim (Bool-cases (bytes_eq r.psha256 key && is_unlinked r.pid)) [
      | inl t ↦ rw (t, id_by_hash-set_pending hash key parent rows) refl
      | inr f ↦ rw (f, id_by_hash-set_pending hash key parent rows) refl
    ]

-- An id that has been given out: not 0, and below the next one.
abbrev pub IsNumbered : ℕ → MsgRow → Type 0
IsNumbered next r = (0 < r.id) × (r.id < next)

pub id_by_hash-ne :
    (hash : Bytes) (next : ℕ) (rows : List MsgRow)
    → All (IsNumbered next) rows
    → id_by_hash hash rows ≢ some 0
unfolding id_by_hash
id_by_hash-ne hash next [] h e = Option.none-ne-some _ e
id_by_hash-ne hash next (r ∷ rows) (n, h) e = elim (Bool-cases (bytes_eq r.sha256 hash)) [
  | inl t ↦ omega (arith, n.0, Option.some-injective _ _ (rw t at e))
  | inr f ↦ id_by_hash-ne hash next rows h (rw f at e)
]

module _ (all : List MsgRow) (hash : Bytes) where
  pub set_parent_id-IsWaiting :
      (id parent : ℕ) (rows : List MsgRow)
      → All (IsWaiting hash all) rows
      → All (IsWaiting hash all) (set_parent_id id parent rows)
  unfolding set_parent_id
  set_parent_id-IsWaiting id parent [] h = tt
  set_parent_id-IsWaiting id parent (r ∷ rows) (w, h) = elim (Bool-cases (r.id == id)) [
    | inl t ↦
        rw t (λ e. absurd (Option.none-ne-some _ (sym e)), set_parent_id-IsWaiting id parent rows h)
    | inr f ↦ rw f (w, set_parent_id-IsWaiting id parent rows h)
  ]

  pub set_pending-IsLinked :
      (parent : ℕ) (rows : List MsgRow)
      → All (IsWaiting hash all) rows
      → All (IsLinked all) (set_pending_children_parent_id parent hash rows)
  unfolding set_pending_children_parent_id
  set_pending-IsLinked parent [] h = tt
  set_pending-IsLinked parent (r ∷ rows) (w, h) =
      elim (Bool-cases (bytes_eq r.psha256 hash && is_unlinked r.pid)) [
        | inl t ↦
            rw t (λ e. absurd (Option.none-ne-some _ (sym e)), set_pending-IsLinked parent rows h)
        | inr f ↦ rw f (
          λ e ne. not_held r w f e ne (Bool-cases (is_held r.psha256 all)),
          set_pending-IsLinked parent rows h,
        )
      ]
    where
      not_held :
          (r : MsgRow)
          → IsWaiting hash all r
          → (bytes_eq r.psha256 hash && is_unlinked r.pid) ≡ false
          → r.pid ≡ none
          → r.psha256 ≢ []
          → (is_held r.psha256 all ≡ true) ⊎ (is_held r.psha256 all ≡ false)
          → is_held r.psha256 all ≡ false
      not_held r w f e ne (inr k) = k
      not_held r w f e ne (inl k) =
          let same = (bytes_eq_iff r.psha256 hash).1 (w e ne k) in
          let open_ : is_unlinked r.pid ≡ true = unfold is_unlinked in rw e refl in
          absurd (ground arith)
