-- ===== src/Sender/Targets/Distinct.antt =====
-- Each host is a target of a message once, and none is left out (cmd/fmsgd/sender.go).
use fmsgd.Prelude.{
  ◌≡◌, refl, sym, ◌∙◌, ℕ, Bool, true, false, ◌&&◌, ◌||◌, List, [], ◌∷◌, ◌++◌, Option, none, some,
  arith, ◌==◌, Bytes, bytes_eq, bytes_eq_iff, Bool-cases, inl, inr, All, All-append,
}
use fmsgd.Text.{Unicode}
use fmsgd.Text.Search.{last_index}
use fmsgd.Sender.Rows.{domain_of}
use fmsgd.Sender.Deliver.{PendingTarget}
use fmsgd.Sender.Targets.{
  Search, is_seen, add_target, add_domain, add_recipients, add_notices, with_notices,
  find_pending_targets,
}

bytes_eq-false : (a b : Bytes) → bytes_eq a b ≡ false → bytes_eq b a ≡ false
bytes_eq-false a b e = elim (Bool-cases (bytes_eq b a)) [
  | inl t ↦ absurd (ground (arith, (bytes_eq_iff a b).1 (sym ((bytes_eq_iff b a).0 t))))
  | inr f ↦ f
]

module _ (u : Unicode) (own : Bytes) where
  -- Whether a host is the target of a message, up to case.
  unfoldable pub has_target : ℕ → Bytes → List PendingTarget → Bool
  has_target id key [] = false
  has_target id key (t ∷ ts) =
      (t.msg_id == id && bytes_eq (u.to_lower t.domain) key) || has_target id key ts

  -- No two targets are of the same message and host.
  abbrev pub IsDistinct : List PendingTarget → Type 0
  IsDistinct [] = Unit
  IsDistinct (t ∷ ts) = (has_target t.msg_id (u.to_lower t.domain) ts ≡ false) × IsDistinct ts

  has_target-append :
      (id : ℕ) (key : Bytes) (ts rs : List PendingTarget)
      → has_target id key (ts ++ rs) ≡ (has_target id key ts || has_target id key rs)
  unfolding has_target
  has_target-append id key [] rs = refl
  has_target-append id key (t ∷ ts) rs = ground (arith, has_target-append id key ts rs)

  append-IsDistinct :
      (ts : List PendingTarget) (t : PendingTarget)
      → IsDistinct ts
      → has_target t.msg_id (u.to_lower t.domain) ts ≡ false
      → IsDistinct (ts ++ t ∷ [])
  unfolding has_target
  append-IsDistinct [] t d f = (refl, tt)
  append-IsDistinct (x ∷ ts) t (n, d) f = (
    ground (
      arith,
      has_target-append x.msg_id (u.to_lower x.domain) ts (t ∷ []),
      bytes_eq-false (u.to_lower x.domain) (u.to_lower t.domain),
    ),
    append-IsDistinct ts t d (ground arith),
  )

  -- The keys that have been seen are those of the targets; no target is here or twice there.
  record IsKept (s : Search) : Type 0 where
    same : (id : ℕ) (key : Bytes) → is_seen id key s.seen ≡ has_target id key s.targets
    away : All (λ t. u.equal_fold t.domain own ≡ false) s.targets
    distinct : IsDistinct s.targets

  added-IsKept :
      (id : ℕ) (domain : Bytes) (s : Search)
      → u.equal_fold domain own ≡ false
      → is_seen id (u.to_lower domain) s.seen ≡ false
      → IsKept s
      → IsKept (record {
        seen = (id, u.to_lower domain) ∷ s.seen;
        targets = s.targets ++ record { msg_id = id; domain = domain } ∷ [];
      })
  unfolding is_seen has_target
  added-IsKept id domain s remote fresh kept =
      let t : PendingTarget = record { msg_id = id; domain = domain } in
      record {
        same = λ i key. ground (arith, has_target-append i key s.targets (t ∷ []), kept.same i key);
        away =
            All-append (λ t. u.equal_fold t.domain own ≡ false) s.targets (t ∷ []) kept.away
              (remote, tt);
        distinct =
            append-IsDistinct s.targets t kept.distinct
              (sym (kept.same id (u.to_lower domain)) ∙ fresh);
      }

  -- A host that is not this one is a target.
  abbrev pub IsCovered : ℕ → Bytes → List PendingTarget → Type 0
  IsCovered id domain ts =
      u.equal_fold domain own ≡ false → has_target id (u.to_lower domain) ts ≡ true

  -- A step of the search: it keeps the invariant, and the targets there are.
  abbrev Grows : (Search → Search) → Type 0
  Grows f =
      (s : Search)
      → IsKept s
      → IsKept (f s)
        × ((id : ℕ) (key : Bytes)
            → has_target id key s.targets ≡ true
            → has_target id key (f s).targets ≡ true)

  add_target-Grows : (id : ℕ) (domain : Bytes) → Grows (add_target u own id domain)
  unfolding add_target
  add_target-Grows id domain s kept = elim (Bool-cases (u.equal_fold domain own)) [
    | inl e ↦ rw e (kept, λ i key h. h)
    | inr e ↦ elim (Bool-cases (is_seen id (u.to_lower domain) s.seen)) [
      | inl f ↦ rw (e, f) (kept, λ i key h. h)
      | inr f ↦
          rw (e, f)
            (
              added-IsKept id domain s e f kept,
              λ i key h. ground (
                arith,
                has_target-append i key s.targets (record { msg_id = id; domain = domain } ∷ []),
              ),
            )
    ]
  ]

  add_target-IsCovered :
      (id : ℕ) (domain : Bytes) (s : Search)
      → IsKept s
      → IsCovered id domain (add_target u own id domain s).targets
  unfolding add_target has_target
  add_target-IsCovered id domain s kept remote =
      elim (Bool-cases (is_seen id (u.to_lower domain) s.seen)) [
        | inl f ↦ rw (remote, f) (sym (kept.same id (u.to_lower domain)) ∙ f)
        | inr f ↦
            rw (remote, f)
              (ground (
                arith,
                (bytes_eq_iff (u.to_lower domain) (u.to_lower domain)).1 refl,
                has_target-append id (u.to_lower domain) s.targets
                    (record { msg_id = id; domain = domain } ∷ []),
              ))
      ]

  add_domain-Grows : (id : ℕ) (o : Option Bytes) → Grows (add_domain u own id o)
  unfolding add_domain
  add_domain-Grows id none s kept = (kept, λ i key h. h)
  add_domain-Grows id (some domain) s kept = add_target-Grows id domain s kept

  add_recipients-Grows : (rows : List (ℕ × Bytes)) → Grows (add_recipients u own rows)
  unfolding add_recipients
  add_recipients-Grows [] s kept = (kept, λ i key h. h)
  add_recipients-Grows ((id, addr) ∷ rows) s kept =
      let (k, grows) = add_domain-Grows id (domain_of addr (last_index b'@' addr)) s kept in
      let (k', grows') = add_recipients-Grows rows _ k in
      (k', λ i key h. grows' i key (grows i key h))

  add_notices-Grows : (rows : List (ℕ × Bytes)) → Grows (add_notices u own rows)
  unfolding add_notices
  add_notices-Grows [] s kept = (kept, λ i key h. h)
  add_notices-Grows ((id, domain) ∷ rows) s kept =
      let (k, grows) = add_target-Grows id domain s kept in
      let (k', grows') = add_notices-Grows rows _ k in (k', λ i key h. grows' i key (grows i key h))

  -- The host of a recipient's row.
  abbrev pub IsRowCovered : List PendingTarget → ℕ × Bytes → Type 0
  IsRowCovered ts (id, addr) =
      (domain : Bytes)
      → domain_of addr (last_index b'@' addr) ≡ some domain
      → IsCovered id domain ts

  abbrev pub IsNoticeCovered : List PendingTarget → ℕ × Bytes → Type 0
  IsNoticeCovered ts (id, domain) = IsCovered id domain ts

  add_recipients-IsRowCovered :
      (rows : List (ℕ × Bytes)) (s : Search)
      → IsKept s
      → (ts : List PendingTarget)
      → ((id : ℕ) (key : Bytes)
          → has_target id key (add_recipients u own rows s).targets ≡ true
          → has_target id key ts ≡ true)
      → All (IsRowCovered ts) rows
  unfolding add_recipients add_domain
  add_recipients-IsRowCovered [] s kept ts later = tt
  add_recipients-IsRowCovered ((id, addr) ∷ rows) s kept ts later =
      let next = add_domain u own id (domain_of addr (last_index b'@' addr)) s in
      let (k, grows) = add_domain-Grows id (domain_of addr (last_index b'@' addr)) s kept in
      (
        λ domain e remote. later id (u.to_lower domain) (
            (add_recipients-Grows rows next k).1 id (u.to_lower domain)
              (rw e (add_target-IsCovered id domain s kept remote))),
        add_recipients-IsRowCovered rows next k ts later,
      )

  add_notices-IsNoticeCovered :
      (rows : List (ℕ × Bytes)) (s : Search)
      → IsKept s
      → All (IsNoticeCovered (add_notices u own rows s).targets) rows
  unfolding add_notices
  add_notices-IsNoticeCovered [] s kept = tt
  add_notices-IsNoticeCovered ((id, domain) ∷ rows) s kept =
      let next = add_target u own id domain s in
      let (k, grows) = add_target-Grows id domain s kept in
      (
        λ remote.
            (add_notices-Grows rows next k).1 id (u.to_lower domain)
              (add_target-IsCovered id domain s kept remote),
        add_notices-IsNoticeCovered rows next k,
      )

  nothing_found : IsKept (record { seen = []; targets = [] })
  unfolding is_seen has_target
  nothing_found = record { same = λ id key. refl; away = tt; distinct = tt }

  -- When the queries succeed, the targets are found, and: no target is at this host; no two are of
  -- the same message and, up to case, the same domain; and every row, of a recipient or of a domain
  -- to be notified, whose domain is not this host's is served by a target.
  pub find_pending_targets_lem :
      (rows notices : List (ℕ × Bytes))
      → (ts : List PendingTarget) × (find_pending_targets u own (some rows) (some notices)
          ≡ some ts)
        × All (λ t. u.equal_fold t.domain own ≡ false) ts
        × IsDistinct ts
        × All (IsRowCovered ts) rows
        × All (IsNoticeCovered ts) notices
  unfolding find_pending_targets with_notices
  find_pending_targets_lem rows notices =
      let first = add_recipients u own rows (record { seen = []; targets = [] }) in
      let (k, grows) = add_recipients-Grows rows _ nothing_found in
      let (k', grows') = add_notices-Grows notices first k in
      (
        (add_notices u own notices first).targets,
        refl,
        k'.away,
        k'.distinct,
        add_recipients-IsRowCovered rows _ nothing_found _ grows',
        add_notices-IsNoticeCovered notices first k,
      )
