-- ===== src/Address/Domain.antt =====
-- What a valid domain looks like (`isValidDomain`, cmd/fmsgd/host.go).
use fmsgd.Prelude.{
  ℕ, ◌≡◌, ◌≢◌, ◌<◌, true, inl, inr, List, [], ◌∷◌, arith, ◌==◌, Bool-cases, and-true, length, Bytes,
  All, bytes_eq, bytes_eq_iff,
}
use fmsgd.Text.{codes}
use fmsgd.Text.Search.{split, onto_first}
use fmsgd.Address.{
  is_domain_byte, all_domain_bytes, is_valid_label, all_valid_labels, is_valid_domain,
}

abbrev NotAt : ℕ → Type 0
NotAt b = b ≢ b'@'

domain_byte-NotAt : (c : ℕ) → is_domain_byte c ≡ true → NotAt c
unfolding is_domain_byte
domain_byte-NotAt c h = ground arith

all_domain_bytes-NotAt : (cs : Bytes) → all_domain_bytes cs ≡ true → All NotAt cs
unfolding all_domain_bytes
all_domain_bytes-NotAt [] h = tt
all_domain_bytes-NotAt (c ∷ cs) h =
    let p = and-true (is_domain_byte c) (all_domain_bytes cs) h in
    (domain_byte-NotAt c p.0, all_domain_bytes-NotAt cs p.1)

label-NotAt : (l : Bytes) → is_valid_label l ≡ true → All NotAt l
label-NotAt [] h = tt
label-NotAt (c ∷ cs) h = all_domain_bytes-NotAt (c ∷ cs) (unfold is_valid_label in ground arith)

labels-NotAt : (ls : List Bytes) → all_valid_labels ls ≡ true → All (All NotAt) ls
unfolding all_valid_labels
labels-NotAt [] h = tt
labels-NotAt (l ∷ ls) h =
    let p = and-true (is_valid_label l) (all_valid_labels ls) h in
    (label-NotAt l p.0, labels-NotAt ls p.1)

-- The pieces of a text hold all of it but the separators.
onto_first-All :
    (P : ℕ → Type 0) (b : ℕ) (ps : List Bytes)
    → All (All P) (onto_first b ps)
    → P b × All (All P) ps
unfolding onto_first
onto_first-All P b [] h = (h.0.0, tt)
onto_first-All P b (p ∷ ps) h = (h.0.0, (h.0.1, h.1))

split-NotAt : (bs : Bytes) → All (All NotAt) (split b'.' bs) → All NotAt bs
unfolding split
split-NotAt [] h = tt
split-NotAt (b ∷ bs) h = elim (Bool-cases (b == b'.')) [
  | inl e ↦ (ground arith, split-NotAt bs (rw e at h).1)
  | inr e ↦ let p = onto_first-All NotAt b (split b'.' bs) (rw e at h) in (p.0, split-NotAt bs p.1)
]

localhost-NotAt : All NotAt (codes "localhost")
localhost-NotAt = omega arith

-- A valid domain is not empty.
pub is_valid_domain-pos : (s : Bytes) → is_valid_domain s ≡ true → 0 < length s
unfolding is_valid_domain
is_valid_domain-pos s h = ground arith

-- A valid domain holds no `@`.
pub is_valid_domain-NotAt : (s : Bytes) → is_valid_domain s ≡ true → All (λ b. b ≢ b'@') s
is_valid_domain-NotAt s h = elim (Bool-cases (bytes_eq s (codes "localhost"))) [
  | inl e ↦ rw ((bytes_eq_iff s _).0 e) localhost-NotAt
  | inr e ↦ split-NotAt s (labels-NotAt _ (unfold is_valid_domain in ground arith))
]
