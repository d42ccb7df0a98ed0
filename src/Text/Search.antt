-- ===== src/Text/Search.antt =====
-- `strings.IndexByte`, `strings.LastIndex` of one byte and `strings.Split` at one byte.
use fmsgd.Prelude.{
  ℕ, zero, suc, ◌≡◌, ◌≢◌, refl, Bool, true, false, inl, inr, List, [], ◌∷◌, ◌++◌, Option, none,
  some, arith, ◌==◌, if◌then◌else◌, Bool-cases, ==_iff, ==_refl, length, take, drop, Bytes, All,
}
use mathlib.Core.Option

unfoldable pub index : ℕ → Bytes → Option ℕ
index c [] = none
index c (b ∷ bs) = if b == c then some 0 else Option.map suc (index c bs)

-- A later match wins over one here.
later : Bool → Option ℕ → Option ℕ
later here (some i) = some (suc i)
later true none = some 0
later false none = none

unfoldable pub last_index : ℕ → Bytes → Option ℕ
unfolding later
last_index c [] = none
last_index c (b ∷ bs) = later (b == c) (last_index c bs)

unfoldable pub onto_first : ℕ → List Bytes → List Bytes
onto_first b [] = (b ∷ []) ∷ []
onto_first b (p ∷ ps) = (b ∷ p) ∷ ps

-- The pieces between the separators; never empty.
unfoldable pub split : ℕ → Bytes → List Bytes
unfolding onto_first
split c [] = [] ∷ []
split c (b ∷ bs) = let rest = split c bs in if b == c then [] ∷ rest else onto_first b rest

pub last_index-none : (c : ℕ) (bs : Bytes) → All (λ b. b ≢ c) bs → last_index c bs ≡ none
unfolding last_index
last_index-none c [] h = refl
last_index-none c (b ∷ bs) h = ground (arith, last_index-none c bs h.1)

-- The last `c` stands before a part without `c`.
pub last_index-append :
    (c : ℕ) (us ds : Bytes) → All (λ b. b ≢ c) ds → last_index c (us ++ c ∷ ds) ≡ some (length us)
unfolding last_index
last_index-append c [] ds h = rw (last_index-none c ds h) (rw ==_refl)
last_index-append c (u ∷ us) ds h = rw (last_index-append c us ds h)

pub last_index-split :
    (c : ℕ) (bs : Bytes) (i : ℕ) → last_index c bs ≡ some i → take i bs ++ c ∷ drop (suc i) bs ≡ bs
unfolding last_index
last_index-split c [] i h = cc
last_index-split c (b ∷ bs) zero h = elim (Bool-cases (b == c)) [
  | inl e ↦ ground (arith, ==_iff b c)
  | inr e ↦ ground arith
]
last_index-split c (b ∷ bs) (suc i) h = ground (arith, last_index-split c bs i)
