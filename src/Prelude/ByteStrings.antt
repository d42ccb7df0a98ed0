-- ===== src/Prelude/ByteStrings.antt =====
-- Byte strings: comparison, prefixes by a length byte, and little-endian integers.
use Prim.Native.Nat.{ℕ, zero, suc, ◌+◌, ◌*◌, ◌/◌, ◌%◌, ◌^◌, ◌<◌}
use mathlib.Core.Path.{◌≡◌, refl, ap}
use mathlib.Core.Logic.{◌↔◌}
use mathlib.Core.Bool.{Bool, true, false, ◌&&◌}
use mathlib.Core.List.{List, [], ◌∷◌, ◌++◌}
use native.Mathlib.Omega.{arith}
use native.Mathlib.Nat.{pow-suc, mul-zero, add-zero}
use fmsgd.Prelude.Tests.{◌==◌}
use fmsgd.Prelude.Lists.{length, take, drop, All}

-- A byte string: Go's `[]byte` and `string`. Each element is below 256 where that matters.
abbrev pub Bytes : Type 0
Bytes = List ℕ

abbrev pub IsByte : ℕ → Type 0
IsByte b = b < 256

-- `bytes.Equal`, and `==` on strings.
unfoldable pub bytes_eq : Bytes → Bytes → Bool
bytes_eq [] [] = true
bytes_eq (x ∷ xs) (y ∷ ys) = x == y && bytes_eq xs ys
bytes_eq _ _ = false

pub bytes_eq_iff : (a b : Bytes) → (bytes_eq a b ≡ true) ↔ (a ≡ b)
unfolding bytes_eq
bytes_eq_iff (x ∷ a) (y ∷ b) = ground (arith, bytes_eq_iff a b)
bytes_eq_iff _ _ = ground arith

-- The conversion `byte(n)`.
abbrev pub to_byte : ℕ → ℕ
to_byte n = n % 256

-- A text behind its length as one byte.
unfoldable pub sized : Bytes → Bytes
sized s = to_byte (length s) ∷ s

-- The `k` bytes of a little-endian integer, and their value.
unfoldable pub little : ℕ → ℕ → Bytes
little zero n = []
little (suc k) n = (n % 256) ∷ little k (n / 256)

unfoldable pub of_little : Bytes → ℕ
of_little [] = 0
of_little (b ∷ bs) = b + 256 * of_little bs

pub length-little : (k n : ℕ) → length (little k n) ≡ k
unfolding little
length-little zero n = refl
length-little (suc k) n = ap suc (length-little k (n / 256))

pub of_little-little : (k n : ℕ) → n < 256 ^ k → of_little (little k n) ≡ n
unfolding of_little little
of_little-little zero n h = omega arith
of_little-little (suc k) n h =
    omega (arith, of_little-little k (n / 256) (omega (arith, pow-suc 256 k)))

pub of_little-lt : (bs : Bytes) → All IsByte bs → of_little bs < 256 ^ length bs
unfolding of_little
of_little-lt [] h = omega arith
of_little-lt (b ∷ bs) (hb, hbs) = omega (arith, of_little-lt bs hbs, pow-suc 256 (length bs))

pub little-IsByte : (k n : ℕ) → All IsByte (little k n)
unfolding little
little-IsByte zero n = tt
little-IsByte (suc k) n = (omega arith, little-IsByte k (n / 256))

pub little-of_little : (bs : Bytes) → All IsByte bs → little (length bs) (of_little bs) ≡ bs
unfolding of_little little
little-of_little [] h = refl
little-of_little (b ∷ bs) (hb, hbs) =
    let low : (b + 256 * of_little bs) % 256 ≡ b = omega arith in
    let high : (b + 256 * of_little bs) / 256 ≡ of_little bs = omega arith in
    rw (low, high, little-of_little bs hbs)

-- One byte is its own value.
pub of_little-one : (bs rest : Bytes) → length bs ≡ 1 → of_little bs ∷ rest ≡ bs ++ rest
unfolding of_little
of_little-one [] rest e = absurd (omega arith)
of_little-one (b ∷ []) rest e = rw mul-zero (rw add-zero)
of_little-one (b ∷ c ∷ bs) rest e = absurd (omega arith)

pub All-take : (P : ℕ → Type 0) (n : ℕ) (bs : Bytes) → All P bs → All P (take n bs)
All-take P zero bs h = tt
All-take P (suc n) [] h = tt
All-take P (suc n) (b ∷ bs) h = (h.0, All-take P n bs h.1)

pub All-drop : (P : ℕ → Type 0) (n : ℕ) (bs : Bytes) → All P bs → All P (drop n bs)
All-drop P zero bs h = h
All-drop P (suc n) [] h = tt
All-drop P (suc n) (b ∷ bs) h = All-drop P n bs h.1
