-- ===== src/Text.antt =====
-- What the program uses of Go's string handling. UTF-8 decoding and the byte searches are
-- written out; the Unicode tables (letters, numbers, case folding) are the fields of `Unicode`.
pub mod Utf8
pub mod Search
use Prim.Native.Char.{code}
use Prim.Native.String.{String}
use fmsgd.Prelude.{ℕ, Bool, [], ◌∷◌, Bytes}

-- `unicode.IsLetter`, `unicode.IsNumber`, `strings.ToLower` and `strings.EqualFold`.
pub record Unicode : Type 0 where
  pub is_letter : ℕ → Bool
  pub is_number : ℕ → Bool
  pub to_lower : Bytes → Bytes
  pub equal_fold : Bytes → Bytes → Bool

-- The bytes of an ASCII literal.
abbrev pub codes : String → Bytes
codes String.[] = []
codes (String.◌∷◌ c s) = code c ∷ codes s
