-- ===== src/Text/Utf8.antt =====
-- UTF-8 as `utf8.ValidString` and `[]rune(s)` read it (Unicode 3.9, table 3-7).
use fmsgd.Prelude.{
  ℕ, zero, suc, ◌+◌, ◌-◌, ◌*◌, ◌&&◌, List, [], ◌∷◌, Option, none, some, leb, ltb, ◌==◌,
  if◌then◌else◌, Bytes,
}
use mathlib.Core.Option

-- What the decoder has read of the current character: how many bytes are still to come, the
-- bounds of the next one, and the bits so far.
pub record Pending : Type 0 where
  pub left : ℕ
  pub lo : ℕ
  pub hi : ℕ
  pub bits : ℕ

abbrev pub start : Pending
start = record { left = 0; lo = 0; hi = 0; bits = 0 }

abbrev await : ℕ → ℕ → ℕ → ℕ → Option Pending
await left lo hi bits = some (record { left = left; lo = lo; hi = hi; bits = bits })

-- The state after a lead byte of a character of two bytes or more.
pub lead : ℕ → Option Pending
lead b =
    if ltb b 0xc2
    then none
    else if ltb b 0xe0
    then await 1 0x80 0xbf (b - 0xc0)
    else if b == 0xe0
    then await 2 0xa0 0xbf 0
    else if b == 0xed
    then await 2 0x80 0x9f 13
    else if ltb b 0xf0
    then await 2 0x80 0xbf (b - 0xe0)
    else if b == 0xf0
    then await 3 0x90 0xbf 0
    else if ltb b 0xf4
    then await 3 0x80 0xbf (b - 0xf0)
    else if b == 0xf4
    then await 3 0x80 0x8f 4
    else none

-- One byte inside a character; `left` counts the bytes after this one.
continue_with : Pending → ℕ → ℕ → Option (Pending × Option ℕ)
continue_with p zero b =
    if leb p.lo b && leb b p.hi then some (start, some (p.bits * 64 + (b - 0x80))) else none
continue_with p (suc n) b =
    if leb p.lo b && leb b p.hi
    then some (record { left = suc n; lo = 0x80; hi = 0xbf; bits = p.bits * 64 + (b - 0x80) }, none)
    else none

step_at : ℕ → Pending → ℕ → Option (Pending × Option ℕ)
unfolding lead continue_with
step_at zero p b = if ltb b 0x80 then some (start, some b) else Option.map (λ q. (q, none)) (lead b)
step_at (suc n) p b = continue_with p n b

emit : Option ℕ → Option (List ℕ) → Option (List ℕ)
emit none rest = rest
emit (some r) rest = Option.map (◌∷◌ r) rest

-- The characters of the text, or `none` if it is not valid UTF-8.
unfoldable pub decode_from : Pending → Bytes → Option (List ℕ)
unfolding step_at emit
decode_from p [] = if p.left == 0 then some [] else none
decode_from p (b ∷ bs) = elim (step_at p.left p b) [
  | none ↦ none
  | some (q, r) ↦ emit r (decode_from q bs)
]

unfoldable pub runes : Bytes → Option (List ℕ)
unfolding decode_from
runes = decode_from start
