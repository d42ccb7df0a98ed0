-- ===== src/Emoji.antt =====
-- Recognising a single emoji (internal/emoji/emoji.go).
pub mod Tables
pub mod Grammar
use fmsgd.Prelude.{
  ℕ, zero, suc, ◌-◌, ◌%◌, Bool, true, false, not, ◌&&◌, ◌||◌, List, [], ◌∷◌, Option, none, some,
  ltb, leb, ◌==◌, if◌then◌else◌, length, Bytes,
}
use fmsgd.Text.Utf8.{runes}
use fmsgd.Emoji.Tables.{
  RangeTable, prop_emoji, prop_emoji_presentation, prop_emoji_modifier, prop_emoji_modifier_base,
}

abbrev pub zwj : ℕ
zwj = 0x200d

abbrev pub vs16 : ℕ
vs16 = 0xfe0f

abbrev pub keycap : ℕ
keycap = 0x20e3

abbrev pub tag_term : ℕ
tag_term = 0xe007f

abbrev pub black_flag : ℕ
black_flag = 0x1f3f4

-- `unicode.Is`.
unfoldable pub is_in : RangeTable → ℕ → Bool
is_in [] r = false
is_in ((lo, hi, stride) ∷ rest) r = leb lo r && leb r hi && (r - lo) % stride == 0 || is_in rest r

unfoldable pub is_ri : ℕ → Bool
is_ri r = leb 0x1f1e6 r && leb r 0x1f1ff

unfoldable pub is_tag : ℕ → Bool
is_tag r = leb 0xe0020 r && leb r 0xe007e

abbrev pub is_emoji : ℕ → Bool
is_emoji = is_in prop_emoji

abbrev pub presents : ℕ → Bool
presents = is_in prop_emoji_presentation

abbrev pub is_modifier : ℕ → Bool
is_modifier = is_in prop_emoji_modifier

abbrev pub is_modifier_base : ℕ → Bool
is_modifier_base = is_in prop_emoji_modifier_base

-- The loop over tag characters: what stands behind them.
unfoldable pub skip_tags : List ℕ → List ℕ
skip_tags [] = []
skip_tags (r ∷ rs) = let rest = skip_tags rs in if is_tag r then rest else r ∷ rs

unfoldable pub after_tags : List ℕ → Option (List ℕ)
after_tags [] = none
after_tags (r ∷ rs) = if r == tag_term then some rs else none

-- A keycap behind U+FE0F is taken along.
unfoldable pub after_variation : List ℕ → List ℕ
after_variation [] = []
after_variation (r ∷ rs) = if r == keycap then rs else r ∷ rs

-- The switch of `zwjElement` on the rune behind the base.
unfoldable pub after_base : ℕ → List ℕ → Option (List ℕ)
unfolding skip_tags after_tags after_variation
after_base base [] = if presents base then some [] else none
after_base base (r ∷ rs) =
    if is_modifier r
    then (if is_modifier_base base then some rs else none)
    else if r == vs16
    then some (after_variation rs)
    else if is_tag r
    then (if base == black_flag then after_tags (skip_tags (r ∷ rs)) else none)
    else if presents base
    then some (r ∷ rs)
    else none

-- `zwjElement`: what is left behind one element that presents as emoji. The code returns the
-- element's length instead.
unfoldable pub zwj_element : List ℕ → Option (List ℕ)
unfolding after_base
zwj_element [] = none
zwj_element (base ∷ rs) = if not (is_emoji base) || is_ri base then none else after_base base rs

-- The loop of `IsPossible` behind an element: the end, or a joiner and `more`.
unfoldable pub joined : (List ℕ → Option Bool) → List ℕ → Option Bool
joined more [] = some true
joined more (r ∷ []) = some false
joined more (r ∷ q ∷ rest) = if r == zwj then more (q ∷ rest) else some false

-- The loop, with fuel: `none` means that it ran out.
unfoldable pub elements : ℕ → List ℕ → Option Bool
unfolding joined
elements zero rs = none
elements (suc n) rs = elim (zwj_element rs) [
  | none ↦ some false
  | some rest ↦ joined (elements n) rest
]

unfoldable pub is_flag : List ℕ → Bool
unfolding is_ri
is_flag (a ∷ b ∷ []) = is_ri a && is_ri b
is_flag _ = false

unfoldable pub is_possible_runes : Option (List ℕ) → Option Bool
unfolding is_flag elements
is_possible_runes none = some false
is_possible_runes (some rs) =
    if ltb 24 (length rs)
    then some false
    else if is_flag rs
    then some true
    else elements (suc (length rs)) rs

-- `IsPossible`.
unfoldable pub is_possible : Bytes → Option Bool
is_possible s =
    if length s == 0 || ltb 64 (length s) then some false else is_possible_runes (runes s)
