-- ===== src/Emoji/Grammar.antt =====
-- The possible_emoji grammar as the comment of `IsPossible` has it (internal/emoji/emoji.go), and the
-- narrower form of it that `zwjElement` reads.
pub mod Elements
pub mod Possible
use fmsgd.Prelude.{
  ℕ, zero, suc, ◌≡◌, ◌≤◌, ◌<◌, ◌↔◌, ◌⊎◌, inl, inr, refl, ap, ◌∙◌, Bool, true, false, ◌||◌, List, [],
  ◌∷◌, ◌++◌, Option, none, some, arith, ltb, ◌==◌, ==_iff, Bool-cases, Option-cases, length,
  length-append, append-nil, append_assoc, Bytes, All,
}
use fmsgd.Text.Utf8.{runes}
use fmsgd.Emoji.Tables.{prop_emoji_modifier}
use fmsgd.Emoji.{
  zwj, vs16, keycap, tag_term, black_flag, is_in, is_ri, is_tag, is_emoji, presents, is_modifier,
  is_modifier_base, skip_tags, joined, after_tags, after_variation, after_base, zwj_element,
  elements, is_flag, is_possible_runes, is_possible,
}

-- emoji_modification := Emoji_Modifier | FE0F 20E3? | tag_modifier
-- tag_modifier := [E0020-E007E]+ E007F
pub data IsModification : List ℕ → Type 0 where
  modifier : (m : ℕ) → is_modifier m ≡ true → IsModification (m ∷ [])
  variation : IsModification (vs16 ∷ [])
  keycapped : IsModification (vs16 ∷ keycap ∷ [])
  tag_modifier :
      (t : ℕ) (ts : List ℕ)
      → All (λ r. is_tag r ≡ true) (t ∷ ts)
      → IsModification (t ∷ (ts ++ tag_term ∷ []))

-- zwj_element := Emoji emoji_modification?
pub data IsZwjElement : List ℕ → Type 0 where
  plain : (base : ℕ) → is_emoji base ≡ true → IsZwjElement (base ∷ [])
  with_modification :
      (base : ℕ) (es : List ℕ) → is_emoji base ≡ true → IsModification es → IsZwjElement (base ∷ es)

-- zwj_element (ZWJ zwj_element)*
pub data IsZwjSequence : List ℕ → Type 0 where
  single : {e : List ℕ} → IsZwjElement e → IsZwjSequence e
  joined_by :
      {e s rs : List ℕ} → IsZwjElement e → IsZwjSequence s → rs ≡ e ++ zwj ∷ s → IsZwjSequence rs

-- possible_emoji := flag_sequence | zwj_element (ZWJ zwj_element)*, where flag_sequence := RI RI
pub data IsPossibleEmoji : List ℕ → Type 0 where
  flag : (a b : ℕ) → is_ri a ≡ true → is_ri b ≡ true → IsPossibleEmoji (a ∷ b ∷ [])
  sequence : {rs : List ℕ} → IsZwjSequence rs → IsPossibleEmoji rs

-- What stands behind the base of an element, in the narrower form: and how it makes the base present as emoji.
pub data IsTail (base : ℕ) : List ℕ → Type 0 where
  bare : presents base ≡ true → IsTail base []
  modified : (m : ℕ) → is_modifier_base base ≡ true → is_modifier m ≡ true → IsTail base (m ∷ [])
  varied : IsTail base (vs16 ∷ [])
  keyed : IsTail base (vs16 ∷ keycap ∷ [])
  tagged :
      (t : ℕ) (ts : List ℕ)
      → base ≡ black_flag
      → All (λ r. is_tag r ≡ true) (t ∷ ts)
      → IsTail base (t ∷ (ts ++ tag_term ∷ []))

-- One zwj_element in the narrower form.
pub record IsElement (rs : List ℕ) : Type 0 where
  pub base : ℕ
  pub behind : List ℕ
  pub splits : rs ≡ base ∷ behind
  pub emoji : is_emoji base ≡ true
  pub no_ri : is_ri base ≡ false
  pub ends : IsTail base behind

-- zwj_element (ZWJ zwj_element)* of such elements.
pub data IsSequence : List ℕ → Type 0 where
  one : {e : List ℕ} → IsElement e → IsSequence e
  join : {e s rs : List ℕ} → IsElement e → IsSequence s → rs ≡ e ++ zwj ∷ s → IsSequence rs

-- The texts that are taken for one emoji: valid UTF-8 of 1 to 64 bytes and at most 24 characters,
-- which are in the grammar, and a flag of two regional indicators or in the narrower form.
pub record IsEmoji (s : Bytes) : Type 0 where
  pub characters : List ℕ
  pub decoded : runes s ≡ some characters
  pub some_byte : 0 < length s
  pub short : length s ≤ 64
  pub few : length characters ≤ 24
  pub documented : IsPossibleEmoji characters
  pub parsed : (is_flag characters ≡ true) ⊎ IsSequence characters
