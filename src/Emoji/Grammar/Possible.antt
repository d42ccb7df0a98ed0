-- ===== src/Emoji/Grammar/Possible.antt =====
-- `IsPossible` (internal/emoji/emoji.go) against the grammar.
use fmsgd.Prelude.{
  ℕ, suc, ◌≡◌, ◌↔◌, ◌⊎◌, inl, inr, refl, sym, [], ◌∷◌, ◌++◌, Bool, true, false, ◌||◌, List, Option,
  none, some, arith, ltb, ◌==◌, Bool-cases, length, Bytes,
}
use fmsgd.Text.Utf8.{runes}
use mathlib.Core.Path.{subst}
use fmsgd.Emoji.{vs16, keycap, tag_term, is_emoji, is_flag, is_possible_runes, is_possible}
use fmsgd.Emoji.Grammar.{
  modifier, variation, keycapped, tag_modifier, IsZwjElement, plain, with_modification,
  IsZwjSequence, single, joined_by, IsPossibleEmoji, flag, sequence, IsTail, bare, modified, varied,
  keyed, tagged, IsElement, IsSequence, one, join, IsEmoji,
}
use fmsgd.Emoji.Grammar.Elements.{elements_sound, elements_complete, elements-total}

tail-IsZwjElement :
    (base : ℕ) (es : List ℕ) → is_emoji base ≡ true → IsTail base es → IsZwjElement (base ∷ es)
tail-IsZwjElement base _ e (bare p) = plain base e
tail-IsZwjElement base _ e (modified m b h) = with_modification base (m ∷ []) e (modifier m h)
tail-IsZwjElement base _ e varied = with_modification base (vs16 ∷ []) e variation
tail-IsZwjElement base _ e keyed = with_modification base (vs16 ∷ keycap ∷ []) e keycapped
tail-IsZwjElement base _ e (tagged t ts f h) =
    with_modification base (t ∷ (ts ++ tag_term ∷ [])) e (tag_modifier t ts h)

IsElement-IsZwjElement : {rs : List ℕ} → IsElement rs → IsZwjElement rs
IsElement-IsZwjElement v =
    subst IsZwjElement (sym v.splits) (tail-IsZwjElement v.base v.behind v.emoji v.ends)

IsSequence-IsZwjSequence : {rs : List ℕ} → IsSequence rs → IsZwjSequence rs
IsSequence-IsZwjSequence (one v) = single (IsElement-IsZwjElement v)
IsSequence-IsZwjSequence (join v s e) =
    joined_by (IsElement-IsZwjElement v) (IsSequence-IsZwjSequence s) e

is_flag-IsPossibleEmoji : (rs : List ℕ) → is_flag rs ≡ true → IsPossibleEmoji rs
unfolding is_flag
is_flag-IsPossibleEmoji [] h = cc
is_flag-IsPossibleEmoji (a ∷ []) h = cc
is_flag-IsPossibleEmoji (a ∷ b ∷ []) h = flag a b (ground arith) (ground arith)
is_flag-IsPossibleEmoji (a ∷ b ∷ c ∷ rs) h = cc

parsed-IsPossibleEmoji : (rs : List ℕ) → (is_flag rs ≡ true) ⊎ IsSequence rs → IsPossibleEmoji rs
parsed-IsPossibleEmoji rs (inl f) = is_flag-IsPossibleEmoji rs f
parsed-IsPossibleEmoji rs (inr s) = sequence (IsSequence-IsZwjSequence s)

is_possible-total_runes : (o : Option (List ℕ)) → (b : Bool) × (is_possible_runes o ≡ some b)
unfolding is_possible_runes
is_possible-total_runes none = (false, refl)
is_possible-total_runes (some rs) = elim (Bool-cases (ltb 24 (length rs))) [
  | inl e ↦ (false, rw e)
  | inr e ↦ elim (Bool-cases (is_flag rs)) [
    | inl f ↦ (true, rw (e, f))
    | inr f ↦ let (b, p) = elements-total (suc (length rs)) rs (omega arith) in (b, rw (e, f) p)
  ]
]

-- The fuel of the loop suffices: `IsPossible` answers on every text.
pub is_possible-total : (s : Bytes) → (b : Bool) × (is_possible s ≡ some b)
is_possible-total s = elim (Bool-cases (length s == 0 || ltb 64 (length s))) [
  | inl e ↦ (false, unfold is_possible in rw e)
  | inr e ↦ let (b, p) = is_possible-total_runes (runes s) in (b, unfold is_possible in rw e p)
]

possible-IsEmoji :
    (s : Bytes) (o : Option (List ℕ))
    → runes s ≡ o
    → (length s == 0 || ltb 64 (length s)) ≡ false
    → is_possible_runes o ≡ some true
    → IsEmoji s
possible-IsEmoji s none p len h = absurd (unfold is_possible_runes in ground arith)
possible-IsEmoji s (some rs) p len h =
    let parsed : (is_flag rs ≡ true) ⊎ IsSequence rs = elim (Bool-cases (is_flag rs)) [
      | inl f ↦ inl f
      | inr f ↦ inr (elements_sound (suc (length rs)) rs (unfold is_possible_runes in ground arith))
    ] in
    record {
      characters = rs;
      decoded = p;
      some_byte = ground arith;
      short = ground arith;
      few = unfold is_possible_runes in ground arith;
      documented = parsed-IsPossibleEmoji rs parsed;
      parsed = parsed;
    }

IsEmoji-possible : (s : Bytes) → IsEmoji s → is_possible s ≡ some true
unfolding is_possible is_possible_runes
IsEmoji-possible s v =
    let bytes : (length s == 0 || ltb 64 (length s)) ≡ false =
      ground (arith, v.some_byte, v.short) in
    let few : ltb 24 (length v.characters) ≡ false = ground (arith, v.few) in
    elim (Bool-cases (is_flag v.characters)) [
      | inl f ↦ rw (bytes, v.decoded, few, f)
      | inr f ↦
          rw (bytes, v.decoded, few, f)
            (elim v.parsed [
              | inl g ↦ absurd (ground arith)
              | inr t ↦ elements_complete (suc (length v.characters)) (omega arith) t
            ])
    ]

-- `IsPossible` accepts exactly the texts of 1 to 64 bytes and at most 24 characters that are in the
-- documented grammar and there in the narrower form that the code reads: an element presents as
-- emoji, a modifier stands behind a modifier base, tags stand behind the black flag, and a regional
-- indicator is not a base.
pub is_possible_iff : (s : Bytes) → (is_possible s ≡ some true) ↔ IsEmoji s
is_possible_iff s = (
  λ h.
      possible-IsEmoji s (runes s) refl (unfold is_possible in ground arith)
        (unfold is_possible in ground arith),
  IsEmoji-possible s,
)
