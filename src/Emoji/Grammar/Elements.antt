-- ===== src/Emoji/Grammar/Elements.antt =====
-- `zwjElement` and the loop of `IsPossible` (internal/emoji/emoji.go) against the grammar.
use fmsgd.Prelude.{
  ℕ, zero, suc, ◌≡◌, ◌<◌, inl, inr, refl, ap, ◌∙◌, Bool, true, false, List, [], ◌∷◌, ◌++◌, Option,
  some, arith, ◌==◌, ==_iff, Bool-cases, Option-cases, length, length-append, append-nil,
  append_assoc, All,
}
use fmsgd.Emoji.Tables.{prop_emoji_modifier}
use fmsgd.Emoji.{
  zwj, vs16, keycap, tag_term, black_flag, is_in, is_tag, is_modifier, skip_tags, joined,
  after_tags, after_variation, after_base, zwj_element, elements,
}
use fmsgd.Emoji.Grammar.{
  IsTail, bare, modified, varied, keyed, tagged, IsElement, IsSequence, one, join,
}

-- What the code takes as the end of an element: the end of the text, or a joiner.
abbrev Stops : List ℕ → Type 0
Stops [] = Unit
Stops (r ∷ rs) = r ≡ zwj

tag-not-modifier : (r : ℕ) → is_tag r ≡ true → is_modifier r ≡ false
unfolding is_tag is_in prop_emoji_modifier
tag-not-modifier r h = ground arith

tag-not-vs16 : (r : ℕ) → is_tag r ≡ true → (r == vs16) ≡ false
unfolding is_tag
tag-not-vs16 r h = ground arith

zwj-not-modifier : is_modifier zwj ≡ false
unfolding is_in prop_emoji_modifier
zwj-not-modifier = refl

vs16-not-modifier : is_modifier vs16 ≡ false
unfolding is_in prop_emoji_modifier
vs16-not-modifier = refl

zwj-not-tag : is_tag zwj ≡ false
unfolding is_tag
zwj-not-tag = refl

skip_tags-append :
    (ts rest : List ℕ)
    → All (λ r. is_tag r ≡ true) ts
    → skip_tags (ts ++ tag_term ∷ rest) ≡ tag_term ∷ rest
unfolding skip_tags
skip_tags-append [] rest h = unfold is_tag in refl
skip_tags-append (t ∷ ts) rest h = rw h.0 (skip_tags-append ts rest h.1)

after_base-IsTail :
    (base : ℕ) (es rest : List ℕ)
    → IsTail base es
    → Stops rest
    → after_base base (es ++ rest) ≡ some rest
unfolding after_base
after_base-IsTail base es [] (bare p) stop = rw p
after_base-IsTail base es (r ∷ rest) (bare p) stop = rw (stop, zwj-not-modifier, zwj-not-tag, p)
after_base-IsTail base es rest (modified m b h) stop = rw (h, b)
after_base-IsTail base es [] varied stop = rw vs16-not-modifier
after_base-IsTail base es (r ∷ rest) varied stop = rw (stop, vs16-not-modifier)
after_base-IsTail base es rest keyed stop = rw vs16-not-modifier
after_base-IsTail base es rest (tagged t ts b h) stop =
    rw (
      tag-not-modifier t h.0,
      tag-not-vs16 t h.0,
      h.0,
      b,
      append_assoc,
      skip_tags-append ts rest h.1,
    )

pub zwj_element-IsElement :
    (es rest : List ℕ) → IsElement es → Stops rest → zwj_element (es ++ rest) ≡ some rest
unfolding zwj_element
zwj_element-IsElement es rest v stop =
    rw (v.splits, v.emoji, v.no_ri, after_base-IsTail v.base v.behind rest v.ends stop)

skip_tags-split :
    (rs : List ℕ) → (ts : List ℕ) × All (λ r. is_tag r ≡ true) ts × (rs ≡ ts ++ skip_tags rs)
unfolding skip_tags
skip_tags-split [] = ([], tt, refl)
skip_tags-split (r ∷ rs) = elim (Bool-cases (is_tag r)) [
  | inl e ↦
      let (ts, tags, split) = skip_tags-split rs in (r ∷ ts, (e, tags), rw e (ap (◌∷◌ r) split))
  | inr e ↦ ([], tt, rw e)
]

abbrev Tail : ℕ → List ℕ → List ℕ → Type 0
Tail base rs rest = (es : List ℕ) × IsTail base es × (rs ≡ es ++ rest)

after_tags-some : (rs rest : List ℕ) → after_tags rs ≡ some rest → rs ≡ tag_term ∷ rest
unfolding after_tags
after_tags-some [] rest h = cc
after_tags-some (r ∷ rs) rest h = ground (arith, ==_iff r tag_term)

tags-Tail :
    (base r : ℕ) (rs rest : List ℕ)
    → is_tag r ≡ true
    → base ≡ black_flag
    → after_tags (skip_tags (r ∷ rs)) ≡ some rest
    → Tail base (r ∷ rs) rest
tags-Tail base r rs rest tag flag h =
    let (ts, tags, split) = skip_tags-split rs in
    let behind = after_tags-some (skip_tags rs) rest (unfold skip_tags in rw tag at h) in
    (
      r ∷ (ts ++ tag_term ∷ []),
      tagged r ts flag (tag, tags),
      rw append_assoc (ap (◌∷◌ r) (split ∙ ap (λ t. ts ++ t) behind)),
    )

variation-Tail : (base : ℕ) (rs : List ℕ) → Tail base (vs16 ∷ rs) (after_variation rs)
unfolding after_variation
variation-Tail base [] = (vs16 ∷ [], varied, refl)
variation-Tail base (r ∷ rs) = elim (Bool-cases (r == keycap)) [
  | inl e ↦ (vs16 ∷ keycap ∷ [], keyed, rw (e, (==_iff r keycap).0 e))
  | inr e ↦ (vs16 ∷ [], varied, rw e)
]

after_base-Tail : (base : ℕ) (rs rest : List ℕ) → after_base base rs ≡ some rest → Tail base rs rest
after_base-Tail base [] rest h =
    ([], bare (unfold after_base in ground arith), unfold after_base in ground arith)
after_base-Tail base (r ∷ rs) rest h = elim (Bool-cases (is_modifier r)) [
  | inl m ↦
      (r ∷ [], modified r (unfold after_base in ground arith) m, unfold after_base in ground arith)
  | inr m ↦ elim (Bool-cases (r == vs16)) [
    | inl v ↦
        let e : after_variation rs ≡ rest = unfold after_base in ground arith in
        rw ((==_iff r vs16).0 v, ← e) (variation-Tail base rs)
    | inr v ↦ elim (Bool-cases (is_tag r)) [
      | inl t ↦
          tags-Tail base r rs rest t (unfold after_base in ground (arith, ==_iff base black_flag))
            (unfold after_base in ground arith)
      | inr t ↦ ([], bare (unfold after_base in ground arith), unfold after_base in ground arith)
    ]
  ]
]

-- What `zwjElement` consumes is one element of the grammar.
pub zwj_element_sound :
    (rs rest : List ℕ)
    → zwj_element rs ≡ some rest
    → (es : List ℕ) × IsElement es × (rs ≡ es ++ rest)
zwj_element_sound [] rest h = unfold zwj_element in cc
zwj_element_sound (base ∷ rs) rest h =
    let (es, tail, split) = after_base-Tail base rs rest (unfold zwj_element in ground arith) in
    (
      base ∷ es,
      record {
        base = base;
        behind = es;
        splits = refl;
        emoji = unfold zwj_element in ground arith;
        no_ri = unfold zwj_element in ground arith;
        ends = tail;
      },
      ap (◌∷◌ base) split,
    )

element_shorter : (rs rest : List ℕ) → zwj_element rs ≡ some rest → length rest < length rs
element_shorter rs rest h =
    let (es, v, split) = zwj_element_sound rs rest h in
    omega (arith, ap length split, ap length v.splits, length-append es rest)

joined_sound :
    (more : List ℕ → Option Bool) (es rest rs : List ℕ)
    → IsElement es
    → rs ≡ es ++ rest
    → joined more rest ≡ some true
    → ((q : List ℕ) → more q ≡ some true → IsSequence q)
    → IsSequence rs
unfolding joined
joined_sound more es [] rs v split h sound = rw (split, append-nil) (one v)
joined_sound more es (r ∷ []) rs v split h sound = cc
joined_sound more es (r ∷ q ∷ rest) rs v split h sound = elim (Bool-cases (r == zwj)) [
  | inl e ↦
      join v (sound (q ∷ rest) (rw e at h))
        (split ∙ ap (λ t. es ++ t ∷ q ∷ rest) ((==_iff r zwj).0 e))
  | inr e ↦ absurd (ground arith)
]

pub elements_sound : (n : ℕ) (rs : List ℕ) → elements n rs ≡ some true → IsSequence rs
elements_sound zero rs h = unfold elements in cc
elements_sound (suc n) rs h = elim (Option-cases (zwj_element rs)) [
  | inl e ↦ absurd (unfold elements in ground arith)
  | inr (rest, e) ↦
      let (es, v, split) = zwj_element_sound rs rest e in
      let behind : joined (elements n) rest ≡ some true = unfold elements in ground arith in
      joined_sound (elements n) es rest rs v split behind (elements_sound n)
]

IsElement-cons : {es : List ℕ} → IsElement es → (r : ℕ) × (rs : List ℕ) × (es ≡ r ∷ rs)
IsElement-cons v = (v.base, v.behind, v.splits)

IsSequence-cons : {s : List ℕ} → IsSequence s → (r : ℕ) × (rs : List ℕ) × (s ≡ r ∷ rs)
IsSequence-cons (one v) = (v.base, v.behind, v.splits)
IsSequence-cons (join {s = t} v more split) = (v.base, v.behind ++ zwj ∷ t, split ∙ rw v.splits)

joined-zwj :
    (more : List ℕ → Option Bool) {s : List ℕ} → IsSequence s → joined more (zwj ∷ s) ≡ more s
unfolding joined
joined-zwj more t = let (q, rest, e) = IsSequence-cons t in rw e

pub elements_complete :
    (n : ℕ) {rs : List ℕ} → length rs < n → IsSequence rs → elements n rs ≡ some true
unfolding elements
elements_complete zero h s = absurd (omega arith)
elements_complete (suc n) {rs} h (one v) =
    let whole : zwj_element rs ≡ some [] = rw append-nil at (zwj_element-IsElement rs [] v tt) in
    unfold joined in rw (whole, elements)
elements_complete (suc n) {rs} h (join {e} {s} v t split) =
    let front : zwj_element rs ≡ some (zwj ∷ s) =
      rw split (zwj_element-IsElement e (zwj ∷ s) v refl) in
    rw (front, elements, joined-zwj (elements n) t)
      (elements_complete n (omega (arith, ap length split, length-append e (zwj ∷ s))) t)

joined-total :
    (more : List ℕ → Option Bool) (rest : List ℕ)
    → ((q : List ℕ) → length q < length rest → (b : Bool) × (more q ≡ some b))
    → (b : Bool) × (joined more rest ≡ some b)
unfolding joined
joined-total more [] h = (true, refl)
joined-total more (r ∷ []) h = (false, refl)
joined-total more (r ∷ q ∷ rest) h = elim (Bool-cases (r == zwj)) [
  | inl e ↦ let (b, p) = h (q ∷ rest) (omega arith) in (b, rw e p)
  | inr e ↦ (false, rw e)
]

pub elements-total : (n : ℕ) (rs : List ℕ) → length rs < n → (b : Bool) × (elements n rs ≡ some b)
unfolding elements
elements-total zero rs h = absurd (omega arith)
elements-total (suc n) rs h = elim (Option-cases (zwj_element rs)) [
  | inl e ↦ (false, rw (e, elements))
  | inr (rest, e) ↦
      let (b, p) =
        joined-total (elements n) rest
          (λ q lt. elements-total n q (omega (arith, element_shorter rs rest e))) in
      (b, rw (e, elements) p)
]
