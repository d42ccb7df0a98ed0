-- ===== src/Indicators/Datagram/Marshal.antt =====
-- `marshal` and `parseIndicatorDatagram` of cmd/fmsgd/indicators.go undo each other.
use fmsgd.Prelude.{
  ℕ, suc, ◌+◌, ◌%◌, ◌^◌, ◌≡◌, ◌≤◌, ◌<◌, ◌↔◌, refl, sym, ap, ◌∙◌, Bool, true, false, not, inl, inr,
  ◌||◌, [], ◌∷◌, ◌++◌, none, some, arith, ltb, ◌==◌, Bool-cases, length, take, drop, length-append,
  length-take, length-drop, take-append-drop, take-append_eq, drop-append_add, drop-drop,
  little-of_little, of_little-one, All-take, All-drop, Bytes, All, IsByte, to_byte, little,
  of_little, of_little-little, of_little-lt,
}
use fmsgd.Indicators.Datagram.{
  indicator_data_max, indicator_fixed_len, IndicatorDatagram, marshal, fields_of,
  is_indicator_emoji, parse_sized, parse_indicator_datagram, IsDatagram,
}

piece : (m k : ℕ) (b : Bytes) → take k (drop m b) ++ drop (m + k) b ≡ drop m b
piece m k b = rw (← drop-drop m k b) (take-append-drop k (drop m b))

byte_piece :
    (m : ℕ) (b : Bytes) → m < length b → of_little (take 1 (drop m b)) ∷ drop (m + 1) b ≡ drop m b
byte_piece m b h =
    of_little-one (take 1 (drop m b)) (drop (m + 1) b)
      (omega (arith, length-take 1 (drop m b), length-drop m b))
    ∙ piece m 1 b

-- The fields at their places, written again, are the bytes.
parsed-marshal :
    (b : Bytes) (n : ℕ)
    → All IsByte b
    → length b ≡ indicator_fixed_len + n
    → n ≤ 64
    → of_little (take 1 b) ≡ 1
    → of_little (take 1 (drop 36 b)) ≡ n
    → marshal (fields_of b) ≡ b
unfolding marshal
parsed-marshal b n bytes len short version count =
    let two : length (take 2 (drop 33 b)) ≡ 2 =
      omega (arith, length-take 2 (drop 33 b), length-drop 33 b) in
    let index = rw two at (
      little-of_little (take 2 (drop 33 b))
        (All-take IsByte 2 (drop 33 b) (All-drop IsByte 33 b bytes))) in
    let size : length (drop 37 b) % 256 ≡ of_little (take 1 (drop 36 b)) =
      omega (arith, length-drop 37 b) in
    rw
      (
        size,
        byte_piece 36 b (omega arith),
        byte_piece 35 b (omega arith),
        index,
        piece 33 2 b,
        piece 1 32 b,
      )
      (ap (λ t. t ∷ drop 1 b) (sym version) ∙ byte_piece 0 b (omega arith))

field-lt :
    (m k : ℕ) (b : Bytes)
    → All IsByte b
    → m + k ≤ length b
    → of_little (take k (drop m b)) < 256 ^ k
field-lt m k b bytes h =
    let size : length (take k (drop m b)) ≡ k =
      omega (arith, length-take k (drop m b), length-drop m b) in
    let bound : of_little (take k (drop m b)) < 256 ^ length (take k (drop m b)) =
      of_little-lt (take k (drop m b)) (All-take IsByte k (drop m b) (All-drop IsByte m b bytes)) in
    rw size at bound

sound : (x y : ℕ) → x ≡ y → (x == y) ≡ true
sound x y h = ground arith

le-ltb : (x y : ℕ) → x ≤ y → ltb y x ≡ false
le-ltb x y h = ground arith

of_little-single : (x : ℕ) → of_little (x ∷ []) ≡ x
unfolding of_little
of_little-single x = omega arith

-- What `marshal` writes behind the hash.
abbrev tail_of : IndicatorDatagram → Bytes
tail_of d = little 2 d.index ++ d.ttl ∷ to_byte (length d.text) ∷ d.text

drop-marshal :
    (d : IndicatorDatagram) (k : ℕ)
    → length d.hash ≡ 32
    → drop (33 + k) (marshal d) ≡ drop k (tail_of d)
unfolding marshal
drop-marshal d k hash =
    let step : 33 + k ≡ suc (32 + k) = omega arith in
    ap (λ j. drop j (marshal d)) step ∙ drop-append_add 32 k d.hash (tail_of d) hash

length-marshal :
    (d : IndicatorDatagram) → length d.hash ≡ 32 → length (marshal d) ≡ 37 + length d.text
unfolding marshal little
length-marshal d hash = omega (arith, length-append d.hash (tail_of d), hash)

fields_of-marshal :
    (d : IndicatorDatagram) → length d.hash ≡ 32 → d.index < 2 ^ 16 → fields_of (marshal d) ≡ d
unfolding marshal little
fields_of-marshal d hash index = rw (
  drop-append_add 32 0 d.hash (tail_of d) hash,
  drop-append_add 32 2 d.hash (tail_of d) hash,
  drop-append_add 32 4 d.hash (tail_of d) hash,
  take-append_eq 32 d.hash (tail_of d) hash,
  of_little-single d.ttl,
  of_little-little 2 d.index index,
)

module _ (is_rgi : Bytes → Bool) where
  parse_sized-marshal :
      (d : IndicatorDatagram) (b : Bytes)
      → IsDatagram is_rgi d
      → length b ≡ 37 + length d.text
      → fields_of b ≡ d
      → drop 37 b ≡ d.text
      → parse_sized is_rgi b (length d.text) ≡ some d
  unfolding parse_sized
  parse_sized-marshal d b v len fields text =
      let size : (length b == indicator_fixed_len + length d.text) ≡ true =
        sound (length b) (37 + length d.text) len in
      let short : ltb indicator_data_max (length d.text) ≡ false =
        le-ltb (length d.text) 64 v.short in
      let emoji : is_indicator_emoji is_rgi (drop indicator_fixed_len b) ≡ true =
        ap (is_indicator_emoji is_rgi) text ∙ v.text in
      rw (short, size, emoji) (ap some fields)

  parse-marshal :
      (d : IndicatorDatagram)
      → IsDatagram is_rgi d
      → parse_indicator_datagram is_rgi (marshal d) ≡ some d
  unfolding parse_indicator_datagram marshal little
  parse-marshal d v =
      let len = length-marshal d v.hash in
      let count : of_little (take 1 (drop 36 (marshal d))) ≡ length d.text =
        rw (drop-marshal d 3 v.hash)
          (omega (arith, of_little-single (length d.text % 256), v.short)) in
      let text : drop 37 (marshal d) ≡ d.text = drop-marshal d 4 v.hash in
      let fields = fields_of-marshal d v.hash v.index in
      let long : ltb (length (marshal d)) 37 ≡ false =
        le-ltb 37 (length (marshal d)) (omega arith) in
      let version : (of_little (take 1 (marshal d)) == 1) ≡ true =
        sound (of_little (take 1 (marshal d))) 1 (of_little-single 1) in
      rw (long, version, count) (parse_sized-marshal d (marshal d) v len fields text)

  -- What the checks of an accepted datagram give.
  parse_sized-some :
      (b : Bytes) (n : ℕ) (d : IndicatorDatagram)
      → parse_sized is_rgi b n ≡ some d
      → (n ≤ 64)
        × (length b ≡ 37 + n)
        × (fields_of b ≡ d)
        × (is_indicator_emoji is_rgi (drop 37 b) ≡ true)
  unfolding parse_sized
  parse_sized-some b n d p =
      elim (Bool-cases (ltb indicator_data_max n || not (length b == indicator_fixed_len + n))) [
        | inl e ↦ let h : none ≡ some d = rw e at p in ground arith
        | inr e ↦ elim (Bool-cases (is_indicator_emoji is_rgi (drop indicator_fixed_len b))) [
          | inr f ↦ let h : none ≡ some d = rw (e, f) at p in ground arith
          | inl f ↦
              let h : some (fields_of b) ≡ some d = rw (e, f) at p in
              (ground arith, ground arith, ground arith, f)
        ]
      ]

  fields-IsDatagram :
      (b : Bytes)
      → All IsByte b
      → 37 ≤ length b
      → length b ≤ 101
      → is_indicator_emoji is_rgi (drop 37 b) ≡ true
      → IsDatagram is_rgi (fields_of b)
  fields-IsDatagram b bytes low high emoji = record {
    hash = omega (arith, length-take 32 (drop 1 b), length-drop 1 b);
    index = field-lt 33 2 b bytes (omega arith);
    ttl = field-lt 35 1 b bytes (omega arith);
    text = emoji;
    short = omega (arith, length-drop 37 b);
  }

  parse_sound :
      (b : Bytes) (d : IndicatorDatagram)
      → All IsByte b
      → parse_indicator_datagram is_rgi b ≡ some d
      → (marshal d ≡ b) × IsDatagram is_rgi d
  unfolding parse_indicator_datagram
  parse_sound b d bytes p =
      elim (Bool-cases (ltb (length b) 37 || not (of_little (take 1 b) == 1))) [
        | inl e ↦ let h : none ≡ some d = rw e at p in ground arith
        | inr e ↦
            let h : parse_sized is_rgi b (of_little (take 1 (drop 36 b))) ≡ some d = rw e at p in
            let checks = parse_sized-some b (of_little (take 1 (drop 36 b))) d h in
            let short : of_little (take 1 (drop 36 b)) ≤ 64 = checks.0 in
            let len : length b ≡ 37 + of_little (take 1 (drop 36 b)) = checks.1 in
            let fields : fields_of b ≡ d = checks.2 in
            let emoji = checks.3 in
            let version : of_little (take 1 b) ≡ 1 = ground arith in
            let back =
              parsed-marshal b (of_little (take 1 (drop 36 b))) bytes len short version refl in
            (
              ap marshal (sym fields) ∙ back,
              rw (← fields) (fields-IsDatagram b bytes (omega arith) (omega arith) emoji),
            )
      ]

  -- On bytes, parsing gives a datagram exactly when the datagram is one that can be sent and
  -- marshalling it gives those bytes: nothing else, trailing bytes included, is accepted.
  pub parse_indicator_datagram_iff :
      (b : Bytes) (d : IndicatorDatagram)
      → All IsByte b
      → (parse_indicator_datagram is_rgi b ≡ some d) ↔ ((marshal d ≡ b) × IsDatagram is_rgi d)
  parse_indicator_datagram_iff b d bytes = (
    parse_sound b d bytes,
    λ (back, v). ap (parse_indicator_datagram is_rgi) (sym back) ∙ parse-marshal d v,
  )
