-- ===== src/Indicators/Datagram.antt =====
-- The datagram of cmd/fmsgd/indicators.go: `marshal`, `isClear`, `isIndicatorEmoji` and
-- `parseIndicatorDatagram`. The RGI_Emoji set is the predicate `is_rgi`.
pub mod Marshal
use fmsgd.Prelude.{
  ℕ, zero, suc, ◌+◌, ◌%◌, ◌^◌, ◌≡◌, ◌≤◌, ◌<◌, ◌↔◌, refl, sym, ap, ◌∙◌, Bool, true, false, not, inl,
  inr, ◌&&◌, ◌||◌, List, [], ◌∷◌, ◌++◌, Option, none, some, arith, ltb, leb, ◌==◌, ==_iff,
  if◌then◌else◌, Bool-cases, length, take, drop, length-append, length-take, length-drop,
  length-little, take-append, drop-append, take-append-drop, take-append_eq, drop-append_add,
  drop-drop, little-of_little, of_little-one, All-take, All-drop, ◌/◌, append_assoc, Bytes, All,
  IsByte, to_byte, little, of_little, of_little-little, of_little-lt,
}
use fmsgd.Emoji.{is_possible}
use mathlib.Core.Option

abbrev pub indicator_version : ℕ
indicator_version = 1

abbrev pub indicator_data_max : ℕ
indicator_data_max = 64

abbrev pub indicator_fixed_len : ℕ
indicator_fixed_len = 37

pub record IndicatorDatagram : Type 0 where
  pub hash : Bytes
  pub index : ℕ
  pub ttl : ℕ
  pub text : Bytes

-- `isClear`.
unfoldable pub is_clear : IndicatorDatagram → Bool
is_clear d = length d.text == 0 || d.ttl == 0

-- `marshal`; the hash is an array of 32 bytes, the index a uint16.
unfoldable pub marshal : IndicatorDatagram → Bytes
marshal d =
    indicator_version ∷ (d.hash ++ (little 2 d.index ++ d.ttl ∷ to_byte (length d.text) ∷ d.text))

-- The fields at their fixed places, the data behind them.
abbrev pub fields_of : Bytes → IndicatorDatagram
fields_of b = record {
  hash = take 32 (drop 1 b);
  index = of_little (take 2 (drop 33 b));
  ttl = of_little (take 1 (drop 35 b));
  text = drop indicator_fixed_len b;
}

module _ (is_rgi : Bytes → Bool) where
  -- `emoji.IsSingle`.
  unfoldable pub is_single : Bytes → Bool
  is_single s = is_rgi s || Option.get_or (is_possible s) false

  -- `isIndicatorEmoji`.
  unfoldable pub is_indicator_emoji : Bytes → Bool
  is_indicator_emoji s = length s == 0 || leb (length s) indicator_data_max && is_single s

  -- The checks behind the version byte. `n` is the length byte.
  unfoldable pub parse_sized : Bytes → ℕ → Option IndicatorDatagram
  unfolding is_indicator_emoji
  parse_sized b n =
      if ltb indicator_data_max n || not (length b == indicator_fixed_len + n)
      then none
      else if is_indicator_emoji (drop indicator_fixed_len b)
      then some (fields_of b)
      else none

  -- `parseIndicatorDatagram`.
  unfoldable pub parse_indicator_datagram : Bytes → Option IndicatorDatagram
  unfolding parse_sized
  parse_indicator_datagram b =
      if ltb (length b) indicator_fixed_len || not (of_little (take 1 b) == indicator_version)
      then none
      else parse_sized b (of_little (take 1 (drop 36 b)))

  -- A datagram that can be sent: fields in range, and no data or one emoji of at most 64 bytes.
  pub record IsDatagram (d : IndicatorDatagram) : Type 0 where
    pub hash : length d.hash ≡ 32
    pub index : d.index < 2 ^ 16
    pub ttl : d.ttl < 256
    pub text : is_indicator_emoji d.text ≡ true
    pub short : length d.text ≤ indicator_data_max
