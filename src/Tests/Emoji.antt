-- ===== src/Tests/Emoji.antt =====
-- Emoji texts and indicator datagrams.
use fmsgd.Prelude.{◌≡◌, ◌↔◌, refl, Bool, true, false, [], ◌∷◌, ◌++◌, some, Bytes, All, IsByte}
use fmsgd.Emoji.{is_possible}
use fmsgd.Emoji.Grammar.{IsEmoji}
use fmsgd.Emoji.Tables.{prop_emoji, prop_emoji_modifier, prop_emoji_modifier_base}
use fmsgd.Emoji.{is_in, is_possible_runes, zwj_element}
use fmsgd.Text.Utf8.{runes}
use fmsgd.Emoji.Grammar.{IsPossibleEmoji, sequence, single, with_modification, modifier}
use fmsgd.Emoji.Grammar.Possible.{is_possible-total, is_possible_iff}
use fmsgd.Indicators.Datagram.{IndicatorDatagram, marshal, parse_indicator_datagram, IsDatagram}
use fmsgd.Indicators.Datagram.Marshal.{parse_indicator_datagram_iff}
use fmsgd.Tests.{thirty_two, are_bytes-IsByte}

-- U+1F600.
abbrev grin : Bytes
grin = 240 ∷ 159 ∷ 152 ∷ 128 ∷ []

abbrev shown : IndicatorDatagram
shown = record { hash = thirty_two; index = 258; ttl = 30; text = grin }

abbrev shown_bytes : Bytes
shown_bytes = 1 ∷ (thirty_two ++ 2 ∷ 1 ∷ 30 ∷ 4 ∷ grin)

is_possible-total_example : (b : Bool) × (is_possible grin ≡ some b)
is_possible-total_example = is_possible-total grin

is_possible_iff_example : (is_possible grin ≡ some true) ↔ IsEmoji grin
is_possible_iff_example = is_possible_iff grin

shown_bytes-IsByte : All IsByte shown_bytes
shown_bytes-IsByte = are_bytes-IsByte shown_bytes refl

parse_indicator_datagram_iff_example :
    (parse_indicator_datagram (λ s. false) shown_bytes ≡ some shown)
    ↔ ((marshal shown ≡ shown_bytes) × IsDatagram (λ s. false) shown)
parse_indicator_datagram_iff_example =
    parse_indicator_datagram_iff (λ s. false) shown_bytes shown shown_bytes-IsByte

-- U+1F600 with the modifier U+1F3FB: documented, and refused.
abbrev pale_grin : Bytes
pale_grin = grin ++ 240 ∷ 159 ∷ 143 ∷ 187 ∷ []

pale_grin-IsPossibleEmoji : IsPossibleEmoji (0x1f600 ∷ 0x1f3fb ∷ [])
unfolding is_in prop_emoji prop_emoji_modifier
pale_grin-IsPossibleEmoji =
    sequence (single (with_modification 0x1f600 (0x1f3fb ∷ []) refl (modifier 0x1f3fb refl)))

pale_grin-refused : is_possible pale_grin ≡ some false
unfolding is_possible is_in runes is_possible_runes zwj_element prop_emoji prop_emoji_modifier
    prop_emoji_modifier_base
pale_grin-refused = refl
