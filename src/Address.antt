-- ===== src/Address.antt =====
-- Address syntax as the receiving host checks it (cmd/fmsgd/host.go): `isValidUser`,
-- `isValidAttachmentFilename`, `isValidDomain` and `parseAddress`.
pub mod Domain
pub mod Parse
use fmsgd.Prelude.{
  ℕ, zero, suc, ◌+◌, ◌-◌, Bool, true, false, not, ◌&&◌, ◌||◌, List, [], ◌∷◌, Option, none, some,
  ltb, leb, ◌==◌, if◌then◌else◌, length, take, drop, Bytes, bytes_eq,
}
use fmsgd.Text.{Unicode, codes}
use fmsgd.Text.Utf8.{runes}
use fmsgd.Text.Search.{index, last_index, split}
use fmsgd.Wire.{Address}

-- The local `isSpecial` of `isValidUser`.
unfoldable pub is_user_special : ℕ → Bool
is_user_special r = r == b'-' || r == b'_' || r == b'.'

-- The local `isSpecial` of `isValidAttachmentFilename`.
unfoldable pub is_filename_special : ℕ → Bool
is_filename_special r = r == b'-' || r == b'_' || r == b' ' || r == b'.'

unfoldable pub last_or : ℕ → List ℕ → ℕ
last_or r [] = r
last_or r (x ∷ xs) = last_or x xs

module _ (u : Unicode) where
  open u use {is_letter, is_number}

  -- The loop over the runes: letters, numbers, and no two specials in a row.
  unfoldable pub runes_ok : (ℕ → Bool) → Bool → List ℕ → Bool
  runes_ok special last_was_special [] = true
  runes_ok special last_was_special (c ∷ cs) =
      let after_plain = runes_ok special false cs in
      let after_special = runes_ok special true cs in
      if is_letter c || is_number c
      then after_plain
      else if not (special c)
      then false
      else if last_was_special
      then false
      else after_special

  -- What both checks do with the decoded text: no special at either end, then the loop.
  unfoldable pub name_ok : (ℕ → Bool) → Option (List ℕ) → Bool
  unfolding runes_ok last_or
  name_ok special none = false
  name_ok special (some []) = false
  name_ok special (some (r ∷ rs)) =
      if special r || special (last_or r rs) then false else runes_ok special false (r ∷ rs)

  unfoldable pub is_valid_user : Bytes → Bool
  unfolding name_ok is_user_special runes
  is_valid_user s =
      if length s == 0 || ltb 64 (length s) then false else name_ok is_user_special (runes s)

  unfoldable pub is_valid_attachment_filename : Bytes → Bool
  unfolding name_ok is_filename_special runes
  is_valid_attachment_filename s =
      if length s == 0 || leb 256 (length s) then false else name_ok is_filename_special (runes s)

unfoldable pub is_domain_byte : ℕ → Bool
is_domain_byte c =
    leb b'a' c && leb c b'z' || leb b'A' c && leb c b'Z' || leb b'0' c && leb c b'9' || c == b'-'

unfoldable pub all_domain_bytes : Bytes → Bool
unfolding is_domain_byte
all_domain_bytes [] = true
all_domain_bytes (c ∷ cs) = is_domain_byte c && all_domain_bytes cs

-- One label: 1 to 63 bytes, no dash at either end. The code ranges over runes; a rune above 127,
-- like each of its bytes, is no domain byte.
unfoldable pub is_valid_label : Bytes → Bool
unfolding all_domain_bytes last_or
is_valid_label [] = false
is_valid_label (c ∷ cs) =
    if ltb 63 (length (c ∷ cs))
    then false
    else if c == b'-' || last_or c cs == b'-'
    then false
    else all_domain_bytes (c ∷ cs)

unfoldable pub all_valid_labels : List Bytes → Bool
unfolding is_valid_label
all_valid_labels [] = true
all_valid_labels (l ∷ ls) = is_valid_label l && all_valid_labels ls

unfoldable pub is_valid_domain : Bytes → Bool
unfolding all_valid_labels split bytes_eq
is_valid_domain s =
    if length s == 0 || ltb 253 (length s)
    then false
    else if bytes_eq s (codes "localhost")
    then true
    else if ltb (length (split b'.' s)) 2
    then false
    else all_valid_labels (split b'.' s)

pub data AddressError : Type 0 where
  too_short no_first_at no_second_at bad_user bad_domain : AddressError

pub data AddressResult : Type 0 where
  parsed : Address → AddressResult
  refused : AddressError → AddressResult

module _ (u : Unicode) where
  -- The checks on the two parts, the user's first.
  unfoldable pub check_parts : Bytes → Bytes → AddressResult
  unfolding is_valid_user is_valid_domain
  check_parts user domain =
      if not (is_valid_user u user)
      then refused bad_user
      else if not (is_valid_domain domain)
      then refused bad_domain
      else parsed (record { user = user; domain = domain })

  -- From the index of the first `@` and of the last one.
  unfoldable pub parse_at : Bytes → Option ℕ → Option ℕ → AddressResult
  unfolding check_parts
  parse_at b none last_at = refused no_first_at
  parse_at b (some (suc i)) last_at = refused no_first_at
  parse_at b (some zero) none = refused no_second_at
  parse_at b (some zero) (some zero) = refused no_second_at
  parse_at b (some zero) (some (suc i)) =
      check_parts (drop 1 (take (suc i) b)) (drop (suc (suc i)) b)

  unfoldable pub parse_address : Bytes → AddressResult
  unfolding parse_at index last_index
  parse_address b =
      if ltb (length b) 4 then refused too_short else parse_at b (index b'@' b) (last_index b'@' b)
