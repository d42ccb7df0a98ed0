-- ===== src/Address/Parse.antt =====
-- `parseAddress` (cmd/fmsgd/host.go) against `Address.ToString` (pkg/fmsg/fmsg.go).
use fmsgd.Prelude.{
  ℕ, zero, suc, ◌≡◌, ◌<◌, ◌↔◌, refl, sym, ap, ◌∙◌, true, false, [], ◌∷◌, ◌++◌, Option, some, arith,
  ltb, length, length-append, take, drop, take-append, Bytes,
}
use fmsgd.Text.{Unicode}
use fmsgd.Text.Search.{index, last_index, last_index-append, last_index-split}
use fmsgd.Wire.{Address, to_string}
use fmsgd.Address.{is_valid_user, is_valid_domain, parsed, check_parts, parse_at, parse_address}
use fmsgd.Address.Domain.{is_valid_domain-pos, is_valid_domain-NotAt}

drop_past : (us ds : Bytes) (c : ℕ) → drop (suc (length us)) (us ++ c ∷ ds) ≡ ds
drop_past [] ds c = refl
drop_past (x ∷ us) ds c = drop_past us ds c

starts_at :
    (b : Bytes) (j : ℕ) → index b'@' b ≡ some 0 → take (suc j) b ≡ b'@' ∷ drop 1 (take (suc j) b)
unfolding index
starts_at [] j h = cc
starts_at (x ∷ b) j h = ground (arith)

module _ (u : Unicode) where
  is_valid_user-pos : (s : Bytes) → is_valid_user u s ≡ true → 0 < length s
  unfolding is_valid_user
  is_valid_user-pos s h = ground arith

  parse_address-to_string :
      (a : Address)
      → is_valid_user u a.user ≡ true
      → is_valid_domain a.domain ≡ true
      → parse_address u (to_string a) ≡ parsed a
  unfolding parse_address to_string
  parse_address-to_string a hu hd =
      let long : ltb (suc (length (a.user ++ b'@' ∷ a.domain))) 4 ≡ false = ground (
        arith,
        length-append a.user (b'@' ∷ a.domain),
        is_valid_user-pos a.user hu,
        is_valid_domain-pos a.domain hd,
      ) in
      rw (
        long,
        last_index-append b'@' a.user a.domain (is_valid_domain-NotAt a.domain hd),
        take-append,
        drop_past,
        hu,
        hd,
      )

  check_parts-parsed :
      (user domain : Bytes) (a : Address)
      → check_parts u user domain ≡ parsed a
      → (a ≡ record { user = user; domain = domain })
        × (is_valid_user u user ≡ true)
        × (is_valid_domain domain ≡ true)
  unfolding check_parts
  check_parts-parsed user domain a h = ground arith

  parse_at-parsed :
      (b : Bytes) (a : Address) (i j : Option ℕ)
      → index b'@' b ≡ i
      → last_index b'@' b ≡ j
      → parse_at u b i j ≡ parsed a
      → (to_string a ≡ b) × (is_valid_user u a.user ≡ true) × (is_valid_domain a.domain ≡ true)
  unfolding parse_at to_string
  parse_at-parsed b a (some zero) (some (suc j)) p q h =
      let (e, hu, hd) = check_parts-parsed _ _ a h in
      rw e (
        ap (λ t. t ++ b'@' ∷ drop (suc (suc j)) b) (sym (starts_at b j p))
            ∙ last_index-split b'@' b (suc j) q,
        hu,
        hd,
      )
  parse_at-parsed b a _ _ p q h = ground arith

  -- An address is accepted exactly when it is the text "@user@domain" of a valid user and a
  -- valid domain, and the parsed address is that user and domain.
  pub parse_address_iff :
      (b : Bytes) (a : Address)
      → (parse_address u b ≡ parsed a)
        ↔ ((to_string a ≡ b) × (is_valid_user u a.user ≡ true) × (is_valid_domain a.domain ≡ true))
  parse_address_iff b a = (
    λ h. parse_at-parsed b a _ _ refl refl (unfold parse_address in ground arith),
    λ h. rw (← h.0) (parse_address-to_string a h.1 h.2),
  )
