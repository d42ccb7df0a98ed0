-- ===== src/RoundTrip/Lists.antt =====
-- The loops over addresses and over attachment headers read back what `Encode` writes.
use fmsgd.Prelude.{
  ℕ, zero, suc, ◌≡◌, refl, true, false, inl, inr, List, [], ◌∷◌, ◌++◌, some, arith, if◌then◌else◌,
  Bool-cases, length, append-nil, append_assoc, Bytes, little, sized, ◌<◌,
}
use fmsgd.Conn.{Conn, ok}
use fmsgd.Conn.Read.{
  read_byte, read_little-little, read_uint8_slice-sized, read_address-encode_address,
}
use fmsgd.Text.{Unicode}
use fmsgd.Address.{is_valid_attachment_filename}
use fmsgd.Wire.{Address, AttachmentHeader, has, attachment_common_type, attachment_deflate}
use fmsgd.Wire.Encode.{
  encode_addresses, encode_type, wire_type_id, encode_attachment, encode_attachments,
}
use fmsgd.Wire.MediaTypes.{get_common_media_type}
use fmsgd.Receive.{contains}
use fmsgd.Receive.Recipients.{address_key, read_to_loop, read_add_to_loop}
use fmsgd.Receive.Fields.{read_type, read_attachment_type, is_ascii_bytes}
use fmsgd.Receive.Attachments.{
  Totals, validate_attachment_flags, add_attachment, read_expanded, read_sizes, read_attachment,
  read_attachment_loop,
}
use fmsgd.RoundTrip.{
  IsFresh, IsTyped, IsExpanded, IsAttachment, AreAttachments, received_attachment, totals_after,
}

module _ (u : Unicode) where
  pub read_to_loop-encode_addresses :
      (as_ : List Address) (seen : List Bytes) (to : List Address) (rest : Bytes) (c : Conn)
      → IsFresh u seen as_
      → read_to_loop u (length as_) seen to (record c { input = encode_addresses as_ ++ rest })
        ≡ ok (to ++ as_) (record c { input = rest })
  unfolding read_to_loop encode_addresses
  read_to_loop-encode_addresses [] seen to rest c h = rw append-nil
  read_to_loop-encode_addresses (a ∷ as_) seen to rest c (v, new, t) = rw (
    append_assoc,
    read_address-encode_address u a (encode_addresses as_ ++ rest) c v.user v.domain v.short,
    new,
    read_to_loop-encode_addresses as_ (address_key u a ∷ seen) (to ++ a ∷ []) rest c t,
    append_assoc,
  )

  pub read_add_to_loop-encode_addresses :
      (as_ : List Address) (seen : List Bytes) (to : List Address) (rest : Bytes) (c : Conn)
      → IsFresh u seen as_
      → read_add_to_loop u (length as_) seen to (record c { input = encode_addresses as_ ++ rest })
        ≡ ok (to ++ as_) (record c { input = rest })
  unfolding read_add_to_loop encode_addresses
  read_add_to_loop-encode_addresses [] seen to rest c h = rw append-nil
  read_add_to_loop-encode_addresses (a ∷ as_) seen to rest c (v, new, t) = rw (
    append_assoc,
    read_address-encode_address u a (encode_addresses as_ ++ rest) c v.user v.domain v.short,
    new,
    read_add_to_loop-encode_addresses as_ (address_key u a ∷ seen) (to ++ a ∷ []) rest c t,
    append_assoc,
  )

-- The id 0 has no name, so an id with a name is written as it is.
mapped-wire_type_id :
    (id : ℕ) (name : Bytes) → get_common_media_type id ≡ some name → wire_type_id id name ≡ id
unfolding wire_type_id get_common_media_type
mapped-wire_type_id zero name h = cc
mapped-wire_type_id (suc id) name h = ground arith

pub read_type-encode_type :
    (flags mask id : ℕ) (name rest : Bytes) (c : Conn)
    → IsTyped (has flags mask) id name
    → read_type flags mask (record c { input = encode_type flags mask id name ++ rest })
      ≡ ok (name, id) (record c { input = rest })
unfolding read_type encode_type
read_type-encode_type flags mask id name rest c h = elim (Bool-cases (has flags mask)) [
  | inl e ↦
      let mapped = rw e at h in
      rw (e, mapped-wire_type_id id name mapped) (unfold read_byte in rw mapped)
  | inr e ↦
      let plain : (is_ascii_bytes name ≡ true) × (length name < 256) × (id ≡ 0) = rw e at h in
      rw (e, read_uint8_slice-sized name rest c plain.1, plain.0, plain.2)
]

read_expanded-little :
    (flags mask n : ℕ) (rest : Bytes) (c : Conn)
    → IsExpanded (has flags mask) n
    → read_expanded flags mask
        (record c { input = (if has flags mask then little 4 n else []) ++ rest })
      ≡ ok n (record c { input = rest })
unfolding read_expanded
read_expanded-little flags mask n rest c h = elim (Bool-cases (has flags mask)) [
  | inl e ↦ rw (e, read_little-little 4 n rest c (rw e at h))
  | inr e ↦ let zero_size : n ≡ 0 = rw e at h in rw (e, zero_size)
]

-- The list that `read_to_loop` and its like hold after `a` is `to ++ a ∷ []`.
module _ (u : Unicode) where
  filename_short : (s : Bytes) → is_valid_attachment_filename u s ≡ true → length s < 256
  unfolding is_valid_attachment_filename
  filename_short s h = ground arith

  read_attachment-encode_attachment :
      (a : AttachmentHeader) (t : Totals) (rest : Bytes) (c : Conn)
      → IsAttachment u a
      → contains (u.to_lower a.filename) t.seen ≡ false
      → read_attachment u t (record c { input = encode_attachment a ++ rest })
        ≡ ok
            (add_attachment t (u.to_lower a.filename) (received_attachment a))
            (record c { input = rest })
  unfolding read_attachment encode_attachment read_sizes validate_attachment_flags
      read_attachment_type
  read_attachment-encode_attachment a t rest c v new =
      let sizes : Bytes = if has a.flags attachment_deflate then little 4 a.expanded_size else [] in
      unfold read_byte in
      simp append_assoc (
        rw (
          v.reserved,
          read_type-encode_type a.flags attachment_common_type a.type_id a.media_type
              (sized a.filename ++ (little 4 a.size ++ (sizes ++ rest))) c v.typed,
          read_uint8_slice-sized a.filename (little 4 a.size ++ (sizes ++ rest)) c
              (filename_short a.filename v.named),
          v.named,
          new,
          read_little-little 4 a.size (sizes ++ rest) c v.size,
          read_expanded-little a.flags attachment_deflate a.expanded_size rest c v.expanded,
        ))

  pub read_attachment_loop-encode_attachments :
      (as_ : List AttachmentHeader) (t : Totals) (rest : Bytes) (c : Conn)
      → AreAttachments u t.seen as_
      → read_attachment_loop u (length as_) t (record c { input = encode_attachments as_ ++ rest })
        ≡ ok (totals_after u t as_) (record c { input = rest })
  unfolding read_attachment_loop encode_attachments
  read_attachment_loop-encode_attachments [] t rest c h = refl
  read_attachment_loop-encode_attachments (a ∷ as_) t rest c (v, new, later) = rw (
    append_assoc,
    read_attachment-encode_attachment a t (encode_attachments as_ ++ rest) c v new,
    read_attachment_loop-encode_attachments as_
        (add_attachment t (u.to_lower a.filename) (received_attachment a)) rest c
        (unfold add_attachment in later),
  )
