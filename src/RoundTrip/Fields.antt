-- ===== src/RoundTrip/Fields.antt =====
-- A whole header is read back from its encoding.
use fmsgd.Prelude.{
  drop, ℕ, ◌≡◌, refl, sym, ◌∙◌, true, false, inl, inr, List, [], ◌∷◌, ◌++◌, Option, none, some,
  arith, ltb, if◌then◌else◌, Bool-cases, length, append-nil, append_assoc, Bytes, little, sized,
  to_byte, map,
}
use fmsgd.Conn.{Conn, ok}
use fmsgd.Conn.Read.{read_byte, read_little-to_byte, read_address-encode_address}
use fmsgd.Text.{Unicode}
use fmsgd.Wire.{
  Address, Header, AttachmentHeader, has, flag_has_pid, flag_has_add_to, flag_common_type,
  flag_deflate,
}
use fmsgd.Wire.Encode.{
  encode_address, encode_addresses, encode_type, encode_add_to, adder, encode_attachments, encode,
}
use fmsgd.Receive.{Config}
use fmsgd.Receive.Recipients.{read_adder, read_add_to_recipients}
use fmsgd.Receive.Attachments.{
  Totals, body_totals, add_attachment, check_totals, read_attachment_headers,
}
use fmsgd.Receive.WireHeader.{blank, read_fields, read_wire}
use fmsgd.Receive.Version.{Answer, read_version_or_challenge}
use fmsgd.RoundTrip.{IsAddTo, received_attachment, totals_after, received, IsWire}
use fmsgd.RoundTrip.Lists.{read_attachment_loop-encode_attachments}
use fmsgd.RoundTrip.Parts.{
  started, sent_to, added, expanded, read_flags-encode, read_pid-encode, read_from-encode,
  read_to_recipients-encode, read_add_to_list-encode, read_and_validate_timestamp-encode,
  read_topic-encode, read_message_type-encode, read_size-encode, read_expanded_size-encode,
}

totals_after-read :
    (u : Unicode) (as_ : List AttachmentHeader) (t : Totals)
    → (totals_after u t as_).read ≡ t.read ++ map received_attachment as_
unfolding add_attachment
totals_after-read u [] t = sym (append-nil t.read)
totals_after-read u (a ∷ as_) t =
    totals_after-read u as_ (add_attachment t (u.to_lower a.filename) (received_attachment a))
    ∙ append_assoc t.read (received_attachment a ∷ []) (map received_attachment as_)

module _ (cfg : Config) (h : Header) (rest : Bytes) (c : Conn) where
  abbrev after : Conn
  after = record c { input = rest }

  -- With the flag: the adder, then the list.
  read_added :
      (a : Address)
      → has h.flags flag_has_add_to ≡ true
      → h.add_to_from ≡ some a
      → IsAddTo cfg.unicode true (has h.flags flag_has_pid) (some a) h
      → read_add_to_recipients cfg.unicode
          (sent_to h)
          (record c { input = encode_add_to h ++ rest })
        ≡ ok (added h) after
  unfolding read_add_to_recipients encode_add_to adder read_adder
  read_added a e from (p, _, v, part, list) =
      rw (from, append_assoc)
        (rw
          (
            e,
            p,
            read_address-encode_address cfg.unicode a
                (to_byte (length h.add_to) ∷ (encode_addresses h.add_to ++ rest)) c v.user v.domain
                v.short,
            part,
          )
          (read_add_to_list-encode cfg h rest c a list))

  -- A missing adder is excluded by `IsAddTo`.
  read_added_some :
      (adder : Option Address)
      → has h.flags flag_has_add_to ≡ true
      → h.add_to_from ≡ adder
      → IsAddTo cfg.unicode true (has h.flags flag_has_pid) adder h
      → read_add_to_recipients cfg.unicode
          (sent_to h)
          (record c { input = encode_add_to h ++ rest })
        ≡ ok (added h) after
  read_added_some none e from p = absurd p
  read_added_some (some a) e from p = read_added a e from p

  read_add_to_recipients-encode :
      IsAddTo cfg.unicode (has h.flags flag_has_add_to) (has h.flags flag_has_pid) h.add_to_from h
      → read_add_to_recipients cfg.unicode (sent_to h) (record c {
        input = (if has h.flags flag_has_add_to then encode_add_to h else []) ++ rest;
      })
        ≡ ok (added h) after
  read_add_to_recipients-encode p = elim (Bool-cases (has h.flags flag_has_add_to)) [
    | inl e ↦ rw e (read_added_some h.add_to_from e refl (rw e at p))
    | inr e ↦
        let nil : IsAddTo cfg.unicode false (has h.flags flag_has_pid) h.add_to_from h =
          rw e at p in
        unfold read_add_to_recipients in
        rw e
          (λ i. ok (record (sent_to h) { add_to_from = sym nil.0 i; add_to = sym nil.1 i }) after)
  ]

  read_attachment_headers-encode :
      IsWire cfg h
      → read_attachment_headers cfg (expanded h) (record c {
        input = to_byte (length h.attachments) ∷ (encode_attachments h.attachments ++ rest);
      })
        ≡ ok (received h) after
  unfolding read_attachment_headers check_totals body_totals
  read_attachment_headers-encode w =
      let u = cfg.unicode in
      let t : Totals = totals_after u (body_totals (expanded h)) h.attachments in
      let fits : ltb cfg.max_message_size t.size ≡ false = ground (arith, w.fits) in
      let expands : ltb cfg.max_expanded_size t.expanded ≡ false =
        ground (arith, w.expanded_total) in
      let got =
        read_attachment_loop-encode_attachments u h.attachments (body_totals (expanded h)) rest c
          w.attachments in
      rw (
        read_little-to_byte (length h.attachments) (encode_attachments h.attachments ++ rest) c
            w.counted,
        got,
        fits,
        expands,
        totals_after-read u h.attachments (body_totals (expanded h)),
      )

tail_of : {a b : ℕ} {as_ bs : Bytes} → a ∷ as_ ≡ b ∷ bs → as_ ≡ bs
tail_of e = cc

read_fields-encode :
    (cfg : Config) (h : Header) (rest tail : Bytes) (c : Conn)
    → IsWire cfg h
    → encode h ≡ h.version ∷ tail
    → read_fields cfg (started h) (record c { input = tail ++ rest })
      ≡ ok (received h) (record c { input = rest })
unfolding encode read_fields
read_fields-encode cfg h rest tail c w e =
    let u = cfg.unicode in
    let p10 = to_byte (length h.attachments) ∷ (encode_attachments h.attachments ++ rest) in
    let p9 = (if has h.flags flag_deflate then little 4 h.expanded_size else []) ++ p10 in
    let p8 = little 4 h.size ++ p9 in
    let p7 = encode_type h.flags flag_common_type h.type_id h.media_type ++ p8 in
    let p6 = (if has h.flags flag_has_pid then [] else sized h.topic) ++ p7 in
    let p5 = little 8 h.timestamp ++ p6 in
    let p4 = (if has h.flags flag_has_add_to then encode_add_to h else []) ++ p5 in
    let p3 = to_byte (length h.to) ∷ (encode_addresses h.to ++ p4) in
    let p2 = encode_address h.from ++ p3 in
    let p1 = (if has h.flags flag_has_pid then h.pid else []) ++ p2 in
    let whole : tail ++ rest ≡ h.flags ∷ p1 = rw (← tail_of e) (simp append_assoc) in
    rw (
      whole,
      read_flags-encode cfg h p1 c w.reserved w.leaf,
      read_pid-encode cfg h p2 c w.pid,
      read_from-encode cfg h p3 c w.from,
      read_to_recipients-encode cfg h p4 c w.to,
      read_add_to_recipients-encode cfg h p5 c w.added,
      read_and_validate_timestamp-encode cfg h p6 c w.timestamp w.in_time,
      read_topic-encode cfg h p7 c w.pid,
      read_message_type-encode cfg h p8 c w.typed,
      read_size-encode cfg h p9 c w.size,
      read_expanded_size-encode cfg h p10 c w.expanded w.expanded_fits,
      read_attachment_headers-encode cfg h rest c w,
    )

-- The encoding behind the version byte.
wire_tail : Header → Bytes
wire_tail h = drop 1 (encode h)

encode-wire_tail : (h : Header) → encode h ≡ h.version ∷ wire_tail h
unfolding encode wire_tail
encode-wire_tail h = refl

read_version-encode :
    (outgoing : Bytes → Answer) (h : Header) (rest : Bytes) (c : Conn)
    → h.version ≡ 1
    → read_version_or_challenge outgoing blank (record c { input = h.version ∷ rest })
      ≡ ok (false, started h) (record c { input = rest })
unfolding read_version_or_challenge read_byte
read_version-encode outgoing h rest c e = rw e

-- Whatever follows it, the encoding of a well-formed header is read back as that header: no
-- response code is sent, and exactly what follows is left to read.
pub read_wire-encode :
    (outgoing : Bytes → Answer) (cfg : Config) (h : Header) (rest : Bytes) (c : Conn)
    → IsWire cfg h
    → read_wire outgoing cfg (record c { input = encode h ++ rest })
      ≡ ok (some (received h)) (record c { input = rest })
unfolding encode read_wire wire_tail
read_wire-encode outgoing cfg h rest c w = rw (
  read_version-encode outgoing h (wire_tail h ++ rest) c w.version,
  read_fields-encode cfg h rest (wire_tail h) c w (encode-wire_tail h),
)
