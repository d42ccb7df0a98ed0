-- ===== src/RoundTrip/Parts.antt =====
-- Each part of a header is read back from what `Encode` writes for it. A `stage` is the header as
-- far as the receiver has read it.
use fmsgd.Prelude.{
  ◌≡◌, ◌≤◌, sym, ap, true, false, inl, inr, ◌||◌, ◌&&◌, [], ◌∷◌, ◌++◌, some, arith, ltb, ◌==◌,
  if◌then◌else◌, Bool-cases, length, replicate, take-append, Bytes, little, sized, to_byte, ◌<◌,
  ◌^◌,
}
use fmsgd.Conn.{Conn, ok}
use fmsgd.Conn.Read.{
  read_byte, read_little-little, read_at_most-append, read_uint8_slice-sized,
  read_address-encode_address,
}
use fmsgd.Wire.{
  Address, Header, has, flag_has_pid, flag_has_add_to, flag_terminal, flag_common_type,
  flag_deflate,
}
use fmsgd.Wire.Encode.{encode_address, encode_addresses, encode_type}
use fmsgd.Receive.{Config}
use fmsgd.Receive.Version.{validate_message_flags, message_reserved_bits_mask}
use fmsgd.Receive.Recipients.{read_to_recipients, read_add_to_list}
use fmsgd.Receive.Fields.{is_past, is_future, read_and_validate_timestamp, read_message_type}
use fmsgd.Receive.WireHeader.{
  blank, padded, read_flags, read_pid, read_from, read_topic, read_size, read_expanded_size,
}
use fmsgd.RoundTrip.{IsAddress, IsRecipients, IsTyped, IsExpanded, IsPid}
use fmsgd.RoundTrip.Lists.{
  read_to_loop-encode_addresses, read_add_to_loop-encode_addresses, read_type-encode_type,
}

abbrev pub started : Header → Header
started h = record blank { version = h.version }

abbrev pub flagged : Header → Header
flagged h = record (started h) { flags = h.flags }

abbrev pub replying : Header → Header
replying h = record (flagged h) { pid = h.pid }

abbrev pub sent_by : Header → Header
sent_by h = record (replying h) { from = h.from }

abbrev pub sent_to : Header → Header
sent_to h = record (sent_by h) { to = h.to }

abbrev pub added : Header → Header
added h = record (sent_to h) { add_to_from = h.add_to_from; add_to = h.add_to }

abbrev pub timed : Header → Header
timed h = record (added h) { timestamp = h.timestamp }

abbrev pub titled : Header → Header
titled h = record (timed h) { topic = h.topic }

abbrev pub typed : Header → Header
typed h = record (titled h) { media_type = h.media_type; type_id = h.type_id }

abbrev pub measured : Header → Header
measured h = record (typed h) { size = h.size }

abbrev pub expanded : Header → Header
expanded h = record (measured h) { expanded_size = h.expanded_size }

padded-full : (bs : Bytes) → length bs ≡ 32 → padded bs ≡ bs
unfolding padded
padded-full bs e = rw (← e) (take-append bs (replicate 32 0))

module _ (cfg : Config) (h : Header) (rest : Bytes) (c : Conn) where
  -- The connection before a part `bs` is read, and behind it.
  abbrev before : Bytes → Conn
  before bs = record c { input = bs ++ rest }

  abbrev after : Conn
  after = record c { input = rest }

  pub read_flags-encode :
      has h.flags message_reserved_bits_mask ≡ false
      → (has h.flags flag_has_add_to && has h.flags flag_terminal) ≡ false
      → read_flags (started h) (record c { input = h.flags ∷ rest }) ≡ ok (flagged h) after
  unfolding read_flags read_byte validate_message_flags
  read_flags-encode p q = rw (p, q)

  pub read_pid-encode :
      IsPid (has h.flags flag_has_pid) h.pid h.topic
      → read_pid (flagged h) (before (if has h.flags flag_has_pid then h.pid else []))
        ≡ ok (replying h) after
  unfolding read_pid
  read_pid-encode p = elim (Bool-cases (has h.flags flag_has_pid)) [
    | inl e ↦
        let (len, _) : IsPid true h.pid h.topic = rw e at p in
        let got = rw len at (read_at_most-append h.pid rest c) in rw (e, got, padded-full h.pid len)
    | inr e ↦
        let (nil, _) : IsPid false h.pid h.topic = rw e at p in
        rw e (ap (λ t. ok (record (flagged h) { pid = t }) after) (sym nil))
  ]

  pub read_from-encode :
      IsAddress cfg.unicode h.from
      → read_from cfg (replying h) (before (encode_address h.from)) ≡ ok (sent_by h) after
  unfolding read_from
  read_from-encode v =
      rw (read_address-encode_address cfg.unicode h.from rest c v.user v.domain v.short)

  pub read_to_recipients-encode :
      IsRecipients cfg.unicode h.to
      → read_to_recipients cfg.unicode
          (sent_by h)
          (record c { input = to_byte (length h.to) ∷ (encode_addresses h.to ++ rest) })
        ≡ ok (sent_to h) after
  unfolding read_to_recipients
  read_to_recipients-encode v =
      let small : to_byte (length h.to) ≡ length h.to = omega (arith, v.counted) in
      let some_one : (length h.to == 0) ≡ false = ground (arith, v.some_one) in
      unfold read_byte in
      rw (small, some_one, read_to_loop-encode_addresses cfg.unicode h.to [] [] rest c v.fresh)

  pub read_add_to_list-encode :
      (a : Address)
      → IsRecipients cfg.unicode h.add_to
      → read_add_to_list cfg.unicode
          (record (sent_to h) { add_to_from = some a })
          (record c { input = to_byte (length h.add_to) ∷ (encode_addresses h.add_to ++ rest) })
        ≡ ok (record (sent_to h) { add_to_from = some a; add_to = h.add_to }) after
  unfolding read_add_to_list
  read_add_to_list-encode a v =
      let small : to_byte (length h.add_to) ≡ length h.add_to = omega (arith, v.counted) in
      let some_one : (length h.add_to == 0) ≡ false = ground (arith, v.some_one) in
      unfold read_byte in
      rw (
        small,
        some_one,
        read_add_to_loop-encode_addresses cfg.unicode h.add_to [] [] rest c v.fresh,
      )

  pub read_and_validate_timestamp-encode :
      h.timestamp < 256 ^ 8
      → (is_past cfg h.timestamp || is_future cfg h.timestamp) ≡ false
      → read_and_validate_timestamp cfg (added h) (before (little 8 h.timestamp))
        ≡ ok (timed h) after
  unfolding read_and_validate_timestamp
  read_and_validate_timestamp-encode p q =
      let past : is_past cfg h.timestamp ≡ false = ground arith in
      let future : is_future cfg h.timestamp ≡ false = ground arith in
      rw (read_little-little 8 h.timestamp rest c p, past, future)

  pub read_topic-encode :
      IsPid (has h.flags flag_has_pid) h.pid h.topic
      → read_topic (timed h) (before (if has h.flags flag_has_pid then [] else sized h.topic))
        ≡ ok (titled h) after
  unfolding read_topic
  read_topic-encode p = elim (Bool-cases (has h.flags flag_has_pid)) [
    | inl e ↦
        let (_, nil) : IsPid true h.pid h.topic = rw e at p in
        rw e (ap (λ t. ok (record (timed h) { topic = t }) after) (sym nil))
    | inr e ↦
        let (_, short) : IsPid false h.pid h.topic = rw e at p in
        rw (e, read_uint8_slice-sized h.topic rest c short)
  ]

  pub read_message_type-encode :
      IsTyped (has h.flags flag_common_type) h.type_id h.media_type
      → read_message_type
          (titled h)
          (before (encode_type h.flags flag_common_type h.type_id h.media_type))
        ≡ ok (typed h) after
  unfolding read_message_type
  read_message_type-encode p =
      let got = read_type-encode_type h.flags flag_common_type h.type_id h.media_type rest c p in
      elim (Bool-cases (has h.flags flag_common_type)) [
        | inl e ↦ rw (got, e)
        | inr e ↦
            let plain : IsTyped false h.type_id h.media_type = rw e at p in
            rw (got, e) (ap (λ t. ok (record (typed h) { type_id = t }) after) (sym plain.2))
      ]

  pub read_size-encode :
      h.size < 256 ^ 4 → read_size (typed h) (before (little 4 h.size)) ≡ ok (measured h) after
  unfolding read_size
  read_size-encode p = rw (read_little-little 4 h.size rest c p)

  pub read_expanded_size-encode :
      IsExpanded (has h.flags flag_deflate) h.expanded_size
      → h.expanded_size ≤ cfg.max_expanded_size
      → read_expanded_size cfg
          (measured h)
          (before (if has h.flags flag_deflate then little 4 h.expanded_size else []))
        ≡ ok (expanded h) after
  unfolding read_expanded_size
  read_expanded_size-encode p fits = elim (Bool-cases (has h.flags flag_deflate)) [
    | inl e ↦
        let within : ltb cfg.max_expanded_size h.expanded_size ≡ false = ground arith in
        rw (e, read_little-little 4 h.expanded_size rest c (rw e at p), within)
    | inr e ↦
        let nil : h.expanded_size ≡ 0 = rw e at p in
        rw e (ap (λ t. ok (record (measured h) { expanded_size = t }) after) (sym nil))
  ]
