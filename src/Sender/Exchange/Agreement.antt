-- ===== src/Sender/Exchange/Agreement.antt =====
-- The two ends of an exchange agree on the codes (cmd/fmsgd/sender.go against cmd/fmsgd/host.go).
use fmsgd.Prelude.{
  ◌≡◌, refl, sym, ap, ◌∙◌, ◌⊎◌, inl, inr, ℕ, ◌+◌, true, false, List, [], ◌∷◌, ◌++◌, append_assoc,
  append-nil, Option, none, some, ltb, if◌then◌else◌, Bool-cases, length, length-append, take,
  Bytes,
}
use mathlib.Core.Option
use fmsgd.Prelude.Options.{◌>>=◌, >>=-eq-some}
use fmsgd.Conn.{Conn, ok, M, ◌>>◌}
use fmsgd.Conn.Read.{read_front, read_byte, read_full, read_full-append}
use fmsgd.Wire.{Address, AttachmentHeader, Header, has, flag_has_add_to}
use fmsgd.Wire.Encode.{encode}
use fmsgd.Receive.{Config}
use fmsgd.Receive.Version.{write_bytes}
use fmsgd.Receive.Delivery.{append_local, local_recipients}
use fmsgd.Sender.Exchange.{
  DomainRecip, append_domain, domain_recips, copy_file, send_attachments, send_msg_data, told,
  read_codes, on_init_code, exchange,
}

-- The recipients that the sender counts are those that the receiver answers.
module _ (cfg : Config) (locked : List Bytes) where
  append_domain-append_local :
      (as_ : List Address) (recips : List DomainRecip) (addrs : List Address)
      → length recips ≡ length addrs
      → length (append_domain cfg.unicode cfg.domain locked as_ recips)
        ≡ length (append_local cfg as_ addrs)
  unfolding append_domain append_local
  append_domain-append_local [] recips addrs e = e
  append_domain-append_local (a ∷ as_) recips addrs e =
      elim (Bool-cases (cfg.unicode.equal_fold a.domain cfg.domain)) [
        | inl t ↦ rw t (
            append_domain-append_local as_ _ _
              (length-append recips _ ∙ (ap (λ n. n + 1) e ∙ sym (length-append addrs (a ∷ [])))))
        | inr f ↦ rw f (append_domain-append_local as_ recips addrs e)
      ]

  domain_recips-local_recipients :
      (h : Header)
      → (has h.flags flag_has_add_to ≡ false → h.add_to ≡ [])
      → length (domain_recips cfg.unicode cfg.domain locked h) ≡ length (local_recipients cfg h).0
  unfolding domain_recips local_recipients append_local
  domain_recips-local_recipients h none_added =
      let both = append_domain-append_local h.to [] [] refl in
      elim (Bool-cases (has h.flags flag_has_add_to)) [
        | inl t ↦ rw t (append_domain-append_local h.add_to _ _ both)
        | inr f ↦ rw (f, none_added f) both
      ]

-- The payload of a message: of each file as much as the header says.
unfoldable pub front_of : Option Bytes → ℕ → Option Bytes
front_of none size = none
front_of (some content) size = if ltb (length content) size then none else some (take size content)

unfoldable pub attached : (Bytes → Option Bytes) → List AttachmentHeader → Option Bytes
attached content [] = some []
attached content (a ∷ as_) = do
  data_ ← front_of (content a.filepath) a.size
  rest ← attached content as_
  some (data_ ++ rest)

unfoldable pub payload : (Bytes → Option Bytes) → Header → Option Bytes
payload content h = do
  body ← front_of (content h.filepath) h.size
  rest ← attached content h.attachments
  some (body ++ rest)

-- The connection behind a write.
abbrev wrote : Bytes → Conn → Conn
wrote bs c = record c { sent = c.sent ++ bs }

write_bytes-ok : (bs : Bytes) (c : Conn) → c.writable ≡ true → write_bytes bs c ≡ ok tt (wrote bs c)
unfolding write_bytes
write_bytes-ok bs c w = simp w refl

copy_file-ok :
    (o : Option Bytes) (n : ℕ) (bs : Bytes) (c : Conn)
    → c.writable ≡ true
    → front_of o n ≡ some bs
    → copy_file o n c ≡ ok tt (wrote bs c)
unfolding front_of copy_file
copy_file-ok none n bs c w e = absurd (Option.none-ne-some _ e)
copy_file-ok (some content) n bs c w e = elim (Bool-cases (ltb (length content) n)) [
  | inl t ↦ absurd (Option.none-ne-some _ (rw t at e))
  | inr f ↦ rw f (
      write_bytes-ok (take n content) c w
      ∙ ap (λ x. ok tt (wrote x c)) (Option.some-injective _ _ (rw f at e)))
]

-- Two writes in a row.
wrote-wrote : (a b : Bytes) (c : Conn) → wrote b (wrote a c) ≡ wrote (a ++ b) c
wrote-wrote a b c = ap (λ x. record c { sent = x }) (append_assoc c.sent a b)

then-ok :
    (m k : M (Unit {0})) (a b : Bytes) (c : Conn)
    → m c ≡ ok tt (wrote a c)
    → k (wrote a c) ≡ ok tt (wrote b (wrote a c))
    → (m >> k) c ≡ ok tt (wrote (a ++ b) c)
then-ok m k a b c e f = rw e (f ∙ ap (ok tt) (wrote-wrote a b c))

module _ (content : Bytes → Option Bytes) where
  send_attachments-ok :
      (as_ : List AttachmentHeader) (bs : Bytes) (c : Conn)
      → c.writable ≡ true
      → attached content as_ ≡ some bs
      → send_attachments content as_ c ≡ ok tt (wrote bs c)
  unfolding send_attachments attached
  send_attachments-ok [] bs c w e =
      ap (λ x. ok tt (record c { sent = x }))
        (sym (append-nil c.sent) ∙ ap (λ x. c.sent ++ x) (Option.some-injective _ _ e))
  send_attachments-ok (a ∷ as_) bs c w e =
      let (front, ef, e') = >>=-eq-some (front_of (content a.filepath) a.size) _ e in
      let (rest, er, e'') = >>=-eq-some (attached content as_) _ e' in
      then-ok (copy_file (content a.filepath) a.size) (send_attachments content as_) front rest c
        (copy_file-ok (content a.filepath) a.size front c w ef)
        (send_attachments-ok as_ rest (wrote front c) w er)
      ∙ ap (λ x. ok tt (wrote x c)) (Option.some-injective _ _ e'')

  send_msg_data-ok :
      (h : Header) (bs : Bytes) (c : Conn)
      → c.writable ≡ true
      → payload content h ≡ some bs
      → send_msg_data content h c ≡ ok tt (wrote bs c)
  unfolding send_msg_data payload
  send_msg_data-ok h bs c w e =
      let (front, ef, e') = >>=-eq-some (front_of (content h.filepath) h.size) _ e in
      let (rest, er, e'') = >>=-eq-some (attached content h.attachments) _ e' in
      then-ok (copy_file (content h.filepath) h.size) (send_attachments content h.attachments) front
        rest c (copy_file-ok (content h.filepath) h.size front c w ef)
        (send_attachments-ok h.attachments rest (wrote front c) w er)
      ∙ ap (λ x. ok tt (wrote x c)) (Option.some-injective _ _ e'')

  -- The answers that a message goes on behind, and what is sent then: 64 and the payload, or 65, to
  -- an add-to message, and nothing.
  abbrev pub GoesOn : Header → ℕ → Bytes → Type 0
  GoesOn h init sent =
      ((init ≡ 64) × (payload content h ≡ some sent))
      ⊎ ((init ≡ 65) × (has h.flags flag_has_add_to ≡ true) × (sent ≡ []))

  read_codes-ok :
      (h : Header) (init : ℕ) (codes : Bytes) (c : Conn)
      → read_codes content h (length codes) init (record c { input = codes })
        ≡ ok (told init codes) (record c { input = [] })
  unfolding read_codes
  read_codes-ok h init codes c =
      let e : read_full (length codes) (record c { input = codes })
          ≡ ok codes (record c { input = [] }) =
        ap (λ x. read_full (length codes) (record c { input = x })) (sym (append-nil codes))
        ∙ read_full-append codes [] c in
      rw e refl

  on_init_code-ok :
      (h : Header) (init : ℕ) (sent codes : Bytes) (c : Conn)
      → c.writable ≡ true
      → GoesOn h init sent
      → on_init_code content h (length codes) init (record c { input = codes })
        ≡ ok (told init codes) (wrote sent (record c { input = [] }))
  unfolding on_init_code
  on_init_code-ok h init sent codes c w (inl (e, p)) =
      rw (e, send_msg_data-ok h sent (record c { input = codes }) w p)
        (read_codes-ok h 64 codes (wrote sent c))
  on_init_code-ok h init sent codes c w (inr (e, f, z)) =
      rw (e, f, z)
        (read_codes-ok h 65 codes c
          ∙ ap (λ x. ok (told 65 codes) (record c { input = []; sent = x }))
              (sym (append-nil c.sent)))

  -- The other host has answered the header with 64 or 65 and one code for each of its recipients
  -- there, as it does; then the sender reads exactly these codes: it sends the header, and behind it
  -- the payload for 64 and nothing for 65, and no byte of the answer is left. A header without the
  -- add-to flag has no recipients added.
  pub exchange-local_recipients :
      (cfg : Config) (locked : List Bytes) (h : Header) (init : ℕ) (sent codes : Bytes) (c : Conn)
      → c.writable ≡ true
      → (has h.flags flag_has_add_to ≡ false → h.add_to ≡ [])
      → length codes ≡ length (local_recipients cfg h).0
      → GoesOn h init sent
      → c.input ≡ init ∷ codes
      → exchange content h (length (domain_recips cfg.unicode cfg.domain locked h)) c
        ≡ ok (told init codes) (record c { input = []; sent = c.sent ++ (encode h ++ sent) })
  unfolding exchange read_byte read_front
  exchange-local_recipients cfg locked h init sent codes c w none_added num goes_on e =
      rw
        (
          domain_recips-local_recipients cfg locked h none_added,
          ← num,
          write_bytes-ok (encode h) c w,
          e,
        )
        (on_init_code-ok h init sent codes (wrote (encode h) c) w goes_on
          ∙ ap (λ x. ok (told init codes) (record c { input = []; sent = x }))
              (append_assoc c.sent (encode h) sent))
