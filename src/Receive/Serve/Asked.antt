-- ===== src/Receive/Serve/Asked.antt =====
-- A challenge between two hosts (cmd/fmsgd/host.go): `challenge` on one side, `handleChallenge` on
-- the other.
use fmsgd.Prelude.{◌≡◌, refl, sym, ap, ◌∙◌, ℕ, true, [], ◌∷◌, ◌++◌, length, Bytes}
use fmsgd.Conn.{Conn, ok}
use fmsgd.Conn.Read.{read_front, read_byte, read_at_most, read_at_most-append}
use fmsgd.Wire.{Header}
use fmsgd.Wire.Hash.{Files, get_header_hash}
use fmsgd.Receive.Version.{
  Answer, answer, write_bytes, respond, handle_challenge, read_version_or_challenge,
}
use fmsgd.Receive.Serve.{ask}

read_front_part :
    (n : ℕ) (bs rest : Bytes) (c : Conn)
    → length bs ≡ n
    → read_at_most n (record c { input = bs ++ rest }) ≡ ok bs (record c { input = rest })
read_front_part n bs rest c e =
    ap (λ k. read_at_most k (record c { input = bs ++ rest })) (sym e)
    ∙ read_at_most-append bs rest c

write_bytes-ok :
    (bs : Bytes) (c : Conn)
    → c.writable ≡ true
    → write_bytes bs c ≡ ok tt (record c { sent = c.sent ++ bs })
unfolding write_bytes
write_bytes-ok bs c w = simp w refl

-- The host that is asked, on the bytes 255 and the header hash: it writes the message hash that it
-- holds for them.
answered :
    (outgoing : Bytes → Answer) (h : Header) (hash digest rest : Bytes) (c : Conn)
    → c.writable ≡ true
    → length hash ≡ 32
    → outgoing hash ≡ answer digest
    → read_version_or_challenge outgoing h (record c { input = 255 ∷ (hash ++ rest) })
      ≡ ok (true, h) (record c { input = rest; sent = c.sent ++ digest })
unfolding read_version_or_challenge read_byte read_front handle_challenge respond
answered outgoing h hash digest rest c w n e =
    rw (read_front_part 32 hash rest c n, n, e, write_bytes-ok digest (record c { input = rest }) w)
      refl

-- The host that asks, with the message hash in what it reads.
asked :
    (fs : Files) (h : Header) (digest rest : Bytes) (c : Conn)
    → c.writable ≡ true
    → length digest ≡ 32
    → ask fs h (record c { input = digest ++ rest })
      ≡ ok
          (record (get_header_hash fs h).0 { challenge_hash = digest; challenge_completed = true })
          (record c { input = rest; sent = (c.sent ++ 255 ∷ []) ++ (get_header_hash fs h).1 })
unfolding ask
asked fs h digest rest c w n =
    let first : Conn = record c { input = digest ++ rest; sent = c.sent ++ 255 ∷ [] } in
    let second : Conn = record c { sent = (c.sent ++ 255 ∷ []) ++ (get_header_hash fs h).1 } in
    rw
      (
        write_bytes-ok (255 ∷ []) (record c { input = digest ++ rest }) w,
        write_bytes-ok (get_header_hash fs h).1 first w,
        read_front_part 32 digest rest second n,
        n,
      )
      refl

-- A challenge is understood, on connections that can be written to. The host that asks sends 255 and
-- the header hash, and nothing else; of what it then reads it takes the first 32 bytes, and keeps
-- them as the response of a completed challenge. A host that reads 255 and that header hash, of 32
-- bytes, for which it holds a message, takes no byte more, and sends the message hash, and nothing
-- else.
pub ask-read_version_or_challenge :
    (fs : Files) (h blank : Header) (outgoing : Bytes → Answer) (digest rest : Bytes) (a b : Conn)
    → a.writable ≡ true
    → b.writable ≡ true
    → length (get_header_hash fs h).1 ≡ 32
    → outgoing (get_header_hash fs h).1 ≡ answer digest
    → length digest ≡ 32
    → (ask fs h (record a { input = digest ++ rest })
        ≡ ok
            (record (get_header_hash fs h).0 {
              challenge_hash = digest;
              challenge_completed = true;
            })
            (record a { input = rest; sent = (a.sent ++ 255 ∷ []) ++ (get_header_hash fs h).1 }))
      × (read_version_or_challenge outgoing blank
            (record b { input = 255 ∷ ((get_header_hash fs h).1 ++ rest) })
          ≡ ok (true, blank) (record b { input = rest; sent = b.sent ++ digest }))
ask-read_version_or_challenge fs h blank outgoing digest rest a b wa wb n e m = (
  asked fs h digest rest a wa m,
  answered outgoing blank (get_header_hash fs h).1 digest rest b wb n e,
)
