-- ===== src/Wire/Hash/Cached.antt =====
-- The hash kept in a header (pkg/fmsg/fmsg.go): `GetMessageHash` called again.
use fmsgd.Prelude.{◌≡◌, refl, sym, ap, ◌∙◌, Option, none, some, Bytes}
use fmsgd.Wire.{Header}
use fmsgd.Wire.Hash.{Files, keep_hash, kept_or_new, message_bytes, get_message_hash}

kept :
    (fs : Files) (h : Header) (x : Bytes)
    → h.message_hash ≡ some x
    → get_message_hash fs h ≡ some (h, x)
unfolding get_message_hash kept_or_new
kept fs h x e = ap (kept_or_new fs h) e

keep_hash-kept :
    (fs : Files) (h h' : Header) (o : Option Bytes) (x : Bytes)
    → keep_hash fs h o ≡ some (h', x)
    → h'.message_hash ≡ some x
unfolding keep_hash
keep_hash-kept fs h h' none x e = cc
keep_hash-kept fs h h' (some bytes) x e =
    let digest : Bytes = fs.sha256 bytes in
    let same : ◌≡◌ {A = Header × Bytes} (record h { message_hash = some digest }, digest) (h', x) =
      cc in
    sym (ap (λ p. p.0.message_hash) same) ∙ ap (λ p. some p.1) same

kept_or_new-kept :
    (fs : Files) (h h' : Header) (o : Option Bytes) (x : Bytes)
    → h.message_hash ≡ o
    → kept_or_new fs h o ≡ some (h', x)
    → h'.message_hash ≡ some x
unfolding kept_or_new
kept_or_new-kept fs h h' none x same e = keep_hash-kept fs h h' (message_bytes fs h) x e
kept_or_new-kept fs h h' (some y) x same e = cc

-- A hash once computed is kept: a second call returns it and leaves the header as it is, whatever
-- has become of the files.
pub get_message_hash-again :
    (fs other : Files) (h h' : Header) (x : Bytes)
    → get_message_hash fs h ≡ some (h', x)
    → get_message_hash other h' ≡ some (h', x)
unfolding get_message_hash
get_message_hash-again fs other h h' x e =
    kept other h' x (kept_or_new-kept fs h h' h.message_hash x refl e)
