-- ===== src/Conn/Read.antt =====
-- The reads of package io on a connection: `ReadByte`, `binary.Read` of an integer, and `ReadAll`
-- of a `LimitReader`.
use fmsgd.Prelude.{
  ℕ, ◌≡◌, refl, true, false, [], ◌∷◌, ◌++◌, arith, ltb, if◌then◌else◌, length, length-append, take,
  drop, take-append, drop-append, Bytes, to_byte, sized, little, of_little, length-little,
  of_little-little, ◌^◌, ◌<◌,
}
use fmsgd.Address.{AddressResult, parsed, refused, parse_address, is_valid_user, is_valid_domain}
use fmsgd.Address.Parse.{parse_address_iff}
use fmsgd.Text.{Unicode}
use fmsgd.Wire.{Address, to_string}
use fmsgd.Wire.Encode.{encode_address}
use fmsgd.Conn.{
  Ending, closed, failed, Conn, Error, eof, unexpected_eof, read_failed, bad_address, Outcome, ok,
  err, M, pure, fail, ◌>>=◌,
}

unfoldable pub ending_error : Ending → Error → Error
ending_error closed e = e
ending_error failed e = read_failed

unfoldable pub read_front : Conn → Bytes → Outcome ℕ
unfolding ending_error
read_front c [] = err (ending_error c.ending eof) c
read_front c (b ∷ bs) = ok b (record c { input = bs })

-- `r.ReadByte()`.
unfoldable pub read_byte : M ℕ
unfolding read_front
read_byte c = read_front c c.input

-- `io.ReadFull` inside `binary.Read`: all the `n` bytes or an error. `eof` only where no byte came.
unfoldable pub short_read : Conn → Bytes → Outcome Bytes
unfolding ending_error
short_read c [] = err (ending_error c.ending eof) c
short_read c (b ∷ bs) = err (ending_error c.ending unexpected_eof) (record c { input = [] })

unfoldable pub read_full : ℕ → M Bytes
unfolding short_read
read_full n c =
    if ltb (length c.input) n
    then short_read c c.input
    else ok (take n c.input) (record c { input = drop n c.input })

-- `binary.Read(r, binary.LittleEndian, &x)` of an unsigned integer of `n` bytes.
unfoldable pub read_little : ℕ → M ℕ
read_little n = do bs ← read_full n; pure (of_little bs)

unfoldable pub at_end : Ending → Conn → Outcome Bytes
at_end closed c = ok c.input (record c { input = [] })
at_end failed c = err read_failed (record c { input = [] })

-- `io.ReadAll(io.LimitReader(r, n))`: at the end of the stream fewer bytes, and no error.
unfoldable pub read_at_most : ℕ → M Bytes
unfolding at_end
read_at_most n c =
    if ltb (length c.input) n
    then at_end c.ending c
    else ok (take n c.input) (record c { input = drop n c.input })

-- `ReadUInt8Slice`; the size is read by `binary.Read`.
unfoldable pub read_uint8_slice : M Bytes
read_uint8_slice = do size ← read_little 1; read_at_most size

unfoldable pub from_parse : AddressResult → M Address
from_parse (parsed a) = pure a
from_parse (refused e) = fail (bad_address e)

-- `readAddress`.
unfoldable pub read_address : Unicode → M Address
unfolding from_parse
read_address u = do bs ← read_uint8_slice; from_parse (parse_address u bs)

-- Reads of what has just been written. `rest` is the input behind it.
not_short : (bs rest : Bytes) → ltb (length (bs ++ rest)) (length bs) ≡ false
not_short bs rest = ground (arith, length-append bs rest)

pub read_full-append :
    (bs rest : Bytes) (c : Conn)
    → read_full (length bs) (record c { input = bs ++ rest }) ≡ ok bs (record c { input = rest })
unfolding read_full
read_full-append bs rest c = rw (not_short bs rest, take-append, drop-append)

pub read_at_most-append :
    (bs rest : Bytes) (c : Conn)
    → read_at_most (length bs) (record c { input = bs ++ rest }) ≡ ok bs (record c { input = rest })
unfolding read_at_most
read_at_most-append bs rest c = rw (not_short bs rest, take-append, drop-append)

pub read_little-little :
    (k n : ℕ) (rest : Bytes) (c : Conn)
    → n < 256 ^ k
    → read_little k (record c { input = little k n ++ rest }) ≡ ok n (record c { input = rest })
unfolding read_little
read_little-little k n rest c h =
    let e = read_full-append (little k n) rest c in
    rw (rw (length-little k n) at e, of_little-little k n h)

pub read_little-to_byte :
    (n : ℕ) (rest : Bytes) (c : Conn)
    → n < 256
    → read_little 1 (record c { input = to_byte n ∷ rest }) ≡ ok n (record c { input = rest })
unfolding little
read_little-to_byte n rest c h = read_little-little 1 n rest c (omega arith)

pub read_uint8_slice-sized :
    (s rest : Bytes) (c : Conn)
    → length s < 256
    → read_uint8_slice (record c { input = sized s ++ rest }) ≡ ok s (record c { input = rest })
unfolding read_uint8_slice sized
read_uint8_slice-sized s rest c h =
    rw (read_little-to_byte (length s) (s ++ rest) c h, read_at_most-append)

pub read_address-encode_address :
    (u : Unicode) (a : Address) (rest : Bytes) (c : Conn)
    → is_valid_user u a.user ≡ true
    → is_valid_domain a.domain ≡ true
    → length (to_string a) < 256
    → read_address u (record c { input = encode_address a ++ rest })
      ≡ ok a (record c { input = rest })
unfolding read_address encode_address
read_address-encode_address u a rest c hu hd h = rw (
  read_uint8_slice-sized (to_string a) rest c h,
  (parse_address_iff u (to_string a) a).1 (refl, hu, hd),
)
