-- ===== src/Receive/Answers/Reads.antt =====
-- The reads of a connection send nothing, whatever their result (cmd/fmsgd/host.go).
use fmsgd.Prelude.{ℕ, refl, true, [], ◌∷◌, ltb, length, Bytes, Bool-cases, inl, inr, of_little, ◌≡◌}
use fmsgd.Text.{Unicode}
use fmsgd.Address.{AddressResult, parsed, refused, parse_address}
use fmsgd.Conn.{Conn, Ending, Error, eof, unexpected_eof, read_failed, bad_address, closed, failed}
use fmsgd.Conn.Read.{
  ending_error, read_front, short_read, at_end, read_byte, read_full, read_little, read_at_most,
  read_uint8_slice, from_parse, read_address,
}
use fmsgd.Receive.Answers.{
  codes_of, Answers, add_silent, Replied, pure-Answers, fail-Answers, bind-Answers,
}

-- The reads of the connection, whose errors no code goes with.
module _ {codes : Error → Bytes} (quiet : (x : Error) → codes_of x ≡ [] → codes x ≡ []) where
  ending_error-silent : (e : Ending) (x : Error) → codes_of x ≡ [] → codes (ending_error e x) ≡ []
  unfolding ending_error codes_of
  ending_error-silent closed x h = quiet x h
  ending_error-silent failed x h = quiet read_failed refl

  read_front-Replied :
      (c : Conn) (bs : Bytes) → c.writable ≡ true → Replied codes c.sent (read_front c bs)
  unfolding read_front codes_of
  read_front-Replied c [] w = (add_silent c.sent _ (ending_error-silent c.ending eof refl), w)
  read_front-Replied c (b ∷ bs) w = (refl, w)

  pub read_byte-Answers : Answers codes read_byte
  unfolding read_byte
  read_byte-Answers = record { replies = λ c w. read_front-Replied c c.input w }

  short_read-Replied :
      (c : Conn) (bs : Bytes) → c.writable ≡ true → Replied codes c.sent (short_read c bs)
  unfolding short_read codes_of
  short_read-Replied c [] w = (add_silent c.sent _ (ending_error-silent c.ending eof refl), w)
  short_read-Replied c (b ∷ bs) w =
      (add_silent c.sent _ (ending_error-silent c.ending unexpected_eof refl), w)

  read_full-Answers : (n : ℕ) → Answers codes (read_full n)
  unfolding read_full
  read_full-Answers n = record {
    replies = λ c w. elim (Bool-cases (ltb (length c.input) n)) [
      | inl e ↦ rw e (short_read-Replied c c.input w)
      | inr e ↦ rw e (refl, w)
    ];
  }

  at_end-Replied : (e : Ending) (c : Conn) → c.writable ≡ true → Replied codes c.sent (at_end e c)
  unfolding at_end codes_of
  at_end-Replied closed c w = (refl, w)
  at_end-Replied failed c w = (add_silent c.sent _ (quiet read_failed refl), w)

  pub read_at_most-Answers : (n : ℕ) → Answers codes (read_at_most n)
  unfolding read_at_most
  read_at_most-Answers n = record {
    replies = λ c w. elim (Bool-cases (ltb (length c.input) n)) [
      | inl e ↦ rw e (at_end-Replied c.ending c w)
      | inr e ↦ rw e (refl, w)
    ];
  }

  pub read_little-Answers : (n : ℕ) → Answers codes (read_little n)
  unfolding read_little
  read_little-Answers n = bind-Answers (read_full-Answers n) (λ bs. pure-Answers (of_little bs))

  pub read_uint8_slice-Answers : Answers codes read_uint8_slice
  unfolding read_uint8_slice
  read_uint8_slice-Answers = bind-Answers (read_little-Answers 1) read_at_most-Answers

  from_parse-Answers : (r : AddressResult) → Answers codes (from_parse r)
  unfolding from_parse codes_of
  from_parse-Answers (parsed a) = pure-Answers a
  from_parse-Answers (refused e) = fail-Answers (bad_address e) (quiet (bad_address e) refl)

  pub read_address-Answers : (u : Unicode) → Answers codes (read_address u)
  unfolding read_address
  read_address-Answers u =
      bind-Answers read_uint8_slice-Answers (λ bs. from_parse-Answers (parse_address u bs))
