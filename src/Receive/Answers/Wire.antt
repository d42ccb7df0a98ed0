-- ===== src/Receive/Answers/Wire.antt =====
-- The wire fields in the order of `readHeader` (cmd/fmsgd/host.go).
use fmsgd.Prelude.{refl}
use fmsgd.Conn.{too_big}
use fmsgd.Wire.{Header}
use fmsgd.Receive.{Config}
use fmsgd.Receive.WireHeader.{
  read_flags, read_pid, read_from, read_topic, read_size, read_expanded_size, read_fields,
}
use fmsgd.Receive.Answers.Reads.{
  read_byte-Answers, read_at_most-Answers, read_little-Answers, read_uint8_slice-Answers,
  read_address-Answers,
}
use fmsgd.Receive.Answers.Fields.{
  codes_of-quiet, validate_message_flags-Answers, read_to_recipients-Answers,
  read_add_to_recipients-Answers, read_and_validate_timestamp-Answers, read_message_type-Answers,
  read_attachment_headers-Answers,
}
use fmsgd.Receive.Answers.{
  codes_of, Answers, pure-Answers, reject-Answers, if-Answers, bind-Answers,
}

read_flags-Answers : (h : Header) → Answers codes_of (read_flags h)
unfolding read_flags
read_flags-Answers h =
    bind-Answers (read_byte-Answers codes_of-quiet)
      (λ flags. bind-Answers (validate_message_flags-Answers flags) (λ done. pure-Answers _))

read_pid-Answers : (h : Header) → Answers codes_of (read_pid h)
unfolding read_pid
read_pid-Answers h =
    if-Answers _ (bind-Answers (read_at_most-Answers codes_of-quiet 32) (λ pid. pure-Answers _))
      (pure-Answers h)

read_from-Answers : (cfg : Config) (h : Header) → Answers codes_of (read_from cfg h)
unfolding read_from
read_from-Answers cfg h =
    bind-Answers (read_address-Answers codes_of-quiet cfg.unicode) (λ from. pure-Answers _)

read_topic-Answers : (h : Header) → Answers codes_of (read_topic h)
unfolding read_topic
read_topic-Answers h =
    if-Answers _ (pure-Answers h)
      (bind-Answers (read_uint8_slice-Answers codes_of-quiet) (λ topic. pure-Answers _))

read_size-Answers : (h : Header) → Answers codes_of (read_size h)
unfolding read_size
read_size-Answers h = bind-Answers (read_little-Answers codes_of-quiet 4) (λ size. pure-Answers _)

read_expanded_size-Answers :
    (cfg : Config) (h : Header) → Answers codes_of (read_expanded_size cfg h)
unfolding read_expanded_size codes_of
read_expanded_size-Answers cfg h =
    if-Answers _
      (bind-Answers (read_little-Answers codes_of-quiet 4)
        (λ expanded. if-Answers _ (reject-Answers 4 too_big refl) (pure-Answers _)))
      (pure-Answers h)

pub read_fields-Answers : (cfg : Config) (h : Header) → Answers codes_of (read_fields cfg h)
unfolding read_fields
read_fields-Answers cfg h = bind-Answers (read_flags-Answers h) (λ a.
    bind-Answers (read_pid-Answers a) (λ b. bind-Answers (read_from-Answers cfg b) (λ c.
      bind-Answers (read_to_recipients-Answers cfg.unicode c) (λ d.
        bind-Answers (read_add_to_recipients-Answers cfg.unicode d) (λ e.
          bind-Answers (read_and_validate_timestamp-Answers cfg e) (λ f.
            bind-Answers (read_topic-Answers f) (λ g.
              bind-Answers (read_message_type-Answers g) (λ i.
                bind-Answers (read_size-Answers i) (λ j.
                  bind-Answers (read_expanded_size-Answers cfg j)
                    (read_attachment_headers-Answers cfg))))))))))
