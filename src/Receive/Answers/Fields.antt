-- ===== src/Receive/Answers/Fields.antt =====
-- The readers of the wire fields (cmd/fmsgd/host.go) send nothing but the code of their error.
use fmsgd.Prelude.{
  ℕ, zero, suc, refl, List, [], ◌∷◌, ◌++◌, Option, none, some, ◌==◌, Bytes, ◌∙◌, append-nil, ◌≡◌,
}
use fmsgd.Text.{Unicode}
use fmsgd.Conn.{
  Error, reserved_flags, terminal_add_to, no_recipients, duplicate_recipient, add_to_without_pid,
  bad_add_to_from, add_to_from_not_participant, no_add_to, duplicate_add_to, past_time, future_time,
  unmapped_type, non_ascii_type, reserved_attachment_flags, bad_filename, duplicate_filename,
  too_big, Outcome, ok, err, panicked,
}
use fmsgd.Conn.Read.{read_address}
use fmsgd.Wire.{Header, Address, flag_common_type, attachment_common_type, attachment_deflate}
use fmsgd.Wire.MediaTypes.{get_common_media_type}
use fmsgd.Receive.{Config, contains}
use fmsgd.Receive.Version.{validate_message_flags}
use fmsgd.Receive.Recipients.{
  address_key, read_to_loop, read_to_recipients, read_add_to_loop, read_adder, or_reject,
  read_add_to_list, read_add_to_recipients,
}
use fmsgd.Receive.Fields.{
  read_and_validate_timestamp, read_type, mapped, read_attachment_type, read_message_type,
}
use fmsgd.Receive.Attachments.{
  validate_attachment_flags, body_totals, Totals, read_expanded, read_sizes, read_attachment,
  read_attachment_loop, check_totals, read_attachment_headers,
}
use fmsgd.Receive.Answers.Reads.{
  read_byte-Answers, read_little-Answers, read_uint8_slice-Answers, read_address-Answers,
}
use fmsgd.Receive.Answers.{
  codes_of, Answers, Replied, pure-Answers, fail-Answers, reject-Answers, if-Answers, bind-Answers,
}

pub codes_of-quiet : (x : Error) → codes_of x ≡ [] → codes_of x ≡ []
codes_of-quiet x h = h

pub validate_message_flags-Answers : (flags : ℕ) → Answers codes_of (validate_message_flags flags)
unfolding validate_message_flags codes_of
validate_message_flags-Answers flags =
    if-Answers _ (reject-Answers 1 reserved_flags refl)
      (if-Answers _ (reject-Answers 1 terminal_add_to refl) (pure-Answers tt))

read_to_loop-Answers :
    (u : Unicode) (n : ℕ) (seen : List Bytes) (to : List Address)
    → Answers codes_of (read_to_loop u n seen to)
unfolding read_to_loop codes_of
read_to_loop-Answers u zero seen to = pure-Answers to
read_to_loop-Answers u (suc n) seen to = bind-Answers (read_address-Answers codes_of-quiet u) (λ a.
    if-Answers (contains (address_key u a) seen) (fail-Answers duplicate_recipient refl)
      (read_to_loop-Answers u n (address_key u a ∷ seen) (to ++ a ∷ [])))

pub read_to_recipients-Answers :
    (u : Unicode) (h : Header) → Answers codes_of (read_to_recipients u h)
unfolding read_to_recipients codes_of
read_to_recipients-Answers u h = bind-Answers (read_byte-Answers codes_of-quiet) (λ n.
    if-Answers (n == 0) (reject-Answers 1 no_recipients refl)
      (bind-Answers (read_to_loop-Answers u n [] h.to) (λ to. pure-Answers _)))

read_add_to_loop-Answers :
    (u : Unicode) (n : ℕ) (seen : List Bytes) (add_to : List Address)
    → Answers codes_of (read_add_to_loop u n seen add_to)
unfolding read_add_to_loop codes_of
read_add_to_loop-Answers u zero seen add_to = pure-Answers add_to
read_add_to_loop-Answers u (suc n) seen add_to =
    bind-Answers (read_address-Answers codes_of-quiet u) (λ a.
      if-Answers (contains (address_key u a) seen) (reject-Answers 1 duplicate_add_to refl)
        (read_add_to_loop-Answers u n (address_key u a ∷ seen) (add_to ++ a ∷ [])))

-- A failed read of the adder's address has sent nothing before the code.
or_reject-Replied :
    (o : Outcome Address) (sent : Bytes)
    → Replied (λ x. []) sent o
    → Replied codes_of sent (or_reject o)
unfolding or_reject codes_of
or_reject-Replied (ok a d) sent r = r
or_reject-Replied (err e d) sent r =
    let before : d.sent ≡ sent = r.0 ∙ append-nil sent in
    rw (← before) ((reject-Answers 1 bad_add_to_from refl).replies d r.1)
or_reject-Replied (panicked d) sent r = r

read_adder-Answers : (u : Unicode) → Answers codes_of (read_adder u)
unfolding read_adder
read_adder-Answers u = record {
  replies = λ c w.
      or_reject-Replied (read_address u c) c.sent
        ((read_address-Answers (λ x h. refl) u).replies c w);
}

read_add_to_list-Answers : (u : Unicode) (h : Header) → Answers codes_of (read_add_to_list u h)
unfolding read_add_to_list codes_of
read_add_to_list-Answers u h = bind-Answers (read_byte-Answers codes_of-quiet) (λ n.
    if-Answers (n == 0) (reject-Answers 1 no_add_to refl)
      (bind-Answers (read_add_to_loop-Answers u n [] h.add_to) (λ to. pure-Answers _)))

pub read_add_to_recipients-Answers :
    (u : Unicode) (h : Header) → Answers codes_of (read_add_to_recipients u h)
unfolding read_add_to_recipients codes_of
read_add_to_recipients-Answers u h = if-Answers _ (pure-Answers h) (
    if-Answers _ (reject-Answers 1 add_to_without_pid refl) (
      bind-Answers (read_adder-Answers u) (λ a.
        if-Answers _ (read_add_to_list-Answers u _)
          (reject-Answers 1 add_to_from_not_participant refl))))

pub read_and_validate_timestamp-Answers :
    (cfg : Config) (h : Header) → Answers codes_of (read_and_validate_timestamp cfg h)
unfolding read_and_validate_timestamp codes_of
read_and_validate_timestamp-Answers cfg h =
    bind-Answers (read_little-Answers codes_of-quiet 8) (λ t.
      if-Answers _ (reject-Answers 7 past_time refl)
        (if-Answers _ (reject-Answers 8 future_time refl) (pure-Answers _)))

mapped-Answers : (id : ℕ) (o : Option Bytes) → Answers codes_of (mapped id o)
unfolding mapped codes_of
mapped-Answers id none = reject-Answers 1 unmapped_type refl
mapped-Answers id (some name) = pure-Answers (name, id)

read_type-Answers : (flags mask : ℕ) → Answers codes_of (read_type flags mask)
unfolding read_type codes_of
read_type-Answers flags mask =
    if-Answers _
      (bind-Answers (read_byte-Answers codes_of-quiet)
        (λ id. mapped-Answers id (get_common_media_type id)))
      (bind-Answers (read_uint8_slice-Answers codes_of-quiet)
        (λ name. if-Answers _ (pure-Answers _) (reject-Answers 1 non_ascii_type refl)))

pub read_message_type-Answers : (h : Header) → Answers codes_of (read_message_type h)
unfolding read_message_type
read_message_type-Answers h =
    bind-Answers (read_type-Answers h.flags flag_common_type) (λ (name, id). pure-Answers _)

validate_attachment_flags-Answers : (flags : ℕ) → Answers codes_of (validate_attachment_flags flags)
unfolding validate_attachment_flags codes_of
validate_attachment_flags-Answers flags =
    if-Answers _ (reject-Answers 1 reserved_attachment_flags refl) (pure-Answers tt)

read_expanded-Answers : (flags mask : ℕ) → Answers codes_of (read_expanded flags mask)
unfolding read_expanded
read_expanded-Answers flags mask =
    if-Answers _ (read_little-Answers codes_of-quiet 4) (pure-Answers 0)

read_sizes-Answers :
    (t : Totals) (flags : ℕ) (typed : Bytes × ℕ) (filename key : Bytes)
    → Answers codes_of (read_sizes t flags typed filename key)
unfolding read_sizes
read_sizes-Answers t flags (name, id) filename key =
    bind-Answers (read_little-Answers codes_of-quiet 4) (λ size.
      bind-Answers (read_expanded-Answers flags attachment_deflate) (λ expanded. pure-Answers _))

read_attachment-Answers : (u : Unicode) (t : Totals) → Answers codes_of (read_attachment u t)
unfolding read_attachment read_attachment_type codes_of
read_attachment-Answers u t = bind-Answers (read_byte-Answers codes_of-quiet) (λ flags.
    bind-Answers (validate_attachment_flags-Answers flags) (λ done.
      bind-Answers (read_type-Answers flags attachment_common_type) (λ typed.
        bind-Answers (read_uint8_slice-Answers codes_of-quiet) (λ filename.
          if-Answers _ (reject-Answers 1 bad_filename refl) (
            if-Answers _ (reject-Answers 1 duplicate_filename refl)
              (read_sizes-Answers t flags typed filename (u.to_lower filename)))))))

read_attachment_loop-Answers :
    (u : Unicode) (n : ℕ) (t : Totals) → Answers codes_of (read_attachment_loop u n t)
unfolding read_attachment_loop
read_attachment_loop-Answers u zero t = pure-Answers t
read_attachment_loop-Answers u (suc n) t =
    bind-Answers (read_attachment-Answers u t) (read_attachment_loop-Answers u n)

pub read_attachment_headers-Answers :
    (cfg : Config) (h : Header) → Answers codes_of (read_attachment_headers cfg h)
unfolding read_attachment_headers check_totals codes_of
read_attachment_headers-Answers cfg h = bind-Answers (read_little-Answers codes_of-quiet 1) (λ n.
    bind-Answers (read_attachment_loop-Answers cfg.unicode n (body_totals h)) (λ t.
      if-Answers _ (reject-Answers 4 too_big refl)
        (if-Answers _ (reject-Answers 4 too_big refl) (pure-Answers _))))
