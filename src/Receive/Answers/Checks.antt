-- ===== src/Receive/Answers/Checks.antt =====
-- `readHeader` as a whole (cmd/fmsgd/host.go), for a peer that does not answer one of this host's
-- challenges.
use fmsgd.Prelude.{ℕ, refl, Bool, true, [], Option, none, some, Bytes, ◌≡◌, ◌≢◌}
use fmsgd.Conn.{
  Conn, Error, unknown_challenge, unsupported_version, no_participants, dns_failed, lookup_failed,
  parent_not_found, parent_terminal, time_travel, not_participant, duplicate_batch, hash_failed,
  panicked,
}
use fmsgd.Wire.{Header}
use fmsgd.Wire.Hash.{get_message_hash}
use fmsgd.Receive.{Config}
use fmsgd.Receive.Version.{
  Answer, not_outgoing, hash_error, answer, respond, handle_challenge, read_version_or_challenge,
}
use fmsgd.Receive.WireHeader.{read_wire, blank}
use fmsgd.Receive.Host.{
  Host, or_fail, is_message_retrievable, verify_sender_ip, determine_sender_domain,
}
use fmsgd.Receive.Parents.{
  or_panic, handle_add_to_parent_not_stored, record_batch, check_parent, on_parent,
  handle_add_to_path, check_reply, validate_pid_reply_path,
}
use fmsgd.Receive.Admit.{admit, admit_read, read_header}
use fmsgd.Receive.Answers.Reads.{read_byte-Answers, read_at_most-Answers}
use fmsgd.Receive.Answers.Wire.{read_fields-Answers}
use fmsgd.Receive.Answers.Fields.{codes_of-quiet}
use fmsgd.Receive.Answers.{
  codes_of, Answers, Replied, pure-Answers, fail-Answers, reject-Answers, if-Answers, bind-Answers,
}

or_fail-Answers :
    {A : Type 0} (e : Error) (o : Option A) → codes_of e ≡ [] → Answers codes_of (or_fail e o)
or_fail-Answers e none silent = fail-Answers e silent
or_fail-Answers e (some a) silent = pure-Answers a

panic-Answers : {A : Type 0} → Answers {A = A} codes_of panicked
panic-Answers = record { replies = λ c w. refl }

or_panic-Answers : {A : Type 0} (o : Option A) → Answers codes_of (or_panic o)
or_panic-Answers none = panic-Answers
or_panic-Answers (some a) = pure-Answers a

verify_sender_ip-Answers :
    (host : Host) (domain : Bytes) → Answers codes_of (verify_sender_ip host domain)
unfolding verify_sender_ip codes_of
verify_sender_ip-Answers host domain = if-Answers _ (pure-Answers tt) (
    bind-Answers (or_fail-Answers dns_failed host.remote_host refl) (λ remote.
      bind-Answers (or_fail-Answers dns_failed (host.parse_ip remote) refl) (λ ip.
        bind-Answers (or_fail-Answers dns_failed (host.authorised_ips domain) refl)
          (λ ips. if-Answers _ (pure-Answers tt) (fail-Answers dns_failed refl)))))

not_stored-Answers :
    (h : Header) (local : Bool) → Answers codes_of (handle_add_to_parent_not_stored h local)
unfolding handle_add_to_parent_not_stored codes_of
not_stored-Answers h local = if-Answers _ (pure-Answers _) (reject-Answers 6 parent_not_found refl)

module _ (cfg : Config) (host : Host) (fuel : ℕ) where
  record_batch-Answers :
      (id : ℕ) (h : Header) (ours : Bool) → Answers codes_of (record_batch cfg host fuel id h ours)
  unfolding record_batch codes_of
  record_batch-Answers id h ours =
      bind-Answers (or_fail-Answers hash_failed (get_message_hash host.files h) refl)
        (λ (hashed, digest).
          bind-Answers (or_fail-Answers lookup_failed (host.batch_recorded id digest) refl)
            (λ recorded.
              if-Answers _ (reject-Answers 10 duplicate_batch refl)
                (if-Answers _ (pure-Answers _) (pure-Answers _))))

  on_parent-Answers :
      (id : ℕ) (p : Option Header) (found : Bool) (h : Header) (ours local : Bool)
      → Answers codes_of (on_parent cfg host fuel id p found h ours local)
  unfolding on_parent check_parent codes_of
  on_parent-Answers id none found h ours local = not_stored-Answers h local
  on_parent-Answers id (some parent) found h ours local =
      if-Answers _
        (if-Answers _ (reject-Answers 1 parent_terminal refl) (
          if-Answers _ (reject-Answers 9 time_travel refl) (
            if-Answers _ (reject-Answers 1 not_participant refl) (record_batch-Answers id _ ours))))
        (not_stored-Answers h local)

  handle_add_to_path-Answers : (h : Header) → Answers codes_of (handle_add_to_path cfg host fuel h)
  unfolding handle_add_to_path codes_of
  handle_add_to_path-Answers h = if-Answers _ (pure-Answers h) (
      bind-Answers (or_fail-Answers lookup_failed (host.msg_id_by_hash h.pid) refl) (λ id.
        if-Answers _ (not_stored-Answers h _) (
          bind-Answers (or_fail-Answers lookup_failed (host.msg_by_id id) refl) (λ parent.
            bind-Answers (or_panic-Answers (is_message_retrievable host fuel parent))
              (λ found. on_parent-Answers id parent found h _ _)))))

  check_reply-Answers :
      (p : Option Header) (h : Header) → Answers codes_of (check_reply cfg host fuel p h)
  unfolding check_reply codes_of
  check_reply-Answers none h = reject-Answers 6 parent_not_found refl
  check_reply-Answers (some parent) h =
      bind-Answers (or_panic-Answers (is_message_retrievable host fuel (some parent))) (λ found.
        if-Answers _ (reject-Answers 6 parent_not_found refl) (
          if-Answers _ (reject-Answers 9 time_travel refl) (
            if-Answers _ (reject-Answers 1 not_participant refl)
              (if-Answers _ (reject-Answers 1 parent_terminal refl) (pure-Answers tt)))))

  validate_pid_reply_path-Answers :
      (h : Header) → Answers codes_of (validate_pid_reply_path cfg host fuel h)
  unfolding validate_pid_reply_path codes_of
  validate_pid_reply_path-Answers h = if-Answers _ (pure-Answers tt) (
      bind-Answers (or_fail-Answers lookup_failed (host.msg_id_by_hash h.pid) refl) (λ id.
        bind-Answers (or_fail-Answers lookup_failed _ refl)
          (λ parent. check_reply-Answers parent h)))

  admit-Answers : (h : Header) → Answers codes_of (admit cfg host fuel h)
  unfolding admit codes_of
  admit-Answers h = if-Answers _ (reject-Answers 1 no_participants refl) (
      bind-Answers (verify_sender_ip-Answers host (determine_sender_domain h)) (λ done.
        bind-Answers (handle_add_to_path-Answers h) (λ resolved.
          bind-Answers (validate_pid_reply_path-Answers resolved)
            (λ valid. pure-Answers resolved))))

respond-Answers : (a : Answer) → ((bs : Bytes) → a ≢ answer bs) → Answers codes_of (respond a)
unfolding respond codes_of
respond-Answers not_outgoing idle = fail-Answers unknown_challenge refl
respond-Answers hash_error idle = fail-Answers hash_failed refl
respond-Answers (answer bs) idle = absurd (idle bs refl)

module _ (outgoing : Bytes → Answer) (idle : (hash bs : Bytes) → outgoing hash ≢ answer bs) where
  handle_challenge-Answers : Answers codes_of (handle_challenge outgoing)
  unfolding handle_challenge
  handle_challenge-Answers =
      bind-Answers (read_at_most-Answers codes_of-quiet 32)
        (λ hash. if-Answers _ (respond-Answers (outgoing hash) (idle hash)) panic-Answers)

  read_version_or_challenge-Answers :
      (h : Header) → Answers codes_of (read_version_or_challenge outgoing h)
  unfolding read_version_or_challenge codes_of
  read_version_or_challenge-Answers h = bind-Answers (read_byte-Answers codes_of-quiet) (λ v.
      if-Answers _
        (if-Answers _ (bind-Answers handle_challenge-Answers (λ done. pure-Answers _))
          (fail-Answers unsupported_version refl))
        (if-Answers _ (pure-Answers _) (fail-Answers unsupported_version refl)))

  read_wire-Answers : (cfg : Config) → Answers codes_of (read_wire outgoing cfg)
  unfolding read_wire
  read_wire-Answers cfg = bind-Answers (read_version_or_challenge-Answers blank) (λ (handled, h).
      if-Answers handled (pure-Answers none)
        (bind-Answers (read_fields-Answers cfg h) (λ read. pure-Answers (some read))))

  module _ (cfg : Config) (host : Host) (fuel : ℕ) where
    admit_read-Answers : (o : Option Header) → Answers codes_of (admit_read cfg host fuel o)
    unfolding admit_read
    admit_read-Answers none = pure-Answers none
    admit_read-Answers (some h) =
        bind-Answers (admit-Answers cfg host fuel h) (λ a. pure-Answers (some a))

    read_header-Answers : Answers codes_of (read_header cfg host fuel outgoing)
    unfolding read_header
    read_header-Answers = bind-Answers (read_wire-Answers cfg) admit_read-Answers

    -- On a connection that can be written to, and with no challenge of ours to answer, reading a
    -- header ends in one of three ways: a header (or a handled challenge) with nothing sent; an
    -- error with exactly the bytes sent that `codes_of` gives for it, at most one; or a panic with
    -- nothing sent.
    pub read_header-Replied :
        (c : Conn)
        → c.writable ≡ true
        → Replied codes_of c.sent (read_header cfg host fuel outgoing c)
    read_header-Replied c w = read_header-Answers.replies c w
