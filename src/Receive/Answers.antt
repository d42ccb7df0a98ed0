-- ===== src/Receive/Answers.antt =====
-- The response codes on the wire: which code goes with each error of the handlers in
-- cmd/fmsgd/host.go, and how that composes along a handler.
pub mod Reads
pub mod Fields
pub mod Wire
pub mod Checks
use fmsgd.Prelude.{
  ◌≡◌, refl, sym, ap, ◌∙◌, ◌≢◌, ℕ, Bool, true, false, List, [], ◌∷◌, ◌++◌, append-nil, Option, none,
  some, if◌then◌else◌, Bytes,
}
use fmsgd.Conn.{
  Conn, Error, eof, unexpected_eof, read_failed, write_failed, bad_address, unknown_challenge,
  unsupported_version, reserved_flags, terminal_add_to, no_recipients, duplicate_recipient,
  add_to_without_pid, bad_add_to_from, add_to_from_not_participant, no_add_to, duplicate_add_to,
  past_time, future_time, unmapped_type, non_ascii_type, reserved_attachment_flags, bad_filename,
  duplicate_filename, too_big, no_participants, dns_failed, lookup_failed, parent_not_found,
  parent_terminal, time_travel, not_participant, duplicate_batch, hash_failed, not_in_recipients,
  parent_data_unavailable, attachment_mismatch, temp_failed, hash_mismatch, open_failed,
  recipient_failed, bad_challenge_response, invalid_code, unexpected_code, Outcome, ok, err,
  panicked, M, pure, fail, then_with, ◌>>=◌, send_code, reject,
}

-- The bytes sent for an error: one response code, or nothing.
unfoldable pub codes_of : Error → Bytes
codes_of eof = []
codes_of unexpected_eof = []
codes_of read_failed = []
codes_of write_failed = []
codes_of (bad_address e) = []
codes_of unknown_challenge = []
codes_of unsupported_version = []
codes_of duplicate_recipient = []
codes_of dns_failed = []
codes_of lookup_failed = []
codes_of hash_failed = []
codes_of not_in_recipients = []
codes_of parent_data_unavailable = []
codes_of attachment_mismatch = []
codes_of temp_failed = []
codes_of hash_mismatch = []
codes_of open_failed = []
codes_of recipient_failed = []
codes_of bad_challenge_response = []
codes_of invalid_code = []
codes_of unexpected_code = []
codes_of too_big = 4 ∷ []
codes_of parent_not_found = 6 ∷ []
codes_of past_time = 7 ∷ []
codes_of future_time = 8 ∷ []
codes_of time_travel = 9 ∷ []
codes_of duplicate_batch = 10 ∷ []
codes_of reserved_flags = 1 ∷ []
codes_of terminal_add_to = 1 ∷ []
codes_of no_recipients = 1 ∷ []
codes_of add_to_without_pid = 1 ∷ []
codes_of bad_add_to_from = 1 ∷ []
codes_of add_to_from_not_participant = 1 ∷ []
codes_of no_add_to = 1 ∷ []
codes_of duplicate_add_to = 1 ∷ []
codes_of unmapped_type = 1 ∷ []
codes_of non_ascii_type = 1 ∷ []
codes_of reserved_attachment_flags = 1 ∷ []
codes_of bad_filename = 1 ∷ []
codes_of duplicate_filename = 1 ∷ []
codes_of no_participants = 1 ∷ []
codes_of parent_terminal = 1 ∷ []
codes_of not_participant = 1 ∷ []

-- What has been sent by the end of a run: nothing new on success or a panic, the codes of the error
-- on an error.
abbrev pub Replied {ℓ} : {A : Type ℓ} → (Error → Bytes) → Bytes → Outcome A → Type 0
Replied codes sent (ok a d) = (d.sent ≡ sent) × (d.writable ≡ true)
Replied codes sent (err e d) = (d.sent ≡ sent ++ codes e) × (d.writable ≡ true)
Replied codes sent (panicked d) = d.sent ≡ sent

-- A handler that behaves so on every connection that can be written to.
pub record Answers {ℓ} {A : Type ℓ} (codes : Error → Bytes) (m : M A) : Type ℓ where
  pub replies : (c : Conn) → c.writable ≡ true → Replied codes c.sent (m c)

pub add_silent : (sent codes : Bytes) → codes ≡ [] → sent ≡ sent ++ codes
add_silent sent codes h = sym (ap (λ y. sent ++ y) h ∙ append-nil sent)

module _ {ℓ} {A : Type ℓ} {codes : Error → Bytes} where
  pub pure-Answers : (a : A) → Answers codes (pure a)
  pure-Answers a = record { replies = λ c w. (refl, w) }

  pub fail-Answers : (e : Error) → codes e ≡ [] → Answers codes (fail {A = A} e)
  fail-Answers e silent = record { replies = λ c w. (add_silent c.sent (codes e) silent, w) }

  pub reject-Answers :
      (code : ℕ) (e : Error) → codes e ≡ code ∷ [] → Answers codes (reject {A = A} code e)
  unfolding reject send_code
  reject-Answers code e coded = record { replies = λ c w. rw (w, coded) (refl, refl) }

  pub if-Answers :
      (b : Bool) {m n : M A}
      → Answers codes m
      → Answers codes n
      → Answers codes (if b then m else n)
  if-Answers true am an = am
  if-Answers false am an = an

module _ {ℓ κ} {A : Type ℓ} {B : Type κ} {codes : Error → Bytes} where
  then_with-Replied :
      (o : Outcome A) (f : A → M B) (sent : Bytes)
      → Replied codes sent o
      → ((a : A) → Answers codes (f a))
      → Replied codes sent (then_with o f)
  then_with-Replied (ok a d) f sent r af = rw (← r.0) ((af a).replies d r.1)
  then_with-Replied (err e d) f sent r af = r
  then_with-Replied (panicked d) f sent r af = r

  pub bind-Answers :
      {m : M A} {f : A → M B}
      → Answers codes m
      → ((a : A) → Answers codes (f a))
      → Answers codes (m >>= f)
  bind-Answers {m = m} {f = f} am af = record {
    replies = λ c w. then_with-Replied (m c) f c.sent (am.replies c w) af;
  }
