-- ===== src/Conn.antt =====
-- One connection as the receiving host reads and answers it (cmd/fmsgd/host.go): the buffered
-- reader over the peer's bytes, and the response codes written so far.
pub mod Read
use fmsgd.Prelude.{ℕ, ◌+◌, Bool, true, false, List, [], ◌∷◌, ◌++◌, Bytes, if◌then◌else◌, ◌≡◌, refl}
use fmsgd.Address.{AddressError}

-- What a read meets behind the last byte: the end of the stream, or an error (a deadline, a reset).
pub data Ending : Type 0 where
  closed failed : Ending

-- `input` is what the peer will still send; `sent` is what has been written back, in order.
-- `writable` says whether a write succeeds.
pub record Conn : Type 0 where
  pub input : Bytes
  pub ending : Ending
  pub writable : Bool
  pub sent : Bytes

-- The errors that the handlers return, one for each place that makes one.
pub data Error : Type 0 where
  eof unexpected_eof read_failed write_failed : Error
  bad_address : AddressError → Error
  unknown_challenge unsupported_version reserved_flags terminal_add_to : Error
  no_recipients duplicate_recipient add_to_without_pid bad_add_to_from : Error
  add_to_from_not_participant no_add_to duplicate_add_to : Error
  past_time future_time unmapped_type non_ascii_type : Error
  reserved_attachment_flags bad_filename duplicate_filename too_big : Error
  no_participants dns_failed lookup_failed parent_not_found parent_terminal : Error
  time_travel not_participant duplicate_batch hash_failed : Error
  not_in_recipients parent_data_unavailable attachment_mismatch temp_failed : Error
  hash_mismatch open_failed recipient_failed bad_challenge_response : Error
  invalid_code unexpected_code : Error

-- A handler returns a value or an error, with the connection as it left it, or panics.
pub data Outcome {ℓ} (A : Type ℓ) : Type ℓ where
  ok : A → Conn → Outcome A
  err : Error → Conn → Outcome A
  panicked : Conn → Outcome A

abbrev pub M {ℓ} : Type ℓ → Type ℓ
M A = Conn → Outcome A

abbrev pub pure {ℓ} : {A : Type ℓ} → A → M A
pure a c = ok a c

abbrev pub fail {ℓ} : {A : Type ℓ} → Error → M A
fail e c = err e c

abbrev pub then_with {ℓ κ} : {A : Type ℓ} {B : Type κ} → Outcome A → (A → M B) → Outcome B
then_with (ok a c) f = f a c
then_with (err e c) f = err e c
then_with (panicked c) f = panicked c

infixl 5 ◌>>=◌ ◌>>◌
abbrev pub ◌>>=◌ {ℓ κ} : {A : Type ℓ} {B : Type κ} → M A → (A → M B) → M B
◌>>=◌ m f c = then_with (m c) f

abbrev pub ◌>>◌ {ℓ} : {B : Type ℓ} → M (Unit {0}) → M B → M B
m >> k = m >>= λ _. k

pub then_with-eq-ok {ℓ κ} :
    {A : Type ℓ} {B : Type κ} (m : Outcome A) (f : A → M B) {b : B} {d : Conn}
    → then_with m f ≡ ok b d
    → (a : A) × (c : Conn) × (m ≡ ok a c) × (f a c ≡ ok b d)
then_with-eq-ok (ok a c) f h = (a, c, refl, h)
then_with-eq-ok (err e c) f h = cc
then_with-eq-ok (panicked c) f h = cc

-- `sendCode`: one byte, or the error of the write.
unfoldable pub send_code : ℕ → M (Unit {0})
send_code code c =
    if c.writable then ok tt (record c { sent = c.sent ++ code ∷ [] }) else err write_failed c

-- The pattern of every refusal: send the code, then return the error.
unfoldable pub reject {ℓ} : {A : Type ℓ} → ℕ → Error → M A
unfolding send_code
reject code e = do send_code code; fail e
