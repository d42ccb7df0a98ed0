-- ===== src/Receive/Replies/Challenge.antt =====
-- A challenge leaves the recipients of the header as they were (cmd/fmsgd/host.go).
use fmsgd.Prelude.{
  ◌≡◌, refl, Bool, true, false, not, [], ◌∷◌, Option, none, some, length, Bytes, if◌then◌else◌,
  ◌==◌, Option-cases, inl, inr,
}
use fmsgd.Prelude.Options.{Gives, none-Gives, some-Gives}
use fmsgd.Conn.{
  Conn, bad_challenge_response, Outcome, ok, err, panicked, M, pure, fail, ◌>>=◌, then_with,
}
use fmsgd.Conn.Read.{read_at_most}
use fmsgd.Wire.{Header}
use fmsgd.Wire.Hash.{Files, get_header_hash}
use fmsgd.Receive.{Config}
use fmsgd.Receive.Version.{write_bytes}
use fmsgd.Receive.Delivery.{local_recipients}
use fmsgd.Receive.Serve.{Server, ask, answer_of, ask_second, from_remote, challenge}

-- The results that an outcome can have.
abbrev Results {ℓ} : {A : Type ℓ} → (A → Type 0) → Outcome A → Type 0
Results P (ok a c) = P a
Results P (err e c) = Unit
Results P (panicked c) = Unit

record Yields {ℓ} {A : Type ℓ} (P : A → Type 0) (m : M A) : Type ℓ where
  pub results : (c : Conn) → Results P (m c)

module _ {ℓ κ} {A : Type ℓ} {B : Type κ} {P : B → Type 0} where
  then_with-Results :
      (o : Outcome A) (f : A → M B) → ((a : A) → Yields P (f a)) → Results P (then_with o f)
  then_with-Results (ok a d) f y = (y a).results d
  then_with-Results (err e d) f y = tt
  then_with-Results (panicked d) f y = tt

  bind-Yields : (m : M A) {f : A → M B} → ((a : A) → Yields P (f a)) → Yields P (m >>= f)
  bind-Yields m {f = f} y = record { results = λ c. then_with-Results (m c) f y }

-- The recipients of one header are those of another.
abbrev SameRecipients : Config → Header → Header → Type 0
SameRecipients cfg h g = local_recipients cfg g ≡ local_recipients cfg h

module _ (cfg : Config) where
  get_header_hash-recipients :
      (fs : Files) (h : Header) → SameRecipients cfg h (get_header_hash fs h).0
  unfolding get_header_hash local_recipients
  get_header_hash-recipients fs h = elim (Option-cases h.header_hash) [
    | inl e ↦ rw e refl
    | inr (x, e) ↦ rw e refl
  ]

  response-Yields :
      (h hashed : Header) (resp : Bytes) (b : Bool)
      → SameRecipients cfg h hashed
      → Yields (SameRecipients cfg h) (
          if b
          then fail bad_challenge_response
          else pure (record hashed { challenge_hash = resp; challenge_completed = true }))
  unfolding local_recipients
  response-Yields h hashed resp true e = record { results = λ c. tt }
  response-Yields h hashed resp false e = record { results = λ c. e }

  ask-Yields : (fs : Files) (h : Header) → Yields (SameRecipients cfg h) (ask fs h)
  unfolding ask
  ask-Yields fs h =
      let (hashed, hash) = get_header_hash fs h in
      bind-Yields (write_bytes (255 ∷ [])) (λ a. bind-Yields (write_bytes hash) (λ b.
        bind-Yields (read_at_most 32) (λ resp.
          response-Yields h hashed resp (not (length resp == 32))
            (get_header_hash-recipients fs h))))

  answer_of-Gives :
      (closes : Bool) (h : Header) (o : Outcome Header)
      → Results (SameRecipients cfg h) o
      → Gives (SameRecipients cfg h) (answer_of closes o)
  unfolding answer_of
  answer_of-Gives true h (ok a c) r = some-Gives r
  answer_of-Gives false h (ok a c) r = none-Gives
  answer_of-Gives closes h (err e c) r = none-Gives
  answer_of-Gives closes h (panicked c) r = none-Gives

  ask_second-Gives :
      (fs : Files) (h : Header) (second : Option (Conn × Bool))
      → Gives (SameRecipients cfg h) (ask_second fs h second)
  unfolding ask_second
  ask_second-Gives fs h none = none-Gives
  ask_second-Gives fs h (some (c, closes)) =
      answer_of-Gives closes h (ask fs h c) ((ask-Yields fs h).results c)

from_remote-Gives :
    (s : Server) (h : Header) (remote : Option Bytes)
    → Gives (SameRecipients s.cfg h) (from_remote s h remote)
unfolding from_remote
from_remote-Gives s h none = none-Gives
from_remote-Gives s h (some remote) = ask_second-Gives s.cfg s.host.files h s.second

pub challenge-Gives : (s : Server) (h : Header) → Gives (SameRecipients s.cfg h) (challenge s h)
unfolding challenge
challenge-Gives s h = from_remote-Gives s h s.host.remote_host
