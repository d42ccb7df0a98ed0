-- ===== src/Receive/Parents/Steps.antt =====
-- What a successful step of a handler (cmd/fmsgd/host.go) tells of the checks in it.
use fmsgd.Prelude.{
  ℕ, ◌≡◌, ◌≢◌, refl, Bool, true, false, Bool-cases, inl, inr, Option, none, some, if◌then◌else◌,
}
use fmsgd.Conn.{Conn, Error, ok, err, M, reject, send_code}
use fmsgd.Receive.Host.{or_fail}
use fmsgd.Receive.Parents.{or_panic}

module _ {A : Type 0} where
  pub reject-ne-ok : (code : ℕ) (e : Error) (c d : Conn) (a : A) → reject {A = A} code e c ≢ ok a d
  unfolding reject send_code
  reject-ne-ok code e c d a h = elim (Bool-cases c.writable) [
    | inl w ↦ let p : err e _ ≡ ok a d = rw w at h in cc
    | inr w ↦ let p : err _ _ ≡ ok a d = rw w at h in cc
  ]

  -- A check that did not refuse.
  pub if-reject-ok :
      (b : Bool) (code : ℕ) (e : Error) (m : M A) (c d : Conn) (a : A)
      → (if b then reject code e else m) c ≡ ok a d
      → (b ≡ false) × (m c ≡ ok a d)
  if-reject-ok true code e m c d a h = absurd (reject-ne-ok code e c d a h)
  if-reject-ok false code e m c d a h = (refl, h)

  pub or_fail-ok :
      (e : Error) (o : Option A) (c d : Conn) (a : A)
      → or_fail e o c ≡ ok a d
      → (o ≡ some a) × (c ≡ d)
  or_fail-ok e none c d a h = cc
  or_fail-ok e (some x) c d a h = (cc, cc)

  pub or_panic-ok :
      (o : Option A) (c d : Conn) (a : A) → or_panic o c ≡ ok a d → (o ≡ some a) × (c ≡ d)
  or_panic-ok none c d a h = cc
  or_panic-ok (some x) c d a h = (cc, cc)
