-- ===== src/Sender/Exchange/Answered.antt =====
-- The exchange of the sender against what the other host writes (cmd/fmsgd/sender.go).
use fmsgd.Prelude.{
  ◌≡◌, refl, sym, ap, ◌∙◌, ◌⊎◌, inl, inr, ℕ, ◌≤◌, Bool, true, false, not, ◌&&◌, List, [], ◌∷◌, ◌++◌,
  Option, none, some, arith, ltb, leb, ◌==◌, if◌then◌else◌, Bool-cases, length, length-take, take,
  take-append-drop, Bytes,
}
use mathlib.Core.Path.{subst}
use fmsgd.Conn.{
  Conn, Error, eof, open_failed, invalid_code, unexpected_code, Outcome, ok, err, panicked, M, pure,
  fail, ◌>>=◌, then_with,
}
use fmsgd.Conn.Read.{read_front, read_byte, short_read, read_full}
use fmsgd.Wire.{AttachmentHeader, Header, has, flag_has_add_to}
use fmsgd.Wire.Encode.{encode}
use fmsgd.Receive.Version.{write_bytes}
use fmsgd.Sender.Exchange.{
  copy_file, send_attachments, send_msg_data, Verdict, noted, rejected, told, read_codes,
  on_init_code, exchange,
}

-- A relation of the input before a run that succeeds, its result, and the input behind it.
abbrev Post {ℓ} : {A : Type ℓ} → (A → Bytes → Type 0) → Outcome A → Type 0
Post Q (ok a d) = Q a d.input
Post Q (err e d) = Unit
Post Q (panicked d) = Unit

record Reads {ℓ} {A : Type ℓ} (P : Bytes → A → Bytes → Type 0) (m : M A) : Type ℓ where
  pub reads : (c : Conn) → Post (P c.input) (m c)

module _ {ℓ κ} {A : Type ℓ} {B : Type κ} where
  then_with-Post :
      (P : A → Bytes → Type 0) (R : B → Bytes → Type 0) (Q : A → Bytes → B → Bytes → Type 0)
      (o : Outcome A) (f : A → M B)
      → Post P o
      → ((a : A) → Reads (Q a) (f a))
      → ((a : A) (j : Bytes) (b : B) (k : Bytes) → P a j → Q a j b k → R b k)
      → Post R (then_with o f)
  then_with-Post P R Q (ok a d) f p q step = onward (f a d) ((q a).reads d)
    where
      onward : (r : Outcome B) → Post (Q a d.input) r → Post R r
      onward (ok b e) h = step a d.input b e.input p h
      onward (err x e) h = tt
      onward (panicked e) h = tt
  then_with-Post P R Q (err e d) f p q step = tt
  then_with-Post P R Q (panicked d) f p q step = tt

  bind-Reads :
      (P : Bytes → A → Bytes → Type 0) (Q : A → Bytes → B → Bytes → Type 0)
      (R : Bytes → B → Bytes → Type 0) (m : M A) (f : A → M B)
      → Reads P m
      → ((a : A) → Reads (Q a) (f a))
      → ((i : Bytes) (a : A) (j : Bytes) (b : B) (k : Bytes) → P i a j → Q a j b k → R i b k)
      → Reads R (m >>= f)
  bind-Reads P Q R m f p q step = record {
    reads = λ c. then_with-Post (P c.input) (R c.input) Q (m c) f (p.reads c) q (step c.input);
  }

module _ {ℓ} {A : Type ℓ} {P : Bytes → A → Bytes → Type 0} where
  fail-Reads : (e : Error) → Reads P (fail e)
  fail-Reads e = record { reads = λ c. tt }

  if-Reads : (b : Bool) (m n : M A) → Reads P m → Reads P n → Reads P (if b then m else n)
  if-Reads true m n p q = p
  if-Reads false m n p q = q

-- The input is left as it was.
abbrev Same {ℓ} : {A : Type ℓ} → Bytes → A → Bytes → Type 0
Same i a j = i ≡ j

abbrev Front : Bytes → ℕ → Bytes → Type 0
Front i b j = i ≡ b ∷ j

abbrev Fronts : ℕ → Bytes → Bytes → Bytes → Type 0
Fronts n i bs j = (length bs ≡ n) × (i ≡ bs ++ j)

write_bytes-Same : (bs : Bytes) → Reads Same (write_bytes bs)
unfolding write_bytes
write_bytes-Same bs = record {
  reads = λ c. elim (Bool-cases c.writable) [ inl e ↦ simp e refl | inr e ↦ simp e tt ];
}

copy_file-Same : (o : Option Bytes) (n : ℕ) → Reads Same (copy_file o n)
unfolding copy_file
copy_file-Same none n = fail-Reads open_failed
copy_file-Same (some content) n =
    if-Reads (ltb (length content) n) _ _
      (bind-Reads Same (λ a. Same) Same (write_bytes content) _ (write_bytes-Same content)
        (λ a. fail-Reads eof) (λ i a j b k p q. p ∙ q))
      (write_bytes-Same (take n content))

module _ (content : Bytes → Option Bytes) where
  send_attachments-Same : (as_ : List AttachmentHeader) → Reads Same (send_attachments content as_)
  unfolding send_attachments
  send_attachments-Same [] = record { reads = λ c. refl }
  send_attachments-Same (a ∷ as_) =
      bind-Reads Same (λ x. Same) Same (copy_file (content a.filepath) a.size) _
        (copy_file-Same (content a.filepath) a.size) (λ x. send_attachments-Same as_)
        (λ i x j b k p q. p ∙ q)

  send_msg_data-Same : (h : Header) → Reads Same (send_msg_data content h)
  unfolding send_msg_data
  send_msg_data-Same h =
      bind-Reads Same (λ x. Same) Same (copy_file (content h.filepath) h.size) _
        (copy_file-Same (content h.filepath) h.size) (λ x. send_attachments-Same h.attachments)
        (λ i x j b k p q. p ∙ q)

read_front-Post : (c : Conn) (bs : Bytes) → Post (Front bs) (read_front c bs)
unfolding read_front
read_front-Post c [] = tt
read_front-Post c (b ∷ bs) = refl

read_byte-Front : Reads Front read_byte
unfolding read_byte
read_byte-Front = record { reads = λ c. read_front-Post c c.input }

short_read-Post : (Q : Bytes → Bytes → Type 0) (c : Conn) (bs : Bytes) → Post Q (short_read c bs)
unfolding short_read
short_read-Post Q c [] = tt
short_read-Post Q c (b ∷ bs) = tt

read_full-Fronts : (n : ℕ) → Reads (Fronts n) (read_full n)
unfolding read_full
read_full-Fronts n = record {
  reads = λ c. elim (Bool-cases (ltb (length c.input) n)) [
    | inl e ↦ rw e (short_read-Post (Fronts n c.input) c c.input)
    | inr e ↦ rw e (ground (arith, length-take n c.input), sym (take-append-drop n c.input))
  ];
}

-- What the other host has written, up to a verdict and what is left behind it.
abbrev pub IsSaid : Header → ℕ → Bytes → Verdict → Bytes → Type 0
IsSaid h num said noted left = (has h.flags flag_has_add_to ≡ true) × (said ≡ 11 ∷ left)
IsSaid h num said (rejected code) left = (1 ≤ code) × (code ≤ 10) × (said ≡ code ∷ left)
IsSaid h num said (told init codes) left =
    ((init ≡ 64) ⊎ ((init ≡ 65) × (has h.flags flag_has_add_to ≡ true)))
    × (length codes ≡ num)
    × (said ≡ init ∷ (codes ++ left))

module _ (content : Bytes → Option Bytes) (h : Header) (num : ℕ) where
  -- What follows the initial code.
  abbrev Behind : ℕ → Bytes → Verdict → Bytes → Type 0
  Behind init i v j = IsSaid h num (init ∷ i) v j

  read_codes-Behind :
      (init : ℕ)
      → (init ≡ 64) ⊎ ((init ≡ 65) × (has h.flags flag_has_add_to ≡ true))
      → Reads (Behind init) (read_codes content h num init)
  unfolding read_codes
  read_codes-Behind init accepting =
      bind-Reads (Fronts num) (λ codes i v j. (v ≡ told init codes) × (i ≡ j)) (Behind init)
        (read_full num) _ (read_full-Fronts num) (λ codes. record { reads = λ c. (refl, refl) })
        (λ i codes j v k p q.
          rw q.0 (accepting, p.0, ap (λ x. init ∷ x) (p.1 ∙ ap (λ x. codes ++ x) q.1)))

  on_init_code-Behind : (init : ℕ) → Reads (Behind init) (on_init_code content h num init)
  unfolding on_init_code
  on_init_code-Behind init = elim (Bool-cases (init == 64)) [
    | inl e ↦ rw e (
        bind-Reads Same (λ a. Behind init) (Behind init) (send_msg_data content h) _
          (send_msg_data-Same content h) (λ a. read_codes-Behind init (inl (ground arith)))
          (λ i a j v k p q. rw p q))
    | inr e ↦ elim (Bool-cases (init == 65)) [
      | inl e' ↦ rw (e, e') (by_flag (Bool-cases (has h.flags flag_has_add_to)) (ground arith))
      | inr e' ↦ elim (Bool-cases (init == 11)) [
        | inl e'' ↦
            rw (e, e', e'')
              (noted_by_flag (Bool-cases (has h.flags flag_has_add_to)) (ground arith))
        | inr e'' ↦ elim (Bool-cases (leb 1 init && leb init 10)) [
          | inl e3 ↦
              rw (e, e', e'', e3) (record { reads = λ c. (ground arith, ground arith, refl) })
          | inr e3 ↦ rw (e, e', e'', e3) (fail-Reads unexpected_code)
        ]
      ]
    ]
  ]
    where
      by_flag :
          (has h.flags flag_has_add_to ≡ true) ⊎ (has h.flags flag_has_add_to ≡ false)
          → init ≡ 65
          → Reads (Behind init) (
              if not (has h.flags flag_has_add_to)
              then fail invalid_code
              else read_codes content h num init)
      by_flag (inl f) z = rw f (read_codes-Behind init (inr (z, f)))
      by_flag (inr f) z = rw f (fail-Reads invalid_code)

      noted_by_flag :
          (has h.flags flag_has_add_to ≡ true) ⊎ (has h.flags flag_has_add_to ≡ false)
          → init ≡ 11
          → Reads
              (Behind init)
              (if not (has h.flags flag_has_add_to) then fail invalid_code else pure noted)
      noted_by_flag (inl f) z = rw f (record { reads = λ c. (f, ap (λ x. x ∷ c.input) z) })
      noted_by_flag (inr f) z = rw f (fail-Reads invalid_code)

  exchange-Reads : Reads (IsSaid h num) (exchange content h num)
  unfolding exchange
  exchange-Reads =
      bind-Reads Same (λ a. IsSaid h num) (IsSaid h num) (write_bytes (encode h)) _
        (write_bytes-Same (encode h))
        (λ a.
          bind-Reads Front Behind (IsSaid h num) read_byte _ read_byte-Front on_init_code-Behind
            (λ i init j v k p q. rw p q))
        (λ i a j v k p q. rw p q)

  -- A verdict is what the other host has written: 11, to an add-to message only; one code from 1 to
  -- 10; or 64, or to an add-to message 65, and behind it exactly the given number of codes.
  pub exchange_sound :
      (c d : Conn) (v : Verdict)
      → exchange content h num c ≡ ok v d
      → IsSaid h num c.input v d.input
  exchange_sound c d v e = subst (Post (IsSaid h num c.input)) e (exchange-Reads.reads c)
