-- ===== src/Receive/Download/Stored.antt =====
-- A recipient is told that the message is accepted only where it is stored (cmd/fmsgd/host.go).
use fmsgd.Prelude.{
  ◌≡◌, ◌≢◌, ℕ, zero, suc, Bool, true, false, not, ◌&&◌, List, [], ◌∷◌, ◌++◌, Option, none, some,
  arith, Bool-cases, inl, inr, length, length-append, Bytes, ◌==◌, All, All-append,
}
use fmsgd.Prelude.Options.{Gives, none-Gives, some-Gives, if-Gives}
use fmsgd.Wire.{Address, AttachmentHeader, Header}
use fmsgd.Receive.{reject_code_accept, reject_code_user_undisclosed}
use fmsgd.Receive.Limits.{validate_msg_recv_for_addr}
use fmsgd.Receive.Download.{
  Inbox, Progress, refused_with, accepted_by, with_wire, with_attachments, first_accepted, copied,
  on_code, recipient_step, recipient_loop, not_stored, store_accepted_message,
}
use fmsgd.Receive.Download.Codes.{and_then-Gives}

-- No code is 200.
abbrev pub NoneAccepted : List ℕ → Type 0
NoneAccepted codes = All (λ c. c ≢ 200) codes

-- While no path or no recipient is kept, nobody has been accepted.
abbrev IsTold : Progress → Type 0
IsTold p =
    (length p.primary ≡ 0 → NoneAccepted p.codes)
    × (length p.accepted_to ≡ 0 → length p.accepted_add_to ≡ 0 → NoneAccepted p.codes)

one_more : (codes : List ℕ) (c : ℕ) → c ≢ 200 → NoneAccepted codes → NoneAccepted (codes ++ c ∷ [])
one_more codes c ne h = All-append (λ x. x ≢ 200) codes (c ∷ []) h (ne, tt)

module _ (inbox : Inbox) where
  accepted_by-IsTold :
      (from_to : Bool) (a : Address) (p : Progress)
      → length p.primary ≢ 0
      → IsTold (accepted_by inbox from_to a p)
  unfolding accepted_by
  accepted_by-IsTold true a p ne =
      (λ e. absurd (ne e), λ e f. absurd (omega (arith, e, length-append p.accepted_to (a ∷ []))))
  accepted_by-IsTold false a p ne = (
    λ e. absurd (ne e),
    λ e f. absurd (omega (arith, f, length-append p.accepted_add_to (a ∷ []))),
  )

  refused_with-IsTold :
      (code : ℕ) (p : Progress) → code ≢ 200 → IsTold p → IsTold (refused_with inbox code p)
  unfolding refused_with
  refused_with-IsTold code p ne (l, r) =
      (λ e. one_more p.codes code ne (l e), λ e f. one_more p.codes code ne (r e f))

  -- A path that is made for a recipient is not empty.
  module _ (named : (h : Header) (a : Address) → length (inbox.unique_path h a) ≢ 0) where
    with_attachments-IsTold :
        (from_to : Bool) (a : Address) (path : Bytes) (p : Progress)
        (kept : List AttachmentHeader × Bool)
        → length path ≢ 0
        → NoneAccepted p.codes
        → IsTold (with_attachments inbox from_to a path p kept)
    unfolding with_attachments
    with_attachments-IsTold from_to a path p (attachments, true) ne h =
        accepted_by-IsTold from_to a
          (record p { header = record p.header { attachments = attachments }; primary = path }) ne
    with_attachments-IsTold from_to a path p (attachments, false) ne h =
        let r = one_more p.codes reject_code_user_undisclosed (λ e. omega (arith, e)) h in
        (λ e. r, λ e f. r)

    first_accepted-IsTold :
        (from_to : Bool) (a : Address) (path : Bytes) (p : Progress) (h : Option Header)
        → length path ≢ 0
        → NoneAccepted p.codes
        → Gives IsTold (first_accepted inbox from_to a path p h)
    unfolding first_accepted
    first_accepted-IsTold from_to a path p none ne n = none-Gives
    first_accepted-IsTold from_to a path p (some h) ne n = some-Gives (
        with_attachments-IsTold from_to a path (record p { header = h })
          (inbox.persist h.attachments path) ne n)

    copied-IsTold :
        (from_to : Bool) (a : Address) (path : Bytes) (p : Progress)
        → length path ≢ 0
        → IsTold p
        → Gives IsTold (copied inbox from_to a path p)
    unfolding copied
    copied-IsTold from_to a path p ne t =
        if-Gives (not (inbox.copy_payload p.header path))
          (some-Gives
            (refused_with-IsTold reject_code_user_undisclosed p (λ e. omega (arith, e)) t))
          (elim (Bool-cases (length p.primary == 0)) [
            | inl e ↦ rw e (
                first_accepted-IsTold from_to a path p (with_wire inbox path p.header) ne
                  (t.0 (ground arith)))
            | inr e ↦ rw e (some-Gives (accepted_by-IsTold from_to a p (λ z. ground arith)))
          ])

    on_code-IsTold :
        (from_to : Bool) (a : Address) (p : Progress) (code : Option ℕ)
        → IsTold p
        → Gives IsTold (on_code inbox from_to a p code)
    unfolding on_code
    on_code-IsTold from_to a p none t = none-Gives
    on_code-IsTold from_to a p (some code) t = elim (Bool-cases (code == reject_code_accept)) [
      | inl e ↦ rw e (
          if-Gives (not (inbox.make_dir a)) none-Gives
            (copied-IsTold from_to a (inbox.unique_path p.header a) p (named p.header a) t))
      | inr e ↦ rw e (some-Gives (refused_with-IsTold code p (λ z. ground arith) t))
    ]

    recipient_step-IsTold :
        (dup_hash : Bytes) (from_to : Bool) (a : Address) (p : Progress)
        → IsTold p
        → Gives IsTold (recipient_step inbox dup_hash from_to a p)
    unfolding recipient_step
    recipient_step-IsTold dup_hash from_to a p t =
        on_code-IsTold from_to a p
          (validate_msg_recv_for_addr p.header (inbox.received dup_hash a) (inbox.detail a)) t

    recipient_loop-IsTold :
        (dup_hash : Bytes) (num_to : ℕ) (as_ : List Address) (next : Option Progress)
        → Gives IsTold next
        → Gives IsTold (recipient_loop inbox dup_hash num_to as_ next)
    unfolding recipient_loop
    recipient_loop-IsTold dup_hash num_to [] next g = g
    recipient_loop-IsTold dup_hash zero (a ∷ as_) next g =
        recipient_loop-IsTold dup_hash zero as_ _ (
          and_then-Gives inbox (recipient_step inbox dup_hash false a) next g
            (recipient_step-IsTold dup_hash false a))
    recipient_loop-IsTold dup_hash (suc k) (a ∷ as_) next g =
        recipient_loop-IsTold dup_hash k as_ _ (
          and_then-Gives inbox (recipient_step inbox dup_hash true a) next g
            (recipient_step-IsTold dup_hash true a))

  not_stored-NoneAccepted : (cs : List ℕ) → NoneAccepted (not_stored inbox cs)
  unfolding not_stored
  not_stored-NoneAccepted [] = tt
  not_stored-NoneAccepted (c ∷ cs) = (λ e. ground arith, not_stored-NoneAccepted cs)

  store_accepted_message-NoneAccepted :
      (p : Progress) (outcome : List (Bytes × ℕ))
      → IsTold p
      → (store_accepted_message inbox p outcome).1 ≡ false
      → NoneAccepted (store_accepted_message inbox p outcome).0
  unfolding store_accepted_message
  store_accepted_message-NoneAccepted p outcome t =
      elim (Bool-cases (length p.accepted_to == 0 && length p.accepted_add_to == 0)) [
        | inl e ↦ rw e (λ f. t.1 (ground arith) (ground arith))
        | inr e ↦
            elim (Bool-cases
              (inbox.store_msg_detail (record p.header { filepath = p.primary }) outcome)) [
                | inl k ↦ rw (e, k) (λ f. cc)
                | inr k ↦ rw (e, k) (λ f. not_stored-NoneAccepted p.codes)
              ]
      ]

  -- Where the paths made for recipients are not empty, a message whose codes hold a 200 has been
  -- stored: when the recipients of a download have been handled and the message was not stored, none
  -- of the codes that are sent is 200.
  pub recipient_loop-NoneAccepted :
      ((h : Header) (a : Address) → length (inbox.unique_path h a) ≢ 0)
      → (dup_hash : Bytes) (num_to : ℕ) (addrs : List Address) (h : Header) (p : Progress)
        (outcome : List (Bytes × ℕ))
      → recipient_loop inbox dup_hash num_to addrs (
          some (record {
            header = h;
            codes = [];
            accepted_to = [];
            accepted_add_to = [];
            primary = [];
          }))
        ≡ some p
      → (store_accepted_message inbox p outcome).1 ≡ false
      → NoneAccepted (store_accepted_message inbox p outcome).0
  recipient_loop-NoneAccepted named dup_hash num_to addrs h p outcome ran =
      store_accepted_message-NoneAccepted p outcome (
        (recipient_loop-IsTold named dup_hash num_to addrs _
            (some-Gives (λ e. tt, λ e f. tt))).given
          p ran)
